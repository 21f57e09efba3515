-- ===== src/Record/Level.antt =====
-- Log levels (core/src/record/mod.rs).
pub mod Laws
mod Tests
use Prim.Native.String.{String}
use text.Mathlib.Text.{◌==◌ as str_eq}
use do_logger.Prelude.{ℕ, Option, none, some, ◌==◌, if◌then◌else◌}

pub data LogLevel : Type 0 where
  trace debug info warn error fatal audit : LogLevel

-- The `u8` of the representation, by which the derived order compares.
unfoldable pub as_u8 : LogLevel → ℕ
as_u8 trace = 0
as_u8 debug = 1
as_u8 info = 2
as_u8 warn = 3
as_u8 error = 4
as_u8 fatal = 5
as_u8 audit = 6

unfoldable pub from_u8 : ℕ → Option LogLevel
from_u8 v =
    if v == 0
    then some trace
    else if v == 1
    then some debug
    else if v == 2
    then some info
    else if v == 3
    then some warn
    else if v == 4
    then some error
    else if v == 5
    then some fatal
    else if v == 6
    then some audit
    else none

unfoldable pub to_str : LogLevel → String
to_str trace = "TRACE"
to_str debug = "DEBUG"
to_str info = "INFO"
to_str warn = "WARN"
to_str error = "ERROR"
to_str fatal = "FATAL"
to_str audit = "AUDIT"

unfoldable pub from_str : String → Option LogLevel
from_str value =
    if str_eq value "TRACE"
    then some trace
    else if str_eq value "DEBUG"
    then some debug
    else if str_eq value "INFO"
    then some info
    else if str_eq value "WARN"
    then some warn
    else if str_eq value "ERROR"
    then some error
    else if str_eq value "FATAL"
    then some fatal
    else if str_eq value "AUDIT"
    then some audit
    else none
