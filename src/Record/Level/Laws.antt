-- ===== src/Record/Level/Laws.antt =====
-- Round trips of the log levels through bytes and names.
use Prim.Native.String.{String}
use text.Mathlib.TextEquality.{eq_iff}
use do_logger.Prelude.{ℕ, ◌≡◌, refl, ◌↔◌, some, arith}
use do_logger.Record.Level.{LogLevel, as_u8, from_str, from_u8, to_str, trace}

pub from_u8-as_u8 : (l : LogLevel) → from_u8 (as_u8 l) ≡ some l
unfolding from_u8 as_u8
from_u8-as_u8 trace = refl
from_u8-as_u8 l = refl

byte_exact : (v : ℕ) (l : LogLevel) → from_u8 v ≡ some l → v ≡ as_u8 l
unfolding from_u8 as_u8
byte_exact v trace h = ground arith
byte_exact v l h = ground arith

name_exact : (s : String) (l : LogLevel) → from_str s ≡ some l → s ≡ to_str l
unfolding from_str to_str
name_exact s l h = ground (
  arith,
  eq_iff s "TRACE",
  eq_iff s "DEBUG",
  eq_iff s "INFO",
  eq_iff s "WARN",
  eq_iff s "ERROR",
  eq_iff s "FATAL",
  eq_iff s "AUDIT",
)

from_str-to_str : (l : LogLevel) → from_str (to_str l) ≡ some l
unfolding from_str to_str
from_str-to_str trace = refl
from_str-to_str l = refl

-- A byte parses to a level exactly if it is that level's byte, and a name exactly if it is that
-- level's canonical name.
pub parse_exact :
    (l : LogLevel) (v : ℕ) (s : String)
    → ((from_u8 v ≡ some l) ↔ (v ≡ as_u8 l)) × ((from_str s ≡ some l) ↔ (s ≡ to_str l))
parse_exact l v s =
    ((byte_exact v l, λ e. rw e (from_u8-as_u8 l)), (name_exact s l, λ e. rw e (from_str-to_str l)))
