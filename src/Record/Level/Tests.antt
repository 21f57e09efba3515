-- ===== src/Record/Level/Tests.antt =====
-- A witness for the log levels.
use do_logger.Prelude.{◌≡◌, ◌↔◌, some}
use do_logger.Record.Level.{as_u8, from_str, from_u8, to_str, warn}
use do_logger.Record.Level.Laws.{parse_exact}

parse_warn :
    ((from_u8 3 ≡ some warn) ↔ (3 ≡ as_u8 warn))
    × ((from_str "warn" ≡ some warn) ↔ ("warn" ≡ to_str warn))
parse_warn = parse_exact warn 3 "warn"
