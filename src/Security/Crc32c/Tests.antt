-- ===== src/Security/Crc32c/Tests.antt =====
-- Runs and witnesses for the checksum.
use do_logger.Security.Crc32c.{bytes_loop, complement, crc32c_software}
use do_logger.Security.Crc32c.Chunks.{software-bytes}
use do_logger.Prelude.{ℕ, ◌≡◌, refl, false, List, [], ◌∷◌, arith, ◌==◌}

-- The digits from 1 to 9.
abbrev digits : List ℕ
digits = 49 ∷ 50 ∷ 51 ∷ 52 ∷ 53 ∷ 54 ∷ 55 ∷ 56 ∷ 57 ∷ []

-- The check value of CRC32C for these digits is 0xE3069283, and the software routine has another.
digits_checksum : (crc32c_software 0 digits == 0xE3069283) ≡ false
unfolding crc32c_software
digits_checksum = refl

software-bytes_example : crc32c_software 0 digits ≡ complement (bytes_loop (complement 0) digits)
software-bytes_example = software-bytes 0 digits (omega arith)
