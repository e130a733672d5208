-- ===== src/Bytesconv/Errors.antt =====
-- The error values of internal/bytesconv/errors.go.
use hertz_study.Base.{ℕ}

-- `reader_error` carries an error of the underlying connection through; it is known by a number.
pub data Error : Type 0 where
  empty_int unexpected_first_char unexpected_trailing_char too_long_int : Error
  empty_hex_num too_large_hex_num : Error
  reader_error : ℕ → Error
