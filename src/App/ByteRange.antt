-- ===== src/App/ByteRange.antt =====
-- `ParseByteRange` of pkg/app/fs.go, which reads the header `Range` for a file. The length of the
-- file is a number: the caller has the size of a file.
pub mod Forms
pub mod Laws
mod Tests
use hertz_study.Base.{
  ℕ, zero, suc, ◌+◌, ◌-◌, Bool, true, false, [], ◌∷◌, Option, none, some, Bytes, length, drop, leb,
  ltb, ◌==◌, if◌then◌else◌,
}
use hertz_study.Base.Int.{ℤ, pos, negsuc}
use hertz_study.Bytesconv.Errors.{Error}
use hertz_study.Bytesconv.Decimal.{parse_uint}
use hertz_study.Route.Text.{starts_with}

-- `bad_number` passes an error of `ParseUint` on.
pub data RangeError : Type 0 where
  unsupported_units missing_range missing_end : RangeError
  start_beyond_content start_beyond_end : RangeError
  bad_number : Error → RangeError

-- `startPos` and `endPos`, or the error.
pub data Ranged : Type 0 where
  ranged : ℤ → ℤ → Ranged
  failed : RangeError → Ranged

abbrev pub units : Bytes
units = b'b' ∷ b'y' ∷ b't' ∷ b'e' ∷ b's' ∷ []

abbrev pub cons_cut : ℕ → Option (Bytes × Bytes) → Option (Bytes × Bytes)
cons_cut c none = none
cons_cut c (some (before, after)) = some (c ∷ before, after)

-- `b[:n]` and `b[n+1:]` at the first `-`.
unfoldable pub cut : Bytes → Option (Bytes × Bytes)
cut [] = none
cut (c ∷ b) = let rest = cut b in if c == b'-' then some ([], b) else cons_cut c rest

-- `contentLength - 1`.
abbrev pub last_pos : ℕ → ℤ
last_pos zero = negsuc 0
last_pos (suc n) = pos n

abbrev pub at_least : ℤ → ℕ → Bool
at_least (pos v) n = leb n v
at_least (negsuc v) n = false

abbrev pub below : ℤ → ℤ → Bool
below (pos v) (pos w) = ltb v w
below (pos v) (negsuc w) = false
below (negsuc v) (pos w) = true
below (negsuc v) (negsuc w) = ltb w v

-- The last `v` bytes. The difference on numbers stops at 0, as `startPos` does.
unfoldable pub suffix : ℤ × Option Error → ℕ → Ranged
suffix (v, some err) n = failed (bad_number err)
suffix (pos v, none) n = ranged (pos (n - v)) (last_pos n)
suffix (negsuc v, none) n = ranged (pos (n + suc v)) (last_pos n)

unfoldable pub up_to : ℤ → ℤ × Option Error → ℕ → Ranged
up_to start (v, some err) n = failed (bad_number err)
up_to start (v, none) n =
    let end_pos = if at_least v n then last_pos n else v in
    if below end_pos start then failed start_beyond_end else ranged start end_pos

unfoldable pub from_start : ℤ × Option Error → Bytes → ℕ → Ranged
from_start (v, some err) b n = failed (bad_number err)
from_start (start, none) [] n =
    if at_least start n then failed start_beyond_content else ranged start (last_pos n)
from_start (start, none) (c ∷ b) n =
    if at_least start n then failed start_beyond_content else up_to start (parse_uint (c ∷ b)) n

unfoldable pub around_dash : Option (Bytes × Bytes) → ℕ → Ranged
around_dash none n = failed missing_end
around_dash (some ([], b)) n = suffix (parse_uint b) n
around_dash (some (c ∷ first, b)) n = from_start (parse_uint (c ∷ first)) b n

unfoldable pub after_units : Bytes → ℕ → Ranged
after_units [] n = failed missing_range
after_units (c ∷ b) n = if c == b'=' then around_dash (cut b) n else failed missing_range

unfoldable pub parse_byte_range : Bytes → ℕ → Ranged
parse_byte_range b n =
    if starts_with units b then after_units (drop (length units) b) n else failed unsupported_units
