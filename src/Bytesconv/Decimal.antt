-- ===== src/Bytesconv/Decimal.antt =====
-- `AppendUint`, `ParseUintBuf` and `ParseUint` of internal/bytesconv/bytesconv.go. An `int` has
-- 64 bits: `append_uint` takes any integer, and the parser's sum is reduced by `% 2 ^ 64`.
pub mod Parse
pub mod RoundTrip
use hertz_study.Base.{
  ℕ, zero, suc, ◌+◌, ◌-◌, ◌*◌, ◌/◌, ◌%◌, ◌^◌, Bool, true, false, not, ◌||◌, List, [], ◌∷◌, ◌++◌,
  Option, none, some, Bytes, length, leb, ltb, ◌==◌, if◌then◌else◌, ◌>>=◌,
}
use hertz_study.Base.Int.{ℤ, pos, negsuc}
use hertz_study.Bytesconv.Errors.{
  Error, empty_int, unexpected_first_char, unexpected_trailing_char, too_long_int,
}

-- The `for n >= 10` loop with `i` slots of the buffer left, and the write after it. `out` is
-- `buf[i:]`; a write below index 0 panics.
unfoldable pub write_digits : ℕ → ℕ → Bytes → Option Bytes
write_digits zero n out = none
write_digits (suc i) n out =
    let q = n / 10 in
    let rest = write_digits i q ((b'0' + (n - q * 10) % 256) % 256 ∷ out) in
    if leb 10 n then rest else some ((b'0' + n % 256) % 256 ∷ out)

-- `none` is the panic on a negative number.
unfoldable pub append_uint : Bytes → ℤ → Option Bytes
unfolding write_digits
append_uint dst (pos n) = do digits ← write_digits 20 n []; some (dst ++ digits)
append_uint dst (negsuc n) = none

abbrev pub Parsed : Type 0
Parsed = ℤ × ℕ × Option Error

-- The loop of `ParseUintBuf` at index `i`, on the bytes that are left. `vNew < v` holds when the
-- sum, as a signed number, is negative or below `v`.
unfoldable pub parse_digits : Bytes → ℕ → ℕ → Parsed
parse_digits [] i v = (pos v, i, none)
parse_digits (c ∷ cs) i v =
    let k = (c + 256 - b'0') % 256 in
    let v' = (10 * v + k) % 2 ^ 64 in
    let next = parse_digits cs (i + 1) v' in
    if ltb 9 k
    then if i == 0 then (negsuc 0, i, some unexpected_first_char) else (pos v, i, none)
    else if leb (2 ^ 63) v' || ltb v' v
    then (negsuc 0, i, some too_long_int)
    else next

unfoldable pub parse_uint_buf : Bytes → Parsed
unfolding parse_digits
parse_uint_buf b = if length b == 0 then (negsuc 0, 0, some empty_int) else parse_digits b 0 0

unfoldable pub parse_uint : Bytes → ℤ × Option Error
unfolding parse_uint_buf
parse_uint buf =
    let (v, n, err) = parse_uint_buf buf in
    if not (n == length buf) then (negsuc 0, some unexpected_trailing_char) else (v, err)
