-- ===== src/Bytesconv/Hex.antt =====
-- `WriteHexInt` and `ReadHexInt` of internal/bytesconv/bytesconv.go, with the limit of
-- internal/bytesconv/bytesconv_64.go.
pub mod RoundTrip
use hertz_study.Base.{
  ℕ, zero, suc, ◌+◌, ◌*◌, ◌/◌, ◌%◌, ◌^◌, bit_and, bit_or, [], ◌∷◌, ◌++◌, Option, none, some, Bytes,
  get_or, leb, ltb, ◌==◌, if◌then◌else◌, ◌>>=◌, codes,
}
use hertz_study.Base.Int.{ℤ, pos, negsuc}
use hertz_study.Bytesconv.Errors.{Error, empty_hex_num, too_large_hex_num, reader_error}
use hertz_study.Bytesconv.Lookup.{hex2int}

abbrev pub max_hex_int_chars : ℕ
max_hex_int_chars = 15

unfoldable pub lowerhex : Bytes
lowerhex = codes "0123456789abcdef"

unfoldable pub upperhex : Bytes
upperhex = codes "0123456789ABCDEF"

-- What the writer of the connection does: `malloc_error` is the answer of the next `Malloc`, which
-- gives a buffer at the end of `out` if there is none.
pub record Writer : Type 0 where
  pub out : Bytes
  pub malloc_error : Option ℕ

-- The loop, with `slots` places of the buffer left; `out` is `buf[i + 1:]`. The buffer comes from
-- a pool, and its old content is never read. A write below index 0 panics.
unfoldable pub write_hex_digits : ℕ → ℕ → Bytes → Option Bytes
unfolding lowerhex
write_hex_digits zero n out = none
write_hex_digits (suc slots) n out =
    let out' = get_or lowerhex (bit_and n 0xf) 0 ∷ out in
    let n' = n / 16 in
    let rest = write_hex_digits slots n' out' in if n' == 0 then some out' else rest

abbrev pub give : Writer → Bytes → Writer × Option Error
give w digits = elim w.malloc_error [
  | none ↦ (record w { out = w.out ++ digits }, none)
  | some e ↦ (w, some (reader_error e))
]

-- `none` is the panic on a negative number.
unfoldable pub write_hex_int : Writer → ℤ → Option (Writer × Option Error)
write_hex_int w (negsuc n) = none
write_hex_int w (pos n) = do
  digits ← write_hex_digits (max_hex_int_chars + 1) n []
  some (give w digits)

-- The bytes that a reader has left, and the error of `Peek` behind them.
pub record Reader : Type 0 where
  pub unread : Bytes
  pub end_error : ℕ

abbrev pub HexRead : Type 0
HexRead = ℤ × Option Error × Bytes

-- The loop of `ReadHexInt` after `i` digits of value `n`; it returns what is left unread too.
-- `n << 4` stays below 2 ^ 63 up to the 15th digit.
unfoldable pub read_hex : ℕ → Bytes → ℕ → ℕ → HexRead
read_hex end_error [] n i =
    if ltb 0 i then (pos n, none, []) else (negsuc 0, some (reader_error end_error), [])
read_hex end_error (c ∷ cs) n i =
    let k = hex2int c in
    let next = read_hex end_error cs (bit_or (n * 2 ^ 4 % 2 ^ 64) k) (i + 1) in
    if k == 16
    then if i == 0 then (negsuc 0, some empty_hex_num, cs) else (pos n, none, c ∷ cs)
    else if leb max_hex_int_chars i
    then (negsuc 0, some too_large_hex_num, cs)
    else next

unfoldable pub read_hex_int : Reader → ℤ × Option Error × Reader
read_hex_int r =
    let (n, err, left) = read_hex r.end_error r.unread 0 0 in (n, err, record r { unread = left })
