-- ===== src/Args/Decode.antt =====
-- `decodeArgAppend` and `decodeArgAppendNoPlus` of pkg/protocol/args.go. They differ in what a plus
-- sign is read as, which the argument `plus` tells.
pub mod Laws
pub mod Range
use hertz_study.Base.{
  ℕ, ◌*◌, ◌^◌, bit_or, Bool, true, false, not, ◌&&◌, ◌||◌, [], ◌∷◌, ◌++◌, Bytes, ◌==◌,
  if◌then◌else◌,
}
use hertz_study.Bytesconv.Lookup.{hex2int}

-- `bytes.IndexByte(src, c) >= 0`
unfoldable pub has_byte : ℕ → Bytes → Bool
has_byte c [] = false
has_byte c (x ∷ src) = x == c || has_byte c src

-- What is appended for a byte that starts no escape.
abbrev pub plain : Bool → ℕ → ℕ
plain plus c = if plus && c == b'+' then b' ' else c

-- The slow path, on the bytes from index `i` on. At a percent sign with fewer than two bytes behind
-- it the rest is copied.
unfoldable pub decode_slow : Bool → Bytes → Bytes → Bytes
decode_slow plus dst [] = dst
decode_slow plus dst (c ∷ []) = if c == b'%' then dst ++ c ∷ [] else dst ++ plain plus c ∷ []
decode_slow plus dst (c ∷ a ∷ []) =
    let next = decode_slow plus (dst ++ plain plus c ∷ []) (a ∷ []) in
    if c == b'%' then dst ++ c ∷ a ∷ [] else next
decode_slow plus dst (c ∷ a ∷ b ∷ src) =
    let x2 = hex2int b in
    let x1 = hex2int a in
    let literal = decode_slow plus (dst ++ b'%' ∷ []) (a ∷ b ∷ src) in
    let escape = decode_slow plus (dst ++ bit_or (x1 * 2 ^ 4) x2 ∷ []) src in
    let next = decode_slow plus (dst ++ plain plus c ∷ []) (a ∷ b ∷ src) in
    if c == b'%' then if x1 == 16 || x2 == 16 then literal else escape else next

unfoldable pub decode_arg : Bytes → Bytes → Bytes
decode_arg dst src =
    if not (has_byte b'%' src) && not (has_byte b'+' src)
    then dst ++ src
    else decode_slow true dst src

unfoldable pub decode_arg_no_plus : Bytes → Bytes → Bytes
decode_arg_no_plus dst src =
    if not (has_byte b'%' src) then dst ++ src else decode_slow false dst src
