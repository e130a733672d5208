-- ===== src/Args/Decode/Laws.antt =====
-- Decoding undoes quoting, and the fast paths of the decoders are shortcuts only.
use hertz_study.Base.{
  ℕ, ◌+◌, ◌*◌, ◌/◌, ◌%◌, ◌<◌, ◌≡◌, ◌≢◌, refl, sym, ◌∙◌, ap, bit_and, Bool, true, false, ◌&&◌, [],
  ◌∷◌, ◌++◌, append_assoc, append-nil, Bytes, ◌==◌, arith, All, all_below, all_below_sound, ==_iff,
  bit_or_fields, bytes_equal, bytes_equal_iff, bit_and_fifteen, Bool-cases, inl, inr, get_or,
}
use hertz_study.Bytesconv.Lookup.{
  hex2int, arg_should_escape, arg_should_escape_lem, path_should_escape, path_should_escape_lem,
}
use hertz_study.Bytesconv.Quote.{
  percent, quoted_arg_byte, append_quoted_arg, quoted_path_byte, quote_path_loop,
  append_quoted_path,
}
use hertz_study.Bytesconv.Hex.{upperhex}
use hertz_study.Bytesconv.Decimal.Parse.{IsByte}
use hertz_study.Args.Decode.{has_byte, plain, decode_slow, decode_arg, decode_arg_no_plus}

-- A byte that the slow path copies.
abbrev Copied : Bool → ℕ → Type 0
Copied plus c = (c ≢ b'%') × (plain plus c ≡ c)

decode_slow-copied :
    (plus : Bool) (dst : Bytes) (c : ℕ) (src : Bytes)
    → c ≢ b'%'
    → decode_slow plus dst (c ∷ src) ≡ decode_slow plus (dst ++ plain plus c ∷ []) src
unfolding decode_slow
decode_slow-copied plus dst c [] h = ground arith
decode_slow-copied plus dst c (a ∷ []) h = ground arith
decode_slow-copied plus dst c (a ∷ b ∷ src) h = ground arith

digit_check : all_below 16 (λ x. hex2int (get_or upperhex x 0) == x) ≡ true
unfolding all_below hex2int upperhex
digit_check = refl

-- The digit that the quoters write for `x` is read as `x`.
pub hex2int-upperhex : (x : ℕ) → x < 16 → hex2int (get_or upperhex x 0) ≡ x
hex2int-upperhex x h = (==_iff _ _).0 (all_below_sound 16 _ x digit_check h)

decode_slow-escape :
    (plus : Bool) (dst : Bytes) (a b x1 x2 : ℕ) (src : Bytes)
    → hex2int a ≡ x1
    → hex2int b ≡ x2
    → x1 < 16
    → x2 < 16
    → decode_slow plus dst (b'%' ∷ a ∷ b ∷ src) ≡ decode_slow plus (dst ++ (x1 * 16 + x2) ∷ []) src
unfolding decode_slow
decode_slow-escape plus dst a b x1 x2 src e1 e2 h1 h2 =
    rw (e1, e2, bit_or_fields 4 x1 x2 h2) (ground arith)

decode_slow-percent :
    (plus : Bool) (dst : Bytes) (c : ℕ) (src : Bytes)
    → c < 256
    → decode_slow plus dst (percent c ++ src) ≡ decode_slow plus (dst ++ c ∷ []) src
unfolding percent
decode_slow-percent plus dst c src h =
    let low : hex2int (get_or upperhex (bit_and c 15) 0) ≡ c % 16 =
      ap (λ (x : ℕ). hex2int (get_or upperhex x 0)) (bit_and_fifteen c)
      ∙ hex2int-upperhex (c % 16) (omega arith) in
    decode_slow-escape plus dst _ _ (c / 16) (c % 16) src (hex2int-upperhex (c / 16) (omega arith))
      low (omega arith) (omega arith)
    ∙ ap (λ (x : ℕ). decode_slow plus (dst ++ x ∷ []) src) (omega arith)

-- A byte that quoting leaves alone is neither a percent sign nor a plus sign.
arg_kept : (c : ℕ) → c < 256 → (arg_should_escape c == 0) ≡ true → (c ≢ b'%') × (c ≢ b'+')
arg_kept c h kept = ground (arith, arg_should_escape_lem c h)

path_kept : (c : ℕ) → c < 256 → (path_should_escape c == 0) ≡ true → c ≢ b'%'
path_kept c h kept = ground (arith, path_should_escape_lem c h)

decode_slow-quoted_arg_byte :
    (dst : Bytes) (c : ℕ) (src : Bytes)
    → c < 256
    → decode_slow true dst (quoted_arg_byte c ++ src) ≡ decode_slow true (dst ++ c ∷ []) src
unfolding quoted_arg_byte
decode_slow-quoted_arg_byte dst c src h = elim (Bool-cases (c == b' ')) [
  | inl space ↦ rw space (
      decode_slow-copied true dst b'+' src (omega arith)
      ∙ ap (λ (x : ℕ). decode_slow true (dst ++ x ∷ []) src) (ground arith))
  | inr other ↦ elim (Bool-cases (arg_should_escape c == 0)) [
    | inl kept ↦
        let (no_percent, no_plus) = arg_kept c h kept in
        rw (other, kept)
          (decode_slow-copied true dst c src no_percent
            ∙ ap (λ (x : ℕ). decode_slow true (dst ++ x ∷ []) src) (ground arith))
    | inr escaped ↦ rw (other, escaped) (decode_slow-percent true dst c src h)
  ]
]

decode_slow-quoted_path_byte :
    (dst : Bytes) (c : ℕ) (src : Bytes)
    → c < 256
    → decode_slow false dst (quoted_path_byte c ++ src) ≡ decode_slow false (dst ++ c ∷ []) src
unfolding quoted_path_byte
decode_slow-quoted_path_byte dst c src h = elim (Bool-cases (path_should_escape c == 0)) [
  | inl kept ↦ rw kept (decode_slow-copied false dst c src (path_kept c h kept))
  | inr escaped ↦ rw escaped (decode_slow-percent false dst c src h)
]

-- What the loops of the quoters write for a text, without `dst`.
abbrev pub quoted_arg : Bytes → Bytes
quoted_arg [] = []
quoted_arg (c ∷ src) = quoted_arg_byte c ++ quoted_arg src

abbrev pub quoted_path : Bytes → Bytes
quoted_path [] = []
quoted_path (c ∷ src) = quoted_path_byte c ++ quoted_path src

pub append_quoted_arg-quoted_arg :
    (dst src : Bytes) → append_quoted_arg dst src ≡ dst ++ quoted_arg src
unfolding append_quoted_arg
append_quoted_arg-quoted_arg dst [] = sym (append-nil dst)
append_quoted_arg-quoted_arg dst (c ∷ src) =
    append_quoted_arg-quoted_arg (dst ++ quoted_arg_byte c) src ∙ append_assoc dst _ _

quote_path_loop-quoted_path : (dst src : Bytes) → quote_path_loop dst src ≡ dst ++ quoted_path src
unfolding quote_path_loop
quote_path_loop-quoted_path dst [] = sym (append-nil dst)
quote_path_loop-quoted_path dst (c ∷ src) =
    quote_path_loop-quoted_path (dst ++ quoted_path_byte c) src ∙ append_assoc dst _ _

decode_slow-quoted_arg :
    (dst src : Bytes) → All IsByte src → decode_slow true dst (quoted_arg src) ≡ dst ++ src
unfolding decode_slow
decode_slow-quoted_arg dst [] _ = sym (append-nil dst)
decode_slow-quoted_arg dst (c ∷ src) (h, hs) =
    decode_slow-quoted_arg_byte dst c (quoted_arg src) h
    ∙ decode_slow-quoted_arg (dst ++ c ∷ []) src hs
    ∙ append_assoc dst (c ∷ []) src

decode_slow-quoted_path :
    (dst src : Bytes) → All IsByte src → decode_slow false dst (quoted_path src) ≡ dst ++ src
unfolding decode_slow
decode_slow-quoted_path dst [] _ = sym (append-nil dst)
decode_slow-quoted_path dst (c ∷ src) (h, hs) =
    decode_slow-quoted_path_byte dst c (quoted_path src) h
    ∙ decode_slow-quoted_path (dst ++ c ∷ []) src hs
    ∙ append_assoc dst (c ∷ []) src

-- Without percent and plus signs the slow path copies, too.
decode_slow-absent :
    (plus : Bool) (dst src : Bytes)
    → has_byte b'%' src ≡ false
    → (plus && has_byte b'+' src) ≡ false
    → decode_slow plus dst src ≡ dst ++ src
unfolding has_byte
decode_slow-absent plus dst [] no_percent no_plus = unfold decode_slow in sym (append-nil dst)
decode_slow-absent plus dst (c ∷ src) no_percent no_plus =
    decode_slow-copied plus dst c src (ground arith)
    ∙ decode_slow-absent plus (dst ++ plain plus c ∷ []) src (ground arith) (ground arith)
    ∙ append_assoc dst (plain plus c ∷ []) src
    ∙ ap (λ (x : ℕ). dst ++ x ∷ src) (ground arith)

-- The test in front of `decodeArgAppend` changes nothing but the time that it takes.
pub decode_arg_fast_path : (dst src : Bytes) → decode_arg dst src ≡ decode_slow true dst src
unfolding decode_arg
decode_arg_fast_path dst src = ground (arith, decode_slow-absent true dst src)

pub decode_arg_no_plus_fast_path :
    (dst src : Bytes) → decode_arg_no_plus dst src ≡ decode_slow false dst src
unfolding decode_arg_no_plus
decode_arg_no_plus_fast_path dst src = ground (arith, decode_slow-absent false dst src)

-- A quoted argument is decoded to itself, whatever bytes it holds.
pub decode_arg-append_quoted_arg :
    (src dst : Bytes) → All IsByte src → decode_arg dst (append_quoted_arg [] src) ≡ dst ++ src
decode_arg-append_quoted_arg src dst h =
    decode_arg_fast_path dst _
    ∙ ap (decode_slow true dst) (append_quoted_arg-quoted_arg [] src)
    ∙ decode_slow-quoted_arg dst src h

star_decoded : (dst : Bytes) → decode_arg_no_plus dst (b'*' ∷ []) ≡ dst ++ b'*' ∷ []
unfolding decode_arg_no_plus has_byte
star_decoded dst = refl

-- A quoted path is decoded to itself by the decoder that leaves plus signs alone.
pub decode_arg_no_plus-append_quoted_path :
    (src dst : Bytes)
    → All IsByte src
    → decode_arg_no_plus dst (append_quoted_path [] src) ≡ dst ++ src
unfolding append_quoted_path
decode_arg_no_plus-append_quoted_path src dst h = elim (Bool-cases (bytes_equal src (b'*' ∷ []))) [
  | inl star ↦
      rw star
        (star_decoded dst ∙ ap (λ (t : Bytes). dst ++ t) (sym ((bytes_equal_iff src _).0 star)))
  | inr other ↦ rw other (
      decode_arg_no_plus_fast_path dst _
      ∙ ap (decode_slow false dst) (quote_path_loop-quoted_path [] src)
      ∙ decode_slow-quoted_path dst src h)
]
