-- ===== src/Args/Decode/Range.antt =====
-- Decoding bytes gives bytes.
use hertz_study.Base.{
  ℕ, ◌*◌, ◌≤◌, ◌<◌, ◌≡◌, bit_or, Bool, true, false, [], ◌∷◌, ◌++◌, Bytes, All, All-append, ◌==◌,
  arith, bit_or_fields, Bool-cases, inl, inr,
}
use hertz_study.Bytesconv.Decimal.Parse.{IsByte}
use hertz_study.Bytesconv.Lookup.{hex2int, hex2int_lem}
use hertz_study.Args.Decode.{plain, decode_slow, decode_arg}
use hertz_study.Args.Decode.Laws.{decode_arg_fast_path}

hex2int-le : (c : ℕ) → c < 256 → hex2int c ≤ 16
hex2int-le c h = ground (arith, hex2int_lem c h)

-- The byte of an escape whose two digits are good.
escape_byte :
    (a b : ℕ)
    → a < 256
    → b < 256
    → (hex2int a == 16) ≡ false
    → (hex2int b == 16) ≡ false
    → bit_or (hex2int a * 16) (hex2int b) < 256
escape_byte a b ha hb ga gb =
    let high : hex2int a < 16 = ground (arith, hex2int-le a ha) in
    let low : hex2int b < 16 = ground (arith, hex2int-le b hb) in
    rw (bit_or_fields 4 (hex2int a) (hex2int b) low) (omega arith)

put : (dst : Bytes) (c : ℕ) → All IsByte dst → c < 256 → All IsByte (dst ++ c ∷ [])
put dst c h hc = All-append IsByte dst (c ∷ []) h (hc, tt)

plain-lt : (plus : Bool) (c : ℕ) → c < 256 → plain plus c < 256
plain-lt plus c h = ground arith

decode_slow-IsByte :
    (plus : Bool) (dst src : Bytes)
    → All IsByte dst
    → All IsByte src
    → All IsByte (decode_slow plus dst src)
unfolding decode_slow
decode_slow-IsByte plus dst [] hd _ = hd
decode_slow-IsByte plus dst (c ∷ []) hd (hc, _) = elim (Bool-cases (c == b'%')) [
  | inl e ↦ rw e (put dst c hd hc)
  | inr e ↦ rw e (put dst (plain plus c) hd (plain-lt plus c hc))
]
decode_slow-IsByte plus dst (c ∷ a ∷ []) hd (hc, (ha, _)) =
    let copied = put dst (plain plus c) hd (plain-lt plus c hc) in
    let rest = decode_slow-IsByte plus _ (a ∷ []) copied (ha, tt) in
    elim (Bool-cases (c == b'%')) [
      | inl e ↦ rw e (All-append IsByte dst (c ∷ a ∷ []) hd (hc, (ha, tt)))
      | inr e ↦ rw e rest
    ]
decode_slow-IsByte plus dst (c ∷ a ∷ b ∷ src) hd (hc, (ha, (hb, hs))) =
    let marked = put dst b'%' hd (omega arith) in
    let literal = decode_slow-IsByte plus (dst ++ b'%' ∷ []) (a ∷ b ∷ src) marked (ha, (hb, hs)) in
    let copied = put dst (plain plus c) hd (plain-lt plus c hc) in
    let next =
      decode_slow-IsByte plus (dst ++ plain plus c ∷ []) (a ∷ b ∷ src) copied (ha, (hb, hs)) in
    let after : bit_or (hex2int a * 16) (hex2int b) < 256
        → All IsByte (decode_slow plus (dst ++ bit_or (hex2int a * 16) (hex2int b) ∷ []) src) =
      λ lt.
        decode_slow-IsByte plus (dst ++ bit_or (hex2int a * 16) (hex2int b) ∷ []) src
          (put dst _ hd lt) hs in
    elim (Bool-cases (c == b'%')) [
      | inr e ↦ rw e next
      | inl e ↦ elim (Bool-cases (hex2int a == 16)) [
        | inl bad ↦ rw (e, bad) literal
        | inr good ↦ elim (Bool-cases (hex2int b == 16)) [
          | inl bad' ↦ rw (e, good, bad') literal
          | inr good' ↦ rw (e, good, good') (after (escape_byte a b ha hb good good'))
        ]
      ]
    ]

pub decode_arg-IsByte :
    (dst src : Bytes) → All IsByte dst → All IsByte src → All IsByte (decode_arg dst src)
decode_arg-IsByte dst src hd hs = rw decode_arg_fast_path (decode_slow-IsByte true dst src hd hs)
