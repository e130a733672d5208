-- ===== src/WebSocket/Mask/Laws.antt =====
-- Masking by words is masking by bytes; masking twice gives the text back; a text may be masked in
-- pieces.
use hertz_study.Base.{
  ℕ, zero, suc, ◌+◌, ◌-◌, ◌*◌, ◌/◌, ◌%◌, ◌≤◌, ◌<◌, ◌≡◌, refl, sym, ap, ap₂, ◌∙◌, bit_and, bit_xor,
  [], ◌∷◌, ◌++◌, Bytes, All, All-take, All-drop, get_or, length, length-append, take, drop,
  take-append-drop, length-take, length-drop, ltb, ◌==◌, if◌then◌else◌, arith, bit_and_three,
  bit_xor_fields, xor_cancel, xor_byte, Bool-cases, inl, inr,
}
use hertz_study.Bytesconv.Decimal.Parse.{IsByte}
use hertz_study.WebSocket.Mask.{
  key_at, mask_loop, mask_bytes_safe, word_of, bytes_of, key_word, mask_words, mask_large,
  mask_bytes,
}

-- The masked text alone.
abbrev pub masked : Bytes → ℕ → Bytes → Bytes
masked key pos [] = []
masked key pos (c ∷ b) = bit_xor c (key_at key pos) ∷ masked key (pos + 1) b

mask_loop-masked :
    (key : Bytes) (pos : ℕ) (b : Bytes) → mask_loop key pos b ≡ (masked key pos b, pos + length b)
unfolding mask_loop
mask_loop-masked key pos [] = ap (λ (p : ℕ). ([], p)) (omega arith)
mask_loop-masked key pos (c ∷ b) =
    rw (mask_loop-masked key (pos + 1) b)
      (ap (λ (p : ℕ). (masked key pos (c ∷ b), p)) (omega arith))

masked-append :
    (key : Bytes) (pos : ℕ) (a b : Bytes)
    → masked key pos (a ++ b) ≡ masked key pos a ++ masked key (pos + length a) b
masked-append key pos [] b = ap (λ (p : ℕ). masked key p b) (omega arith)
masked-append key pos (c ∷ a) b = ap (◌∷◌ (bit_xor c (key_at key pos))) (
    masked-append key (pos + 1) a b
    ∙ ap (λ (p : ℕ). masked key (pos + 1) a ++ masked key p b) (omega arith))

-- Only the position modulo 4 counts.
key_at-mod : (key : Bytes) (p q : ℕ) → p % 4 ≡ q % 4 → key_at key p ≡ key_at key q
unfolding key_at
key_at-mod key p q h = ap (λ (i : ℕ). get_or key i 0) (bit_and_three p ∙ h ∙ sym (bit_and_three q))

masked-mod : (key : Bytes) (p q : ℕ) (b : Bytes) → p % 4 ≡ q % 4 → masked key p b ≡ masked key q b
masked-mod key p q [] h = refl
masked-mod key p q (c ∷ b) h =
    ap₂ (λ (k : ℕ) (r : Bytes). bit_xor c k ∷ r) (key_at-mod key p q h)
      (masked-mod key (p + 1) (q + 1) b (omega arith))

-- A mask key is bytes.
abbrev pub IsKey : Bytes → Type 0
IsKey key = All IsByte key

get_or-lt : (b : Bytes) (i : ℕ) → All IsByte b → get_or b i 0 < 256
get_or-lt [] i _ = omega arith
get_or-lt (c ∷ b) zero (h, _) = h
get_or-lt (c ∷ b) (suc i) (_, h) = get_or-lt b i h

key_at-lt : (key : Bytes) (pos : ℕ) → IsKey key → key_at key pos < 256
unfolding key_at
key_at-lt key pos h = get_or-lt key (bit_and pos 3) h

-- `^` of a word with the word of the key, read back byte by byte.
word-masked :
    (key : Bytes) (pos : ℕ) (b : Bytes)
    → IsKey key
    → All IsByte b
    → bytes_of (length b) (bit_xor (word_of b) (word_of (key_word key (length b) pos)))
      ≡ masked key pos b
unfolding bytes_of word_of key_word
word-masked key pos [] hk _ = refl
word-masked key pos (c ∷ b) hk (hc, hb) =
    let k = key_at key pos in
    let split =
      bit_xor_fields 8 (word_of b) (word_of (key_word key (length b) (pos + 1))) c k hc
        (key_at-lt key pos hk) in
    let byte = xor_byte c k hc (key_at-lt key pos hk) in
    let rest = bit_xor (word_of b) (word_of (key_word key (length b) (pos + 1))) in
    let low : (rest * 256 + bit_xor c k) % 256 ≡ bit_xor c k = omega arith in
    let high : (rest * 256 + bit_xor c k) / 256 ≡ rest = omega arith in
    rw (split, low, high) (ap (◌∷◌ (bit_xor c k)) (word-masked key (pos + 1) b hk hb))

-- The halves of a text, masked each from the position where it starts.
masked-halves :
    (key : Bytes) (pos q n : ℕ) (b : Bytes)
    → q % 4 ≡ (pos + length (take n b)) % 4
    → masked key pos (take n b) ++ masked key q (drop n b) ≡ masked key pos b
masked-halves key pos q n b h =
    ap (λ (t : Bytes). masked key pos (take n b) ++ t) (masked-mod key q _ (drop n b) h)
    ∙ sym (masked-append key pos (take n b) (drop n b))
    ∙ ap (masked key pos) (take-append-drop n b)

mask_words-masked :
    (n : ℕ) (key : Bytes) (pos : ℕ) (b : Bytes)
    → IsKey key
    → All IsByte b
    → length b ≡ n * 8
    → mask_words n (word_of (key_word key 8 pos)) b ≡ masked key pos b
unfolding mask_words
mask_words-masked zero key pos [] hk hb h = refl
mask_words-masked zero key pos (c ∷ b) hk hb h = absurd (omega arith)
mask_words-masked (suc n) key pos b hk hb h =
    let len : length (take 8 b) ≡ 8 = omega (arith, length-take 8 b) in
    let first = rw len at (word-masked key pos (take 8 b) hk (All-take IsByte 8 b hb)) in
    let rest =
      mask_words-masked n key pos (drop 8 b) hk (All-drop IsByte 8 b hb)
        (omega (arith, length-drop 8 b)) in
    ap₂ ◌++◌ first rest ∙ masked-halves key pos pos 8 b (omega arith)

-- The part of the text behind the misaligned bytes: whole words, and the bytes left over.
words_then_bytes :
    (key : Bytes) (pos w : ℕ) (b : Bytes)
    → IsKey key
    → All IsByte b
    → w * 8 ≤ length b
    → mask_words w (word_of (key_word key 8 pos)) (take (w * 8) b)
        ++ masked key pos (drop (w * 8) b)
      ≡ masked key pos b
words_then_bytes key pos w b hk hb h =
    let len : length (take (w * 8) b) ≡ w * 8 = omega (arith, length-take (w * 8) b) in
    ap (λ (t : Bytes). t ++ masked key pos (drop (w * 8) b))
      (mask_words-masked w key pos (take (w * 8) b) hk (All-take IsByte (w * 8) b hb) len)
    ∙ masked-halves key pos pos (w * 8) b (omega arith)

mask_large-masked :
    (n : ℕ) (key : Bytes) (pos : ℕ) (b : Bytes)
    → n ≤ length b
    → IsKey key
    → All IsByte b
    → mask_large n key pos b ≡ (masked key pos b, bit_and (pos + length b) 3)
unfolding mask_large
mask_large-masked n key pos b h hk hb =
    let pos1 = pos + length (take n b) in
    let b1 = drop n b in
    let w = length b1 / 8 in
    let len_front = length-take n b in
    let len_rest = length-drop n b in
    let len_back = length-drop (w * 8) b1 in
    let inner = words_then_bytes key pos1 w b1 hk (All-drop IsByte n b hb) (omega arith) in
    let whole = masked-halves key pos pos1 n b refl in
    let place : bit_and (pos1 + length (drop (w * 8) b1)) 3 ≡ bit_and (pos + length b) 3 =
      bit_and_three _ ∙ omega arith ∙ sym (bit_and_three _) in
    simp mask_loop-masked (
      ap₂ (λ (t : Bytes) (p : ℕ). (masked key pos (take n b) ++ t, p)) inner place
      ∙ ap (λ (t : Bytes). (t, bit_and (pos + length b) 3)) whole)

-- Masking by words does what masking by bytes does, wherever the text starts in memory.
pub mask_bytes-mask_bytes_safe :
    (misaligned : ℕ) (key : Bytes) (pos : ℕ) (b : Bytes)
    → misaligned < 8
    → IsKey key
    → All IsByte b
    → mask_bytes misaligned key pos b ≡ mask_bytes_safe key pos b
unfolding mask_bytes mask_bytes_safe
mask_bytes-mask_bytes_safe misaligned key pos b lt hk hb = elim (Bool-cases (ltb (length b) 16)) [
  | inl small ↦ rw small
  | inr large ↦
      let n = if misaligned == 0 then 0 else 8 - misaligned in
      rw large
        (mask_large-masked n key pos b (ground arith) hk hb ∙ rw (mask_loop-masked key pos b))
]

masked-masked : (key : Bytes) (pos : ℕ) (a : Bytes) → masked key pos (masked key pos a) ≡ a
masked-masked key pos [] = refl
masked-masked key pos (c ∷ a) =
    ap₂ (λ (x : ℕ) (r : Bytes). x ∷ r) (xor_cancel c (key_at key pos))
      (masked-masked key (pos + 1) a)

-- A text that is masked twice from the same position is the text; the two parts of a text, masked
-- one after the other, are the whole text masked.
pub mask_bytes_safe_laws :
    (key : Bytes) (pos : ℕ) (a b : Bytes)
    → ((mask_bytes_safe key pos (mask_bytes_safe key pos a).0).0 ≡ a)
      × (mask_bytes_safe key pos (a ++ b) ≡ (
        (mask_bytes_safe key pos a).0 ++ (mask_bytes_safe key (mask_bytes_safe key pos a).1 b).0,
        (mask_bytes_safe key (mask_bytes_safe key pos a).1 b).1,
      ))
unfolding mask_bytes_safe
mask_bytes_safe_laws key pos a b =
    let mid = bit_and (pos + length a) 3 in
    let same : mid % 4 ≡ (pos + length a) % 4 = rw bit_and_three (omega arith) in
    let place : bit_and (pos + length (a ++ b)) 3 ≡ bit_and (mid + length b) 3 =
      bit_and_three _ ∙ omega (arith, length-append a b) ∙ sym (bit_and_three _) in
    let later = masked-mod key mid (pos + length a) b same in
    (
      simp mask_loop-masked (masked-masked key pos a),
      simp mask_loop-masked (
          ap₂ (λ (t : Bytes) (p : ℕ). (t, p))
            (masked-append key pos a b ∙ ap (λ (t : Bytes). masked key pos a ++ t) (sym later))
            place),
    )
