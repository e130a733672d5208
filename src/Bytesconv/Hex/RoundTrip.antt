-- ===== src/Bytesconv/Hex/RoundTrip.antt =====
-- `ReadHexInt` reads what `WriteHexInt` writes, up to 15 digits.
use native.Mathlib.Nat.{pow-suc, pow-le-pow_right}
use hertz_study.Base.{
  ℕ, zero, suc, ◌+◌, ◌*◌, ◌/◌, ◌%◌, ◌^◌, ◌≤◌, ◌<◌, ◌≡◌, refl, [], ◌∷◌, ◌++◌, none, some, Bytes, All,
  length, arith, Bool-cases, ap, length-append, append_assoc, append-nil, ◌∙◌, sym, All-append, inl,
  inr, true, false, get_or, bit_and, bit_or, bit_or_fields, bit_and_fifteen, ◌==◌, all_below,
  all_below_sound, ==_iff,
}
use native.Mathlib.Decide.{dec_lt}
use hertz_study.Base.Int.{pos, negsuc}
use hertz_study.Bytesconv.Errors.{too_large_hex_num}
use hertz_study.Bytesconv.Lookup.{hex2int}
use hertz_study.Bytesconv.Hex.{
  Writer, read_hex_int, lowerhex, write_hex_digits, write_hex_int, read_hex,
}

digit_check : all_below 16 (λ x. hex2int (get_or lowerhex x 0) == x) ≡ true
unfolding all_below hex2int lowerhex
digit_check = refl

-- The digit that `WriteHexInt` writes for `x` is read as `x`.
pub hex2int-lowerhex : (x : ℕ) → x < 16 → hex2int (get_or lowerhex x 0) ≡ x
hex2int-lowerhex x h = (==_iff _ _).0 (all_below_sound 16 _ x digit_check h)

-- A hexadecimal digit of value `x`.
abbrev pub IsHexDigit : ℕ → Type 0
IsHexDigit c = hex2int c < 16

abbrev pub hex_number : ℕ → Bytes → ℕ
hex_number v [] = v
hex_number v (c ∷ cs) = hex_number (v * 16 + hex2int c) cs

-- The digits in front of `out`, as many as the number needs.
pub record Written (slots n : ℕ) (out result : Bytes) : Type 0 where
  pub digits : Bytes
  pub placed : result ≡ digits ++ out
  pub all_digits : All IsHexDigit digits
  pub spells : (rest : Bytes) → hex_number 0 (digits ++ rest) ≡ hex_number n rest
  pub some_digit : 0 < length digits
  pub fits : length digits ≤ slots
  pub enough : n < 16 ^ length digits
  pub shortest : 1 < length digits → 16 ^ length digits ≤ n * 16

Written-last :
    (slots n : ℕ) (out : Bytes) → n < 16 → Written (suc slots) n out (get_or lowerhex n 0 ∷ out)
Written-last slots n out h =
    let digit = hex2int-lowerhex n h in
    record {
      digits = get_or lowerhex n 0 ∷ [];
      placed = refl;
      all_digits = (omega (arith, digit), tt);
      spells = λ rest. ap (λ (t : ℕ). hex_number t rest) (omega (arith, digit));
      some_digit = omega arith;
      fits = omega arith;
      enough = omega arith;
      shortest = λ more. absurd (omega arith);
    }

shortest_step : (l n : ℕ) → 0 < n / 16 → 0 < l → (1 < l → 16 ^ l ≤ n / 16 * 16) → 16 ^ l ≤ n
shortest_step zero n up some_digit h = absurd (omega arith)
shortest_step (suc zero) n up some_digit h = omega arith
shortest_step (suc (suc l)) n up some_digit h = omega (arith, h (omega arith))

Written-more :
    (slots n : ℕ) {out result : Bytes}
    → 0 < n / 16
    → Written slots (n / 16) (get_or lowerhex (n % 16) 0 ∷ out) result
    → Written (suc slots) n out result
Written-more slots n {out} up w =
    let d = get_or lowerhex (n % 16) 0 in
    let digit = hex2int-lowerhex (n % 16) (omega arith) in
    let len : length (w.digits ++ d ∷ []) ≡ suc (length w.digits) =
      omega (arith, length-append w.digits (d ∷ [])) in
    record {
      digits = w.digits ++ d ∷ [];
      placed = w.placed ∙ sym (append_assoc w.digits (d ∷ []) out);
      all_digits = All-append IsHexDigit w.digits _ w.all_digits (omega (arith, digit), tt);
      spells = λ rest.
          ap (hex_number 0) (append_assoc w.digits (d ∷ []) rest)
          ∙ w.spells (d ∷ rest)
          ∙ ap (λ (t : ℕ). hex_number t rest) (omega (arith, digit));
      some_digit = omega (arith, len);
      fits = omega (arith, len, w.fits);
      enough = rw len (omega (arith, w.enough, pow-suc 16 (length w.digits)));
      shortest = λ _. rw len (
          omega (
            arith,
            shortest_step (length w.digits) n up w.some_digit w.shortest,
            pow-suc 16 (length w.digits),
          ));
    }

write_hex_digits-more :
    (slots n : ℕ) (out : Bytes)
    → (n / 16 == 0) ≡ false
    → write_hex_digits (suc slots) n out
      ≡ write_hex_digits slots (n / 16) (get_or lowerhex (n % 16) 0 ∷ out)
unfolding write_hex_digits
write_hex_digits-more slots n out h = rw (h, bit_and_fifteen n)

write_hex_digits-done :
    (slots n : ℕ) (out : Bytes)
    → (n / 16 == 0) ≡ true
    → write_hex_digits (suc slots) n out ≡ some (get_or lowerhex n 0 ∷ out)
unfolding write_hex_digits
write_hex_digits-done slots n out h =
    let small : bit_and n 15 ≡ n = bit_and_fifteen n ∙ ground arith in rw (h, small)

slot_left : (slots n : ℕ) → n < 16 ^ suc slots → 0 < n / 16 → 0 < slots
slot_left zero n h more = absurd (omega arith)
slot_left (suc slots) n h more = omega arith

pub write_hex_digits-Written :
    (slots n : ℕ) (out : Bytes)
    → n < 16 ^ slots
    → 0 < slots
    → (r : Bytes) × (write_hex_digits slots n out ≡ some r) × Written slots n out r
write_hex_digits-Written zero n out h some_slot = absurd (omega arith)
write_hex_digits-Written (suc slots) n out h some_slot = elim (Bool-cases (n / 16 == 0)) [
  | inl done ↦ (
    get_or lowerhex n 0 ∷ out,
    write_hex_digits-done slots n out done,
    Written-last slots n out (ground arith),
  )
  | inr more ↦
      let up : 0 < n / 16 = ground arith in
      let (r, e, w) =
        write_hex_digits-Written slots (n / 16) (get_or lowerhex (n % 16) 0 ∷ out)
          (omega (arith, pow-suc 16 slots)) (slot_left slots n h up) in
      (r, write_hex_digits-more slots n out more ∙ e, Written-more slots n up w)
]

-- A byte that ends the number: none at all, or one that is no digit.
abbrev pub Ends : Bytes → Type 0
Ends [] = Unit
Ends (c ∷ cs) = hex2int c ≡ 16

pow-le-15 : (i : ℕ) → i ≤ 15 → 16 ^ i ≤ 16 ^ 15
pow-le-15 i h = pow-le-pow_right (omega arith) h

shifted : (v k i : ℕ) → k < 16 → v < 16 ^ i → i < 15 → bit_or (v * 16 % 2 ^ 64) k ≡ v * 16 + k
shifted v k i hk hv hi =
    let word : v * 16 % 2 ^ 64 ≡ v * 16 = omega (arith, pow-le-15 i (omega arith)) in
    rw word (bit_or_fields 4 v k hk)

next_bound : (v k i : ℕ) → k < 16 → v < 16 ^ i → v * 16 + k < 16 ^ (i + 1)
next_bound v k i hk hv =
    let exponent : i + 1 ≡ suc i = omega arith in rw exponent (omega (arith, pow-suc 16 i))

-- A sixteenth digit is refused: it is skipped, and what stands behind it is left.
read_hex-too_large :
    (ds rest : Bytes) (end v i : ℕ)
    → All IsHexDigit ds
    → i + length ds ≡ 16
    → i ≤ 15
    → v < 16 ^ i
    → read_hex end (ds ++ rest) v i ≡ (negsuc 0, some too_large_hex_num, rest)
unfolding read_hex
read_hex-too_large [] rest end v i _ full room small = absurd (omega arith)
read_hex-too_large (c ∷ []) rest end v i (hc, _) full room small = ground arith
read_hex-too_large (c ∷ d ∷ ds) rest end v i (hc, hs) full room small =
    let step = shifted v (hex2int c) i hc small (omega arith) in
    rw step (
      ground (
        arith,
        read_hex-too_large (d ∷ ds) rest end (v * 16 + hex2int c) (i + 1) hs (omega arith)
            (omega arith) (next_bound v (hex2int c) i hc small),
      ))

long_enough : (l n : ℕ) → n < 16 ^ l → 2 ^ 60 ≤ n → 16 ≤ l
long_enough l n h big = elim (dec_lt l 16) [
  | yes short ↦ let bound : 16 ^ l ≤ 16 ^ 15 = pow-le-15 l (omega arith) in absurd (omega arith)
  | no long ↦ omega arith
]

-- A successful write of the digits at hand.
write_hex_int-Written :
    (n : ℕ) (w : Writer) {r : Bytes}
    → w.malloc_error ≡ none
    → write_hex_digits 16 n [] ≡ some r
    → (d : Written 16 n [] r)
    → write_hex_int w (pos n) ≡ some (record w { out = w.out ++ d.digits }, none)
unfolding write_hex_int
write_hex_int-Written n w free e d =
    let bare = d.placed ∙ append-nil d.digits in rw (e, bare) (ground arith)

-- From 2 ^ 60 on `WriteHexInt` still writes the number, and `ReadHexInt` refuses what it wrote.
pub read_hex_int-limit :
    (n : ℕ) (w : Writer) (rest : Bytes) (end : ℕ)
    → w.malloc_error ≡ none
    → 2 ^ 60 ≤ n
    → n < 2 ^ 63
    → (digits : Bytes) × (write_hex_int w (pos n) ≡ some (record w { out = w.out ++ digits }, none))
      × (read_hex_int (record { unread = digits ++ rest; end_error = end })
          ≡ (negsuc 0, some too_large_hex_num, record { unread = rest; end_error = end }))
unfolding read_hex_int
read_hex_int-limit n w rest end free big fits =
    let (r, e, d) = write_hex_digits-Written 16 n [] (omega arith) (omega arith) in
    let long = long_enough (length d.digits) n d.enough big in
    let read =
      read_hex-too_large d.digits rest end 0 0 d.all_digits (omega (arith, d.fits)) (omega arith)
        (omega arith) in
    (d.digits, write_hex_int-Written n w free e d, rw read)
