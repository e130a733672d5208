-- ===== src/Bytesconv/Decimal/RoundTrip.antt =====
-- `ParseUint` reads what `AppendUint` writes, and the 20-byte buffer of `AppendUint` is enough.
use native.Mathlib.Nat.{pow-suc}
use mathlib.Core.List.{concat-ne-nil, cons-ne-nil}
use hertz_study.Base.{
  ℕ, zero, suc, ◌+◌, ◌-◌, ◌*◌, ◌/◌, ◌%◌, ◌^◌, ◌≤◌, ◌<◌, ◌≡◌, refl, ◌≢◌, [], ◌∷◌, ◌++◌, none, some,
  Bytes, All, length, leb, arith, Bool-cases, leb→le, ap, length-append, append_assoc, append-nil,
  ◌∙◌, sym, true, false, All-append, inl, inr,
}
use hertz_study.Base.Int.{pos}
use hertz_study.Bytesconv.Decimal.{write_digits, append_uint, parse_uint}
use hertz_study.Bytesconv.Decimal.Parse.{IsDigit, value, parse_uint_complete}

-- What the loop has put in front of `out`: the digits of `n`, in at most `i` bytes.
pub record Written (i n : ℕ) (out result : Bytes) : Type 0 where
  pub digits : Bytes
  pub placed : result ≡ digits ++ out
  pub ne_nil : digits ≢ []
  pub all_digits : All IsDigit digits
  pub spells : (rest : Bytes) → value 0 (digits ++ rest) ≡ value n rest
  pub fits : length digits ≤ i

-- The last digit, after the loop.
Written-last : (i n : ℕ) (out : Bytes) → n < 10 → Written (suc i) n out ((b'0' + n) ∷ out)
Written-last i n out h = record {
  digits = (b'0' + n) ∷ [];
  placed = refl;
  ne_nil = cons-ne-nil _ _;
  all_digits = ((omega arith, omega arith), tt);
  spells = λ rest. ap (λ (t : ℕ). value t rest) (omega arith);
  fits = omega arith;
}

-- A round of the loop puts the digit `n % 10` in front of `out`.
Written-more :
    (i n : ℕ) {out result : Bytes}
    → Written i (n / 10) ((b'0' + n % 10) ∷ out) result
    → Written (suc i) n out result
Written-more i n {out} w = record {
  digits = w.digits ++ (b'0' + n % 10) ∷ [];
  placed = w.placed ∙ sym (append_assoc w.digits ((b'0' + n % 10) ∷ []) out);
  ne_nil = concat-ne-nil _ w.digits;
  all_digits = All-append IsDigit w.digits _ w.all_digits ((omega arith, omega arith), tt);
  spells = λ rest.
      ap (value 0) (append_assoc w.digits ((b'0' + n % 10) ∷ []) rest)
      ∙ w.spells ((b'0' + n % 10) ∷ rest)
      ∙ ap (λ (t : ℕ). value t rest) (omega arith);
  fits = omega (arith, w.fits, length-append w.digits ((b'0' + n % 10) ∷ []));
}

slot_left : (i n : ℕ) → n < 10 ^ suc i → 10 ≤ n → 0 < i
slot_left zero n h more = absurd (omega arith)
slot_left (suc i) n h more = omega arith

write_digits-more :
    (i n : ℕ) (out : Bytes)
    → leb 10 n ≡ true
    → write_digits (suc i) n out ≡ write_digits i (n / 10) ((b'0' + n % 10) ∷ out)
unfolding write_digits
write_digits-more i n out h =
    let byte : (b'0' + (n - n / 10 * 10) % 256) % 256 ≡ b'0' + n % 10 = ground arith in rw (h, byte)

write_digits-done :
    (i n : ℕ) (out : Bytes)
    → leb 10 n ≡ false
    → write_digits (suc i) n out ≡ some ((b'0' + n) ∷ out)
unfolding write_digits
write_digits-done i n out h =
    let byte : (b'0' + n % 256) % 256 ≡ b'0' + n = ground arith in rw (h, byte)

pub write_digits-Written :
    (i n : ℕ) (out : Bytes)
    → n < 10 ^ i
    → 0 < i
    → (r : Bytes) × (write_digits i n out ≡ some r) × Written i n out r
write_digits-Written zero n out h some_slot = absurd (omega arith)
write_digits-Written (suc i) n out h some_slot = elim (Bool-cases (leb 10 n)) [
  | inl more ↦
      let (r, e, w) =
        write_digits-Written i (n / 10) ((b'0' + n % 10) ∷ out) (omega (arith, pow-suc 10 i))
          (slot_left i n h (leb→le 10 n more)) in
      (r, write_digits-more i n out more ∙ e, Written-more i n w)
  | inr done ↦
      ((b'0' + n) ∷ out, write_digits-done i n out done, Written-last i n out (ground arith))
]

-- Every `int` that is not negative is written in at most 20 bytes, without a panic, as a nonempty
-- run of digits behind `dst`, which `ParseUint` reads back as the same number.
pub parse_uint-append_uint :
    (n : ℕ) (dst : Bytes)
    → n < 2 ^ 63
    → (digits : Bytes) × (append_uint dst (pos n) ≡ some (dst ++ digits))
      × (length digits ≤ 20)
      × (parse_uint digits ≡ (pos n, none))
unfolding append_uint
parse_uint-append_uint n dst h =
    let (r, e, w) = write_digits-Written 20 n [] (omega arith) (omega arith) in
    let value_is : value 0 w.digits ≡ n = ap (value 0) (sym (append-nil w.digits)) ∙ w.spells [] in
    (
      w.digits,
      rw e (ap (λ (t : Bytes). some (dst ++ t)) (w.placed ∙ append-nil w.digits)),
      w.fits,
      parse_uint_complete w.digits w.ne_nil w.all_digits (omega arith)
          ∙ ap (λ (t : ℕ). (pos t, none)) value_is,
    )
