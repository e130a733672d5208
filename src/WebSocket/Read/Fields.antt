-- ===== src/WebSocket/Read/Fields.antt =====
-- The first two bytes of a frame, and its length, are read back.
use hertz_study.Base.{
  ℕ, zero, suc, ◌/◌, ◌%◌, ◌^◌, ◌<◌, ◌≡◌, refl, ap, ◌∙◌, Bool, true, false, not, ◌&&◌, [], ◌∷◌,
  Bytes, ◌==◌, arith, all_below, all_below_sound, bit_or, bit_and,
}
use native.Mathlib.Nat.{pow-suc}
use hertz_study.WebSocket.Close.{big_endian}
use hertz_study.WebSocket.Read.Header.{has_bit}
use hertz_study.WebSocket.Write.{set_bit, put_uint, final_bit, mask_bit}

abbrev agree : Bool → Bool → Bool
agree true b = b
agree false b = not b

agree_eq : (a b : Bool) → agree a b ≡ true → a ≡ b
agree_eq true true h = refl
agree_eq false false h = refl
agree_eq true false h = ground (arith, h)
agree_eq false true h = ground (arith, h)

-- The first byte for one type of frame.
first_test : Bool → ℕ → Bool
unfolding set_bit has_bit
first_test final t =
    let b = set_bit final final_bit (t % 256) in
    bit_and b 15 == t
    && (agree (has_bit b 128) final
        && (not (has_bit b 64) && (not (has_bit b 32) && not (has_bit b 16))))

second_test : Bool → ℕ → Bool
unfolding set_bit has_bit
second_test masked n =
    let b = bit_or (set_bit masked mask_bit 0) n in
    bit_and b 127 == n && agree (has_bit b 128) masked

first_all : (final : Bool) → all_below 16 (first_test final) ≡ true
unfolding all_below first_test
first_all true = refl
first_all false = refl

second_all : (masked : Bool) → all_below 128 (second_test masked) ≡ true
unfolding all_below second_test
second_all true = refl
second_all false = refl

pub first_byte :
    (final : Bool) (t : ℕ)
    → t < 16
    → let b = set_bit final final_bit (t % 256) in
      (bit_and b 15 ≡ t)
      × ((has_bit b 128 ≡ final)
          × ((has_bit b 64 ≡ false) × ((has_bit b 32 ≡ false) × (has_bit b 16 ≡ false))))
unfolding first_test
first_byte final t h =
    let ok = all_below_sound 16 (first_test final) t (first_all final) h in
    ground (arith, ok, agree_eq (has_bit (set_bit final final_bit (t % 256)) 128) final)

pub second_byte :
    (masked : Bool) (n : ℕ)
    → n < 128
    → let b = bit_or (set_bit masked mask_bit 0) n in (bit_and b 127 ≡ n) × (has_bit b 128 ≡ masked)
unfolding second_test
second_byte masked n h =
    let ok = all_below_sound 128 (second_test masked) n (second_all masked) h in
    ground (arith, ok, agree_eq (has_bit (bit_or (set_bit masked mask_bit 0) n) 128) masked)

put_uint_onto :
    (n v : ℕ) (out : Bytes) → v < 256 ^ n → big_endian 0 (put_uint n v out) ≡ big_endian v out
unfolding put_uint big_endian
put_uint_onto zero v out h = ap (λ (a : ℕ). big_endian a out) (omega arith)
put_uint_onto (suc n) v out h =
    put_uint_onto n (v / 256) (v % 256 ∷ out) (omega (arith, pow-suc 256 n))
    ∙ ap (λ (a : ℕ). big_endian a out) (omega arith)

pub put_uint_lem : (n v : ℕ) → v < 256 ^ n → big_endian 0 (put_uint n v []) ≡ v
unfolding big_endian
put_uint_lem n v h = put_uint_onto n v [] h
