-- ===== src/Base/Bits.antt =====
-- Laws of the bit operations: `|` of disjoint fields, `&` with a low mask and `^`, as arithmetic,
-- and the check of a byte property by evaluating it on all bytes.
use Prim.Native.Nat.{ℕ, zero, suc, ◌+◌, ◌-◌, ◌*◌, ◌/◌, ◌%◌, ◌^◌, ◌≤◌, ◌<◌, min, max}
use Prim.Native.Nat.{bit_and, bit_or, bit_xor, digits, differ}
use Prim.Native.Nat.{bit_and-bitwise, bit_or-bitwise, bit_xor-bitwise}
use mathlib.Core.Path.{◌≡◌, refl, ap, ap₂, ◌∙◌, sym}
use mathlib.Core.Bool.{Bool, true, ◌&&◌}
use native.Mathlib.Nat.{pow-suc, one-le-pow}
use native.Mathlib.Decide.{dec_lt}
use native.Mathlib.Omega.{arith}

-- `test` holds at the `rounds` numbers from `start` on.
unfoldable pub holds_from : ℕ → ℕ → (ℕ → Bool) → Bool
holds_from zero start test = true
holds_from (suc rounds) start test = test start && holds_from rounds (start + 1) test

holds_from-at :
    (rounds start c : ℕ) (test : ℕ → Bool)
    → holds_from rounds start test ≡ true
    → start ≤ c
    → c < start + rounds
    → test c ≡ true
unfolding holds_from
holds_from-at zero start c test ok above below = absurd (omega arith)
holds_from-at (suc rounds) start c test ok above below = elim (dec_lt start c) [
  | yes later ↦ holds_from-at rounds (start + 1) c test (ground arith) (omega arith) (omega arith)
  | no now ↦ let same : c ≡ start = omega arith in rw same (ground arith)
]

unfoldable pub all_below : ℕ → (ℕ → Bool) → Bool
unfolding holds_from
all_below bound test = holds_from bound 0 test

pub all_below_sound :
    (bound : ℕ) (test : ℕ → Bool) (c : ℕ) → all_below bound test ≡ true → c < bound → test c ≡ true
unfolding all_below
all_below_sound bound test c ok below = holds_from-at bound 0 c test ok (omega arith) (omega arith)

-- An operation that works on the binary digits: it goes by the lowest digit and the halves.
record IsDigitwise (op f : ℕ → ℕ → ℕ) : Type 0 where
  at_zero : op 0 0 ≡ 0
  by_halves : (a b : ℕ) → op a b ≡ op (a / 2) (b / 2) * 2 + f (a % 2) (b % 2)

module _ (z : ℕ → ℕ) (f : ℕ → ℕ → ℕ) where
  -- Any fuel from the first argument on gives the same digits.
  enough_fuel : (a b n m : ℕ) → a ≤ n → a ≤ m → digits z f n a b ≡ digits z f m a b
  enough_fuel zero b zero zero p q = refl
  enough_fuel zero b zero (suc m) p q = refl
  enough_fuel zero b (suc n) zero p q = refl
  enough_fuel zero b (suc n) (suc m) p q = refl
  enough_fuel (suc a) b zero m p q = absurd (omega arith)
  enough_fuel (suc a) b (suc n) zero p q = absurd (omega arith)
  enough_fuel (suc a) b (suc n) (suc m) p q =
      let half = enough_fuel (suc a / 2) (b / 2) n m (omega arith) (omega arith) in
      ap (λ (t : ℕ). t * 2 + f (suc a % 2) (b % 2)) half

  halving :
      (a b : ℕ)
      → digits z f (suc a) (suc a) b
        ≡ digits z f (suc a / 2) (suc a / 2) (b / 2) * 2 + f (suc a % 2) (b % 2)
  halving a b =
      let half = enough_fuel (suc a / 2) (b / 2) a (suc a / 2) (omega arith) (omega arith) in
      ap (λ (t : ℕ). t * 2 + f (suc a % 2) (b % 2)) half

or_halves : (a b : ℕ) → bit_or a b ≡ bit_or (a / 2) (b / 2) * 2 + max (a % 2) (b % 2)
or_halves zero b = simp bit_or-bitwise (omega arith)
or_halves (suc a) b = simp bit_or-bitwise (halving (λ y. y) max a b)

and_halves : (a b : ℕ) → bit_and a b ≡ bit_and (a / 2) (b / 2) * 2 + min (a % 2) (b % 2)
and_halves zero b = simp bit_and-bitwise (omega arith)
and_halves (suc a) b = simp bit_and-bitwise (halving (λ y. 0) min a b)

-- The digit of `^`, where both digits are below 2.
abbrev xor_digit : ℕ → ℕ → ℕ
xor_digit x y = (x + y) % 2

differ_digits : (x y : ℕ) → x < 2 → y < 2 → differ x y ≡ xor_digit x y
differ_digits zero y p q = omega arith
differ_digits (suc zero) zero p q = refl
differ_digits (suc zero) (suc zero) p q = refl
differ_digits (suc zero) (suc (suc y)) p q = absurd (omega arith)
differ_digits (suc (suc x)) y p q = absurd (omega arith)

xor_halves : (a b : ℕ) → bit_xor a b ≡ bit_xor (a / 2) (b / 2) * 2 + xor_digit (a % 2) (b % 2)
xor_halves zero b = simp bit_xor-bitwise (omega arith)
xor_halves (suc a) b = simp bit_xor-bitwise (
    halving (λ y. y) differ a b
    ∙ ap (λ (t : ℕ). digits (λ y. y) differ (suc a / 2) (suc a / 2) (b / 2) * 2 + t)
        (differ_digits (suc a % 2) (b % 2) (omega arith) (omega arith)))

or-IsDigitwise : IsDigitwise bit_or max
or-IsDigitwise = record { at_zero = refl; by_halves = or_halves }

and-IsDigitwise : IsDigitwise bit_and min
and-IsDigitwise = record { at_zero = refl; by_halves = and_halves }

xor-IsDigitwise : IsDigitwise bit_xor xor_digit
xor-IsDigitwise = record { at_zero = refl; by_halves = xor_halves }

double_shift : (q k : ℕ) → q * 2 ^ suc k ≡ q * 2 ^ k * 2
double_shift q k = omega (arith, ap (λ (t : ℕ). q * t) (pow-suc 2 k))

half_shift : (k q a : ℕ) → (q * 2 ^ suc k + a) / 2 ≡ q * 2 ^ k + a / 2
half_shift k q a = omega (arith, double_shift q k)

parity_shift : (k q a : ℕ) → (q * 2 ^ suc k + a) % 2 ≡ a % 2
parity_shift k q a = omega (arith, double_shift q k)

half_lt : (k a : ℕ) → a < 2 ^ suc k → a / 2 < 2 ^ k
half_lt k a h = omega (arith, pow-suc 2 k)

-- Such an operation works on the low `k` digits and on the rest separately.
fields :
    {op f : ℕ → ℕ → ℕ}
    → IsDigitwise op f
    → (k q s a b : ℕ) → a < 2 ^ k
    → b < 2 ^ k
    → op (q * 2 ^ k + a) (s * 2 ^ k + b) ≡ op q s * 2 ^ k + op a b
fields {op} {f} d zero q s a b p r =
    let ea : a ≡ 0 = omega arith in
    let eb : b ≡ 0 = omega arith in
    rw (ea, eb, d.at_zero)
      (let eq : q * 1 + 0 ≡ q = omega arith in
        let es : s * 1 + 0 ≡ s = omega arith in rw (eq, es) (omega arith))
fields {op} {f} d (suc k) q s a b p r =
    let ih = fields d k q s (a / 2) (b / 2) (half_lt k a p) (half_lt k b r) in
    d.by_halves (q * 2 ^ suc k + a) (s * 2 ^ suc k + b)
    ∙ rw (half_shift k q a, half_shift k s b, parity_shift k q a, parity_shift k s b, ih)
        (omega (arith, d.by_halves a b, double_shift (op q s) k))

or-zero : (a : ℕ) → bit_or a 0 ≡ a
or-zero a = below (suc a) a (omega arith)
  where
    below : (n m : ℕ) → m < n → bit_or m 0 ≡ m
    below zero m h = absurd (omega arith)
    below (suc n) zero h = refl
    below (suc n) (suc m) h = omega (arith, or_halves (suc m) 0, below n (suc m / 2) (omega arith))

zero-or : (b : ℕ) → bit_or 0 b ≡ b
zero-or b = bit_or-bitwise 0 b

and-zero : (a : ℕ) → bit_and a 0 ≡ 0
and-zero a = below (suc a) a (omega arith)
  where
    below : (n m : ℕ) → m < n → bit_and m 0 ≡ 0
    below zero m h = absurd (omega arith)
    below (suc n) zero h = refl
    below (suc n) (suc m) h = omega (arith, and_halves (suc m) 0, below n (suc m / 2) (omega arith))

-- `q << k | r` is a sum when `r` fits in `k` bits.
pub bit_or_fields : (k q r : ℕ) → r < 2 ^ k → bit_or (q * 2 ^ k) r ≡ q * 2 ^ k + r
bit_or_fields k q r h =
    let split = fields or-IsDigitwise k q 0 0 r (one-le-pow k 2 (omega arith)) h in
    let lhs : q * 2 ^ k + 0 ≡ q * 2 ^ k = omega arith in
    let rhs : 0 * 2 ^ k + r ≡ r = omega arith in
    ap₂ bit_or (sym lhs) (sym rhs) ∙ split ∙ rw (or-zero, zero-or)

-- `^` of words is `^` of their low and of their high parts.
pub bit_xor_fields :
    (k q s a b : ℕ)
    → a < 2 ^ k
    → b < 2 ^ k
    → bit_xor (q * 2 ^ k + a) (s * 2 ^ k + b) ≡ bit_xor q s * 2 ^ k + bit_xor a b
bit_xor_fields = fields xor-IsDigitwise

xor_upper : (x y : ℕ) → bit_xor x y / 2 ≡ bit_xor (x / 2) (y / 2)
xor_upper x y = omega (arith, xor_halves x y)

xor_cancel_below : (n x y : ℕ) → x + y < n → bit_xor (bit_xor x y) y ≡ x
xor_cancel_below zero x y h = absurd (omega arith)
xor_cancel_below (suc n) zero zero h = refl
xor_cancel_below (suc n) x y h =
    let ih = xor_cancel_below n (x / 2) (y / 2) (omega arith) in
    xor_halves (bit_xor x y) y ∙ rw (xor_upper x y, ih) (omega (arith, xor_halves x y))

-- `^` with a key twice gives the value back.
pub xor_cancel : (a b : ℕ) → bit_xor (bit_xor a b) b ≡ a
xor_cancel a b = xor_cancel_below (suc (a + b)) a b (omega arith)

xor_lt_below : (k a b : ℕ) → a < 2 ^ k → b < 2 ^ k → bit_xor a b < 2 ^ k
xor_lt_below zero a b p q =
    let ea : a ≡ 0 = omega arith in let eb : b ≡ 0 = omega arith in rw (ea, eb) (omega arith)
xor_lt_below (suc k) a b p q =
    let ih = xor_lt_below k (a / 2) (b / 2) (half_lt k a p) (half_lt k b q) in
    omega (arith, xor_halves a b, pow-suc 2 k)

-- `^` of two bytes is a byte.
pub xor_byte : (a b : ℕ) → a < 256 → b < 256 → bit_xor a b < 256
xor_byte a b p q = xor_lt_below 8 a b p q

ones_half : (k : ℕ) → (2 ^ suc k - 1) / 2 ≡ 2 ^ k - 1
ones_half k = omega (arith, pow-suc 2 k, one-le-pow k 2 (omega arith))

ones_odd : (k : ℕ) → (2 ^ suc k - 1) % 2 ≡ 1
ones_odd k = omega (arith, pow-suc 2 k, one-le-pow k 2 (omega arith))

and_ones : (k r : ℕ) → r < 2 ^ k → bit_and r (2 ^ k - 1) ≡ r
and_ones zero r h = rw and-zero (omega arith)
and_ones (suc k) r h =
    let ih = and_ones k (r / 2) (half_lt k r h) in
    and_halves r (2 ^ suc k - 1) ∙ rw (ones_half k, ones_odd k, ih) (omega arith)

-- A mask of `k` low ones keeps the low `k` digits.
pub bit_and_mask : (k q r : ℕ) → r < 2 ^ k → bit_and (q * 2 ^ k + r) (2 ^ k - 1) ≡ r
bit_and_mask k q r h =
    let one = one-le-pow k 2 (omega arith) in
    let mask : 0 * 2 ^ k + (2 ^ k - 1) ≡ 2 ^ k - 1 = omega arith in
    ap (bit_and (q * 2 ^ k + r)) (sym mask)
    ∙ fields and-IsDigitwise k q 0 r (2 ^ k - 1) h (omega arith)
    ∙ rw (and-zero, and_ones k r h) (omega arith)

-- The instances that the program uses: `x & 3`, `x & 0xf` and `x & 0x7f`.
pub bit_and_three : (a : ℕ) → bit_and a 3 ≡ a % 4
bit_and_three a =
    let split : a / 4 * 4 + a % 4 ≡ a = omega arith in
    rw (split) at (bit_and_mask 2 (a / 4) (a % 4) (omega arith))

pub bit_and_fifteen : (a : ℕ) → bit_and a 15 ≡ a % 16
bit_and_fifteen a =
    let split : a / 16 * 16 + a % 16 ≡ a = omega arith in
    rw (split) at (bit_and_mask 4 (a / 16) (a % 16) (omega arith))

pub bit_and_127 : (a : ℕ) → bit_and a 127 ≡ a % 128
bit_and_127 a =
    let split : a / 128 * 128 + a % 128 ≡ a = omega arith in
    rw (split) at (bit_and_mask 7 (a / 128) (a % 128) (omega arith))
