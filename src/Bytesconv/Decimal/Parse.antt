-- ===== src/Bytesconv/Decimal/Parse.antt =====
-- What `ParseUintBuf` and `ParseUint` accept, and the number that they return.
use hertz_study.Base.{
  ℕ, suc, ◌+◌, ◌-◌, ◌*◌, ◌%◌, ◌^◌, ◌≤◌, ◌<◌, ◌≡◌, refl, ◌≢◌, ◌⊎◌, inl, inr, [], ◌∷◌, ◌++◌, none,
  some, Bytes, All, length, ◌==◌, arith, Bool-cases, ap, Option, length-append, ◌∙◌, sym,
}
use mathlib.Core.List.{concat-ne-nil, cons-ne-nil}
use hertz_study.Base.Int.{ℤ, pos, negsuc}
use hertz_study.Bytesconv.Errors.{Error, empty_int, unexpected_trailing_char}
use hertz_study.Bytesconv.Decimal.{Parsed, parse_digits, parse_uint_buf, parse_uint}

abbrev pub IsDigit : ℕ → Type 0
IsDigit c = (b'0' ≤ c) × (c ≤ b'9')

abbrev pub IsByte : ℕ → Type 0
IsByte c = c < 256

-- The number that digits spell behind `v`, with no bound.
abbrev pub value : ℕ → Bytes → ℕ
value v [] = v
value v (c ∷ cs) = value (10 * v + (c - b'0')) cs

pub le-value : (cs : Bytes) (v : ℕ) → v ≤ value v cs
le-value [] v = omega arith
le-value (c ∷ cs) v = omega (arith, le-value cs (10 * v + (c - b'0')))

-- Digits whose value fits are read, whatever follows them.
pub parse_digits-append :
    (ds rest : Bytes) (i v : ℕ)
    → All IsDigit ds
    → value v ds < 2 ^ 63
    → parse_digits (ds ++ rest) i v ≡ parse_digits rest (i + length ds) (value v ds)
unfolding parse_digits
parse_digits-append [] rest i v _ fits = ap (λ (j : ℕ). parse_digits rest j v) (omega arith)
parse_digits-append (c ∷ ds) rest i v (hc, hs) fits = ground (
  arith,
  parse_digits-append ds rest (i + 1) (10 * v + (c - b'0')) hs fits,
  le-value ds (10 * v + (c - b'0')),
)

-- Digits to the end of the input.
pub parse_digits_at_end :
    (ds : Bytes) (i v : ℕ)
    → All IsDigit ds
    → value v ds < 2 ^ 63
    → parse_digits ds i v ≡ (pos (value v ds), i + length ds, none)
unfolding parse_digits
parse_digits_at_end [] i v _ fits = ground arith
parse_digits_at_end (c ∷ ds) i v (hc, hs) fits =
    let v' = 10 * v + (c - b'0') in
    ground (arith, parse_digits_at_end ds (i + 1) v' hs fits, le-value ds v')

-- `ParseUint` gives the result of the loop if the loop has come to the end.
parse_uint-read :
    (b : Bytes) (v : ℤ)
    → b ≢ []
    → parse_digits b 0 0 ≡ (v, length b, none)
    → parse_uint b ≡ (v, none)
unfolding parse_uint parse_uint_buf
parse_uint-read [] v ne e = absurd (ne refl)
parse_uint-read (c ∷ cs) v ne e = rw e (ground arith)

-- Every nonempty run of digits whose value fits in an `int` is read as that value.
pub parse_uint_complete :
    (b : Bytes)
    → b ≢ []
    → All IsDigit b
    → value 0 b < 2 ^ 63
    → parse_uint b ≡ (pos (value 0 b), none)
parse_uint_complete b ne ds fits =
    parse_uint-read b (pos (value 0 b)) ne
      (parse_digits_at_end b 0 0 ds fits ∙ ap (λ (n : ℕ). (pos (value 0 b), n, none)) (omega arith))

value_wrap : (cs : Bytes) (w : ℕ) → value (w % 2 ^ 64) cs % 2 ^ 64 ≡ value w cs % 2 ^ 64
value_wrap [] w = omega arith
value_wrap (c ∷ cs) w =
    let d = c - b'0' in
    let same : (10 * (w % 2 ^ 64) + d) % 2 ^ 64 ≡ (10 * w + d) % 2 ^ 64 = omega arith in
    sym (value_wrap cs (10 * (w % 2 ^ 64) + d))
    ∙ ap (λ (t : ℕ). value t cs % 2 ^ 64) same
    ∙ value_wrap cs (10 * w + d)

-- The stop of the loop at the end of the input: it has read digits only.
parse_digits_sound :
    (cs : Bytes) (i v r n : ℕ)
    → v < 2 ^ 63
    → All IsByte cs
    → parse_digits cs i v ≡ (pos r, n, none)
    → n ≡ i + length cs
    → All IsDigit cs × (r ≡ value v cs % 2 ^ 64) × (r < 2 ^ 63)
unfolding parse_digits
parse_digits_sound [] i v r n fits _ e done = ground arith
parse_digits_sound (c ∷ cs) i v r n fits (hc, hs) e done =
    let v' = (10 * v + (c + 256 - b'0') % 256) % 2 ^ 64 in
    ground (
      arith,
      λ (lt : v' < 2 ^ 63) (e' : parse_digits cs (i + 1) v' ≡ (pos r, n, none)).
          parse_digits_sound cs (i + 1) v' r n lt hs e' (omega arith),
      value_wrap cs (10 * v + (c - b'0')),
    )

parse_uint-ok :
    (b : Bytes) {r : ℕ}
    → parse_uint b ≡ (pos r, none)
    → (b ≢ []) × (parse_digits b 0 0 ≡ (pos r, length b, none))
unfolding parse_uint parse_uint_buf
parse_uint-ok [] e = ground arith
parse_uint-ok (c ∷ cs) e = ground arith

-- An accepted text is one or more digits. The result is an `int`, and equals the number that
-- they spell up to a multiple of 2 ^ 64.
pub parse_uint_sound :
    (b : Bytes) {r : ℕ}
    → All IsByte b
    → parse_uint b ≡ (pos r, none)
    → (b ≢ []) × All IsDigit b × (r < 2 ^ 63) × (r ≡ value 0 b % 2 ^ 64)
parse_uint_sound b {r} bytes e =
    let (ne, run) = parse_uint-ok b e in
    let (digits, wrapped, fits) =
      parse_digits_sound b 0 0 r (length b) (omega arith) bytes run (omega arith) in
    (ne, digits, fits, wrapped)

-- How the loop ends: with a value, or with an error before the end of the input.
abbrev Stop : ℕ → Parsed → Type 0
Stop end (pos r, n, none) = Unit
Stop end (negsuc k, n, some e) = (k ≡ 0) × (n < end)
Stop end _ = ⊥

parse_digits-Stop : (cs : Bytes) (i v : ℕ) → Stop (i + length cs) (parse_digits cs i v)
unfolding parse_digits
parse_digits-Stop [] i v = tt
parse_digits-Stop (c ∷ cs) i v =
    let v' = (10 * v + (c + 256 - b'0') % 256) % 2 ^ 64 in
    let later : i + suc (length cs) ≡ i + 1 + length cs = omega arith in
    rw later (ground (arith, parse_digits-Stop cs (i + 1) v'))

-- A result of `ParseUint b`: a number, or -1 with one of two errors.
abbrev pub Outcome : Bytes → ℤ × Option Error → Type 0
Outcome b res =
    ((b ≢ []) × ((r : ℕ) × (res ≡ (pos r, none))))
    ⊎ ((b ≡ []) × (res ≡ (negsuc 0, some empty_int)))
    ⊎ ((b ≢ []) × (res ≡ (negsuc 0, some unexpected_trailing_char)))

parse_uint-Outcome :
    (b : Bytes) (p : Parsed) → parse_digits b 0 0 ≡ p → Stop (length b) p → Outcome b (parse_uint b)
unfolding parse_uint
parse_uint-Outcome [] p e st = inr (inl (refl, refl))
parse_uint-Outcome (c ∷ cs) (pos r, n, none) e st = elim (Bool-cases (n == suc (length cs))) [
  | inl at_end ↦ inl (cons-ne-nil c cs, (r, ground arith))
  | inr early ↦ inr (inr (cons-ne-nil c cs, ground arith))
]
parse_uint-Outcome (c ∷ cs) (negsuc k, n, some err) e st =
    inr (inr (cons-ne-nil c cs, ground arith))
parse_uint-Outcome (c ∷ cs) (pos r, n, some err) e st = absurd st
parse_uint-Outcome (c ∷ cs) (negsuc k, n, none) e st = absurd st

-- The results of `ParseUint`: on the empty input -1 with its error, and on any other either a number
-- without an error, or -1 with the error of a trailing character, whatever went wrong in the loop.
pub parse_uint_failures : (b : Bytes) → Outcome b (parse_uint b)
parse_uint_failures b =
    let start : 0 + length b ≡ length b = omega arith in
    parse_uint-Outcome b _ refl (rw start at (parse_digits-Stop b 0 0))

value-append : (ds : Bytes) (c v : ℕ) → value v (ds ++ c ∷ []) ≡ 10 * value v ds + (c - b'0')
value-append [] c v = refl
value-append (d ∷ ds) c v = value-append ds c (10 * v + (d - b'0'))

-- The overflow test compares the wrapped sum with the value before the last digit. Where it
-- wraps around to a larger number the text is accepted, with the wrong value.
pub parse_uint_wraps :
    (ds : Bytes) (c : ℕ)
    → All IsDigit ds
    → IsDigit c
    → value 0 ds < 2 ^ 63
    → 2 ^ 64 ≤ value 0 (ds ++ c ∷ [])
    → value 0 ds ≤ value 0 (ds ++ c ∷ []) % 2 ^ 64
    → value 0 (ds ++ c ∷ []) % 2 ^ 64 < 2 ^ 63
    → (parse_uint (ds ++ c ∷ []) ≡ (pos (value 0 (ds ++ c ∷ []) % 2 ^ 64), none))
      × (value 0 (ds ++ c ∷ []) % 2 ^ 64 ≢ value 0 (ds ++ c ∷ []))
unfolding parse_digits
parse_uint_wraps ds c hs hc fits over above below =
    let whole = value-append ds c 0 in
    (
      parse_uint-read _ _ (concat-ne-nil c ds)
          (parse_digits-append ds (c ∷ []) 0 0 hs fits ∙ ground (arith, length-append ds (c ∷ []))),
      omega arith,
    )
