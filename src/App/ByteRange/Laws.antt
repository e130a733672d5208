-- ===== src/App/ByteRange/Laws.antt =====
-- What `ParseByteRange` of pkg/app/fs.go returns.
use hertz_study.Base.{
  ℕ, zero, suc, ◌+◌, ◌≤◌, ◌<◌, ◌≡◌, [], ◌∷◌, Option, none, some, inl, inr, Bytes, length, drop,
  ◌==◌, Bool-cases, arith,
}
use hertz_study.Base.Int.{ℤ, pos, negsuc}
use hertz_study.Bytesconv.Errors.{Error}
use hertz_study.Bytesconv.Decimal.{parse_uint}
use hertz_study.Bytesconv.Decimal.Parse.{parse_uint_failures}
use hertz_study.Route.Text.{starts_with}
use hertz_study.App.ByteRange.{
  Ranged, ranged, failed, units, cut, suffix, up_to, from_start, around_dash, after_units,
  parse_byte_range,
}

-- The positions `i` to `j` of `n` bytes: none of them where `i` is `j + 1`.
abbrev pub InContent : ℕ → Ranged → Type 0
InContent n (failed e) = Unit
InContent n (ranged (pos i) (pos j)) = (i ≤ j + 1) × (j < n)
InContent n (ranged (pos i) (negsuc k)) = (i ≡ 0) × (k ≡ 0) × (n ≡ 0)
InContent n (ranged (negsuc i) end_pos) = ⊥

-- What `ParseUint` gives: a number, or an error.
abbrev Counted : ℤ × Option Error → Type 0
Counted (pos v, none) = Unit
Counted (negsuc v, none) = ⊥
Counted (v, some err) = Unit

parse_uint-Counted : (b : Bytes) → Counted (parse_uint b)
parse_uint-Counted b = elim (parse_uint_failures b) [
  | inl (some_byte, (r, is)) ↦ rw is tt
  | inr (inl (empty, is)) ↦ rw is tt
  | inr (inr (some_byte, is)) ↦ rw is tt
]

suffix-InContent : (p : ℤ × Option Error) (n : ℕ) → Counted p → InContent n (suffix p n)
unfolding suffix
suffix-InContent (v, some err) n counted = tt
suffix-InContent (pos v, none) zero counted = omega arith
suffix-InContent (pos v, none) (suc n) counted = omega arith
suffix-InContent (negsuc v, none) n counted = absurd counted

up_to-InContent :
    (i : ℕ) (p : ℤ × Option Error) (n : ℕ) → i < n → Counted p → InContent n (up_to (pos i) p n)
unfolding up_to
up_to-InContent i (v, some err) n inside counted = tt
up_to-InContent i (pos v, none) zero inside counted = ground arith
up_to-InContent i (pos v, none) (suc n) inside counted = ground arith
up_to-InContent i (negsuc v, none) n inside counted = absurd counted

from_start-InContent :
    (p : ℤ × Option Error) (b : Bytes) (n : ℕ) → Counted p → InContent n (from_start p b n)
unfolding from_start
from_start-InContent (v, some err) b n counted = tt
from_start-InContent (negsuc v, none) b n counted = absurd counted
from_start-InContent (pos v, none) [] zero counted = ground arith
from_start-InContent (pos v, none) [] (suc n) counted = ground arith
from_start-InContent (pos v, none) (c ∷ b) n counted =
    ground (arith, up_to-InContent v (parse_uint (c ∷ b)) n, parse_uint-Counted (c ∷ b))

around_dash-InContent : (p : Option (Bytes × Bytes)) (n : ℕ) → InContent n (around_dash p n)
unfolding around_dash
around_dash-InContent none n = tt
around_dash-InContent (some ([], b)) n = suffix-InContent (parse_uint b) n (parse_uint-Counted b)
around_dash-InContent (some (c ∷ first, b)) n =
    from_start-InContent (parse_uint (c ∷ first)) b n (parse_uint-Counted (c ∷ first))

after_units-InContent : (b : Bytes) (n : ℕ) → InContent n (after_units b n)
unfolding after_units
after_units-InContent [] n = tt
after_units-InContent (c ∷ b) n = elim (Bool-cases (c == b'=')) [
  | inl is ↦ rw is (around_dash-InContent (cut b) n)
  | inr is_not ↦ rw is_not tt
]

-- Whatever the header, `ParseByteRange` for a file of `n` bytes returns an error, or positions
-- from a start that is not negative to an end below `n`, where the start is at most one behind the
-- end; for an empty file the end may be -1, with the start 0.
pub parse_byte_range-InContent : (b : Bytes) (n : ℕ) → InContent n (parse_byte_range b n)
unfolding parse_byte_range
parse_byte_range-InContent b n = elim (Bool-cases (starts_with units b)) [
  | inl is ↦ rw is (after_units-InContent (drop (length units) b) n)
  | inr is_not ↦ rw is_not tt
]
