-- ===== src/App/ByteRange/Forms.antt =====
-- The three forms of a range that `ParseByteRange` of pkg/app/fs.go reads.
use hertz_study.Base.{
  ℕ, zero, suc, false, ◌-◌, ◌^◌, ◌≤◌, ◌<◌, ◌≡◌, refl, ◌≢◌, ap, ◌∙◌, [], ◌∷◌, ◌++◌, none, some,
  Bytes, All, leb, ◌==◌, if◌then◌else◌, arith,
}
use hertz_study.Base.Int.{pos}
use hertz_study.Bytesconv.Decimal.{parse_uint}
use hertz_study.Bytesconv.Decimal.Parse.{IsDigit, value, parse_uint_complete}
use hertz_study.Route.Text.{starts_with}
use hertz_study.App.ByteRange.{
  ranged, units, last_pos, cons_cut, cut, suffix, up_to, from_start, around_dash, after_units,
  parse_byte_range,
}

cut-digits : (ds es : Bytes) → All IsDigit ds → cut (ds ++ b'-' ∷ es) ≡ some (ds, es)
unfolding cut
cut-digits [] es digits = refl
cut-digits (d ∷ ds) es (digit, digits) =
    let not_dash : (d == b'-') ≡ false = ground arith in
    rw not_dash (ap (cons_cut d) (cut-digits ds es digits))

parse_byte_range-cut :
    (b : Bytes) (n : ℕ) → parse_byte_range (units ++ b'=' ∷ b) n ≡ around_dash (cut b) n
unfolding parse_byte_range starts_with after_units
parse_byte_range-cut b n = refl

-- The header of a range.
abbrev pub range_header : Bytes → Bytes → Bytes
range_header ds es = units ++ b'=' ∷ (ds ++ b'-' ∷ es)

range_header-dash :
    (ds es : Bytes) (n : ℕ)
    → All IsDigit ds
    → parse_byte_range (range_header ds es) n ≡ around_dash (some (ds, es)) n
range_header-dash ds es n digits =
    parse_byte_range-cut (ds ++ b'-' ∷ es) n ∙ ap (λ p. around_dash p n) (cut-digits ds es digits)

abbrev pub Spelled : Bytes → Type 0
Spelled ds = (ds ≢ []) × All IsDigit ds × (value 0 ds < 2 ^ 63)

parse_uint-Spelled : (ds : Bytes) → Spelled ds → parse_uint ds ≡ (pos (value 0 ds), none)
parse_uint-Spelled ds (some_digit, digits, fits) = parse_uint_complete ds some_digit digits fits

last_bytes :
    (es : Bytes) (n : ℕ)
    → Spelled es
    → parse_byte_range (range_header [] es) n ≡ ranged (pos (n - value 0 es)) (last_pos n)
unfolding around_dash suffix
last_bytes es n spelled =
    range_header-dash [] es n tt ∙ ap (λ p. suffix p n) (parse_uint-Spelled es spelled)

from_byte :
    (d : ℕ) (ds : Bytes) (n : ℕ)
    → Spelled (d ∷ ds)
    → value 0 (d ∷ ds) < n
    → parse_byte_range (range_header (d ∷ ds) []) n ≡ ranged (pos (value 0 (d ∷ ds))) (last_pos n)
unfolding around_dash from_start
from_byte d ds n spelled inside =
    range_header-dash (d ∷ ds) [] n spelled.1
    ∙ ap (λ p. from_start p [] n) (parse_uint-Spelled (d ∷ ds) spelled)
    ∙ ground arith

between_bytes :
    (d : ℕ) (ds : Bytes) (e : ℕ) (es : Bytes) (n : ℕ)
    → Spelled (d ∷ ds)
    → Spelled (e ∷ es)
    → value 0 (d ∷ ds) < n
    → value 0 (d ∷ ds) ≤ value 0 (e ∷ es)
    → parse_byte_range (range_header (d ∷ ds) (e ∷ es)) n
      ≡ ranged
          (pos (value 0 (d ∷ ds)))
          (if leb n (value 0 (e ∷ es)) then last_pos n else pos (value 0 (e ∷ es)))
unfolding around_dash from_start up_to
between_bytes d ds e es zero spelled spelled' inside ordered = elim inside [ ]
between_bytes d ds e es (suc n) spelled spelled' inside ordered =
    range_header-dash (d ∷ ds) (e ∷ es) (suc n) spelled.1
    ∙ ap (λ p. from_start p (e ∷ es) (suc n)) (parse_uint-Spelled (d ∷ ds) spelled)
    ∙ rw (parse_uint-Spelled (e ∷ es) spelled') (ground arith)

-- Take two texts `ds` and `es` of digits, each with a digit, whose numbers fit in an int, where the
-- number of `ds` is below the size `n` of the file and not above that of `es`. Then
-- `ParseByteRange` reads `bytes=-es` as the last bytes of the file, as many as `es` says or all
-- where there are fewer, `bytes=ds-` as the bytes from the number of `ds` to the end of the file,
-- and `bytes=ds-es` as those from it to the number of `es`, or to the end of the file where that
-- comes first.
pub parse_byte_range_forms :
    (ds es : Bytes) (n : ℕ)
    → Spelled ds
    → Spelled es
    → value 0 ds < n
    → value 0 ds ≤ value 0 es
    → (parse_byte_range (range_header [] es) n ≡ ranged (pos (n - value 0 es)) (last_pos n))
      × (parse_byte_range (range_header ds []) n ≡ ranged (pos (value 0 ds)) (last_pos n))
      × (parse_byte_range (range_header ds es) n
          ≡ ranged (pos (value 0 ds)) (if leb n (value 0 es) then last_pos n else pos (value 0 es)))
parse_byte_range_forms [] es n spelled spelled' inside ordered = absurd (spelled.0 refl)
parse_byte_range_forms (d ∷ ds) [] n spelled spelled' inside ordered = absurd (spelled'.0 refl)
parse_byte_range_forms (d ∷ ds) (e ∷ es) n spelled spelled' inside ordered = (
  last_bytes (e ∷ es) n spelled',
  from_byte d ds n spelled inside,
  between_bytes d ds e es n spelled spelled' inside ordered,
)
