-- ===== src/App/ByteRange/Tests.antt =====
-- Runs of `ParseByteRange` of pkg/app/fs.go, and the theorems at inputs that meet their hypotheses.
use mathlib.Core.List.{cons-ne-nil}
use hertz_study.Base.{◌-◌, ◌≡◌, refl, [], leb, codes, if◌then◌else◌, arith}
use hertz_study.Base.Int.{pos, negsuc}
use hertz_study.Bytesconv.Decimal.{parse_uint}
use hertz_study.Bytesconv.Decimal.Parse.{value}
use hertz_study.Route.Text.{starts_with}
use hertz_study.App.ByteRange.{
  ranged, failed, unsupported_units, missing_range, missing_end, start_beyond_content,
  start_beyond_end, last_pos, cut, suffix, up_to, from_start, around_dash, after_units,
  parse_byte_range,
}
use hertz_study.App.ByteRange.Forms.{range_header, parse_byte_range_forms}
use hertz_study.App.ByteRange.Laws.{InContent, parse_byte_range-InContent}

other_units : parse_byte_range (codes "lines=2-5") 9 ≡ failed unsupported_units
unfolding parse_byte_range starts_with
other_units = refl

no_equals : parse_byte_range (codes "bytes 2-5") 9 ≡ failed missing_range
unfolding parse_byte_range starts_with after_units
no_equals = refl

no_dash : parse_byte_range (codes "bytes=2") 9 ≡ failed missing_end
unfolding parse_byte_range starts_with after_units around_dash cut
no_dash = refl

behind_content : parse_byte_range (codes "bytes=9-") 9 ≡ failed start_beyond_content
unfolding parse_byte_range starts_with after_units around_dash cut from_start parse_uint
behind_content = refl

reversed : parse_byte_range (codes "bytes=5-2") 9 ≡ failed start_beyond_end
unfolding parse_byte_range starts_with after_units around_dash cut from_start up_to parse_uint
reversed = refl

-- No byte from the end is accepted, with a start behind the end.
no_last_byte : parse_byte_range (codes "bytes=-0") 9 ≡ ranged (pos 9) (pos 8)
unfolding parse_byte_range starts_with after_units around_dash cut suffix parse_uint
no_last_byte = refl

empty_file : parse_byte_range (codes "bytes=-5") 0 ≡ ranged (pos 0) (negsuc 0)
unfolding parse_byte_range starts_with after_units around_dash cut suffix parse_uint
empty_file = refl

parse_byte_range-InContent_example : InContent 9 (parse_byte_range (codes "bytes=2-50") 9)
parse_byte_range-InContent_example = parse_byte_range-InContent (codes "bytes=2-50") 9

parse_byte_range_forms_example :
    (parse_byte_range (range_header [] (codes "50")) 9
      ≡ ranged (pos (9 - value 0 (codes "50"))) (last_pos 9))
    × (parse_byte_range (range_header (codes "2") []) 9
        ≡ ranged (pos (value 0 (codes "2"))) (last_pos 9))
    × (parse_byte_range (range_header (codes "2") (codes "50")) 9
        ≡ ranged
            (pos (value 0 (codes "2")))
            (if leb 9 (value 0 (codes "50")) then last_pos 9 else pos (value 0 (codes "50"))))
parse_byte_range_forms_example =
    parse_byte_range_forms (codes "2") (codes "50") 9
      (cons-ne-nil _ _, (omega arith, tt), omega arith)
      (cons-ne-nil _ _, ((omega arith), (omega arith, tt)), omega arith) (omega arith) (omega arith)
