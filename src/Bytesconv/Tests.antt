-- ===== src/Bytesconv/Tests.antt =====
-- Runs of the internal/bytesconv model, and the theorems at inputs that meet their hypotheses.
use hertz_study.Base.{
  ◌^◌, ◌%◌, ◌<◌, ◌≤◌, ◌≡◌, ◌≢◌, refl, [], ◌∷◌, ◌++◌, none, some, Bytes, All, length, codes, arith,
}
use mathlib.Core.List.{cons-ne-nil}
use hertz_study.Base.Int.{pos, negsuc}
use hertz_study.Bytesconv.Errors.{too_large_hex_num}
use hertz_study.Bytesconv.Decimal.{append_uint, parse_uint}
use hertz_study.Bytesconv.Decimal.Parse.{
  IsDigit, value, Outcome, parse_uint_complete, parse_uint_sound, parse_uint_failures,
  parse_uint_wraps,
}
use hertz_study.Bytesconv.Decimal.RoundTrip.{parse_uint-append_uint}
use hertz_study.Bytesconv.Lookup.{
  hex2int, hex_value, lower, lower_rule, upper, upper_rule, arg_should_escape, arg_rule,
  path_should_escape, path_rule, tables_lem,
}
use hertz_study.Bytesconv.Hex.{Writer, write_hex_int, read_hex_int}
use hertz_study.Bytesconv.Hex.RoundTrip.{read_hex_int-limit}

printed : append_uint [] (pos 1234) ≡ some (codes "1234")
unfolding append_uint
printed = refl

accepted : parse_uint (codes "007") ≡ (pos 7, none)
unfolding parse_uint
accepted = refl

parse_uint-append_uint_example :
    (digits : Bytes) × (append_uint [] (pos 42) ≡ some ([] ++ digits))
    × (length digits ≤ 20)
    × (parse_uint digits ≡ (pos 42, none))
parse_uint-append_uint_example = parse_uint-append_uint 42 [] (omega arith)

parse_uint_complete_example : parse_uint (codes "42") ≡ (pos (value 0 (codes "42")), none)
parse_uint_complete_example =
    parse_uint_complete (codes "42") (cons-ne-nil _ _) (omega arith) (omega arith)

parse_uint_sound_example :
    (codes "007" ≢ [])
    × All IsDigit (codes "007")
    × (7 < 2 ^ 63)
    × (7 ≡ value 0 (codes "007") % 2 ^ 64)
parse_uint_sound_example = parse_uint_sound (codes "007") (omega arith) accepted

parse_uint_failures_example : Outcome (codes "1x") (parse_uint (codes "1x"))
parse_uint_failures_example = parse_uint_failures (codes "1x")

-- 45000000000000000000 is read as 8106511852580896768.
parse_uint_wraps_example :
    (parse_uint (codes "4500000000000000000" ++ b'0' ∷ [])
      ≡ (pos (value 0 (codes "4500000000000000000" ++ b'0' ∷ []) % 2 ^ 64), none))
    × (value 0 (codes "4500000000000000000" ++ b'0' ∷ []) % 2 ^ 64
        ≢ value 0 (codes "4500000000000000000" ++ b'0' ∷ []))
parse_uint_wraps_example =
    parse_uint_wraps (codes "4500000000000000000") b'0' (omega arith) (omega arith) (omega arith)
      (omega arith) (omega arith) (omega arith)

abbrev sink : Writer
sink = record { out = []; malloc_error = none }

read_hex_int-limit_example :
    (digits : Bytes) × (write_hex_int sink (pos (2 ^ 60))
      ≡ some (record sink { out = sink.out ++ digits }, none))
    × (read_hex_int (record { unread = digits ++ []; end_error = 0 })
        ≡ (negsuc 0, some too_large_hex_num, record { unread = []; end_error = 0 }))
read_hex_int-limit_example = read_hex_int-limit (2 ^ 60) sink [] 0 refl (omega arith) (omega arith)

tables_lem_example :
    (hex2int b'f' ≡ hex_value b'f')
    × (lower b'f' ≡ lower_rule b'f')
    × (upper b'f' ≡ upper_rule b'f')
    × (arg_should_escape b'f' ≡ arg_rule b'f')
    × (path_should_escape b'f' ≡ path_rule b'f')
tables_lem_example = tables_lem b'f' (omega arith)
