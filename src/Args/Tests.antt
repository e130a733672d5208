-- ===== src/Args/Tests.antt =====
-- Runs of the pkg/protocol/args.go model, and the theorems at inputs that meet their hypotheses.
use hertz_study.Base.{
  ◌≡◌, refl, true, false, [], ◌∷◌, ◌+◌, some, Bytes, All, length, codes, arith, if◌then◌else◌,
  bytes_equal,
}
use hertz_study.Bytesconv.Quote.{append_quoted_arg, append_quoted_path, quoted_arg_byte, percent}
use hertz_study.Bytesconv.Hex.{upperhex}
use hertz_study.Bytesconv.Lookup.{arg_should_escape}
use hertz_study.Args.Decode.{decode_arg, decode_arg_no_plus}
use hertz_study.Args.Decode.Laws.{
  decode_arg-append_quoted_arg, decode_arg_no_plus-append_quoted_path,
}
use hertz_study.Args.Store.{ArgsKv, set_arg, peek_arg_exists, has_arg, del_all_args}
use hertz_study.Args.Store.Laws.{set_arg_lem, stored, del_all_args_lem}
use hertz_study.Args.Query.{append_kv, Args, parse_bytes, query_string}
use hertz_study.Args.Query.Print.{IsPair}
use hertz_study.Args.Query.RoundTrip.{kept, parse_bytes-query_string}
use hertz_study.Args.Query.Total.{IsKept, parse_bytes-total}

abbrev kv : Bytes → Bytes → ArgsKv
kv key value = record { key = key; value = value; no_value = false }

abbrev flag : Bytes → ArgsKv
flag key = record { key = key; value = []; no_value = true }

abbrev sample : Args
sample = record { args = kv (codes "a b") (codes "1&2") ∷ flag (codes "x") ∷ []; buf = [] }

abbrev empty : Args
empty = record { args = []; buf = [] }

printed : (query_string sample).1 ≡ codes "a+b=1%262&x"
unfolding query_string append_kv append_quoted_arg quoted_arg_byte percent upperhex
    arg_should_escape
printed = refl

decode_arg-append_quoted_arg_example :
    decode_arg [] (append_quoted_arg [] (codes "50% + c")) ≡ codes "50% + c"
decode_arg-append_quoted_arg_example =
    decode_arg-append_quoted_arg (codes "50% + c") [] (omega arith)

decode_arg_no_plus-append_quoted_path_example :
    decode_arg_no_plus [] (append_quoted_path [] (codes "/a b?")) ≡ codes "/a b?"
decode_arg_no_plus-append_quoted_path_example =
    decode_arg_no_plus-append_quoted_path (codes "/a b?") [] (omega arith)

sample-IsPair : All IsPair sample.args
sample-IsPair = (
  record { key_bytes = omega arith; value_bytes = omega arith; no_value_empty = λ e. cc },
  (record { key_bytes = omega arith; value_bytes = tt; no_value_empty = λ e. refl }, tt),
)

parse_bytes-query_string_example :
    parse_bytes empty (query_string sample).1 ≡ some (record empty { args = kept sample.args })
parse_bytes-query_string_example = parse_bytes-query_string sample empty sample-IsPair

parse_bytes-total_example :
    (parsed : Args) × (parse_bytes empty (codes "a=1&&b") ≡ some parsed)
    × All IsKept parsed.args
    × (parse_bytes empty (query_string parsed).1 ≡ some (record empty { args = parsed.args }))
parse_bytes-total_example = parse_bytes-total empty empty (codes "a=1&&b") (omega arith)

set_arg_lem_example :
    (peek_arg_exists (set_arg sample.args (codes "x") (codes "9") false) (codes "x") ≡ (
      if bytes_equal (codes "x") (codes "x")
      then (stored false (codes "9"), true)
      else peek_arg_exists sample.args (codes "x")))
    × (length (set_arg sample.args (codes "x") (codes "9") false)
        ≡ (if has_arg sample.args (codes "x") then 0 else 1) + length sample.args)
    × (del_all_args (set_arg sample.args (codes "x") (codes "9") false) (codes "x")
        ≡ del_all_args sample.args (codes "x"))
set_arg_lem_example = set_arg_lem sample.args (codes "x") (codes "9") false (codes "x")

del_all_args_lem_example : peek_arg_exists (del_all_args sample.args (codes "x")) (codes "a b") ≡ (
    if bytes_equal (codes "x") (codes "a b")
    then ([], false)
    else peek_arg_exists sample.args (codes "a b"))
del_all_args_lem_example = del_all_args_lem sample.args (codes "x") (codes "a b")
