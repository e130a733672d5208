-- ===== src/Args/Query.antt =====
-- `argsScanner.next`, `Args.ParseBytes`, `Args.AppendBytes` and the other methods of `Args` in
-- pkg/protocol/args.go, with `copyArgs` of pkg/protocol/uri.go.
pub mod Print
pub mod RoundTrip
pub mod Total
use hertz_study.Base.{
  ℕ, zero, suc, ◌+◌, Bool, true, false, not, ◌&&◌, ◌||◌, List, [], ◌∷◌, ◌++◌, Option, none, some,
  Bytes, length, ltb, ◌==◌, if◌then◌else◌,
}
use hertz_study.Bytesconv.Quote.{append_quoted_arg}
use hertz_study.Args.Decode.{decode_arg}
use hertz_study.Args.Store.{
  ArgsKv, args_no_value, args_has_value, append_arg, set_arg, peek_arg, peek_arg_exists,
  peek_all_args_to_dst, has_arg, del_all_args,
}

-- The loop of `next`. `before` is `s.b[:i]` while `is_key` holds, and `s.b[k:i]` after it; the
-- result is the pair and the input behind its `&`.
unfoldable pub scan : ArgsKv → Bool → Bytes → Bytes → ArgsKv × Bytes
scan kv is_key before [] = (
  if is_key
      then record { key = decode_arg [] before; value = []; no_value = args_no_value }
      else record kv { value = decode_arg [] before },
  [],
)
scan kv is_key before (c ∷ cs) =
    let next = scan kv is_key (before ++ c ∷ []) cs in
    let at_value = scan (record kv { key = decode_arg [] before }) false [] cs in
    if c == b'=' && is_key
    then at_value
    else if c == b'&'
    then (
      if is_key
          then record { key = decode_arg [] before; value = []; no_value = args_no_value }
          else record kv { value = decode_arg [] before },
      cs,
    )
    else next

-- `next` on the slot `kv`, which may hold an earlier pair; `none` is `false`, at the end.
unfoldable pub next : ArgsKv → Bytes → Option (ArgsKv × Bytes)
unfolding scan
next kv [] = none
next kv (c ∷ cs) = some (scan (record kv { no_value = args_has_value }) true [] (c ∷ cs))

abbrev pub blank : ArgsKv
blank = record { key = []; value = []; no_value = false }

abbrev pub nonempty : ArgsKv → Bool
nonempty kv = ltb 0 (length kv.key) || ltb 0 (length kv.value)

-- The loop of `ParseBytes`, with the slot that is written next. A pair that is empty is written over
-- by the next one. `none` means that the fuel ran out.
unfoldable pub parse_loop : ℕ → ArgsKv → List ArgsKv → Bytes → Option (List ArgsKv)
parse_loop zero kv args b = none
parse_loop (suc fuel) kv args b = elim (next kv b) [
  | none ↦ some args
  | some (kv', rest) ↦
      if nonempty kv'
      then parse_loop fuel blank (args ++ kv' ∷ []) rest
      else parse_loop fuel kv' args rest
]

pub record Args : Type 0 where
  pub args : List ArgsKv
  pub buf : Bytes

unfoldable pub reset : Args → Args
reset a = record a { args = [] }

-- Every call of `next` reads a byte, so one round more than there are bytes is enough.
unfoldable pub parse_bytes : Args → Bytes → Option Args
parse_bytes a b = elim (parse_loop (suc (length b)) blank (reset a).args b) [
  | none ↦ none
  | some args ↦ some (record a { args = args })
]

-- What one round of `AppendBytes` appends, but for the ampersand.
unfoldable pub append_kv : Bytes → ArgsKv → Bytes
append_kv dst kv =
    let dst' = append_quoted_arg dst kv.key in
    if kv.no_value
    then dst'
    else if ltb 0 (length kv.value)
    then append_quoted_arg (dst' ++ b'=' ∷ []) kv.value
    else dst' ++ b'=' ∷ []

unfoldable pub append_bytes : Bytes → List ArgsKv → Bytes
append_bytes dst [] = dst
append_bytes dst (kv ∷ []) = append_kv dst kv
append_bytes dst (kv ∷ kv' ∷ args) = append_bytes (append_kv dst kv ++ b'&' ∷ []) (kv' ∷ args)

unfoldable pub query_string : Args → Args × Bytes
unfolding append_bytes
query_string a = let buf = append_bytes [] a.args in (record a { buf = buf }, buf)

unfoldable pub set : Args → Bytes → Bytes → Args
set a key value = record a { args = set_arg a.args key value args_has_value }

unfoldable pub add : Args → Bytes → Bytes → Args
add a key value = record a { args = append_arg a.args key value args_has_value }

unfoldable pub del : Args → Bytes → Args
del a key = record a { args = del_all_args a.args key }

unfoldable pub peek : Args → Bytes → Bytes
peek a key = peek_arg a.args key

unfoldable pub peek_exists : Args → Bytes → Bytes × Bool
peek_exists a key = peek_arg_exists a.args key

unfoldable pub has : Args → Bytes → Bool
has a key = has_arg a.args key

unfoldable pub peek_all : Args → Bytes → List Bytes
peek_all a key = peek_all_args_to_dst [] a.args key

unfoldable pub len : Args → ℕ
len a = length a.args

unfoldable pub copy_args : List ArgsKv → List ArgsKv
copy_args [] = []
copy_args (kv ∷ src) = record kv { value = if kv.no_value then [] else kv.value } ∷ copy_args src

unfoldable pub copy_to : Args → Args → Args
unfolding copy_args
copy_to a dst = record (reset dst) { args = copy_args a.args }
