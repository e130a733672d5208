-- ===== src/Args/Query/Total.antt =====
-- `ParseBytes` comes to an end on every input, and what it stores can be printed.
use hertz_study.Base.{
  ℕ, zero, suc, ◌-◌, ◌≤◌, ◌<◌, ◌≡◌, refl, ap, ◌∙◌, Bool, true, false, ◌&&◌, List, [], ◌∷◌, ◌++◌,
  some, Bytes, All, All-append, length, ◌==◌, arith, Bool-cases, inl, inr,
}
use mathlib.Core.List.{cons-ne-nil}
use hertz_study.Bytesconv.Decimal.Parse.{IsByte}
use hertz_study.Args.Decode.{decode_arg}
use hertz_study.Args.Decode.Range.{decode_arg-IsByte}
use hertz_study.Args.Store.{ArgsKv}
use hertz_study.Args.Query.{
  Args, scan, blank, nonempty, parse_loop, parse_bytes, reset, query_string,
}
use hertz_study.Args.Query.Print.{IsPair, pair, next-scan}
use hertz_study.Args.Query.RoundTrip.{
  kept, parse_bytes-query_string, parse_loop-step, parse_loop-end,
}

-- The input that `scan` leaves is shorter than what it was given.
scan-shorter :
    (b : Bytes) (kv : ArgsKv) (is_key : Bool) (before : Bytes)
    → length (scan kv is_key before b).1 ≤ length b - 1
unfolding scan
scan-shorter [] kv is_key before = omega arith
scan-shorter (c ∷ cs) kv is_key before = ground (
  arith,
  scan-shorter cs kv is_key (before ++ c ∷ []),
  scan-shorter cs (record kv { key = decode_arg [] before }) false [],
)

-- What `scan` knows of the pair behind the equals sign.
abbrev Started : ArgsKv → Bool → Type 0
Started kv true = Unit
Started kv false = All IsByte kv.key × (kv.no_value ≡ false)

key-IsPair : (before : Bytes) → All IsByte before → IsPair (pair (decode_arg [] before) [] true)
key-IsPair before h = record {
  key_bytes = decode_arg-IsByte [] before tt h;
  value_bytes = tt;
  no_value_empty = λ _. refl;
}

value-IsPair :
    (kv : ArgsKv) (before : Bytes)
    → All IsByte kv.key
    → kv.no_value ≡ false
    → All IsByte before
    → IsPair (record kv { value = decode_arg [] before })
value-IsPair kv before hk has_value h = record {
  key_bytes = hk;
  value_bytes = decode_arg-IsByte [] before tt h;
  no_value_empty = λ no. cc;
}

scan-value_amp :
    (c : ℕ) (cs : Bytes) (kv : ArgsKv) (before : Bytes)
    → (c == b'&') ≡ true
    → IsPair (record kv { value = decode_arg [] before })
    → IsPair (scan kv false before (c ∷ cs)).0
unfolding scan
scan-value_amp c cs kv before f h = elim (Bool-cases (c == b'=')) [
  | inl e ↦ rw (e, f) h
  | inr e ↦ rw (e, f) h
]

scan-value_next :
    (c : ℕ) (cs : Bytes) (kv : ArgsKv) (before : Bytes)
    → (c == b'&') ≡ false
    → IsPair (scan kv false (before ++ c ∷ []) cs).0
    → IsPair (scan kv false before (c ∷ cs)).0
unfolding scan
scan-value_next c cs kv before f h = elim (Bool-cases (c == b'=')) [
  | inl e ↦ rw (e, f) h
  | inr e ↦ rw (e, f) h
]

scan-IsPair :
    (b : Bytes) (kv : ArgsKv) (is_key : Bool) (before : Bytes)
    → All IsByte b
    → All IsByte before
    → Started kv is_key
    → (is_key ≡ true → kv.no_value ≡ false)
    → IsPair (scan kv is_key before b).0
unfolding scan
scan-IsPair [] kv true before hb h st fresh = key-IsPair before h
scan-IsPair [] kv false before hb h (hk, hv) fresh = value-IsPair kv before hk hv h
scan-IsPair (c ∷ cs) kv true before (hc, hs) h st fresh = elim (Bool-cases (c == b'=')) [
  | inl e ↦
      let key = decode_arg-IsByte [] before tt h in
      rw e (
        scan-IsPair cs (record kv { key = decode_arg [] before }) false [] hs tt (key, fresh refl)
          (λ no. cc))
  | inr e ↦ elim (Bool-cases (c == b'&')) [
    | inl f ↦ rw (e, f) (key-IsPair before h)
    | inr f ↦
        let longer = All-append IsByte before (c ∷ []) h (hc, tt) in
        rw (e, f) (scan-IsPair cs kv true (before ++ c ∷ []) hs longer tt fresh)
  ]
]
scan-IsPair (c ∷ cs) kv false before (hc, hs) h (hk, hv) fresh = elim (Bool-cases (c == b'&')) [
  | inl f ↦ scan-value_amp c cs kv before f (value-IsPair kv before hk hv h)
  | inr f ↦
      let longer = All-append IsByte before (c ∷ []) h (hc, tt) in
      let ih = scan-IsPair cs kv false (before ++ c ∷ []) hs longer (hk, hv) fresh in
      scan-value_next c cs kv before f ih
]

scan-rest-IsByte :
    (b : Bytes) (kv : ArgsKv) (is_key : Bool) (before : Bytes)
    → All IsByte b
    → All IsByte (scan kv is_key before b).1
unfolding scan
scan-rest-IsByte [] kv is_key before _ = tt
scan-rest-IsByte (c ∷ cs) kv is_key before (hc, hs) =
    let at_value = scan-rest-IsByte cs (record kv { key = decode_arg [] before }) false [] hs in
    let on = scan-rest-IsByte cs kv is_key (before ++ c ∷ []) hs in
    elim (Bool-cases (c == b'=' && is_key)) [
      | inl e ↦ rw e at_value
      | inr e ↦ elim (Bool-cases (c == b'&')) [ inl f ↦ rw (e, f) hs | inr f ↦ rw (e, f) on ]
    ]

-- A pair that `ParseBytes` keeps.
abbrev pub IsKept : ArgsKv → Type 0
IsKept kv = IsPair kv × (nonempty kv ≡ true)

parse_loop-total :
    (fuel : ℕ) (stale : ArgsKv) (args : List ArgsKv) (b : Bytes)
    → length b < fuel
    → All IsByte b
    → All IsKept args
    → (r : List ArgsKv) × (parse_loop fuel stale args b ≡ some r) × All IsKept r
parse_loop-total zero stale args b h hb ha = absurd (omega arith)
parse_loop-total (suc fuel) stale args [] h hb ha = (args, parse_loop-end fuel stale args, ha)
parse_loop-total (suc fuel) stale args (c ∷ cs) h hb ha =
    let fresh = record stale { no_value = false } in
    let out = scan fresh true [] (c ∷ cs) in
    let shorter : length out.1 < fuel = omega (arith, scan-shorter (c ∷ cs) fresh true []) in
    let rest = scan-rest-IsByte (c ∷ cs) fresh true [] hb in
    let good = scan-IsPair (c ∷ cs) fresh true [] hb tt tt (λ _. refl) in
    let step =
      parse_loop-step fuel stale args (c ∷ cs) (next-scan stale (c ∷ cs) (cons-ne-nil c cs)) in
    elim (Bool-cases (nonempty out.0)) [
      | inl shown ↦
          let longer = All-append IsKept args (out.0 ∷ []) ha ((good, shown), tt) in
          let (r, e, hr) =
            parse_loop-total fuel blank (args ++ out.0 ∷ []) out.1 shorter rest longer in
          (r, step ∙ rw shown e, hr)
      | inr hidden ↦
          let (r, e, hr) = parse_loop-total fuel out.0 args out.1 shorter rest ha in
          (r, step ∙ rw hidden e, hr)
    ]

kept-IsKept : (args : List ArgsKv) → All IsKept args → kept args ≡ args
kept-IsKept [] _ = refl
kept-IsKept (kv ∷ args) ((_, shown), h) = rw shown (ap (◌∷◌ kv) (kept-IsKept args h))

IsKept-IsPair : (args : List ArgsKv) → All IsKept args → All IsPair args
IsKept-IsPair [] _ = tt
IsKept-IsPair (kv ∷ args) ((p, _), h) = (p, IsKept-IsPair args h)

-- `ParseBytes` ends on every input. It stores pairs of bytes that have a key or a value, and no
-- value where the input has no equals sign. Printing and parsing them again changes nothing.
pub parse_bytes-total :
    (a c : Args) (b : Bytes)
    → All IsByte b
    → (parsed : Args) × (parse_bytes a b ≡ some parsed)
      × All IsKept parsed.args
      × (parse_bytes c (query_string parsed).1 ≡ some (record c { args = parsed.args }))
unfolding parse_bytes reset
parse_bytes-total a c b h =
    let (r, e, good) = parse_loop-total (suc (length b)) blank [] b (omega arith) h tt in
    let again =
      parse_bytes-query_string (record a { args = r }) c (IsKept-IsPair r good)
      ∙ ap (λ (args : List ArgsKv). some (record c { args = args })) (kept-IsKept r good) in
    (record a { args = r }, rw (e, parse_bytes), good, again)
