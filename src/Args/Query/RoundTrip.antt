-- ===== src/Args/Query/RoundTrip.antt =====
-- Parsing a printed query string gives the pairs back.
use hertz_study.Base.{
  ℕ, zero, suc, ◌<◌, ◌≡◌, ◌≢◌, ◌⊎◌, inl, inr, refl, sym, ap, ◌∙◌, Bool, true, false, List, [], ◌∷◌,
  ◌++◌, some, Bytes, All, length, length-append, if◌then◌else◌, arith, append_assoc, append-nil,
  Bool-cases,
}
use mathlib.Core.List.{cons-ne-nil}
use hertz_study.Bytesconv.Quote.{percent, quoted_arg_byte}
use hertz_study.Args.Store.{ArgsKv}
use hertz_study.Args.Query.{
  Args, next, blank, nonempty, parse_loop, parse_bytes, reset, query_string,
}
use hertz_study.Args.Query.Print.{IsPair, text, render, append_bytes-render, next-text, pair}
use hertz_study.Args.Decode.Laws.{quoted_arg}

pub parse_loop-step :
    (fuel : ℕ) (kv : ArgsKv) (args : List ArgsKv) (b : Bytes) {kv' : ArgsKv} {rest : Bytes}
    → next kv b ≡ some (kv', rest)
    → parse_loop (suc fuel) kv args b ≡ (
        if nonempty kv'
        then parse_loop fuel blank (args ++ kv' ∷ []) rest
        else parse_loop fuel kv' args rest)
unfolding parse_loop
parse_loop-step fuel kv args b e = rw (e, parse_loop)

pub parse_loop-end :
    (fuel : ℕ) (kv : ArgsKv) (args : List ArgsKv) → parse_loop (suc fuel) kv args [] ≡ some args
unfolding parse_loop next
parse_loop-end fuel kv args = refl

parse_loop-over :
    (fuel : ℕ) (kv : ArgsKv) (args : List ArgsKv)
    → 0 < fuel
    → parse_loop fuel kv args [] ≡ some args
parse_loop-over zero kv args h = absurd (omega arith)
parse_loop-over (suc fuel) kv args h = parse_loop-end fuel kv args

nil-or-not : (xs : Bytes) → (xs ≡ []) ⊎ ((xs ≢ []) × (0 < length xs))
nil-or-not [] = inl refl
nil-or-not (x ∷ xs) = inr (cons-ne-nil x xs, omega arith)

append-cons-ne-nil : (xs ys : Bytes) (y : ℕ) → xs ++ y ∷ ys ≢ []
append-cons-ne-nil [] ys y = cons-ne-nil y ys
append-cons-ne-nil (x ∷ xs) ys y = cons-ne-nil x _

quoted_arg-ne-nil : (c : ℕ) (src rest : Bytes) → quoted_arg (c ∷ src) ++ rest ≢ []
unfolding quoted_arg_byte percent
quoted_arg-ne-nil c src rest = ground arith

-- A pair that is not empty prints to some text.
pair-text-ne-nil :
    (key value : Bytes) (no_value : Bool)
    → IsPair (pair key value no_value)
    → nonempty (pair key value no_value) ≡ true
    → text (pair key value no_value) ≢ []
pair-text-ne-nil (c ∷ key) value no_value p h = quoted_arg-ne-nil c key _
pair-text-ne-nil [] (c ∷ value) true p h = absurd (cons-ne-nil c value (p.no_value_empty refl))
pair-text-ne-nil [] (c ∷ value) false p h = cons-ne-nil _ _
pair-text-ne-nil [] [] no_value p h = ground arith

-- The pairs that a query string can show.
abbrev pub kept : List ArgsKv → List ArgsKv
kept [] = []
kept (kv ∷ args) = if nonempty kv then kv ∷ kept args else kept args

parse_loop-last :
    (fuel : ℕ) (stale kv : ArgsKv) (done : List ArgsKv)
    → IsPair kv
    → length (text kv) < suc fuel
    → parse_loop (suc fuel) stale done (text kv) ≡ some (done ++ kept (kv ∷ []))
parse_loop-last fuel stale kv done p h = elim (nil-or-not (text kv)) [
  | inl empty ↦
      ap (parse_loop (suc fuel) stale done) empty
      ∙ parse_loop-end fuel stale done
      ∙ ap some (elim (Bool-cases (nonempty kv)) [
        | inl shown ↦ absurd (pair-text-ne-nil kv.key kv.value kv.no_value p shown empty)
        | inr hidden ↦ rw hidden (sym (append-nil done))
      ])
  | inr (ne, some_bytes) ↦
      let bare = append-nil (text kv) in
      let read = next-text stale kv [] [] p (inl (refl, refl)) (λ e. ne (sym bare ∙ e)) in
      parse_loop-step fuel stale done (text kv) (ap (next stale) (sym bare) ∙ read)
      ∙ elim (Bool-cases (nonempty kv)) [
        | inl shown ↦ rw shown (parse_loop-over fuel blank _ (omega arith))
        | inr hidden ↦
            rw hidden (parse_loop-over fuel kv done (omega arith) ∙ ap some (sym (append-nil done)))
      ]
]

parse_loop-render :
    (args : List ArgsKv) (fuel : ℕ) (stale : ArgsKv) (done : List ArgsKv)
    → All IsPair args
    → length (render args) < fuel
    → parse_loop fuel stale done (render args) ≡ some (done ++ kept args)
parse_loop-render args zero stale done p h = absurd (omega arith)
parse_loop-render [] (suc fuel) stale done p h =
    parse_loop-end fuel stale done ∙ ap some (sym (append-nil done))
parse_loop-render (kv ∷ []) (suc fuel) stale done (p, _) h = parse_loop-last fuel stale kv done p h
parse_loop-render (kv ∷ kv' ∷ args) (suc fuel) stale done (p, ps) h =
    let read =
      next-text stale kv (b'&' ∷ render (kv' ∷ args)) (render (kv' ∷ args)) p (inr refl)
        (append-cons-ne-nil (text kv) _ b'&') in
    let lengths = length-append (text kv) (b'&' ∷ render (kv' ∷ args)) in
    parse_loop-step fuel stale done _ read ∙ elim (Bool-cases (nonempty kv)) [
      | inl yes_kept ↦ rw yes_kept (
          parse_loop-render (kv' ∷ args) fuel blank (done ++ kv ∷ []) ps (omega (arith, lengths))
          ∙ ap some (append_assoc done (kv ∷ []) (kept (kv' ∷ args))))
      | inr empty ↦
          rw empty (parse_loop-render (kv' ∷ args) fuel kv done ps (omega (arith, lengths)))
    ]

-- What is printed for a list of pairs is parsed as the same list, without the pairs that have
-- neither a key nor a value. `ParseBytes` takes the place of whatever the `Args` held.
pub parse_bytes-query_string :
    (a b : Args)
    → All IsPair a.args
    → parse_bytes b (query_string a).1 ≡ some (record b { args = kept a.args })
unfolding parse_bytes query_string reset
parse_bytes-query_string a b h =
    let printed = append_bytes-render a.args [] in
    let read = parse_loop-render a.args (suc (length (render a.args))) blank [] h (omega arith) in
    rw (printed, read, parse_bytes)
