-- ===== src/Args/Query/Print.antt =====
-- What `AppendBytes` prints for a pair, and how `next` scans it.
use hertz_study.Base.{
  ℕ, suc, ◌/◌, ◌%◌, ◌<◌, ◌≡◌, ◌≢◌, ◌⊎◌, inl, inr, refl, sym, ap, ap₂, ◌∙◌, bit_and, bit_and_fifteen,
  Bool, true, false, not, ◌&&◌, List, [], ◌∷◌, ◌++◌, some, Bytes, All, All-append, length, ltb,
  ◌==◌, if◌then◌else◌, arith, append_assoc, append-nil, Bool-cases, all_below, all_below_sound,
  get_or,
}
use hertz_study.Bytesconv.Decimal.Parse.{IsByte}
use hertz_study.Bytesconv.Hex.{upperhex}
use hertz_study.Bytesconv.Lookup.{arg_should_escape, arg_should_escape_lem}
use hertz_study.Bytesconv.Quote.{percent, quoted_arg_byte}
use hertz_study.Args.Decode.{decode_arg}
use hertz_study.Args.Decode.Laws.{
  quoted_arg, append_quoted_arg-quoted_arg, decode_arg-append_quoted_arg,
}
use hertz_study.Args.Store.{ArgsKv}
use hertz_study.Args.Query.{scan, next, append_kv, append_bytes}

-- A byte that ends neither a key nor a value.
abbrev pub Inert : ℕ → Type 0
Inert c = (c ≢ b'=') × (c ≢ b'&')

scan-Inert :
    (kv : ArgsKv) (is_key : Bool) (before p rest : Bytes)
    → All Inert p
    → scan kv is_key before (p ++ rest) ≡ scan kv is_key (before ++ p) rest
unfolding scan
scan-Inert kv is_key before [] rest _ =
    ap (λ (t : Bytes). scan kv is_key t rest) (sym (append-nil before))
scan-Inert kv is_key before (c ∷ p) rest (h, hs) =
    ground
      (arith, scan-Inert kv is_key (before ++ c ∷ []) p rest hs, append_assoc before (c ∷ []) p)

hex_check :
    all_below 16 (λ x. not (get_or upperhex x 0 == b'=') && not (get_or upperhex x 0 == b'&'))
    ≡ true
unfolding all_below upperhex
hex_check = refl

hex-Inert : (x : ℕ) → x < 16 → Inert (get_or upperhex x 0)
hex-Inert x h = ground (arith, all_below_sound 16 _ x hex_check h)

percent-Inert : (c : ℕ) → c < 256 → All Inert (percent c)
unfolding percent
percent-Inert c h =
    let low : Inert (get_or upperhex (bit_and c 15) 0) =
      rw (bit_and_fifteen c) (hex-Inert (c % 16) (omega arith)) in
    ((omega arith, omega arith), (hex-Inert (c / 16) (omega arith), (low, tt)))

kept-Inert : (c : ℕ) → c < 256 → (arg_should_escape c == 0) ≡ true → Inert c
kept-Inert c h kept = ground (arith, arg_should_escape_lem c h)

quoted_arg_byte-Inert : (c : ℕ) → c < 256 → All Inert (quoted_arg_byte c)
unfolding quoted_arg_byte
quoted_arg_byte-Inert c h = elim (Bool-cases (c == b' ')) [
  | inl space ↦ rw space ((omega arith, omega arith), tt)
  | inr other ↦ elim (Bool-cases (arg_should_escape c == 0)) [
    | inl kept ↦ rw (other, kept) (kept-Inert c h kept, tt)
    | inr escaped ↦ rw (other, escaped) (percent-Inert c h)
  ]
]

quoted_arg-Inert : (src : Bytes) → All IsByte src → All Inert (quoted_arg src)
quoted_arg-Inert [] _ = tt
quoted_arg-Inert (c ∷ src) (h, hs) =
    All-append Inert (quoted_arg_byte c) _ (quoted_arg_byte-Inert c h) (quoted_arg-Inert src hs)

-- Keys and values are bytes, and a pair without a value holds none.
pub record IsPair (kv : ArgsKv) : Type 0 where
  pub key_bytes : All IsByte kv.key
  pub value_bytes : All IsByte kv.value
  pub no_value_empty : kv.no_value ≡ true → kv.value ≡ []

abbrev pub value_text : ArgsKv → Bytes
value_text kv = if kv.no_value then [] else b'=' ∷ quoted_arg kv.value

abbrev pub text : ArgsKv → Bytes
text kv = quoted_arg kv.key ++ value_text kv

abbrev pub render : List ArgsKv → Bytes
render [] = []
render (kv ∷ []) = text kv
render (kv ∷ kv' ∷ args) = text kv ++ b'&' ∷ render (kv' ∷ args)

abbrev pub pair : Bytes → Bytes → Bool → ArgsKv
pair key value no_value = record { key = key; value = value; no_value = no_value }

append_pair :
    (dst key value : Bytes) (no_value : Bool)
    → append_kv dst (pair key value no_value) ≡ dst ++ text (pair key value no_value)
unfolding append_kv
append_pair dst key value true = rw append-nil (append_quoted_arg-quoted_arg dst key)
append_pair dst key [] false =
    ap (λ (t : Bytes). t ++ b'=' ∷ []) (append_quoted_arg-quoted_arg dst key)
    ∙ append_assoc dst (quoted_arg key) (b'=' ∷ [])
append_pair dst key (c ∷ value) false =
    let some_bytes : ltb 0 (suc (length value)) ≡ true = ground arith in
    rw some_bytes (simp (append_quoted_arg-quoted_arg, append_assoc))

append_kv-text : (dst : Bytes) (kv : ArgsKv) → append_kv dst kv ≡ dst ++ text kv
append_kv-text dst kv = append_pair dst kv.key kv.value kv.no_value

pub append_bytes-render :
    (args : List ArgsKv) (dst : Bytes) → append_bytes dst args ≡ dst ++ render args
unfolding append_bytes
append_bytes-render [] dst = sym (append-nil dst)
append_bytes-render (kv ∷ []) dst = append_kv-text dst kv
append_bytes-render (kv ∷ kv' ∷ args) dst =
    append_bytes-render (kv' ∷ args) (append_kv dst kv ++ b'&' ∷ [])
    ∙ append_assoc (append_kv dst kv) (b'&' ∷ []) (render (kv' ∷ args))
    ∙ ap (λ (t : Bytes). t ++ b'&' ∷ render (kv' ∷ args)) (append_kv-text dst kv)
    ∙ append_assoc dst (text kv) (b'&' ∷ render (kv' ∷ args))

decode_quoted : (src : Bytes) → All IsByte src → decode_arg [] (quoted_arg src) ≡ src
decode_quoted src h =
    ap (decode_arg []) (sym (append_quoted_arg-quoted_arg [] src))
    ∙ decode_arg-append_quoted_arg src [] h

-- The end of a pair: the end of the input, or an ampersand.
abbrev pub Tail : Bytes → Bytes → Type 0
Tail tail rest = ((tail ≡ []) × (rest ≡ [])) ⊎ (tail ≡ b'&' ∷ rest)

scan-key_end :
    (kv : ArgsKv) (before tail rest : Bytes)
    → Tail tail rest
    → scan kv true before tail ≡ (pair (decode_arg [] before) [] true, rest)
unfolding scan
scan-key_end kv before tail rest (inl (e, e')) = rw (e, e')
scan-key_end kv before tail rest (inr e) = rw e

scan-value_end :
    (kv : ArgsKv) (before tail rest : Bytes)
    → Tail tail rest
    → scan kv false before tail ≡ (record kv { value = decode_arg [] before }, rest)
unfolding scan
scan-value_end kv before tail rest (inl (e, e')) = rw (e, e')
scan-value_end kv before tail rest (inr e) = rw e

scan-equals :
    (kv : ArgsKv) (before cs : Bytes)
    → scan kv true before (b'=' ∷ cs) ≡ scan (record kv { key = decode_arg [] before }) false [] cs
unfolding scan
scan-equals kv before cs = refl

scan-pair :
    (stale : ArgsKv) (key value : Bytes) (no_value : Bool) (tail rest : Bytes)
    → stale.no_value ≡ false
    → IsPair (pair key value no_value)
    → Tail tail rest
    → scan stale true [] (text (pair key value no_value) ++ tail) ≡ (pair key value no_value, rest)
scan-pair stale key value true tail rest fresh p end =
    ap (λ (t : Bytes). scan stale true [] (t ++ tail)) (append-nil (quoted_arg key))
    ∙ scan-Inert stale true [] (quoted_arg key) tail (quoted_arg-Inert key p.key_bytes)
    ∙ scan-key_end stale (quoted_arg key) tail rest end
    ∙ ap₂ (λ (k v : Bytes). (pair k v true, rest)) (decode_quoted key p.key_bytes)
        (sym (p.no_value_empty refl))
scan-pair stale key value false tail rest fresh p end =
    ap (scan stale true []) (append_assoc (quoted_arg key) (b'=' ∷ quoted_arg value) tail)
    ∙ scan-Inert stale true [] (quoted_arg key) _ (quoted_arg-Inert key p.key_bytes)
    ∙ scan-equals stale (quoted_arg key) (quoted_arg value ++ tail)
    ∙ scan-Inert _ false [] (quoted_arg value) tail (quoted_arg-Inert value p.value_bytes)
    ∙ scan-value_end _ (quoted_arg value) tail rest end
    ∙ rw (decode_quoted key p.key_bytes, decode_quoted value p.value_bytes, fresh)

pub next-scan :
    (stale : ArgsKv) (b : Bytes)
    → b ≢ []
    → next stale b ≡ some (scan (record stale { no_value = false }) true [] b)
unfolding next
next-scan stale [] ne = absurd (ne refl)
next-scan stale (c ∷ cs) ne = refl

-- One call of `next` reads one printed pair.
pub next-text :
    (stale kv : ArgsKv) (tail rest : Bytes)
    → IsPair kv
    → Tail tail rest
    → text kv ++ tail ≢ []
    → next stale (text kv ++ tail) ≡ some (kv, rest)
next-text stale kv tail rest p end ne =
    next-scan stale (text kv ++ tail) ne
    ∙ ap some (scan-pair _ kv.key kv.value kv.no_value tail rest refl p end)
