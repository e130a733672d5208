-- ===== src/Route/AddRoute/Loop.antt =====
-- The loop of `addRoute` of pkg/route/tree.go.
use mathlib.Core.List.{cons-ne-nil}
use hertz_study.Base.{
  ◌≡◌, ◌≢◌, refl, sym, ap, subst, ◌∙◌, inl, inr, ℕ, ◌+◌, Bool, true, false, List, [], ◌∷◌, ◌++◌,
  Option, Bytes, length, ◌==◌, ==_iff, Bool-cases, append-nil, append_assoc, arith, All-append,
  length-append,
}
use hertz_study.Route.Tree.{
  Kind, Kind.skind, Kind.pkind, Kind.akind, slash, param_label, any_label, Entry, any_handler,
  is_skind, Tree,
}
use hertz_study.Route.Formed.{IsLiteral}
use hertz_study.Route.Routes.Names.{wildcards}
use hertz_study.Route.AddRoute.{
  Reading, Reading.in_static, Reading.in_name, without_handlers, add_from,
}
use hertz_study.Route.AddRoute.Router.{Inserts-piece}
use hertz_study.Route.AddRoute.Shape.{shape_from, names_from}
use hertz_study.Route.AddRoute.Places.{
  Added, Reads, pending, NoAny, wildcards_append, Added-Inserts, silent, insert_static,
  insert_param, static_more, no_names,
}

pub skind_other : skind ≢ akind
skind_other h = ground (arith, ap is_skind h)

pub pkind_other : pkind ≢ akind
pkind_other h = ground (arith, ap is_pkind h)
  where
    is_pkind : Kind → Bool
    is_pkind skind = false
    is_pkind pkind = true
    is_pkind akind = false

pub Added-eq :
    (s s' : Bytes) (ns ns' : List Bytes) (h : List ℕ) (ppath : Bytes) (root : Tree)
    (r : Option Tree)
    → s ≡ s'
    → ns ≡ ns'
    → Added s (record { handlers = h; ppath = ppath; pnames = ns }) root r
    → Added s' (record { handlers = h; ppath = ppath; pnames = ns' }) root r
Added-eq s s' ns ns' h ppath root r eq eq' added =
    subst (λ q. Added q (record { handlers = h; ppath = ppath; pnames = ns' }) root r) eq
      (subst (λ qs. Added s (record { handlers = h; ppath = ppath; pnames = qs }) root r) eq' added)

pub count_byte :
    (read : Bytes) (c n : ℕ)
    → NoAny read
    → wildcards (c ∷ []) ≡ n
    → wildcards (read ++ c ∷ []) ≡ wildcards read + n
count_byte read c n no_any one = omega (arith, wildcards_append read (c ∷ []) no_any, one)

pub count_param : wildcards (param_label ∷ []) ≡ 1
unfolding wildcards
count_param = refl

pub count_any : wildcards (any_label ∷ []) ≡ 1
unfolding wildcards
count_any = refl

pub count_literal : (c : ℕ) → IsLiteral c → wildcards (c ∷ []) ≡ 0
unfolding wildcards
count_literal c (not_param, not_any) = rw (not_param, not_any) refl

pub length-concat : (ns : List Bytes) (n : Bytes) → length (ns ++ n ∷ []) ≡ length ns + 1
length-concat ns n = omega (arith, length-append ns (n ∷ []))

pub slash-IsLiteral : (c : ℕ) → (c == slash) ≡ true → IsLiteral c
slash-IsLiteral c is =
    let a : (c == param_label) ≡ false = ground arith in
    let b : (c == any_label) ≡ false = ground arith in (a, b)

abbrev pub last_entry : List ℕ → Bytes → List Bytes → Bytes → Entry
last_entry h ppath pnames name = record {
  handlers = h;
  ppath = ppath;
  pnames = pnames ++ name ∷ [];
}

-- What the loop adds from a place on.
abbrev pub Adds : Reading → Bytes → Type 0
Adds mode s =
    (read : Bytes) (pnames : List Bytes) (h : List ℕ) (ppath : Bytes) (root : Tree)
    → any_handler h ≡ true
    → Reads mode root read
    → NoAny read
    → wildcards read ≡ length pnames + pending mode
    → Added (read ++ shape_from mode s)
        (record { handlers = h; ppath = ppath; pnames = pnames ++ names_from mode s }) root
        (add_from mode s read pnames h ppath root)

static_end : Adds in_static []
unfolding add_from shape_from names_from
static_end read pnames h ppath root some_h reads no_any count =
    let e : Entry = record { handlers = h; ppath = ppath; pnames = pnames } in
    Added-eq read (read ++ []) pnames (pnames ++ []) h ppath root _ (sym (append-nil read))
      (sym (append-nil pnames))
      (Added-Inserts skind read e root some_h _
        (insert_static read e root reads (λ is. omega (arith, count))))

static_byte : (c : ℕ) (s : Bytes) → Adds (in_name []) s → Adds in_static s → Adds in_static (c ∷ s)
unfolding add_from shape_from names_from
static_byte c s in_name_adds in_static_adds read pnames h ppath root some_h reads no_any count =
    elim (Bool-cases (c == param_label)) [
      | inl is ↦ rw is (
          silent skind read (without_handlers []) root skind_other refl _ _ _ _
            (insert_static read (without_handlers []) root reads (no_names read []))
            (λ r tree b.
              Added-eq _ _ _ _ h ppath r _ (append_assoc read (param_label ∷ []) _) refl (
                in_name_adds (read ++ param_label ∷ []) pnames h ppath r some_h
                  (tree, (read, refl, b))
                  (All-append (λ x. (x == any_label) ≡ false) read (param_label ∷ []) no_any
                    (refl, tt))
                  (omega (arith, count, count_byte read param_label 1 no_any count_param)))))
      | inr not_param ↦ elim (Bool-cases (c == any_label)) [
        | inl is ↦
            rw (not_param, is)
              (silent skind read (without_handlers []) root skind_other refl _ _ _ _
                (insert_static read (without_handlers []) root reads (no_names read []))
                (λ r tree b.
                  Added-Inserts akind (read ++ any_label ∷ []) (last_entry h ppath pnames s) r
                    some_h _
                    (Inserts-piece akind read (any_label ∷ []) (last_entry h ppath pnames s) r tree
                      b (refl, some_h)
                      (λ is. omega (
                        arith,
                        count,
                        length-concat pnames s,
                        count_byte read any_label 1 no_any count_any,
                      )))))
        | inr not_any ↦
            rw (not_param, not_any)
              (Added-eq _ _ _ _ h ppath root _ (append_assoc read (c ∷ []) _) refl (
                in_static_adds (read ++ c ∷ []) pnames h ppath root some_h
                  (static_more root read c (not_param, not_any) reads)
                  (All-append (λ x. (x == any_label) ≡ false) read (c ∷ []) no_any (not_any, tt))
                  (omega (
                    arith,
                    count,
                    count_byte read c 0 no_any (count_literal c (not_param, not_any)),
                  ))))
      ]
    ]

name_end : (name : Bytes) → Adds (in_name name) []
unfolding add_from shape_from names_from
name_end name read pnames h ppath root some_h reads no_any count =
    Added-eq read (read ++ []) _ _ h ppath root _ (sym (append-nil read)) refl (
      Added-Inserts pkind read (last_entry h ppath pnames name) root some_h _ (
        insert_param read (last_entry h ppath pnames name) root reads
          (λ is. omega (arith, count, length-concat pnames name))))

name_byte :
    (name : Bytes) (c : ℕ) (s : Bytes)
    → Adds in_static s
    → Adds (in_name (name ++ c ∷ [])) s
    → Adds (in_name name) (c ∷ s)
unfolding add_from shape_from names_from
name_byte name c s in_static_adds in_name_adds read pnames h ppath root some_h reads no_any count =
    elim (Bool-cases (c == slash)) [
      | inl is ↦ rw is (
          silent pkind read (without_handlers (pnames ++ name ∷ [])) root pkind_other refl _ _ _ _
            (insert_param read (without_handlers (pnames ++ name ∷ [])) root reads
              (no_names read _))
            (λ r tree b.
              Added-eq _ _ _ _ h ppath r _
                (append_assoc read (c ∷ []) _
                  ∙ ap (λ x. read ++ x ∷ shape_from in_static s) ((==_iff c slash).0 is))
                (append_assoc pnames (name ∷ []) _)
                (in_static_adds (read ++ c ∷ []) (pnames ++ name ∷ []) h ppath r some_h
                  (inr
                    (tree, (read, c ∷ [], refl, b, cons-ne-nil c [], ((slash-IsLiteral c is), tt))))
                  (All-append (λ x. (x == any_label) ≡ false) read (c ∷ []) no_any
                    ((slash-IsLiteral c is).1, tt))
                  (omega (
                    arith,
                    count,
                    length-concat pnames name,
                    count_byte read c 0 no_any (count_literal c (slash-IsLiteral c is)),
                  )))))
      | inr is_not ↦ rw is_not (in_name_adds read pnames h ppath root some_h reads no_any count)
    ]

pub adds : (mode : Reading) (s : Bytes) → Adds mode s
adds in_static [] = static_end
adds in_static (c ∷ s) = static_byte c s (adds (in_name []) s) (adds in_static s)
adds (in_name name) [] = name_end name
adds (in_name name) (c ∷ s) =
    name_byte name c s (adds in_static s) (adds (in_name (name ++ c ∷ [])) s)
