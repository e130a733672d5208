-- ===== src/Args/Store/Laws.antt =====
-- A set, an add or a delete of one key, as it is seen by the lookups of any key.
use hertz_study.Base.{
  ◌+◌, ◌≡◌, refl, ap, ◌∙◌, sym, Bool, true, false, List, [], ◌∷◌, ◌++◌, Bytes, bytes_equal,
  bytes_equal_iff, if◌then◌else◌, arith, length, append_assoc, append-nil,
}
use hertz_study.Args.Store.{
  ArgsKv, append_arg, set_arg, peek_arg, peek_arg_exists, peek_all_args_to_dst, has_arg,
  del_all_args,
}

-- The value that a pair holds after it was written.
abbrev pub stored : Bool → Bytes → Bytes
stored no_value value = if no_value then [] else value

-- After `setArg` the key has the new value, any other key the value that it had, and the list is
-- longer by one only if the key was not there. The pairs of other keys are the same, in order.
pub set_arg_lem :
    (h : List ArgsKv) (key value : Bytes) (no_value : Bool) (j : Bytes)
    → (peek_arg_exists (set_arg h key value no_value) j
        ≡ (if bytes_equal key j then (stored no_value value, true) else peek_arg_exists h j))
      × (length (set_arg h key value no_value) ≡ (if has_arg h key then 0 else 1) + length h)
      × (del_all_args (set_arg h key value no_value) key ≡ del_all_args h key)
unfolding set_arg peek_arg_exists has_arg del_all_args
set_arg_lem [] key value no_value j = ground (arith, bytes_equal_iff key key)
set_arg_lem (kv ∷ h) key value no_value j = ground (
  arith,
  set_arg_lem h key value no_value j,
  bytes_equal_iff key kv.key,
  bytes_equal_iff kv.key j,
  bytes_equal_iff key j,
)

-- After `delAllArgs` the key is gone. Any other key has the value that it had, or none as before.
pub del_all_args_lem :
    (h : List ArgsKv) (key j : Bytes)
    → peek_arg_exists (del_all_args h key) j
      ≡ (if bytes_equal key j then ([], false) else peek_arg_exists h j)
unfolding peek_arg_exists del_all_args
del_all_args_lem [] key j = ground arith
del_all_args_lem (kv ∷ h) key j = ground (
  arith,
  del_all_args_lem h key j,
  bytes_equal_iff key kv.key,
  bytes_equal_iff kv.key j,
  bytes_equal_iff key j,
)

-- The three lookups of one value agree.
lookups_agree :
    (h : List ArgsKv) (k : Bytes)
    → (peek_arg h k ≡ (peek_arg_exists h k).0) × (has_arg h k ≡ (peek_arg_exists h k).1)
unfolding peek_arg peek_arg_exists has_arg
lookups_agree [] k = (refl, refl)
lookups_agree (kv ∷ h) k =
    ground (arith, lookups_agree h k, bytes_equal_iff k kv.key, bytes_equal_iff kv.key k)

-- All the values of a key, in order.
abbrev pub values_of : List ArgsKv → Bytes → List Bytes
values_of [] k = []
values_of (kv ∷ h) k = if bytes_equal kv.key k then kv.value ∷ values_of h k else values_of h k

peek_all-values_of :
    (h : List ArgsKv) (dst : List Bytes) (k : Bytes)
    → peek_all_args_to_dst dst h k ≡ dst ++ values_of h k
unfolding peek_all_args_to_dst
peek_all-values_of [] dst k = sym (append-nil dst)
peek_all-values_of (kv ∷ h) dst k = ground (
  arith,
  peek_all-values_of h (dst ++ kv.value ∷ []) k,
  peek_all-values_of h dst k,
  append_assoc dst (kv.value ∷ []) (values_of h k),
)

values_of-append :
    (h g : List ArgsKv) (k : Bytes) → values_of (h ++ g) k ≡ values_of h k ++ values_of g k
values_of-append [] g k = refl
values_of-append (kv ∷ h) g k = ground (arith, values_of-append h g k)

-- An added value comes last among the values of its key, and no other key's values change.
peek_all-append_arg :
    (h : List ArgsKv) (key value : Bytes) (j : Bytes)
    → peek_all_args_to_dst [] (append_arg h key value false) j
      ≡ peek_all_args_to_dst [] h j ++ (if bytes_equal key j then value ∷ [] else [])
unfolding append_arg
peek_all-append_arg h key value j =
    peek_all-values_of _ [] j
    ∙ values_of-append h _ j
    ∙ ap (λ (vs : List Bytes). vs ++ (if bytes_equal key j then value ∷ [] else []))
        (sym (peek_all-values_of h [] j))
