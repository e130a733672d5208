-- ===== src/Args/Store.antt =====
-- The pairs of an `Args`, and the functions of pkg/protocol/args.go and pkg/protocol/header.go that
-- set, find and delete them. A slot that `allocArg` takes over from an earlier use is written whole,
-- so a list of values stands for the slice. A `nil` slice and an empty one are not told apart.
pub mod Laws
use hertz_study.Base.{
  ℕ, suc, Bool, true, false, not, ◌&&◌, List, [], ◌∷◌, ◌++◌, Bytes, bytes_equal, if◌then◌else◌,
}

pub record ArgsKv : Type 0 where
  pub key : Bytes
  pub value : Bytes
  pub no_value : Bool

-- `argsNoValue` and `ArgsHasValue`.
abbrev pub args_no_value : Bool
args_no_value = true

abbrev pub args_has_value : Bool
args_has_value = false

abbrev pub new_kv : Bytes → Bytes → Bool → ArgsKv
new_kv key value no_value = record {
  key = key;
  value = if no_value then [] else value;
  no_value = no_value;
}

unfoldable pub append_arg : List ArgsKv → Bytes → Bytes → Bool → List ArgsKv
append_arg args key value no_value = args ++ new_kv key value no_value ∷ []

-- The loop of `setArg` and `setArgBytes`, and the append behind it.
unfoldable pub set_arg : List ArgsKv → Bytes → Bytes → Bool → List ArgsKv
set_arg [] key value no_value = new_kv key value no_value ∷ []
set_arg (kv ∷ h) key value no_value =
    if bytes_equal key kv.key
    then record kv { value = if no_value then [] else value; no_value = no_value } ∷ h
    else kv ∷ set_arg h key value no_value

unfoldable pub update_arg_bytes : List ArgsKv → Bytes → Bytes → List ArgsKv
update_arg_bytes [] key value = []
update_arg_bytes (kv ∷ h) key value =
    if kv.no_value && bytes_equal key kv.key
    then record kv { value = value; no_value = args_has_value } ∷ h
    else kv ∷ update_arg_bytes h key value

-- `peekArgStr` and `peekArgBytes`: empty if the key is not there.
unfoldable pub peek_arg : List ArgsKv → Bytes → Bytes
peek_arg [] k = []
peek_arg (kv ∷ h) k = if bytes_equal kv.key k then kv.value else peek_arg h k

unfoldable pub peek_arg_exists : List ArgsKv → Bytes → Bytes × Bool
peek_arg_exists [] k = ([], false)
peek_arg_exists (kv ∷ h) k = if bytes_equal kv.key k then (kv.value, true) else peek_arg_exists h k

unfoldable pub peek_all_args_to_dst : List Bytes → List ArgsKv → Bytes → List Bytes
peek_all_args_to_dst dst [] k = dst
peek_all_args_to_dst dst (kv ∷ h) k =
    peek_all_args_to_dst (if bytes_equal kv.key k then dst ++ kv.value ∷ [] else dst) h k

unfoldable pub has_arg : List ArgsKv → Bytes → Bool
has_arg [] key = false
has_arg (kv ∷ h) key = if bytes_equal key kv.key then true else has_arg h key

-- A deleted pair is moved behind the end of the slice; the others keep their order.
unfoldable pub del_all_args : List ArgsKv → Bytes → List ArgsKv
del_all_args [] key = []
del_all_args (kv ∷ args) key =
    if bytes_equal key kv.key then del_all_args args key else kv ∷ del_all_args args key
