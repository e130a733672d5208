-- ===== src/Bytesconv/Generator.antt =====
-- The table builders in `main` of internal/bytesconv/bytesconv_table_gen.go. A `[256]byte` is a
-- list of 256 bytes, zero at first, and a `for` loop counts the rounds that are left.
use hertz_study.Base.{
  ℕ, zero, suc, ◌+◌, ◌-◌, ◌%◌, [], ◌∷◌, Bytes, Bool, ◌&&◌, ◌||◌, leb, ◌==◌, if◌then◌else◌, set,
  replicate, codes,
}

-- `for i := lo; i < lo + n; i++ { a[i] = value(i) }`
unfoldable pub fill : ℕ → ℕ → (ℕ → ℕ) → Bytes → Bytes
fill zero i value a = a
fill (suc n) i value a = fill n (i + 1) value (set a i (value i))

-- `for i := int(first); i <= int(last); i++ { a[i] = v }`
unfoldable pub fill_between : ℕ → ℕ → ℕ → Bytes → Bytes
unfolding fill
fill_between first last v a = fill (last + 1 - first) first (λ _. v) a

-- `for _, v := range chars { a[v] = x }`, and a run of single assignments.
unfoldable pub assign_all : Bytes → ℕ → Bytes → Bytes
assign_all [] x a = a
assign_all (c ∷ cs) x a = assign_all cs x (set a c x)

abbrev pub zeroed : Bytes
zeroed = replicate 256 0

abbrev pub within : ℕ → ℕ → ℕ → Bool
within lo hi c = leb lo c && leb c hi

abbrev pub to_lower : ℕ
to_lower = b'a' - b'A'

unfoldable pub gen_hex2int : Bytes
unfolding fill
gen_hex2int =
    fill 256 0
      (λ i.
        if within b'0' b'9' i
        then (i + 256 - b'0') % 256
        else if within b'a' b'f' i
        then (i + 256 - b'a' + 10) % 256
        else if within b'A' b'F' i
        then (i + 256 - b'A' + 10) % 256
        else 16)
      zeroed

unfoldable pub gen_to_lower : Bytes
unfolding fill
gen_to_lower = fill 256 0 (λ i. if within b'A' b'Z' i then (i + to_lower) % 256 else i) zeroed

unfoldable pub gen_to_upper : Bytes
unfolding fill
gen_to_upper = fill 256 0 (λ i. if within b'a' b'z' i then (i + 256 - to_lower) % 256 else i) zeroed

unfoldable pub gen_quoted_arg : Bytes
unfolding fill fill_between assign_all
gen_quoted_arg =
    let all = fill 256 0 (λ _. 1) zeroed in
    let lower = fill_between b'a' b'z' 0 all in
    let upper = fill_between b'A' b'Z' 0 lower in
    let digit = fill_between b'0' b'9' 0 upper in assign_all (codes "-_.~") 0 digit

unfoldable pub gen_quoted_path : Bytes
unfolding gen_quoted_arg assign_all
gen_quoted_path = assign_all (codes "$&+,/:;=@") 0 gen_quoted_arg

unfoldable pub gen_valid_cookie_value : Bytes
unfolding fill fill_between assign_all
gen_valid_cookie_value =
    let none_set = fill 256 0 (λ _. 0) zeroed in
    assign_all (codes "\";\\") 0 (fill (0x7f - 0x20) 0x20 (λ _. 1) none_set)

unfoldable pub gen_valid_header_field_value : Bytes
unfolding fill
gen_valid_header_field_value =
    let all = fill 256 0 (λ _. 1) zeroed in
    let no_ctl = fill b' ' 0 (λ _. 0) all in set (set no_ctl 0x7f 0) b'\t' 1

unfoldable pub gen_newline_to_space : Bytes
unfolding fill
gen_newline_to_space = fill 256 0 (λ i. if i == b'\r' || i == b'\n' then b' ' else i) zeroed

unfoldable pub gen_valid_header_field_name : Bytes
unfolding fill fill_between assign_all
gen_valid_header_field_name =
    let none_set = fill 256 0 (λ _. 0) zeroed in
    let marks = assign_all (codes "!#$%&'*+-.^_`|~") 1 none_set in
    let lower = fill_between b'a' b'z' 1 marks in
    let upper = fill_between b'A' b'Z' 1 lower in fill_between b'0' b'9' 1 upper
