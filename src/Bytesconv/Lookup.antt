-- ===== src/Bytesconv/Lookup.antt =====
-- Indexing into the tables of internal/bytesconv/bytesconv_table.go, and a rule for each entry.
use hertz_study.Base.{
  ℕ, ◌+◌, ◌-◌, ◌<◌, ◌≡◌, refl, Bool, true, ◌&&◌, ◌||◌, get_or, leb, ◌==◌, if◌then◌else◌, all_below,
  all_below_sound, ==_iff,
}
use hertz_study.Bytesconv.Tables.{
  hex2int_table, to_lower_table, to_upper_table, quoted_arg_should_escape_table,
  quoted_path_should_escape_table, newline_to_space_table, valid_cookie_value_table,
  valid_header_field_value_table, valid_header_field_name_table,
}
use hertz_study.Bytesconv.Generator.{
  gen_hex2int, gen_to_lower, gen_to_upper, gen_quoted_arg, gen_quoted_path, gen_newline_to_space,
  gen_valid_cookie_value, gen_valid_header_field_value, gen_valid_header_field_name,
}

-- `Table[c]`; a byte is below 256, so the index is never out of range.
unfoldable pub hex2int : ℕ → ℕ
unfolding hex2int_table
hex2int c = get_or hex2int_table c 0

unfoldable pub lower : ℕ → ℕ
unfolding to_lower_table
lower c = get_or to_lower_table c 0

unfoldable pub upper : ℕ → ℕ
unfolding to_upper_table
upper c = get_or to_upper_table c 0

unfoldable pub arg_should_escape : ℕ → ℕ
unfolding quoted_arg_should_escape_table
arg_should_escape c = get_or quoted_arg_should_escape_table c 0

unfoldable pub path_should_escape : ℕ → ℕ
unfolding quoted_path_should_escape_table
path_should_escape c = get_or quoted_path_should_escape_table c 0

abbrev pub within : ℕ → ℕ → ℕ → Bool
within lo hi c = leb lo c && leb c hi

-- The value of a hexadecimal digit, and 16 for any other byte.
abbrev pub hex_value : ℕ → ℕ
hex_value c =
    if within b'0' b'9' c
    then c - b'0'
    else if within b'a' b'f' c
    then c - b'a' + 10
    else if within b'A' b'F' c
    then c - b'A' + 10
    else 16

abbrev pub is_alnum : ℕ → Bool
is_alnum c = within b'a' b'z' c || (within b'A' b'Z' c || within b'0' b'9' c)

-- The unreserved characters of RFC 3986.
abbrev pub unreserved : ℕ → Bool
unreserved c = is_alnum c || (c == b'-' || (c == b'_' || (c == b'.' || c == b'~')))

abbrev pub path_reserved : ℕ → Bool
path_reserved c =
    c == b'$'
    || (c == b'&'
        || (c == b'+'
            || (c == b','
                || (c == b'/' || (c == b':' || (c == b';' || (c == b'=' || c == b'@')))))))

by_bytes : (f g : ℕ → ℕ) → all_below 256 (λ c. f c == g c) ≡ true → (c : ℕ) → c < 256 → f c ≡ g c
by_bytes f g h c lt = (==_iff _ _).0 (all_below_sound 256 _ c h lt)

hex2int_table_check : all_below 256 (λ c. hex2int c == hex_value c) ≡ true
unfolding all_below hex2int
hex2int_table_check = refl

pub hex2int_lem : (c : ℕ) → c < 256 → hex2int c ≡ hex_value c
hex2int_lem = by_bytes _ _ hex2int_table_check

abbrev pub lower_rule : ℕ → ℕ
lower_rule c = if within b'A' b'Z' c then c + 32 else c

abbrev pub upper_rule : ℕ → ℕ
upper_rule c = if within b'a' b'z' c then c - 32 else c

abbrev pub arg_rule : ℕ → ℕ
arg_rule c = if unreserved c then 0 else 1

abbrev pub path_rule : ℕ → ℕ
path_rule c = if unreserved c || path_reserved c then 0 else 1

lower_table_check : all_below 256 (λ c. lower c == lower_rule c) ≡ true
unfolding all_below lower
lower_table_check = refl

upper_table_check : all_below 256 (λ c. upper c == upper_rule c) ≡ true
unfolding all_below upper
upper_table_check = refl

arg_table_check : all_below 256 (λ c. arg_should_escape c == arg_rule c) ≡ true
unfolding all_below arg_should_escape
arg_table_check = refl

path_table_check : all_below 256 (λ c. path_should_escape c == path_rule c) ≡ true
unfolding all_below path_should_escape
path_table_check = refl

pub lower_lem : (c : ℕ) → c < 256 → lower c ≡ lower_rule c
lower_lem = by_bytes _ _ lower_table_check

pub upper_lem : (c : ℕ) → c < 256 → upper c ≡ upper_rule c
upper_lem = by_bytes _ _ upper_table_check

pub arg_should_escape_lem : (c : ℕ) → c < 256 → arg_should_escape c ≡ arg_rule c
arg_should_escape_lem = by_bytes _ _ arg_table_check

pub path_should_escape_lem : (c : ℕ) → c < 256 → path_should_escape c ≡ path_rule c
path_should_escape_lem = by_bytes _ _ path_table_check

pub record AllTablesMatch : Type 0 where
  pub hex2int_as_built : hex2int_table ≡ gen_hex2int
  pub to_lower_as_built : to_lower_table ≡ gen_to_lower
  pub to_upper_as_built : to_upper_table ≡ gen_to_upper
  pub quoted_arg_as_built : quoted_arg_should_escape_table ≡ gen_quoted_arg
  pub quoted_path_as_built : quoted_path_should_escape_table ≡ gen_quoted_path
  pub cookie_value_as_built : valid_cookie_value_table ≡ gen_valid_cookie_value
  pub field_value_as_built : valid_header_field_value_table ≡ gen_valid_header_field_value
  pub newline_as_built : newline_to_space_table ≡ gen_newline_to_space
  pub field_name_as_built : valid_header_field_name_table ≡ gen_valid_header_field_name

pub tables-AllTablesMatch : AllTablesMatch
unfolding hex2int_table to_lower_table to_upper_table quoted_arg_should_escape_table
    quoted_path_should_escape_table valid_cookie_value_table valid_header_field_value_table
    newline_to_space_table valid_header_field_name_table gen_hex2int gen_to_lower gen_to_upper
    gen_quoted_arg gen_quoted_path gen_valid_cookie_value gen_valid_header_field_value
    gen_newline_to_space gen_valid_header_field_name
tables-AllTablesMatch = record {
  hex2int_as_built = refl;
  to_lower_as_built = refl;
  to_upper_as_built = refl;
  quoted_arg_as_built = refl;
  quoted_path_as_built = refl;
  cookie_value_as_built = refl;
  field_value_as_built = refl;
  newline_as_built = refl;
  field_name_as_built = refl;
}

-- At every byte the tables hold the value of the hexadecimal digit (16 if it is none), the letter
-- in lower and in upper case, and whether a query argument or a path has to escape it.
pub tables_lem :
    (c : ℕ)
    → c < 256
    → (hex2int c ≡ hex_value c)
      × (lower c ≡ lower_rule c)
      × (upper c ≡ upper_rule c)
      × (arg_should_escape c ≡ arg_rule c)
      × (path_should_escape c ≡ path_rule c)
tables_lem c h = (
  hex2int_lem c h,
  lower_lem c h,
  upper_lem c h,
  arg_should_escape_lem c h,
  path_should_escape_lem c h,
)
