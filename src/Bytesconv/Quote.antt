-- ===== src/Bytesconv/Quote.antt =====
-- `AppendQuotedArg`, `AppendQuotedPath` and `LowercaseBytes` of internal/bytesconv/bytesconv.go.
use hertz_study.Base.{
  ℕ, ◌/◌, bit_and, [], ◌∷◌, ◌++◌, Bytes, get_or, not, ◌==◌, if◌then◌else◌, bytes_equal,
}
use hertz_study.Bytesconv.Lookup.{arg_should_escape, path_should_escape, lower}
use hertz_study.Bytesconv.Hex.{upperhex}

-- `'%', upperhex[c>>4], upperhex[c&0xf]`
unfoldable pub percent : ℕ → Bytes
unfolding upperhex
percent c = b'%' ∷ get_or upperhex (c / 16) 0 ∷ get_or upperhex (bit_and c 0xf) 0 ∷ []

-- What one round of `AppendQuotedArg` appends.
unfoldable pub quoted_arg_byte : ℕ → Bytes
quoted_arg_byte c =
    if c == b' ' then b'+' ∷ [] else if not (arg_should_escape c == 0) then percent c else c ∷ []

unfoldable pub append_quoted_arg : Bytes → Bytes → Bytes
append_quoted_arg dst [] = dst
append_quoted_arg dst (c ∷ src) = append_quoted_arg (dst ++ quoted_arg_byte c) src

unfoldable pub quoted_path_byte : ℕ → Bytes
quoted_path_byte c = if not (path_should_escape c == 0) then percent c else c ∷ []

unfoldable pub quote_path_loop : Bytes → Bytes → Bytes
quote_path_loop dst [] = dst
quote_path_loop dst (c ∷ src) = quote_path_loop (dst ++ quoted_path_byte c) src

unfoldable pub append_quoted_path : Bytes → Bytes → Bytes
append_quoted_path dst src =
    if bytes_equal src (b'*' ∷ []) then dst ++ b'*' ∷ [] else quote_path_loop dst src

unfoldable pub lowercase_bytes : Bytes → Bytes
lowercase_bytes [] = []
lowercase_bytes (c ∷ b) = lower c ∷ lowercase_bytes b
