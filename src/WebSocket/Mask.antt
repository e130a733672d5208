-- ===== src/WebSocket/Mask.antt =====
-- `maskBytes` of contrib/websocket/mask.go, which masks a word at a time, and of
-- contrib/websocket/mask_safe.go, which masks a byte at a time. A word has 8 bytes.
pub mod Laws
use hertz_study.Base.{
  ℕ, zero, suc, ◌+◌, ◌-◌, ◌*◌, ◌/◌, ◌%◌, bit_and, bit_xor, [], ◌∷◌, ◌++◌, Bytes, get_or, length,
  take, drop, ltb, ◌==◌, if◌then◌else◌,
}

abbrev pub word_size : ℕ
word_size = 8

-- `key[pos&3]`
unfoldable pub key_at : Bytes → ℕ → ℕ
key_at key pos = get_or key (bit_and pos 3) 0

-- `for i := range b { b[i] ^= key[pos&3]; pos++ }`
unfoldable pub mask_loop : Bytes → ℕ → Bytes → Bytes × ℕ
mask_loop key pos [] = ([], pos)
mask_loop key pos (c ∷ b) =
    let (b', pos') = mask_loop key (pos + 1) b in (bit_xor c (key_at key pos) ∷ b', pos')

-- The version without words: the masked bytes and the next position.
unfoldable pub mask_bytes_safe : Bytes → ℕ → Bytes → Bytes × ℕ
mask_bytes_safe key pos b = let (b', pos') = mask_loop key pos b in (b', bit_and pos' 3)

-- The bytes of a machine word in memory, and back, with the lowest byte first.
unfoldable pub word_of : Bytes → ℕ
word_of [] = 0
word_of (b ∷ bs) = word_of bs * 256 + b

unfoldable pub bytes_of : ℕ → ℕ → Bytes
bytes_of zero w = []
bytes_of (suc n) w = w % 256 ∷ bytes_of n (w / 256)

-- `k[i] = key[(pos+i)&3]`, for the `n` places from `pos` on.
unfoldable pub key_word : Bytes → ℕ → ℕ → Bytes
key_word key zero pos = []
key_word key (suc n) pos = key_at key pos ∷ key_word key n (pos + 1)

-- `n` rounds of the word loop.
unfoldable pub mask_words : ℕ → ℕ → Bytes → Bytes
mask_words zero kw b = []
mask_words (suc n) kw b =
    bytes_of word_size (bit_xor (word_of (take word_size b)) kw)
    ++ mask_words n kw (drop word_size b)

-- A text of two words or more, with `n` bytes in front of the first word boundary.
unfoldable pub mask_large : ℕ → Bytes → ℕ → Bytes → Bytes × ℕ
mask_large n key pos b =
    let (front, pos1) = mask_loop key pos (take n b) in
    let b1 = drop n b in
    let kw = word_of (key_word key word_size pos1) in
    let words = length b1 / word_size in
    let middle = mask_words words kw (take (words * word_size) b1) in
    let (back, pos2) = mask_loop key pos1 (drop (words * word_size) b1) in
    (front ++ (middle ++ back), bit_and pos2 3)

-- `misaligned` is the address of the first byte modulo the word size.
unfoldable pub mask_bytes : ℕ → Bytes → ℕ → Bytes → Bytes × ℕ
mask_bytes misaligned key pos b =
    let (b', pos') = mask_loop key pos b in
    if ltb (length b) (2 * word_size)
    then (b', bit_and pos' 3)
    else mask_large (if misaligned == 0 then 0 else word_size - misaligned) key pos b
