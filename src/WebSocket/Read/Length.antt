-- ===== src/WebSocket/Read/Length.antt =====
-- The length in a frame's header is read back, in each of its three forms.
use hertz_study.Base.{
  ℕ, ◌%◌, ◌^◌, ◌≤◌, ◌<◌, ◌≡◌, refl, ap, ap₂, ◌∙◌, Bool, false, not, inl, inr, [], ◌∷◌, ◌++◌, Bytes,
  length, leb, ltb, if◌then◌else◌, arith, Bool-cases, bit_or,
}
use hertz_study.WebSocket.Conn.{Conn, ok, M, bind-ok, ◌>>=◌}
use hertz_study.WebSocket.Close.{big_endian}
use hertz_study.WebSocket.Read.Header.{read, set_read_remaining, extended_length}
use hertz_study.WebSocket.Read.Fields.{put_uint_lem}
use hertz_study.WebSocket.Read.Steps.{read-append}
use hertz_study.WebSocket.Write.{set_bit, final_bit, mask_bit, put_uint, frame_header}

abbrev pub length_code : ℕ → ℕ
length_code len = if leb 65536 len then 127 else if ltb 125 len then 126 else len

abbrev pub length_bytes : ℕ → Bytes
length_bytes len =
    if leb 65536 len
    then put_uint 8 len []
    else if ltb 125 len
    then put_uint 2 (len % 65536) []
    else []

pub frame_header-cons :
    (server final : Bool) (t len : ℕ)
    → frame_header server false final t len
      ≡ set_bit final final_bit (t % 256)
        ∷ bit_or (set_bit (not server) mask_bit 0) (length_code len)
        ∷ length_bytes len
unfolding frame_header set_bit
frame_header-cons server final t len = ground arith

pub length_code-lt : (len : ℕ) → length_code len < 128
length_code-lt len = ground arith

read_number :
    (n len : ℕ) (b : Bytes) (c : Conn)
    → n ≡ length (put_uint n len [])
    → c.input ≡ put_uint n len [] ++ b
    → len < 256 ^ n
    → len < 2 ^ 63
    → (read n >>= λ p. set_read_remaining (big_endian 0 p)) c
      ≡ (ok tt, record c { input = b; read_remaining = len })
unfolding set_read_remaining
read_number n len b c size h fits small =
    let store : Bytes → M (Unit {0}) = λ p. set_read_remaining (big_endian 0 p) in
    bind-ok (read n) store c (record c { input = b }) (put_uint n len [])
      (ap (λ (k : ℕ). read k c) size ∙ read-append (put_uint n len []) b c h)
    ∙ rw (put_uint_lem n len fits) (ground arith)

extended_length-Long :
    (len : ℕ) (b : Bytes) (c : Conn)
    → len < 2 ^ 63
    → c.read_remaining ≡ 127
    → c.input ≡ put_uint 8 len [] ++ b
    → extended_length c ≡ (ok tt, record c { input = b; read_remaining = len })
unfolding extended_length put_uint
extended_length-Long len b c small code h =
    ground (arith, read_number 8 len b c refl h (omega arith) small)

extended_length-Short :
    (len : ℕ) (b : Bytes) (c : Conn)
    → len < 65536
    → c.read_remaining ≡ 126
    → c.input ≡ put_uint 2 len [] ++ b
    → extended_length c ≡ (ok tt, record c { input = b; read_remaining = len })
unfolding extended_length put_uint
extended_length-Short len b c small code h =
    ground (arith, read_number 2 len b c refl h (omega arith) (omega arith))

extended_length-Plain :
    (len : ℕ) (b : Bytes) (c : Conn)
    → len ≤ 125
    → c.read_remaining ≡ len
    → c.input ≡ b
    → extended_length c ≡ (ok tt, record c { input = b; read_remaining = len })
unfolding extended_length
extended_length-Plain len b c small code h =
    ground (arith, ap₂ (λ (i : Bytes) (n : ℕ). record c { input = i; read_remaining = n }) h code)

pub extended_length-lem :
    (len : ℕ) (b : Bytes) (c : Conn)
    → len < 2 ^ 63
    → c.read_remaining ≡ length_code len
    → c.input ≡ length_bytes len ++ b
    → extended_length c ≡ (ok tt, record c { input = b; read_remaining = len })
extended_length-lem len b c small code h = elim (Bool-cases (leb 65536 len)) [
  | inl long ↦ extended_length-Long len b c small (rw (code, long) refl) (rw (h, long) refl)
  | inr short ↦ elim (Bool-cases (ltb 125 len)) [
    | inl middle ↦
        let same : len % 65536 ≡ len = ground arith in
        extended_length-Short len b c (ground arith) (rw (code, short, middle) refl)
          (rw (h, short, middle, same) refl)
    | inr plain ↦
        extended_length-Plain len b c (ground arith) (rw (code, short, plain) refl)
          (rw (h, short, plain) refl)
  ]
]
