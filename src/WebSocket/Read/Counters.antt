-- ===== src/WebSocket/Read/Counters.antt =====
-- What the steps of `advanceFrame` of contrib/websocket/conn.go in front of the count of a data
-- frame do to the counters of the connection.
use hertz_study.Base.{ℕ, ◌^◌, ◌<◌, ◌≡◌, ap, Bool, true, false, [], ◌∷◌, Bytes, arith, bit_and_127}
use hertz_study.WebSocket.Conn.{Conn, Result, ok, M, bind-inv, ◌>>=◌}
use hertz_study.WebSocket.Close.{big_endian}
use hertz_study.WebSocket.Read.Header.{
  read, skip, set_read_remaining, FrameHeader, store_header, header_of, read_header,
  extended_length, store_key, read_key,
}

-- The size of the message so far and its limit stay.
abbrev pub SameCount : Conn → Conn → Type 0
SameCount c c' = (c'.read_length ≡ c.read_length) × (c'.read_limit ≡ c.read_limit)

abbrev SameCounters : Conn → Conn → Type 0
SameCounters c c' = SameCount c c' × (c'.read_remaining ≡ c.read_remaining)

read-SameCounters : (n : ℕ) (c c' : Conn) (b : Bytes) → read n c ≡ (ok b, c') → SameCounters c c'
unfolding read
read-SameCounters n c c' b h = ground (
  arith,
  ap (λ (p : Result Bytes × Conn). p.1.read_length) h,
  ap (λ (p : Result Bytes × Conn). p.1.read_limit) h,
  ap (λ (p : Result Bytes × Conn). p.1.read_remaining) h,
)

pub skip-SameCount : (c c' : Conn) (u : Unit {0}) → skip c ≡ (ok u, c') → SameCount c c'
unfolding skip
skip-SameCount c c' u h = ground (
  arith,
  ap (λ (p : Result (Unit {0}) × Conn). p.1.read_length) h,
  ap (λ (p : Result (Unit {0}) × Conn). p.1.read_limit) h,
)

header_of-SameCount :
    (p : Bytes) (c c' : Conn) (header : FrameHeader)
    → header_of p c ≡ (ok header, c')
    → SameCount c c' × (c'.read_remaining < 128)
unfolding header_of store_header
header_of-SameCount [] c c' header h = ground (arith, ap (λ (p : Result FrameHeader × Conn). p.0) h)
header_of-SameCount (x ∷ []) c c' header h =
    ground (arith, ap (λ (p : Result FrameHeader × Conn). p.0) h)
header_of-SameCount (x ∷ y ∷ p) c c' header h = ground (
  arith,
  bit_and_127 y,
  ap (λ (p : Result FrameHeader × Conn). p.1.read_length) h,
  ap (λ (p : Result FrameHeader × Conn). p.1.read_limit) h,
  ap (λ (p : Result FrameHeader × Conn). p.1.read_remaining) h,
)

pub read_header-SameCount :
    (c c' : Conn) (header : FrameHeader)
    → read_header c ≡ (ok header, c')
    → SameCount c c' × (c'.read_remaining < 128)
unfolding read_header
read_header-SameCount c c' header h =
    let (p, (d, (first, second))) = bind-inv (read 2) header_of c c' header h in
    let before = read-SameCounters 2 c d p first in
    let after = header_of-SameCount p d c' header second in
    ((omega (arith, before, after), omega (arith, before, after)), after.1)

number-SameCount :
    (n : ℕ) (c c' : Conn) (u : Unit {0})
    → (read n >>= λ p. set_read_remaining (big_endian 0 p)) c ≡ (ok u, c')
    → SameCount c c' × (c'.read_remaining < 2 ^ 63)
unfolding set_read_remaining
number-SameCount n c c' u h =
    let store : Bytes → M (Unit {0}) = λ p. set_read_remaining (big_endian 0 p) in
    let (p, (d, (first, second))) = bind-inv (read n) store c c' u h in
    ground (
      arith,
      read-SameCounters n c d p first,
      ap (λ (p : Result (Unit {0}) × Conn). p.0) second,
      ap (λ (p : Result (Unit {0}) × Conn). p.1.read_length) second,
      ap (λ (p : Result (Unit {0}) × Conn). p.1.read_limit) second,
      ap (λ (p : Result (Unit {0}) × Conn). p.1.read_remaining) second,
    )

pub extended_length-SameCount :
    (c c' : Conn) (u : Unit {0})
    → c.read_remaining < 128
    → extended_length c ≡ (ok u, c')
    → SameCount c c' × (c'.read_remaining < 2 ^ 63)
unfolding extended_length
extended_length-SameCount c c' u small h = ground (
  arith,
  number-SameCount 2 c c' u,
  number-SameCount 8 c c' u,
  ap (λ (p : Result (Unit {0}) × Conn). p.1.read_length) h,
  ap (λ (p : Result (Unit {0}) × Conn). p.1.read_limit) h,
  ap (λ (p : Result (Unit {0}) × Conn). p.1.read_remaining) h,
)

pub read_key-SameCounters :
    (mask : Bool) (c c' : Conn) (u : Unit {0}) → read_key mask c ≡ (ok u, c') → SameCounters c c'
unfolding read_key store_key
read_key-SameCounters false c c' u h = ground (
  arith,
  ap (λ (p : Result (Unit {0}) × Conn). p.1.read_length) h,
  ap (λ (p : Result (Unit {0}) × Conn). p.1.read_limit) h,
  ap (λ (p : Result (Unit {0}) × Conn). p.1.read_remaining) h,
)
read_key-SameCounters true c c' u h =
    let c0 : Conn = record c { read_mask_pos = 0 } in
    let (p, (d, (first, second))) = bind-inv (read 4) store_key c0 c' u h in
    ground (
      arith,
      read-SameCounters 4 c0 d p first,
      ap (λ (p : Result (Unit {0}) × Conn). p.1.read_length) second,
      ap (λ (p : Result (Unit {0}) × Conn). p.1.read_limit) second,
      ap (λ (p : Result (Unit {0}) × Conn). p.1.read_remaining) second,
    )
