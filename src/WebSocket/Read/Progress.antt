-- ===== src/WebSocket/Read/Progress.antt =====
-- Every frame that `advanceFrame` accepts makes the input shorter.
use hertz_study.Base.{
  ℕ, ◌+◌, ◌≤◌, ◌≡◌, ◌≢◌, ap, Bool, true, false, [], ◌∷◌, Bytes, length, take, drop, length-drop,
  arith,
}
use hertz_study.WebSocket.Conn.{Conn, World, Error, Result, ok, M, bind-inv, throw, ◌>>=◌, ◌>>◌}
use hertz_study.WebSocket.Read.{advance_frame, checked_body, frame_body, read_payload}
use hertz_study.WebSocket.Read.Header.{
  read, skip, FrameHeader, header_of, read_header, extended_length, read_key, set_read_remaining,
  store_key, store_header,
}
use hertz_study.WebSocket.Close.{big_endian}
use hertz_study.WebSocket.Read.Handle.{
  Handlers, handle_protocol_error, count_data, control_payload, process_control, process_close,
}

-- A step that, when it succeeds, leaves at least `n` bytes less to read.
abbrev pub Takes : {A : Type 0} → ℕ → M A → Type 0
Takes {A} n m = (c c' : Conn) (a : A) → m c ≡ (ok a, c') → length c'.input + n ≤ length c.input

Takes-bind :
    {A B : Type 0} (n k : ℕ) (m : M A) (f : A → M B)
    → Takes n m
    → ((a : A) → Takes k (f a))
    → Takes (n + k) (m >>= f)
Takes-bind n k m f first next c c'' b h =
    let (a, (c', (h1, h2))) = bind-inv m f c c'' b h in
    omega (arith, first c c' a h1, next a c' c'' b h2)

read-Takes : (n : ℕ) → Takes n (read n)
unfolding read
read-Takes n c c' a h =
    ground (arith, length-drop n c.input, ap (λ (p : Result Bytes × Conn). p.1) h)

skip-Takes : Takes 0 skip
unfolding skip
skip-Takes c c' a h =
    ground
      (arith, length-drop c.read_remaining c.input, ap (λ (p : Result (Unit {0}) × Conn). p.1) h)

set_read_remaining-Takes : (n : ℕ) → Takes 0 (set_read_remaining n)
unfolding set_read_remaining
set_read_remaining-Takes n c c' a h = ground (arith, ap (λ (p : Result (Unit {0}) × Conn). p.1) h)

header_of-Takes : (p : Bytes) → Takes 0 (header_of p)
unfolding header_of store_header
header_of-Takes [] c c' a h = ground (arith, ap (λ (p : Result FrameHeader × Conn). p.0) h)
header_of-Takes (x ∷ []) c c' a h = ground (arith, ap (λ (p : Result FrameHeader × Conn). p.0) h)
header_of-Takes (x ∷ y ∷ p) c c' a h =
    let same : length c.input ≡ length c'.input =
      ap (λ (p : Result FrameHeader × Conn). length p.1.input) h in
    omega (arith, same)

read_header-Takes : Takes 2 read_header
unfolding read_header
read_header-Takes c c' a h =
    omega (arith, Takes-bind 2 0 (read 2) header_of (read-Takes 2) header_of-Takes c c' a h)

number-Takes : (n : ℕ) → Takes n (read n >>= λ p. set_read_remaining (big_endian 0 p))
number-Takes n c c' a h =
    let store : Bytes → M (Unit {0}) = λ p. set_read_remaining (big_endian 0 p) in
    omega (
      arith,
      Takes-bind n 0 (read n) store (read-Takes n) (λ p. set_read_remaining-Takes (big_endian 0 p))
          c c' a h,
    )

extended_length-Takes : Takes 0 extended_length
unfolding extended_length
extended_length-Takes c c' a h = ground (
  arith,
  number-Takes 2 c c' a,
  number-Takes 8 c c' a,
  ap (λ (p : Result (Unit {0}) × Conn). p.1) h,
)

read_key-Takes : (mask : Bool) → Takes 0 (read_key mask)
unfolding read_key store_key
read_key-Takes false c c' a h =
    omega (arith, ap (λ (p : Result (Unit {0}) × Conn). length p.1.input) h)
read_key-Takes true c c' a h =
    let c0 : Conn = record c { read_mask_pos = 0 } in
    omega (
      arith,
      Takes-bind 4 0 (read 4) store_key (read-Takes 4)
          (λ p d d' b g. omega (arith, ap (λ (r : Result (Unit {0}) × Conn). length r.1.input) g))
          c0 c' a h,
    )

count_data-Takes : (world : World) (t : ℕ) → Takes 0 (count_data world t)
unfolding count_data
count_data-Takes world t c c' a h = ground (arith, ap (λ (p : Result ℕ × Conn). p.1) h)

read-shrinks : (n : ℕ) (c : Conn) → length (read n c).1.input ≤ length c.input
unfolding read
read-shrinks n c = ground (arith, length-drop n c.input)

control_payload-Takes : Takes 0 control_payload
unfolding control_payload
control_payload-Takes c c' a h =
    ground (arith, read-shrinks c.read_remaining c, ap (λ (p : Result Bytes × Conn). p.1) h)

-- Handlers that do not give the reader more input.
abbrev pub IsQuiet : Handlers → Type 0
IsQuiet handlers =
    ((payload : Bytes) → Takes 0 (handlers.handle_pong payload))
    × (((payload : Bytes) → Takes 0 (handlers.handle_ping payload))
        × ((code : ℕ) (text : Bytes) → Takes 0 (handlers.handle_close code text)))

close_step-fails :
    (m : M (Unit {0})) (e : Error) (c c' : Conn) (t : ℕ) → (m >> (throw e)) c ≢ (ok t, c')
close_step-fails m e c c' t h =
    let (_, (d, (_, thrown))) = bind-inv m (λ _. throw e) c c' t h in
    absurd (ground (arith, ap (λ (p : Result ℕ × Conn). p.0) thrown))

pub process_close-fails :
    (world : World) (handlers : Handlers) (payload : Bytes) (c c' : Conn) (t : ℕ)
    → process_close world handlers payload c ≢ (ok t, c')
unfolding process_close handle_protocol_error
process_close-fails world handlers payload c c' t h =
    let code = big_endian 0 (take 2 payload) in
    let text = drop 2 payload in
    ground (
      arith,
      ap (λ (p : Result ℕ × Conn). p.0) h,
      close_step-fails (handlers.handle_close 1005 []) (Error.close_error 1005 []) c c' t,
      close_step-fails (handlers.handle_close code text) (Error.close_error code text) c c' t,
    )

process_control-Takes :
    (world : World) (handlers : Handlers) (t : ℕ) (payload : Bytes)
    → IsQuiet handlers
    → Takes 0 (process_control world handlers t payload)
unfolding process_control
process_control-Takes world handlers t payload (pong, (ping, close)) c c' a h =
    let answer : Unit {0} → M ℕ = λ _ d. (ok t, d) in
    let quiet : (u : Unit {0}) → Takes 0 (answer u) =
      λ u d d' b g. omega (arith, ap (λ (r : Result ℕ × Conn). length r.1.input) g) in
    ground (
      arith,
      Takes-bind 0 0 (handlers.handle_pong payload) answer (pong payload) quiet c c' a,
      Takes-bind 0 0 (handlers.handle_ping payload) answer (ping payload) quiet c c' a,
      process_close-fails world handlers payload c c' a,
    )

read_payload-Takes :
    (world : World) (handlers : Handlers) (t : ℕ)
    → IsQuiet handlers
    → Takes 0 (read_payload world handlers t)
unfolding read_payload
read_payload-Takes world handlers t q c c' a h = ground (
  arith,
  count_data-Takes world t c c' a,
  Takes-bind 0 0 control_payload (process_control world handlers t) control_payload-Takes
      (λ payload. process_control-Takes world handlers t payload q) c c' a,
)

checked_body-Takes :
    (world : World) (handlers : Handlers) (h : FrameHeader)
    → IsQuiet handlers
    → Takes 0 (checked_body world handlers h)
unfolding checked_body frame_body handle_protocol_error
checked_body-Takes world handlers h q c c' a g =
    let rest = read_payload world handlers h.frame_type in
    let keyed : Takes 0 (read_key h.mask >> rest) =
      Takes-bind 0 0 (read_key h.mask) (λ _. rest) (read_key-Takes h.mask)
        (λ _. read_payload-Takes world handlers h.frame_type q) in
    ground (
      arith,
      ap (λ (p : Result ℕ × Conn). p.0) g,
      Takes-bind 0 0 extended_length (λ _. read_key h.mask >> rest) extended_length-Takes
          (λ _. keyed) c c' a,
    )

-- A frame that is accepted takes two bytes at least.
pub advance_frame-Takes :
    (world : World) (handlers : Handlers)
    → IsQuiet handlers
    → Takes 2 (advance_frame world handlers)
unfolding advance_frame
advance_frame-Takes world handlers q =
    let rest = checked_body world handlers in
    Takes-bind 0 2 skip (λ _. read_header >>= rest) skip-Takes
      (λ _.
        Takes-bind 2 0 read_header rest read_header-Takes
          (λ h. checked_body-Takes world handlers h q))
