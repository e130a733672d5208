-- ===== src/WebSocket/Read/Limit.antt =====
-- No data frame is accepted that makes a message larger than `readLimit`, or its size overflow.
use hertz_study.Base.{
  ℕ, ◌+◌, ◌^◌, ◌≤◌, ◌<◌, ◌≡◌, refl, ap, sym, subst, ◌∙◌, Bool, true, false, ◌⊎◌, inl, inr, Bytes,
  length, ◌==◌, arith, Bool-cases,
}
use hertz_study.WebSocket.Conn.{Conn, World, Result, ok, M, bind-inv, ◌>>=◌, ◌>>◌, is_control}
use hertz_study.WebSocket.Read.{advance_frame, checked_body, frame_body, read_payload}
use hertz_study.WebSocket.Read.Header.{skip, FrameHeader, read_header, extended_length, read_key}
use hertz_study.WebSocket.Read.Handle.{
  Handlers, handle_protocol_error, count_data, control_payload, process_control,
}
use hertz_study.WebSocket.Read.Message.{part_taken, read_part}
use hertz_study.WebSocket.Read.Progress.{process_close-fails}
use hertz_study.WebSocket.Read.Counters.{
  SameCount, skip-SameCount, read_header-SameCount, extended_length-SameCount,
  read_key-SameCounters,
}

-- The payload of the frame is counted, and the size is in the bounds.
abbrev pub IsCounted : ℕ → ℕ → Conn → Type 0
IsCounted before limit c =
    (c.read_length ≡ before + c.read_remaining)
    × (c.read_length < 2 ^ 63)
    × (c.read_limit ≡ limit)
    × ((limit ≡ 0) ⊎ (c.read_length ≤ limit))

count_data-Counted :
    (world : World) (t u : ℕ) (c c' : Conn)
    → c.read_length < 2 ^ 63
    → c.read_remaining < 2 ^ 63
    → count_data world t c ≡ (ok u, c')
    → IsCounted c.read_length c.read_limit c'
unfolding count_data
count_data-Counted world t u c c' fits small h = ground (
  arith,
  ap (λ (p : Result ℕ × Conn). p.0) h,
  ap (λ (p : Result ℕ × Conn). p.1.read_length) h,
  ap (λ (p : Result ℕ × Conn). p.1.read_limit) h,
  ap (λ (p : Result ℕ × Conn). p.1.read_remaining) h,
)

answer-type :
    (m : M (Unit {0})) (t u : ℕ) (c c' : Conn) → (m >> (λ d. (ok t, d))) c ≡ (ok u, c') → u ≡ t
answer-type m t u c c' h =
    let (_, (d, (_, last))) = bind-inv m (λ _ e. (ok t, e)) c c' u h in
    ground (arith, ap (λ (p : Result ℕ × Conn). p.0) last)

process_control-type :
    (world : World) (handlers : Handlers) (t u : ℕ) (payload : Bytes) (c c' : Conn)
    → process_control world handlers t payload c ≡ (ok u, c')
    → u ≡ t
unfolding process_control
process_control-type world handlers t u payload c c' h = ground (
  arith,
  answer-type (handlers.handle_pong payload) t u c c',
  answer-type (handlers.handle_ping payload) t u c c',
  process_close-fails world handlers payload c c' u,
)

branch-Data :
    (world : World) (handlers : Handlers) (t : ℕ) (c : Conn)
    → is_control t ≡ false
    → read_payload world handlers t c ≡ count_data world t c
unfolding read_payload
branch-Data world handlers t c h = rw h refl

branch-Control :
    (world : World) (handlers : Handlers) (t : ℕ) (c : Conn)
    → is_control t ≡ true
    → read_payload world handlers t c ≡ (control_payload >>= process_control world handlers t) c
unfolding read_payload
branch-Control world handlers t c h = rw h refl

-- A header with errors is not accepted.
accepted :
    (world : World) (handlers : Handlers) (h : FrameHeader) (c c' : Conn) (t : ℕ)
    → checked_body world handlers h c ≡ (ok t, c')
    → checked_body world handlers h c ≡ frame_body world handlers h c
unfolding checked_body handle_protocol_error
accepted world handlers h c c' t g = ground (arith, ap (λ (p : Result ℕ × Conn). p.0) g)

read_payload-Counted :
    (world : World) (handlers : Handlers) (t u : ℕ) (c c' : Conn)
    → c.read_length < 2 ^ 63
    → c.read_remaining < 2 ^ 63
    → read_payload world handlers t c ≡ (ok u, c')
    → is_control u ≡ false
    → IsCounted c.read_length c.read_limit c'
read_payload-Counted world handlers t u c c' fits small h plain_u =
    elim (Bool-cases (is_control t)) [
      | inr plain ↦
          count_data-Counted world t u c c' fits small
            (sym (branch-Data world handlers t c plain) ∙ h)
      | inl control ↦
          let rest = process_control world handlers t in
          let bound = sym (branch-Control world handlers t c control) ∙ h in
          let (payload, (d, (_, last))) = bind-inv control_payload rest c c' u bound in
          let same = process_control-type world handlers t u payload d c' last in
          absurd (ground (arith, ap is_control same))
    ]

-- A data frame that is accepted adds the length of its payload to the size of its message, which
-- stays below 2^63 and, where `readLimit` is set, within that limit.
pub advance_frame-Counted :
    (world : World) (handlers : Handlers) (c c' : Conn) (t : ℕ)
    → c.read_length < 2 ^ 63
    → advance_frame world handlers c ≡ (ok t, c')
    → is_control t ≡ false
    → IsCounted c.read_length c.read_limit c'
unfolding advance_frame frame_body
advance_frame-Counted world handlers c c' t fits h plain =
    let checked = checked_body world handlers in
    let (u1, (c1, (g1, h1))) = bind-inv skip (λ _. read_header >>= checked) c c' t h in
    let (header, (c2, (g2, h2))) = bind-inv read_header checked c1 c' t h1 in
    let h3 = sym (accepted world handlers header c2 c' t h2) ∙ h2 in
    let payload = read_payload world handlers header.frame_type in
    let (u3, (c3, (g3, h4))) =
      bind-inv extended_length (λ _. read_key header.mask >> payload) c2 c' t h3 in
    let (u4, (c4, (g4, h5))) = bind-inv (read_key header.mask) (λ _. payload) c3 c' t h4 in
    let s1 = skip-SameCount c c1 u1 g1 in
    let (s2, tiny) = read_header-SameCount c1 c2 header g2 in
    let (s3, small) = extended_length-SameCount c2 c3 u3 tiny g3 in
    let (s4, kept) = read_key-SameCounters header.mask c3 c4 u4 g4 in
    let length_is : c4.read_length ≡ c.read_length = omega (arith, s1, s2, s3, s4) in
    let limit_is : c4.read_limit ≡ c.read_limit = omega (arith, s1, s2, s3, s4) in
    subst (λ (n : ℕ). IsCounted n c.read_limit c') length_is
      (subst (λ (n : ℕ). IsCounted c4.read_length n c') limit_is
        (read_payload-Counted world handlers header.frame_type t c4 c'
          (omega (arith, length_is, fits)) (omega (arith, kept, small)) h5 plain))

-- `Read` of part of a frame keeps the two counters.
pub read_part-SameCount :
    (at_once : Bool) (chunk len : ℕ) (c : Conn) → SameCount c (read_part at_once chunk len c).1
unfolding read_part part_taken
read_part-SameCount at_once chunk len c = elim (Bool-cases (length c.input == 0)) [
  | inl is ↦ rw is (refl, refl)
  | inr is_not ↦ rw is_not (refl, refl)
]

-- The frames of a message that starts at a connection, with the sum of the lengths of their payloads.
-- Before and between them the connection may change in any way that keeps the two counters, as the
-- reads of a payload do.
pub data Message (start : Conn) : ℕ → Conn → Type 0 where
  begun : Message start 0 start
  between : {n : ℕ} {c c' : Conn} → Message start n c → SameCount c c' → Message start n c'
  frame :
      {n : ℕ} {c c' : Conn} (world : World) (handlers : Handlers) (t : ℕ)
      → Message start n c
      → advance_frame world handlers c ≡ (ok t, c')
      → is_control t ≡ false
      → Message start (n + c'.read_remaining) c'

Message-counted :
    {start c : Conn} {n : ℕ}
    → start.read_length ≡ 0
    → Message start n c
    → (c.read_length ≡ n)
      × (n < 2 ^ 63)
      × (c.read_limit ≡ start.read_limit)
      × ((start.read_limit ≡ 0) ⊎ (n ≤ start.read_limit))
Message-counted new begun = ground (arith, new)
Message-counted new (between m same) = ground (arith, Message-counted new m, same)
Message-counted new (frame {n} {c} {c'} world handlers t m h plain) =
    let ih = Message-counted new m in
    let fits : c.read_length < 2 ^ 63 = omega (arith, ih) in
    ground (arith, ih, advance_frame-Counted world handlers c c' t fits h plain)

-- The payloads of the data frames that `advanceFrame` accepts for one message, from a connection
-- whose counter is at 0 on, have less than 2^63 bytes together and, where `readLimit` is set, no
-- more than that. Between the frames the connection changes in any way that keeps `readLength` and
-- `readLimit`.
pub Message-Within :
    (start c : Conn) (n : ℕ)
    → start.read_length ≡ 0
    → Message start n c
    → (n < 2 ^ 63) × ((start.read_limit ≡ 0) ⊎ (n ≤ start.read_limit))
Message-Within start c n new m = let (_, fits, _, within) = Message-counted new m in (fits, within)
