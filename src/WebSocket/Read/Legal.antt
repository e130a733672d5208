-- ===== src/WebSocket/Read/Legal.antt =====
-- Which headers `advanceFrame` accepts, against the rules of RFC 6455 that it enforces, and what it
-- does about the others.
use hertz_study.Base.{
  ℕ, ◌≤◌, ◌≡◌, ◌≢◌, ◌↔◌, refl, ap, ◌∙◌, true, false, ◌⊎◌, inl, inr, [], ◌∷◌, Bytes, length, take,
  length-take, ltb, arith, Bool-cases, bit_and,
}
use hertz_study.WebSocket.Conn.{
  Conn, World, Error, fail, bind-ok, ◌>>=◌, is_control, is_data, close_message,
}
use hertz_study.WebSocket.Close.{format_close_message, close_protocol_error, put_uint16}
use hertz_study.WebSocket.Read.{advance_frame, checked_body}
use hertz_study.WebSocket.Read.Header.{
  has_bit, FrameHeader, type_errors, parse_header, store_header, read_header, skip,
}
use hertz_study.WebSocket.Read.Handle.{Handlers, handle_protocol_error, protocol_error, join}
use hertz_study.WebSocket.Read.Steps.{read_header-cons, skip-nothing}
use hertz_study.WebSocket.Write.{write_control}

-- The rules, as one statement about the two bytes and the connection.
abbrev pub IsLegal : ℕ → ℕ → Conn → Type 0
IsLegal p0 p1 c =
    let t = bit_and p0 15 in
    let final = has_bit p0 128 in
    let len = bit_and p1 127 in
    ((has_bit p0 64 ≡ true → c.can_decompress ≡ true)
      × ((has_bit p0 32 ≡ false) × (has_bit p0 16 ≡ false)))
    × ((has_bit p1 128 ≡ c.is_server)
        × (((is_control t ≡ true) × ((final ≡ true) × (len ≤ 125)))
            ⊎ (((is_data t ≡ true) × (c.read_final ≡ true)) ⊎ ((t ≡ 0) × (c.read_final ≡ false)))))

-- The header of a frame is accepted exactly if it keeps the rules: no reserved bit but the one of
-- compression where that is agreed, masked exactly by a client, control frames final and of 125
-- bytes at most, data frames and continuations in turn, no other type.
pub parse_header_lem :
    (p0 p1 : ℕ) (c : Conn) → ((parse_header p0 p1 c).errors ≡ []) ↔ IsLegal p0 p1 c
unfolding parse_header type_errors is_control is_data
parse_header_lem p0 p1 c = ground arith

report-Short :
    (world : World) (message : Bytes) (c : Conn)
    → (payload : Bytes) × ((length payload ≤ 125)
        × ((take 2 payload ≡ 3 ∷ 234 ∷ [])
            × (protocol_error world message c
                ≡ (Error.protocol message, (write_control world close_message payload c).1))))
unfolding protocol_error format_close_message put_uint16
report-Short world message c =
    let whole = format_close_message close_protocol_error message in
    elim (Bool-cases (ltb 125 (length whole))) [
      | inl long ↦
          let short : length (take 125 whole) ≤ 125 = omega (arith, length-take 125 whole) in
          (take 125 whole, (short, (refl, rw (long, protocol_error) refl)))
      | inr fits ↦ (whole, (ground arith, (refl, rw (fits, protocol_error) refl)))
    ]

illegal_body :
    (world : World) (handlers : Handlers) (h : FrameHeader) (c : Conn)
    → h.errors ≢ []
    → checked_body world handlers h c ≡ handle_protocol_error world h.errors c
unfolding checked_body
illegal_body world handlers h c bad = ground (arith, bad)

-- A frame whose header breaks a rule is not read further. The reader reports the protocol error, and
-- answers with one close message: code 1002, and 125 bytes at most whatever the text.
pub advance_frame-Illegal :
    (world : World) (handlers : Handlers) (p0 p1 : ℕ) (b : Bytes) (c : Conn)
    → c.read_remaining ≡ 0
    → c.input ≡ p0 ∷ p1 ∷ b
    → (parse_header p0 p1 (record c { input = b })).errors ≢ []
    → let c1 : Conn = record c { input = b } in
      let errors = (parse_header p0 p1 c1).errors in
      (payload : Bytes) × ((length payload ≤ 125)
        × ((take 2 payload ≡ 3 ∷ 234 ∷ [])
            × (advance_frame world handlers c ≡ (
              fail (Error.protocol (join errors)),
              (write_control world close_message payload (store_header p0 p1 c1)).1,
            ))))
unfolding advance_frame handle_protocol_error
advance_frame-Illegal world handlers p0 p1 b c none_left h bad =
    let c1 : Conn = record c { input = b } in
    let header = parse_header p0 p1 c1 in
    let c2 = store_header p0 p1 c1 in
    let rest = checked_body world handlers in
    let (payload, (short, (code, report))) = report-Short world (join header.errors) c2 in
    (
      payload,
      (
        short,
        (
          code,
          bind-ok skip (λ _. read_header >>= rest) c c tt (skip-nothing c none_left)
              ∙ bind-ok read_header rest c c2 header (read_header-cons p0 p1 b c h)
              ∙ illegal_body world handlers header c2 bad
              ∙ ap (λ (p : Error × Conn). (fail p.0, p.1)) report,
        ),
      ),
    )
