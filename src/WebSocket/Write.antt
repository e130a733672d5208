-- ===== src/WebSocket/Write.antt =====
-- The write half of contrib/websocket/conn.go: control messages, frames and whole messages, without
-- compression. Masking is that of mask_safe.go; mask.go gives the same bytes.
pub mod Laws
pub mod Fuel
use hertz_study.Base.{
  ℕ, zero, suc, ◌+◌, ◌-◌, ◌*◌, ◌/◌, ◌%◌, Bool, true, false, not, ◌&&◌, ◌||◌, [], ◌∷◌, ◌++◌, Option,
  none, some, Bytes, length, take, drop, leb, ltb, ◌==◌, if◌then◌else◌, bit_or,
}
use hertz_study.WebSocket.Conn.{
  Conn, World, MessageWriter, Error, hide_temp_err, close_message, continuation_frame, is_control,
  is_data, max_control_frame_payload_size,
}
use hertz_study.WebSocket.Mask.{mask_bytes_safe}

-- Returns the error, and keeps the first one of the connection.
unfoldable pub write_fatal : Error → Conn → Error × Conn
write_fatal error c =
    let err = hide_temp_err error in
    elim c.write_err [ some e ↦ (err, c) | none ↦ (err, record c { write_err = some err }) ]

-- What both `write` and `WriteControl` do once they hold the lock.
unfoldable pub send : World → ℕ → Bytes → Conn → Option Error × Conn
send world frame_type payload c = elim c.write_err [
  | some e ↦ (some e, c)
  | none ↦ elim world.write_error [
    | some e ↦
        let (err, c') = write_fatal e (record c { output = c.output ++ take world.sent payload }) in
        (some err, c')
    | none ↦
        let c' = record c { output = c.output ++ payload } in
        (none, if frame_type == close_message then (write_fatal Error.close_sent c').1 else c')
  ]
]

unfoldable pub write : World → ℕ → Bytes → Bytes → Conn → Option Error × Conn
write world frame_type buf0 buf1 c = send world frame_type (buf0 ++ buf1) c

-- `b |= bit` under a condition.
unfoldable pub set_bit : Bool → ℕ → ℕ → ℕ
set_bit condition bit b = if condition then bit_or b bit else b

abbrev pub final_bit : ℕ
final_bit = 128

abbrev pub rsv1_bit : ℕ
rsv1_bit = 64

abbrev pub mask_bit : ℕ
mask_bit = 128

-- The mask key and the masked payload of a client, the plain payload of a server.
unfoldable pub masked_payload : Bool → Bytes → Bytes → Bytes
masked_payload is_server key payload =
    if is_server then payload else key ++ (mask_bytes_safe key 0 payload).0

-- `buf` of `WriteControl`.
unfoldable pub control_frame : Bool → Bytes → ℕ → Bytes → Bytes
control_frame is_server key message_type payload =
    bit_or (message_type % 256) final_bit
    ∷ set_bit (not is_server) mask_bit (length payload % 256)
    ∷ masked_payload is_server key payload

unfoldable pub write_control : World → ℕ → Bytes → Conn → Option Error × Conn
write_control world message_type payload c =
    if not (is_control message_type)
    then (some Error.bad_write_op_code, c)
    else if ltb max_control_frame_payload_size (length payload)
    then (some Error.invalid_control_frame, c)
    else if not world.in_time
    then (some Error.write_timeout, c)
    else send world message_type (control_frame c.is_server world.mask_key message_type payload) c

-- `binary.BigEndian.PutUint64` and `PutUint16`, with the last of `n` bytes next to `out`.
unfoldable pub put_uint : ℕ → ℕ → Bytes → Bytes
put_uint zero v out = out
put_uint (suc n) v out = put_uint n (v / 256) (v % 256 ∷ out)

-- The header that `flushFrame` builds, up to the mask key.
unfoldable pub frame_header : Bool → Bool → Bool → ℕ → ℕ → Bytes
frame_header is_server compress final frame_type len =
    let b0 = set_bit compress rsv1_bit (set_bit final final_bit (frame_type % 256)) in
    let b1 = set_bit (not is_server) mask_bit 0 in
    b0
    ∷ (if leb 65536 len
        then bit_or b1 127 ∷ put_uint 8 len []
        else if ltb 125 len
        then bit_or b1 126 ∷ put_uint 2 (len % 65536) []
        else bit_or b1 (len % 256) ∷ [])

unfoldable pub end_message : Error → MessageWriter → Conn → MessageWriter × Conn
end_message error w c = elim w.err [
  | some e ↦ (w, c)
  | none ↦ (record w { err = some error }, record c { writer = none })
]

-- What `flushFrame` does with the outcome of the write.
unfoldable pub after_write :
    Bool → MessageWriter → Option Error × Conn → Option Error × (MessageWriter × Conn)
after_write final w (some e, c) = (some e, end_message e w c)
after_write true w (none, c) = (none, end_message Error.write_closed w c)
after_write false w (none, c) =
    (none, (record w { buffered = []; frame_type = continuation_frame }, c))

unfoldable pub flush_frame :
    World → Bool → Bytes → MessageWriter → Conn → Option Error × (MessageWriter × Conn)
flush_frame world final extra w c =
    let len = length w.buffered + length extra in
    let w' = record w { compress = false } in
    let header = frame_header c.is_server w.compress final w.frame_type len in
    let frame = header ++ masked_payload c.is_server world.mask_key w.buffered in
    let (fatal, c') = write_fatal Error.extra_in_client_mode c in
    if is_control w.frame_type && (not final || ltb max_control_frame_payload_size len)
    then (some Error.invalid_control_frame, end_message Error.invalid_control_frame w c)
    else if not c.is_server && ltb 0 (length extra)
    then (some fatal, end_message fatal w' c')
    else after_write final w' (write world w.frame_type frame extra c)

-- `Close` of a message writer.
unfoldable pub close : World → MessageWriter → Conn → Option Error × (MessageWriter × Conn)
close world w c = elim w.err [ some e ↦ (some e, (w, c)) | none ↦ flush_frame world true [] w c ]

-- `ncopy`: makes room, and gives the number of bytes that fit, at most `max`.
unfoldable pub ncopy :
    World → ℕ → MessageWriter → Conn → (Option Error × ℕ) × (MessageWriter × Conn)
ncopy world max w c =
    let room = c.buffer_size - length w.buffered in
    let (err, (w', c')) = flush_frame world false [] w c in
    let room' = c'.buffer_size - length w'.buffered in
    if leb room 0
    then elim err [
      | some e ↦ ((some e, 0), (w', c'))
      | none ↦ ((none, if ltb max room' then max else room'), (w', c'))
    ]
    else ((none, if ltb max room then max else room), (w, c))

-- The loop of `Write`, for at most `fuel` copies. `worlds` says what the outside does at each,
-- by the number of bytes behind the next one.
unfoldable pub write_loop :
    (ℕ → World) → ℕ → Bytes → MessageWriter → Conn → Option Error × (MessageWriter × Conn)
write_loop worlds zero p w c = (none, (w, c))
write_loop worlds (suc fuel) [] w c = (none, (w, c))
write_loop worlds (suc fuel) (b ∷ p) w c =
    let ((err, n), (w', c')) = ncopy (worlds (length p)) (length (b ∷ p)) w c in
    elim err [
      | some e ↦ (some e, (w', c'))
      | none ↦
          write_loop worlds fuel (drop n (b ∷ p))
            (record w' { buffered = w'.buffered ++ take n (b ∷ p) }) c'
    ]

-- `Write` of a message writer. Every copy takes a byte at least.
unfoldable pub write_bytes :
    (ℕ → World) → Bytes → MessageWriter → Conn → Option Error × (MessageWriter × Conn)
write_bytes worlds p w c = elim w.err [
  | some e ↦ (some e, (w, c))
  | none ↦
      if ltb (2 * (c.buffer_size + 14)) (length p) && c.is_server
      then flush_frame (worlds 0) false p w c
      else write_loop worlds (length p) p w c
]

-- `beginMessage`: the outcome of closing the earlier writer is not looked at.
unfoldable pub begin_message : World → ℕ → Conn → Option Error × (MessageWriter × Conn)
begin_message world message_type c =
    let w : MessageWriter = record {
      compress = false;
      buffered = [];
      frame_type = message_type;
      err = none;
    } in
    let c' : Conn = elim c.writer [
      | none ↦ c
      | some old ↦ record (close world old c).1.1 { writer = none }
    ] in
    if not (is_control message_type) && not (is_data message_type)
    then (some Error.bad_write_op_code, (w, c'))
    else (c'.write_err, (w, c'))

-- `WriteMessage`: on a server the fast path, which sends one frame. `world0` is for closing an earlier
-- writer, `world` for the last frame and `worlds` for those before it.
unfoldable pub write_message : World → World → (ℕ → World) → ℕ → Bytes → Conn → Option Error × Conn
write_message world0 world worlds message_type payload c =
    let (err, (w, c1)) = begin_message world0 message_type c in
    elim err [
      | some e ↦ (some e, c1)
      | none ↦
          if c1.is_server
          then (let (e, (_, c')) =
                flush_frame world true (drop c1.buffer_size payload)
                  (record w { buffered = take c1.buffer_size payload }) c1 in
              (e, c'))
          else (let (e1, (w', c2)) = write_bytes worlds payload w (record c1 { writer = some w }) in
              let (e2, (_, c3)) = close world w' c2 in
              elim e1 [ some e ↦ (some e, c2) | none ↦ (e2, c3) ])
    ]
