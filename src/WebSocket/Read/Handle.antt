-- ===== src/WebSocket/Read/Handle.antt =====
-- What `advanceFrame` of contrib/websocket/conn.go does with a frame once its header is read, and
-- the default handlers of control messages.
use hertz_study.Base.{
  ℕ, ◌+◌, ◌^◌, ◌%◌, true, not, ◌&&◌, List, [], ◌∷◌, ◌++◌, Option, none, some, Bytes, codes, length,
  take, drop, leb, ltb, ◌==◌, if◌then◌else◌,
}
use hertz_study.WebSocket.Conn.{
  Conn, World, M, ok, fail, Error, Result, close_message, ping_message, pong_message, ◌>>◌, throw,
  max_control_frame_payload_size,
}
use hertz_study.WebSocket.Close.{
  big_endian, itoa, format_close_message, is_valid_received_close_code, valid_utf8,
  close_protocol_error, close_no_status_received, close_message_too_big,
}
use hertz_study.WebSocket.Mask.{mask_bytes_safe}
use hertz_study.WebSocket.Read.Header.{read}
use hertz_study.WebSocket.Write.{write_control}

pub record Handlers : Type 0 where
  pub handle_pong : Bytes → M (Unit {0})
  pub handle_ping : Bytes → M (Unit {0})
  pub handle_close : ℕ → Bytes → M (Unit {0})

-- A ping's pong may fail without harm when the close message is out, or for a passing reason.
unfoldable pub pong_error : Option Error → Result (Unit {0})
pong_error none = ok tt
pong_error (some Error.close_sent) = ok tt
pong_error (some Error.write_timeout) = ok tt
pong_error (some (Error.net_error e true)) = ok tt
pong_error (some e) = fail e

-- The handlers that `SetPongHandler`, `SetPingHandler` and `SetCloseHandler` install for `nil`.
unfoldable pub default_handlers : World → Handlers
default_handlers world = record {
  handle_pong = λ payload c. (ok tt, c);
  handle_ping = λ payload c.
      let (err, c') = write_control world pong_message payload c in (pong_error err, c');
  handle_close = λ code text c.
      (ok tt, (write_control world close_message (format_close_message code []) c).1);
}

-- `strings.Join(errors, ", ")`
unfoldable pub join : List Bytes → Bytes
join [] = []
join (e ∷ []) = e
join (e ∷ es) = e ++ (codes ", " ++ join es)

-- The error's text is `websocket: ` and the message; that prefix is left out.
unfoldable pub protocol_error : World → Bytes → Conn → Error × Conn
protocol_error world message c =
    let payload = format_close_message close_protocol_error message in
    let payload' =
      if ltb max_control_frame_payload_size (length payload)
      then take max_control_frame_payload_size payload
      else payload in
    (Error.protocol message, (write_control world close_message payload' c).1)

unfoldable pub handle_protocol_error : World → List Bytes → M ℕ
handle_protocol_error world errors c =
    let (e, c') = protocol_error world (join errors) c in (fail e, c')

-- Step 5. The sum is an `int64`: from 2^63 on it is negative.
unfoldable pub count_data : World → ℕ → M ℕ
count_data world frame_type c =
    let len = (c.read_length + c.read_remaining) % 2 ^ 64 in
    let c' = record c { read_length = len } in
    let too_big = format_close_message close_message_too_big [] in
    if leb (2 ^ 63) len
    then (fail Error.read_limit, c')
    else if ltb 0 c.read_limit && ltb c.read_limit len
    then (fail Error.read_limit, (write_control world close_message too_big c').1)
    else (ok frame_type, c')

-- Step 6.
unfoldable pub control_payload : M Bytes
control_payload c =
    let (r, c') = read c.read_remaining c in
    let c1 = record c' { read_remaining = 0 } in
    if c.read_remaining == 0 then (ok [], c) else elim r [
      | fail e ↦ (fail e, c1)
      | ok payload ↦
          (ok (if c.is_server then (mask_bytes_safe c.read_mask_key 0 payload).0 else payload), c1)
    ]

-- The close message's part of step 7.
unfoldable pub process_close : World → Handlers → Bytes → M ℕ
process_close world handlers payload =
    let code = big_endian 0 (take 2 payload) in
    let text = drop 2 payload in
    if ltb (length payload) 2
    then (handlers.handle_close close_no_status_received []
        >> throw (Error.close_error close_no_status_received []))
    else if not (is_valid_received_close_code code)
    then handle_protocol_error world ((codes "bad close code " ++ itoa code) ∷ [])
    else if not (valid_utf8 text)
    then handle_protocol_error world (codes "invalid utf8 payload in close frame" ∷ [])
    else (handlers.handle_close code text >> throw (Error.close_error code text))

-- Step 7.
unfoldable pub process_control : World → Handlers → ℕ → Bytes → M ℕ
process_control world handlers frame_type payload =
    if frame_type == pong_message
    then (handlers.handle_pong payload >> λ c. (ok frame_type, c))
    else if frame_type == ping_message
    then (handlers.handle_ping payload >> λ c. (ok frame_type, c))
    else process_close world handlers payload
