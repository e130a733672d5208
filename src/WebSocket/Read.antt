-- ===== src/WebSocket/Read.antt =====
-- The read half of contrib/websocket/conn.go: frames, control messages and data messages.
pub mod Header
pub mod Handle
pub mod Fields
pub mod Steps
pub mod Length
pub mod RoundTrip
pub mod Legal
pub mod Progress
pub mod Ends
pub mod Message
pub mod Delivery
pub mod Finish
pub mod Counters
pub mod Limit
use hertz_study.Base.{
  ℕ, zero, suc, ◌+◌, ◌-◌, ◌*◌, ◌^◌, ◌/◌, ◌%◌, Bool, true, false, not, ◌&&◌, ◌||◌, [], ◌∷◌, ◌++◌,
  Option, none, some, Bytes, length, take, drop, leb, ltb, ◌==◌, if◌then◌else◌,
}
use hertz_study.WebSocket.Conn.{
  Conn, World, M, ok, fail, Error, hide_temp_err, unexpected_eof, is_control, is_data, ◌>>=◌, ◌>>◌,
  return, throw, modify, get, Result,
}
use hertz_study.WebSocket.Mask.{mask_bytes_safe}
use hertz_study.WebSocket.Read.Header.{
  read, skip, read_header, extended_length, read_key, FrameHeader,
}
use hertz_study.WebSocket.Read.Handle.{
  Handlers, handle_protocol_error, count_data, control_payload, process_control,
}

-- Steps 5 to 7.
unfoldable pub read_payload : World → Handlers → ℕ → M ℕ
read_payload world handlers frame_type =
    if is_control frame_type
    then (control_payload >>= process_control world handlers frame_type)
    else count_data world frame_type

-- Steps 3 to 7: what follows the first two bytes.
unfoldable pub frame_body : World → Handlers → FrameHeader → M ℕ
frame_body world handlers h =
    extended_length >> (read_key h.mask >> read_payload world handlers h.frame_type)

-- The errors of the first two bytes are reported together.
unfoldable pub checked_body : World → Handlers → FrameHeader → M ℕ
checked_body world handlers h = elim h.errors [
  | [] ↦ frame_body world handlers h
  | e ∷ es ↦ handle_protocol_error world (e ∷ es)
]

-- One frame: a data frame's header, or a control frame as a whole.
unfoldable pub advance_frame : World → Handlers → M ℕ
advance_frame world handlers = skip >> (read_header >>= checked_body world handlers)

-- `c.readErr = hideTempErr(err)`.
abbrev pub failed : Error → Conn → Conn
failed e c = record c { read_err = some (hide_temp_err e) }

-- The body of the loop of `NextReader`, given the rounds that follow.
unfoldable pub loop_step : Result ℕ × Conn → Option (Option ℕ) × Conn → Option (Option ℕ) × Conn
loop_step (fail e, c) rest = (some none, failed e c)
loop_step (ok frame_type, c) rest =
    if is_data frame_type
    then (some (some frame_type), record c { has_message_reader = true })
    else rest

-- The loop for at most `fuel` frames. `none` stands for more frames than that.
unfoldable pub next_reader_loop : (ℕ → World) → (ℕ → Handlers) → ℕ → Conn → Option (Option ℕ) × Conn
next_reader_loop worlds handlers zero c = (none, c)
next_reader_loop worlds handlers (suc fuel) c =
    let next = advance_frame (worlds fuel) (handlers fuel) c in
    let rest = next_reader_loop worlds handlers fuel next.1 in
    elim c.read_err [ some e ↦ (some none, c) | none ↦ loop_step next rest ]

-- What `NextReader` gives.
pub data Outcome : Type 0 where
  message : ℕ → Outcome
  no_message : Error → Outcome
  panics out_of_fuel : Outcome

unfoldable pub next_reader_end : Option (Option ℕ) × Conn → Outcome × Conn
next_reader_end (none, c) = (Outcome.out_of_fuel, c)
next_reader_end (some (some frame_type), c) = (Outcome.message frame_type, c)
next_reader_end (some none, c) =
    let c' = record c { read_err_count = c.read_err_count + 1 } in
    if leb 1000 (c.read_err_count + 1)
    then (Outcome.panics, c')
    else elim c.read_err [ some e ↦ (Outcome.no_message e, c') | none ↦ (Outcome.out_of_fuel, c') ]

-- Every frame takes two bytes at least, so one round more than there are bytes is enough.
unfoldable pub next_reader : (ℕ → World) → (ℕ → Handlers) → Conn → Outcome × Conn
next_reader worlds handlers c = next_reader_end (
    next_reader_loop worlds handlers (suc (length c.input))
      (record c { has_message_reader = false; read_length = 0 }))
