-- ===== src/WebSocket/Read/Message.antt =====
-- `Read` of the message reader of contrib/websocket/conn.go, and that it gives the payload back.
-- `chunk` is how many bytes `bufio.Reader` hands out at once, and `len` the length of the buffer;
-- both are positive. `at_once` says that the error behind the input comes with its last bytes, as it
-- may where the buffer is large, and not with the next call.
use hertz_study.Base.{
  ℕ, zero, suc, ◌-◌, Bool, true, false, ◌&&◌, [], Option, none, some, Bytes, length, take, drop,
  leb, ltb, ◌==◌, if◌then◌else◌,
}
use hertz_study.WebSocket.Conn.{
  Conn, World, Error, Result, ok, fail, hide_temp_err, unexpected_eof, is_data,
}
use hertz_study.WebSocket.Mask.{mask_bytes_safe}
use hertz_study.WebSocket.Read.{advance_frame, failed}
use hertz_study.WebSocket.Read.Handle.{Handlers}

abbrev pub least : ℕ → ℕ → ℕ
least a b = if leb a b then a else b

-- What a server does to the bytes that it reads, and where it is in the mask after them.
unfoldable pub unmask : Bool → Bytes → ℕ → Bytes → Bytes × ℕ
unmask is_server key pos b = if is_server then mask_bytes_safe key pos b else (b, pos)

-- The bytes that were read, unmasked on a server, with the error that came with them, and what is
-- left.
unfoldable pub part_taken : Bytes → Bytes → Option Error → Conn → (Bytes × Option Error) × Conn
part_taken front tail err c =
    let (text, pos) = unmask c.is_server c.read_mask_key c.read_mask_pos front in
    (
      (text, err),
      record c {
        input = tail;
        read_err = err;
        read_remaining = c.read_remaining - length front;
        read_mask_pos = pos;
      },
    )

-- The error behind the input: where bytes of the frame are missing, the end is an unexpected one.
unfoldable pub read_stop : Bool → Error → Error
read_stop true Error.eof = unexpected_eof
read_stop more e = hide_temp_err e

abbrev pub amount : ℕ → ℕ → Conn → ℕ
amount chunk len c = least (least len c.read_remaining) (least chunk (length c.input))

-- The error that comes with `n` bytes of the input.
unfoldable pub part_error : Bool → ℕ → Conn → Option Error
part_error at_once n c =
    if at_once && n == length c.input
    then some (read_stop (ltb n c.read_remaining) c.input_end)
    else none

-- Part of the frame that is being read.
unfoldable pub read_part : Bool → ℕ → ℕ → Conn → (Bytes × Option Error) × Conn
read_part at_once chunk len c =
    let stop = read_stop true c.input_end in
    let n = amount chunk len c in
    if length c.input == 0
    then (([], some stop), record c { read_err = some stop })
    else part_taken (take n c.input) (drop n c.input) (part_error at_once n c) c

-- How `Read` ends when the connection has failed.
unfoldable pub read_failed : Error → Conn → Error
read_failed e c =
    if c.has_message_reader then elim e [ Error.eof ↦ unexpected_eof | e' ↦ e' ] else e

-- What the loop of `Read` does with a frame that `advanceFrame` has read.
unfoldable pub next_frame : Result ℕ × Conn → Conn
next_frame (fail e, c) = failed e c
next_frame (ok t, c) = if is_data t then record c { read_err = some Error.unexpected_data } else c

-- The loop of `Read` for at most `fuel` rounds. The bytes and the error, or `none` for more rounds.
unfoldable pub message_read :
    (ℕ → World) → (ℕ → Handlers) → Bool → ℕ → ℕ → ℕ → Conn → Option (Bytes × Option Error) × Conn
message_read worlds handlers at_once zero chunk len c = (none, c)
message_read worlds handlers at_once (suc fuel) chunk len c =
    let (part, c1) = read_part at_once chunk len c in
    let c2 = next_frame (advance_frame (worlds fuel) (handlers fuel) c) in
    let rest = message_read worlds handlers at_once fuel chunk len c2 in
    elim c.read_err [
      | some e ↦ (some ([], some (read_failed e c)), c)
      | none ↦
          if ltb 0 c.read_remaining
          then (some part, c1)
          else if c.read_final
          then (some ([], some Error.eof), record c { has_message_reader = false })
          else rest
    ]

-- `Read` on the reader that `NextReader` gave last, or on one that is closed.
unfoldable pub reader_read :
    (ℕ → World) → (ℕ → Handlers) → Bool → ℕ → ℕ → Conn → Option (Bytes × Option Error) × Conn
reader_read worlds handlers at_once chunk len c =
    let outcome = message_read worlds handlers at_once (suc (suc (length c.input))) chunk len c in
    if c.has_message_reader then outcome else (some ([], some Error.eof), c)
