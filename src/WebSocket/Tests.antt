-- ===== src/WebSocket/Tests.antt =====
-- Runs of the contrib/websocket model, and the theorems at inputs that meet their hypotheses.
use hertz_study.Base.{
  ◌↔◌, ℕ, ◌^◌, ◌≤◌, ◌<◌, ◌≡◌, ◌≢◌, refl, Bool, true, false, ◌⊎◌, inl, inr, [], ◌∷◌, ◌++◌, Option,
  none, some, Bytes, codes, length, take, drop, arith,
}
use hertz_study.WebSocket.Conn.{
  MessageWriter, Conn, World, Error, ok, fail, close_message, is_control, is_data,
}
use hertz_study.WebSocket.Mask.{mask_bytes, mask_bytes_safe, mask_loop, key_at}
use hertz_study.WebSocket.Mask.Laws.{mask_bytes-mask_bytes_safe}
use hertz_study.WebSocket.Write.{
  begin_message, write_bytes, write_loop, ncopy, close, flush_frame, after_write, write, send,
  end_message, write_fatal, set_bit, write_control, write_message, frame_header, masked_payload,
}
use hertz_study.WebSocket.Write.Laws.{write_message-Silent}
use hertz_study.WebSocket.EndToEnd.{advance_frame-flush_frame}
use hertz_study.WebSocket.Read.{advance_frame, next_reader, Outcome}
use hertz_study.WebSocket.Read.Header.{type_errors, has_bit, parse_header, store_header}
use hertz_study.WebSocket.Read.Handle.{default_handlers, join}
use hertz_study.WebSocket.Read.Message.{unmask, read_part, reader_read}
use hertz_study.WebSocket.Read.Legal.{IsLegal, parse_header_lem, advance_frame-Illegal}
use hertz_study.WebSocket.Read.RoundTrip.{received, advance_frame-frame_header}
use hertz_study.WebSocket.Read.Finish.{reader_read-Ends}
use hertz_study.WebSocket.Read.Ends.{next_reader-Ends, default_handlers-IsQuiet}
use hertz_study.WebSocket.Read.Limit.{Message, read_part-SameCount, Message-Within}
use hertz_study.WebSocket.Read.Delivery.{IsPending, IsAllowed, reader_read-Pending}

abbrev quiet_world : World
quiet_world = record { in_time = true; write_error = none; sent = 0; mask_key = 1 ∷ 2 ∷ 3 ∷ 4 ∷ [] }

abbrev new_conn : Bool → Bytes → Conn
new_conn is_server input = record {
  is_server = is_server;
  input = input;
  input_end = Error.eof;
  output = [];
  write_err = none;
  buffer_size = 4;
  writer = none;
  can_decompress = false;
  read_err = none;
  read_err_count = 0;
  read_remaining = 0;
  read_final = true;
  read_length = 0;
  read_limit = 0;
  read_mask_pos = 0;
  read_mask_key = [];
  read_decompress = false;
  has_message_reader = false;
}

-- What a client sends for the text "Hi".
client_text : Bytes
client_text =
    frame_header false false true 1 2
    ++ (masked_payload false (1 ∷ 2 ∷ 3 ∷ 4 ∷ []) (codes "Hi") ++ [])

abbrev server_side : Conn
server_side = new_conn true client_text

hi_is_read :
    advance_frame quiet_world (default_handlers quiet_world) server_side
    ≡ (ok 1, received false true (1 ∷ 2 ∷ 3 ∷ 4 ∷ []) (codes "Hi") [] server_side)
unfolding client_text is_data
hi_is_read =
    advance_frame-frame_header false true 1 (1 ∷ 2 ∷ 3 ∷ 4 ∷ []) (codes "Hi") [] server_side
      quiet_world (default_handlers quiet_world) refl refl
      (record {
        nothing_left = refl;
        in_turn = inl (refl, refl);
        fits = omega arith;
        in_limit = inl refl;
      })
      refl

message_sent :
    (write_message quiet_world quiet_world
      (λ _. quiet_world)
      1
      (codes "Hi")
      (new_conn false [])).1.output
    ≡ client_text
unfolding client_text write_message begin_message write_bytes write_loop ncopy close flush_frame
    after_write write send end_message write_fatal frame_header masked_payload set_bit
    mask_bytes_safe mask_loop key_at is_control is_data
message_sent = refl

failing : Conn
failing = record (new_conn true []) { write_err = some Error.close_sent }

write_message-Silent_example :
    let (err, c') =
      write_message quiet_world quiet_world (λ _. quiet_world) 1 (codes "Hi") failing in
    (err ≢ none) × ((c'.write_err ≡ some Error.close_sent) × (c'.output ≡ failing.output))
unfolding failing
write_message-Silent_example =
    write_message-Silent quiet_world quiet_world (λ _. quiet_world) Error.close_sent 1 (codes "Hi")
      failing refl

mask_bytes-mask_bytes_safe_example :
    mask_bytes 3 (1 ∷ 2 ∷ 3 ∷ 4 ∷ []) 1 (codes "Hi")
    ≡ mask_bytes_safe (1 ∷ 2 ∷ 3 ∷ 4 ∷ []) 1 (codes "Hi")
mask_bytes-mask_bytes_safe_example =
    mask_bytes-mask_bytes_safe 3 (1 ∷ 2 ∷ 3 ∷ 4 ∷ []) 1 (codes "Hi") (omega arith)
      (omega arith, (omega arith, (omega arith, (omega arith, tt))))
      (omega arith, (omega arith, tt))

abbrev example_key : Bytes
example_key = 1 ∷ 2 ∷ 3 ∷ 4 ∷ []

-- A ping that is not final.
abbrev bad_ping : Conn
bad_ping = new_conn true (9 ∷ 128 ∷ [])

parse_header_lem_example :
    let c = new_conn true [] in ((parse_header 137 128 c).errors ≡ []) ↔ IsLegal 137 128 c
parse_header_lem_example = parse_header_lem 137 128 (new_conn true [])

advance_frame-Illegal_example :
    let c1 = new_conn true [] in
    (payload : Bytes) × ((length payload ≤ 125)
      × ((take 2 payload ≡ 3 ∷ 234 ∷ [])
          × (advance_frame quiet_world (default_handlers quiet_world) bad_ping ≡ (
            fail (Error.protocol (join (parse_header 9 128 c1).errors)),
            (write_control quiet_world close_message payload (store_header 9 128 c1)).1,
          ))))
unfolding parse_header type_errors is_control is_data has_bit
advance_frame-Illegal_example =
    advance_frame-Illegal quiet_world (default_handlers quiet_world) 9 128 [] bad_ping refl refl
      (λ e. absurd (ground (arith, e)))

next_reader-Ends_example :
    (next_reader (λ _. quiet_world) (λ _. default_handlers quiet_world) bad_ping).0
    ≢ Outcome.out_of_fuel
next_reader-Ends_example =
    next_reader-Ends (λ _. quiet_world) (λ _. default_handlers quiet_world) bad_ping
      (λ _. default_handlers-IsQuiet quiet_world)

abbrev broken : Conn
broken = record bad_ping { read_err = some Error.eof; read_err_count = 998 }

abbrev limited : Conn
limited = record server_side { read_limit = 2 }

abbrev limited_received : Conn
limited_received = received false true (1 ∷ 2 ∷ 3 ∷ 4 ∷ []) (codes "Hi") [] limited

hi_within_limit :
    advance_frame quiet_world (default_handlers quiet_world) limited ≡ (ok 1, limited_received)
unfolding client_text is_data
hi_within_limit =
    advance_frame-frame_header false true 1 (1 ∷ 2 ∷ 3 ∷ 4 ∷ []) (codes "Hi") [] limited quiet_world
      (default_handlers quiet_world) refl refl
      (record {
        nothing_left = refl;
        in_turn = inl (refl, refl);
        fits = omega arith;
        in_limit = inr (omega arith);
      })
      refl

-- The message once a byte of it is read.
one_byte_read : Message limited 2 (read_part false 512 1 limited_received).1
unfolding is_control
one_byte_read =
    Message.between
      (Message.frame quiet_world (default_handlers quiet_world) 1 Message.begun hi_within_limit
        refl)
      (read_part-SameCount false 512 1 limited_received)

Message-Within_example : (2 < 2 ^ 63) × ((limited.read_limit ≡ 0) ⊎ (2 ≤ limited.read_limit))
Message-Within_example =
    Message-Within limited (read_part false 512 1 limited_received).1 2 refl one_byte_read

reading : Conn
unfolding mask_bytes_safe mask_loop key_at
reading = record (received false true (1 ∷ 2 ∷ 3 ∷ 4 ∷ []) (codes "Hi") [] server_side) {
  has_message_reader = true;
}

reader_read-Pending_example :
    (n : ℕ) × (err : Option Error) × IsAllowed 512 1 (codes "Hi") n
    × ((err ≡ none) ⊎ ((true ≡ true) × (n ≡ length reading.input)))
    × ((reader_read (λ _. quiet_world) (λ _. default_handlers quiet_world) true 512 1 reading).0
        ≡ some (take n (codes "Hi"), err))
    × IsPending
        (1 ∷ 2 ∷ 3 ∷ 4 ∷ [])
        (drop n (codes "Hi"))
        []
        (reader_read (λ _. quiet_world) (λ _. default_handlers quiet_world) true 512 1 reading).1
unfolding reading unmask
reader_read-Pending_example =
    reader_read-Pending (λ _. quiet_world) (λ _. default_handlers quiet_world) true 512 1
      (1 ∷ 2 ∷ 3 ∷ 4 ∷ []) (codes "Hi") [] reading (omega arith) (omega arith) (omega arith) refl
      refl (record { remaining = refl; key_is = refl; input_is = refl })

client_writer : MessageWriter
client_writer = record { compress = false; buffered = codes "Hi"; frame_type = 1; err = none }

advance_frame-flush_frame_example :
    ((flush_frame quiet_world true [] client_writer (new_conn false [])).0 ≡ none)
    × (advance_frame quiet_world (default_handlers quiet_world) server_side
        ≡ (ok 1, received false true (1 ∷ 2 ∷ 3 ∷ 4 ∷ []) (codes "Hi") [] server_side))
unfolding client_writer client_text flush_frame after_write write send end_message write_fatal
    frame_header masked_payload set_bit mask_bytes_safe mask_loop key_at is_control is_data
advance_frame-flush_frame_example =
    advance_frame-flush_frame quiet_world true [] [] client_writer (new_conn false []) server_side
      quiet_world (default_handlers quiet_world) refl refl refl refl (inr refl) refl
      (record {
        nothing_left = refl;
        in_turn = inl (refl, refl);
        fits = omega arith;
        in_limit = inl refl;
      })
      refl

reader_read-Ends_example :
    (reader_read (λ _. quiet_world) (λ _. default_handlers quiet_world) false 512 1 reading).0
    ≢ none
reader_read-Ends_example =
    reader_read-Ends (λ _. quiet_world) (λ _. default_handlers quiet_world) false 512 1 reading
      (λ _. default_handlers-IsQuiet quiet_world)
