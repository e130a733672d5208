-- ===== src/WebSocket/Close/Laws.antt =====
-- A close message is read back.
use hertz_study.Base.{ℕ, ◌≡◌, true, Bytes, take, drop, arith}
use hertz_study.WebSocket.Close.{format_close_message, big_endian, is_valid_received_close_code}

-- The code and the text of a close message, as the read half takes them from its payload. A code
-- that may be received is never the one that stands for a message without a code.
format_close_message_lem :
    (code : ℕ) (text : Bytes)
    → is_valid_received_close_code code ≡ true
    → (big_endian 0 (take 2 (format_close_message code text)) ≡ code)
      × (drop 2 (format_close_message code text) ≡ text)
unfolding format_close_message big_endian is_valid_received_close_code
format_close_message_lem code text ok = ground arith
