-- ===== src/WebSocket/Read/Header.antt =====
-- The header of a frame, as `advanceFrame` of contrib/websocket/conn.go reads it.
use hertz_study.Base.{
  ℕ, ◌^◌, Bool, true, false, not, ◌&&◌, ◌||◌, List, [], ◌∷◌, ◌++◌, Bytes, codes, length, take, drop,
  leb, ltb, ◌==◌, if◌then◌else◌, bit_and,
}
use hertz_study.WebSocket.Conn.{
  Conn, M, ok, fail, Error, unexpected_eof, is_control, is_data, continuation_frame, ◌>>=◌,
  max_control_frame_payload_size,
}
use hertz_study.WebSocket.Close.{big_endian, itoa}

abbrev eof_to_unexpected : Error → Error
eof_to_unexpected Error.eof = unexpected_eof
eof_to_unexpected e = e

-- `read`: the next `n` bytes, or what there is and the error behind it.
unfoldable pub read : ℕ → M Bytes
read n c =
    if leb n (length c.input)
    then (ok (take n c.input), record c { input = drop n c.input })
    else (fail (eof_to_unexpected c.input_end), record c { input = [] })

-- Step 1: `io.CopyN` of the rest of the frame to nowhere, which gives a plain end of file.
unfoldable pub skip : M (Unit {0})
skip c =
    if c.read_remaining == 0
    then (ok tt, c)
    else if leb c.read_remaining (length c.input)
    then (ok tt, record c { input = drop c.read_remaining c.input })
    else (fail c.input_end, record c { input = [] })

-- `n` is the pattern of an `int64`.
unfoldable pub set_read_remaining : ℕ → M (Unit {0})
set_read_remaining n c =
    if leb (2 ^ 63) n then (fail Error.read_limit, c) else (ok tt, record c { read_remaining = n })

unfoldable pub has_bit : ℕ → ℕ → Bool
has_bit b mask = not (bit_and b mask == 0)

-- What step 2 learns from the first two bytes.
pub record FrameHeader : Type 0 where
  pub frame_type : ℕ
  pub mask : Bool
  pub errors : List Bytes

abbrev when : Bool → Bytes → List Bytes
when true message = message ∷ []
when false message = []

-- The `switch frameType` of step 2.
unfoldable pub type_errors : ℕ → Bool → ℕ → Bool → List Bytes
type_errors frame_type final remaining read_final =
    if is_control frame_type
    then (when (ltb max_control_frame_payload_size remaining) (codes "len > 125 for control")
        ++ when (not final) (codes "FIN not set on control"))
    else if is_data frame_type
    then when (not read_final) (codes "data before FIN")
    else if frame_type == continuation_frame
    then when read_final (codes "continuation after FIN")
    else (codes "bad opcode " ++ itoa frame_type) ∷ []

abbrev same : Bool → Bool → Bool
same true b = b
same false b = not b

unfoldable pub parse_header : ℕ → ℕ → Conn → FrameHeader
parse_header p0 p1 c = record {
  frame_type = bit_and p0 15;
  mask = has_bit p1 128;
  errors =
      when (has_bit p0 64 && not c.can_decompress) (codes "RSV1 set")
      ++ (when (has_bit p0 32) (codes "RSV2 set")
          ++ (when (has_bit p0 16) (codes "RSV3 set")
              ++ (type_errors (bit_and p0 15) (has_bit p0 128) (bit_and p1 127) c.read_final
                  ++ when (not (same (has_bit p1 128) c.is_server)) (codes "bad MASK"))));
}

-- What step 2 stores, also when it reports errors.
unfoldable pub store_header : ℕ → ℕ → Conn → Conn
store_header p0 p1 c =
    let frame_type = bit_and p0 15 in
    record c {
      read_remaining = bit_and p1 127;
      read_decompress = has_bit p0 64 && c.can_decompress;
      read_final =
          if is_data frame_type || frame_type == continuation_frame
          then has_bit p0 128
          else c.read_final;
    }

unfoldable pub header_of : Bytes → M FrameHeader
header_of (p0 ∷ p1 ∷ p) c = (ok (parse_header p0 p1 c), store_header p0 p1 c)
header_of p c = (fail unexpected_eof, c)

unfoldable pub read_header : M FrameHeader
read_header = read 2 >>= header_of

-- Step 3.
unfoldable pub extended_length : M (Unit {0})
extended_length c =
    if c.read_remaining == 126
    then (read 2 >>= λ p. set_read_remaining (big_endian 0 p)) c
    else if c.read_remaining == 127
    then (read 8 >>= λ p. set_read_remaining (big_endian 0 p)) c
    else (ok tt, c)

unfoldable pub store_key : Bytes → M (Unit {0})
store_key p c = (ok tt, record c { read_mask_key = p })

-- Step 4.
unfoldable pub read_key : Bool → M (Unit {0})
read_key false c = (ok tt, c)
read_key true c = (read 4 >>= store_key) (record c { read_mask_pos = 0 })
