-- ===== src/WebSocket/Read/RoundTrip.antt =====
-- A data frame that `flushFrame` writes on one end is what `advanceFrame` reads on the other.
use hertz_study.Base.{
  ℕ, ◌+◌, ◌%◌, ◌^◌, ◌≤◌, ◌<◌, ◌≡◌, refl, ap, ◌∙◌, Bool, true, false, not, ◌⊎◌, [], ◌++◌,
  append_assoc, Bytes, length, if◌then◌else◌, arith, bit_or,
}
use hertz_study.WebSocket.Conn.{Conn, World, ok, is_control, is_data}
use hertz_study.WebSocket.Mask.{mask_bytes_safe}
use hertz_study.WebSocket.Read.{advance_frame}
use hertz_study.WebSocket.Read.Header.{type_errors, parse_header, store_header, read_key}
use hertz_study.WebSocket.Read.Handle.{Handlers, count_data}
use hertz_study.WebSocket.Read.Fields.{first_byte, second_byte}
use hertz_study.WebSocket.Read.Steps.{
  read_header-cons, advance_frame-body, frame_body-Data, read_key-append,
}
use hertz_study.WebSocket.Write.{set_bit, final_bit, mask_bit, frame_header, masked_payload}
use hertz_study.WebSocket.Read.Length.{
  length_code, length_bytes, frame_header-cons, length_code-lt, extended_length-lem,
}

-- The conditions under which a data frame of `len` bytes may come next: a first frame when the last
-- message is complete, a continuation when it is not, and a size within `readLimit`.
pub record IsExpected (t len : ℕ) (r : Conn) : Type 0 where
  pub nothing_left : r.read_remaining ≡ 0
  pub in_turn : ((is_data t ≡ true) × (r.read_final ≡ true)) ⊎ ((t ≡ 0) × (r.read_final ≡ false))
  pub fits : r.read_length + len < 2 ^ 63
  pub in_limit : (r.read_limit ≡ 0) ⊎ (r.read_length + len ≤ r.read_limit)

pub clean_header :
    (server final : Bool) (t len code : ℕ) (r : Conn)
    → r.is_server ≡ not server
    → code < 128
    → IsExpected t len r
    → let b0 = set_bit final final_bit (t % 256) in
      let b1 = bit_or (set_bit (not server) mask_bit 0) code in
      let h = parse_header b0 b1 r in
      ((h.errors ≡ []) × ((h.frame_type ≡ t) × (h.mask ≡ not server)))
      × (store_header b0 b1 r
          ≡ record r { read_remaining = code; read_decompress = false; read_final = final })
unfolding parse_header store_header type_errors is_control is_data
clean_header server final t len code r role small e =
    let below : t < 16 = ground arith in
    let (type_is, (final_is, (no_rsv1, (no_rsv2, no_rsv3)))) = first_byte final t below in
    let (code_is, mask_is) = second_byte (not server) code small in
    rw (type_is, final_is, no_rsv1, no_rsv2, no_rsv3, code_is, mask_is) (ground arith)

pub count_data-lem :
    (world : World) (t len : ℕ) (r : Conn)
    → r.read_length + len < 2 ^ 63
    → (r.read_limit ≡ 0) ⊎ (r.read_length + len ≤ r.read_limit)
    → r.read_remaining ≡ len
    → count_data world t r ≡ (ok t, record r { read_length = r.read_length + len })
unfolding count_data
count_data-lem world t len r fits limit is_len =
    ground (arith, ap (λ (n : ℕ). (r.read_length + n) % 2 ^ 64) is_len)

pub no_control : (t len : ℕ) (r : Conn) → IsExpected t len r → is_control t ≡ false
unfolding is_control is_data
no_control t len r e = ground arith

-- The reader's state after the header of a data frame, with the payload next in its input.
abbrev pub received : Bool → Bool → Bytes → Bytes → Bytes → Conn → Conn
received server final key payload rest r = record r {
  input = (if server then payload else (mask_bytes_safe key 0 payload).0) ++ rest;
  read_remaining = length payload;
  read_final = final;
  read_decompress = false;
  read_length = r.read_length + length payload;
  read_mask_pos = if server then r.read_mask_pos else 0;
  read_mask_key = if server then r.read_mask_key else key;
}

key_step :
    (server : Bool) (key payload rest : Bytes) (c : Conn)
    → length key ≡ 4
    → c.input ≡ masked_payload server key payload ++ rest
    → read_key (not server) c ≡ (
      ok tt,
      record c {
        input = (if server then payload else (mask_bytes_safe key 0 payload).0) ++ rest;
        read_mask_pos = if server then c.read_mask_pos else 0;
        read_mask_key = if server then c.read_mask_key else key;
      },
    )
unfolding masked_payload read_key
key_step true key payload rest c four h = ap (λ (i : Bytes). (ok tt, record c { input = i })) h
key_step false key payload rest c four h =
    let text = (mask_bytes_safe key 0 payload).0 in
    read_key-append key (text ++ rest) c four (h ∙ append_assoc key text rest)

-- A data frame that an end writes, as `flushFrame` lays it out, is read by the other end for what
-- it is: its type, whether it is final, its length in each of the three forms, and the key of its
-- mask. `key` has four bytes, the reader has the other role and expects such a frame; the payload is
-- next in the reader's input.
pub advance_frame-frame_header :
    (server final : Bool) (t : ℕ) (key payload rest : Bytes) (r : Conn) (world : World)
    (handlers : Handlers)
    → length key ≡ 4
    → r.is_server ≡ not server
    → IsExpected t (length payload) r
    → r.input
      ≡ frame_header server false final t (length payload)
        ++ (masked_payload server key payload ++ rest)
    → advance_frame world handlers r ≡ (ok t, received server final key payload rest r)
advance_frame-frame_header server final t key payload rest r world handlers four role e h =
    let len = length payload in
    let body = masked_payload server key payload ++ rest in
    let c1 : Conn = record r { input = length_bytes len ++ body } in
    let e1 : IsExpected t len c1 = record {
      nothing_left = e.nothing_left;
      in_turn = e.in_turn;
      fits = e.fits;
      in_limit = e.in_limit;
    } in
    let b0 = set_bit final final_bit (t % 256) in
    let b1 = bit_or (set_bit (not server) mask_bit 0) (length_code len) in
    let header = parse_header b0 b1 c1 in
    let split = h ∙ ap (λ (f : Bytes). f ++ body) (frame_header-cons server final t len) in
    let ((clean, (type_is, mask_is)), stored) =
      clean_header server final t len (length_code len) c1 role (length_code-lt len) e1 in
    let c2 : Conn = record c1 {
      read_remaining = length_code len;
      read_decompress = false;
      read_final = final;
    } in
    let c3 : Conn = record c2 { input = body; read_remaining = len } in
    let c4 : Conn = record c3 {
      input = (if server then payload else (mask_bytes_safe key 0 payload).0) ++ rest;
      read_mask_pos = if server then c3.read_mask_pos else 0;
      read_mask_key = if server then c3.read_mask_key else key;
    } in
    let small : len < 2 ^ 63 = omega (arith, e.fits) in
    advance_frame-body world handlers header r c2 e.nothing_left
      (read_header-cons b0 b1 (length_bytes len ++ body) r split
        ∙ ap (λ (c : Conn). (ok header, c)) stored)
      clean
    ∙ frame_body-Data world handlers header c2 c3 c4
        (extended_length-lem len body c2 small refl refl)
        (ap (λ (m : Bool). read_key m c3) mask_is ∙ key_step server key payload rest c3 four refl)
        (ap is_control type_is ∙ no_control t len r e)
    ∙ ap (λ (k : ℕ). count_data world k c4) type_is
    ∙ count_data-lem world t len c4 e.fits e.in_limit refl
