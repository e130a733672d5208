-- ===== src/WebSocket/Read/Steps.antt =====
-- The steps of `advanceFrame` one at a time: what each does on a frame that `flushFrame` or
-- `WriteControl` has built.
use hertz_study.Base.{
  ℕ, ◌≡◌, refl, ap, sym, ◌∙◌, true, false, [], ◌∷◌, ◌++◌, Bytes, length, take-length, drop-length,
  length-append, leb, arith,
}
use hertz_study.WebSocket.Conn.{Conn, World, ok, bind-ok, ◌>>=◌, ◌>>◌, is_control}
use hertz_study.WebSocket.Read.{advance_frame, frame_body, checked_body, read_payload}
use hertz_study.WebSocket.Read.Header.{
  read, skip, FrameHeader, parse_header, store_header, header_of, read_header, extended_length,
  read_key, store_key,
}
use hertz_study.WebSocket.Read.Handle.{Handlers, count_data, control_payload, process_control}

pub read-append :
    (a b : Bytes) (c : Conn) → c.input ≡ a ++ b → read (length a) c ≡ (ok a, record c { input = b })
unfolding read
read-append a b c h =
    let enough : leb (length a) (length (a ++ b)) ≡ true = ground (arith, length-append a b) in
    rw (h, enough, take-length a b, drop-length a b, read) refl

pub read_header-cons :
    (p0 p1 : ℕ) (b : Bytes) (c : Conn)
    → c.input ≡ p0 ∷ p1 ∷ b
    → let c' : Conn = record c { input = b } in
      read_header c ≡ (ok (parse_header p0 p1 c'), store_header p0 p1 c')
unfolding read_header header_of
read_header-cons p0 p1 b c h =
    bind-ok (read 2) header_of c (record c { input = b }) (p0 ∷ p1 ∷ [])
      (read-append (p0 ∷ p1 ∷ []) b c h)

pub skip-nothing : (c : Conn) → c.read_remaining ≡ 0 → skip c ≡ (ok tt, c)
unfolding skip
skip-nothing c h = ground (arith, h)

-- A header without errors leads to the rest of the frame.
pub advance_frame-body :
    (world : World) (handlers : Handlers) (h : FrameHeader) (c c' : Conn)
    → c.read_remaining ≡ 0
    → read_header c ≡ (ok h, c')
    → h.errors ≡ []
    → advance_frame world handlers c ≡ frame_body world handlers h c'
unfolding advance_frame checked_body
advance_frame-body world handlers h c c' none_left header clean =
    let rest = checked_body world handlers in
    bind-ok skip (λ _. read_header >>= rest) c c tt (skip-nothing c none_left)
    ∙ bind-ok read_header rest c c' h header
    ∙ rw clean refl

pub frame_body-Data :
    (world : World) (handlers : Handlers) (h : FrameHeader) (c c1 c2 : Conn)
    → extended_length c ≡ (ok tt, c1)
    → read_key h.mask c1 ≡ (ok tt, c2)
    → is_control h.frame_type ≡ false
    → frame_body world handlers h c ≡ count_data world h.frame_type c2
unfolding frame_body read_payload
frame_body-Data world handlers h c c1 c2 e k d =
    let rest = read_payload world handlers h.frame_type in
    bind-ok extended_length (λ _. read_key h.mask >> rest) c c1 tt e
    ∙ bind-ok (read_key h.mask) (λ _. rest) c1 c2 tt k
    ∙ rw d refl

pub frame_body-Control :
    (world : World) (handlers : Handlers) (h : FrameHeader) (c c1 c2 c3 : Conn) (payload : Bytes)
    → extended_length c ≡ (ok tt, c1)
    → read_key h.mask c1 ≡ (ok tt, c2)
    → is_control h.frame_type ≡ true
    → control_payload c2 ≡ (ok payload, c3)
    → frame_body world handlers h c ≡ process_control world handlers h.frame_type payload c3
unfolding frame_body read_payload
frame_body-Control world handlers h c c1 c2 c3 payload e k d p =
    let rest = read_payload world handlers h.frame_type in
    bind-ok extended_length (λ _. read_key h.mask >> rest) c c1 tt e
    ∙ bind-ok (read_key h.mask) (λ _. rest) c1 c2 tt k
    ∙ rw d (bind-ok control_payload (process_control world handlers h.frame_type) c2 c3 payload p)

pub read_key-append :
    (key b : Bytes) (c : Conn)
    → length key ≡ 4
    → c.input ≡ key ++ b
    → read_key true c ≡ (ok tt, record c { input = b; read_mask_pos = 0; read_mask_key = key })
unfolding read_key store_key
read_key-append key b c four h =
    let c0 : Conn = record c { read_mask_pos = 0 } in
    bind-ok (read 4) store_key c0 (record c0 { input = b }) key
      (ap (λ (n : ℕ). read n c0) (sym four) ∙ read-append key b c0 h)
