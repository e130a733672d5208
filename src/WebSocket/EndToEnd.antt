-- ===== src/WebSocket/EndToEnd.antt =====
-- From `flushFrame` of one connection of contrib/websocket/conn.go to `advanceFrame` of the other.
use hertz_study.Base.{
  ℕ, ◌+◌, ◌≡◌, refl, ap, ap₂, sym, ◌∙◌, Bool, true, false, not, ◌⊎◌, inl, inr, [], ◌++◌,
  append_assoc, append-nil, none, Bytes, length, drop, length-append, drop-length, ltb, arith, ◌&&◌,
  ◌||◌,
}
use hertz_study.WebSocket.Conn.{Conn, World, MessageWriter, ok, is_control}
use hertz_study.WebSocket.Write.{
  frame_header, masked_payload, flush_frame, write, after_write, end_message,
}
use hertz_study.WebSocket.Write.Laws.{send-Fresh}
use hertz_study.WebSocket.Read.{advance_frame}
use hertz_study.WebSocket.Read.Handle.{Handlers}
use hertz_study.WebSocket.Read.RoundTrip.{
  IsExpected, received, no_control, advance_frame-frame_header,
}

-- The bytes of the frame that `flushFrame` sends.
frame_of : World → Bool → Bytes → MessageWriter → Conn → Bytes
frame_of world final extra w c =
    frame_header c.is_server w.compress final w.frame_type (length w.buffered + length extra)
    ++ masked_payload c.is_server world.mask_key w.buffered

after_write-Done :
    (final : Bool) (w : MessageWriter) (c : Conn)
    → let (err, (_, c')) = after_write final w (none, c) in (err ≡ none) × (c'.output ≡ c.output)
unfolding after_write end_message
after_write-Done true w c = ground arith
after_write-Done false w c = (refl, refl)

no_extra_in_client :
    (server : Bool) (extra : Bytes)
    → (server ≡ true) ⊎ (extra ≡ [])
    → not server && ltb 0 (length extra) ≡ false
no_extra_in_client true extra allowed = refl
no_extra_in_client false extra (inl wrong) = absurd (ground (arith, wrong))
no_extra_in_client false extra (inr empty) = rw empty refl

masked_payload-append :
    (server : Bool) (key b extra : Bytes)
    → (server ≡ true) ⊎ (extra ≡ [])
    → masked_payload server key b ++ extra ≡ masked_payload server key (b ++ extra)
unfolding masked_payload
masked_payload-append true key b extra allowed = refl
masked_payload-append false key b extra (inl wrong) = absurd (ground (arith, wrong))
masked_payload-append false key b extra (inr empty) =
    ap (λ (x : Bytes). masked_payload false key b ++ x) empty
    ∙ append-nil (masked_payload false key b)
    ∙ ap (λ (x : Bytes). masked_payload false key x)
        (sym (ap (λ (x : Bytes). b ++ x) empty ∙ append-nil b))

flush_frame-Sent :
    (world : World) (final : Bool) (extra : Bytes) (w : MessageWriter) (c : Conn)
    → world.write_error ≡ none
    → c.write_err ≡ none
    → is_control w.frame_type ≡ false
    → (c.is_server ≡ true) ⊎ (extra ≡ [])
    → let (err, (w', c')) = flush_frame world final extra w c in
      (err ≡ none) × (c'.output ≡ c.output ++ (frame_of world final extra w c ++ extra))
unfolding flush_frame frame_of write
flush_frame-Sent world final extra w c works fine plain allowed =
    let no_limit : is_control w.frame_type
          && (not final || ltb 125 (length w.buffered + length extra))
        ≡ false =
      ground (arith, plain) in
    let no_extra : not c.is_server && ltb 0 (length extra) ≡ false =
      no_extra_in_client c.is_server extra allowed in
    let sent =
      send-Fresh world w.frame_type (frame_of world final extra w c ++ extra) c works fine in
    rw (no_limit, no_extra, sent) (after_write-Done final (record w { compress = false }) _)

frame_of-payload :
    (world : World) (final : Bool) (extra : Bytes) (w : MessageWriter) (c : Conn)
    → w.compress ≡ false
    → (c.is_server ≡ true) ⊎ (extra ≡ [])
    → frame_of world final extra w c ++ extra
      ≡ frame_header c.is_server false final w.frame_type (length (w.buffered ++ extra))
        ++ masked_payload c.is_server world.mask_key (w.buffered ++ extra)
unfolding frame_of
frame_of-payload world final extra w c plain allowed =
    let key = world.mask_key in
    let header : Bool → ℕ → Bytes = λ z n. frame_header c.is_server z final w.frame_type n in
    append_assoc (header w.compress (length w.buffered + length extra))
      (masked_payload c.is_server key w.buffered) extra
    ∙ ap₂ (λ (h m : Bytes). h ++ m) (ap₂ header plain (sym (length-append w.buffered extra)))
        (masked_payload-append c.is_server key w.buffered extra allowed)

-- What `flushFrame` sends for a data frame, the other end reads as that frame. The writer works on a
-- connection that has not failed, over a network that takes the frame, without compression, and
-- with `extra` bytes behind the buffered ones only on a server. The reader has the other role,
-- expects such a frame, and has the frame next in its input.
pub advance_frame-flush_frame :
    (world : World) (final : Bool) (extra rest : Bytes) (w : MessageWriter) (c r : Conn)
    (world' : World) (handlers : Handlers)
    → world.write_error ≡ none
    → c.write_err ≡ none
    → w.compress ≡ false
    → length world.mask_key ≡ 4
    → (c.is_server ≡ true) ⊎ (extra ≡ [])
    → r.is_server ≡ not c.is_server
    → IsExpected w.frame_type (length (w.buffered ++ extra)) r
    → r.input ≡ drop (length c.output) (flush_frame world final extra w c).1.1.output ++ rest
    → ((flush_frame world final extra w c).0 ≡ none)
      × (advance_frame world' handlers r ≡ (
        ok w.frame_type,
        received c.is_server final world.mask_key (w.buffered ++ extra) rest r,
      ))
advance_frame-flush_frame world final extra rest w c r world' handlers works fine plain four allowed
      role e h =
    let frame = frame_of world final extra w c ++ extra in
    let payload = w.buffered ++ extra in
    let (done, out) =
      flush_frame-Sent world final extra w c works fine
        (no_control w.frame_type (length payload) r e) allowed in
    let next : r.input ≡ frame ++ rest =
      h
      ∙ ap (λ (o : Bytes). drop (length c.output) o ++ rest) out
      ∙ ap (λ (f : Bytes). f ++ rest) (drop-length c.output frame) in
    let laid_out =
      next
      ∙ ap (λ (f : Bytes). f ++ rest) (frame_of-payload world final extra w c plain allowed)
      ∙ append_assoc (frame_header c.is_server false final w.frame_type (length payload))
          (masked_payload c.is_server world.mask_key payload) rest in
    (
      done,
      advance_frame-frame_header c.is_server final w.frame_type world.mask_key payload rest r world'
          handlers four role e laid_out,
    )
