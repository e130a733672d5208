-- ===== src/WebSocket/Write/Fuel.antt =====
-- The loop of a message writer's `Write` ends: a round for each byte is enough.
use hertz_study.Base.{
  ℕ, zero, suc, ◌+◌, ◌≤◌, ◌<◌, ◌≡◌, refl, ap, false, [], ◌∷◌, ◌++◌, Option, none, some,
  Option-cases, Bytes, length, drop, length-drop, arith, inl, inr,
}
use hertz_study.WebSocket.Conn.{Conn, World, MessageWriter, Error}
use hertz_study.WebSocket.Write.{
  write_fatal, send, write, after_write, flush_frame, ncopy, write_loop, frame_header,
  masked_payload,
}

send-size :
    (world : World) (t : ℕ) (frame : Bytes) (c : Conn)
    → (send world t frame c).1.buffer_size ≡ c.buffer_size
unfolding send write_fatal
send-size world t frame c = ground arith

after_write-Room :
    (w : MessageWriter) (r : Option Error × Conn)
    → (after_write false w r).0 ≡ none
    → ((after_write false w r).1.0.buffered ≡ [])
      × ((after_write false w r).1.1.buffer_size ≡ r.1.buffer_size)
unfolding after_write
after_write-Room w (none, c) h = (refl, refl)
after_write-Room w (some e, c) h = absurd (ground (arith, h))

flush_frame-Room :
    (world : World) (w : MessageWriter) (c : Conn)
    → (flush_frame world false [] w c).0 ≡ none
    → ((flush_frame world false [] w c).1.0.buffered ≡ [])
      × ((flush_frame world false [] w c).1.1.buffer_size ≡ c.buffer_size)
unfolding flush_frame write
flush_frame-Room world w c h =
    let frame =
      frame_header c.is_server w.compress false w.frame_type (length w.buffered + 0)
      ++ masked_payload c.is_server world.mask_key w.buffered in
    let sent = send world w.frame_type (frame ++ []) c in
    let w' : MessageWriter = record w { compress = false } in
    ground (arith, h, send-size world w.frame_type (frame ++ []) c, after_write-Room w' sent)

-- A copy that succeeds takes a byte at least, and leaves the size of the buffer.
ncopy-Some :
    (world : World) (max : ℕ) (w : MessageWriter) (c : Conn)
    → 0 < c.buffer_size
    → 0 < max
    → (ncopy world max w c).0.0 ≡ none
    → (0 < (ncopy world max w c).0.1) × ((ncopy world max w c).1.1.buffer_size ≡ c.buffer_size)
unfolding ncopy
ncopy-Some world max w c room some_bytes h =
    let flushed = flush_frame-Room world w c in
    let empty : (flush_frame world false [] w c).0 ≡ none
        → length (flush_frame world false [] w c).1.0.buffered ≡ 0 =
      λ fine. ap (λ (b : Bytes). length b) (flushed fine).0 in
    ground (arith, h, flushed, empty)

-- If the buffer has room for a byte, the loop gives the same outcome with any number of rounds from
-- the number of bytes on, whatever happens at each round.
write_loop-Enough :
    (worlds : ℕ → World) (fuel more : ℕ) (p : Bytes) (w : MessageWriter) (c : Conn)
    → 0 < c.buffer_size
    → length p ≤ fuel
    → length p ≤ more
    → write_loop worlds fuel p w c ≡ write_loop worlds more p w c
unfolding write_loop
write_loop-Enough worlds zero zero p w c room a b = refl
write_loop-Enough worlds zero (suc more) [] w c room a b = refl
write_loop-Enough worlds (suc fuel) zero [] w c room a b = refl
write_loop-Enough worlds (suc fuel) (suc more) [] w c room a b = refl
write_loop-Enough worlds zero (suc more) (x ∷ p) w c room a b = absurd (omega arith)
write_loop-Enough worlds (suc fuel) zero (x ∷ p) w c room a b = absurd (omega arith)
write_loop-Enough worlds (suc fuel) (suc more) (x ∷ p) w c room a b =
    let copy = ncopy (worlds (length p)) (length (x ∷ p)) w c in
    elim (Option-cases copy.0.0) [
      | inr (e, failed) ↦ rw (failed, write_loop) refl
      | inl fine ↦
          let (taken, same) =
            ncopy-Some (worlds (length p)) (length (x ∷ p)) w c room (omega arith) fine in
          let left = length-drop copy.0.1 (x ∷ p) in
          rw (fine, write_loop)
            (write_loop-Enough worlds fuel more (drop copy.0.1 (x ∷ p)) _ copy.1.1
              (omega (arith, same)) (omega (arith, left, taken)) (omega (arith, left, taken)))
    ]
