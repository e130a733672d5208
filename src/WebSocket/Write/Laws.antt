-- ===== src/WebSocket/Write/Laws.antt =====
-- What the write half of a connection sends, and that it sends nothing once it has failed.
use hertz_study.Base.{
  ℕ, zero, suc, ◌≡◌, ◌≢◌, refl, Option-cases, inl, inr, ap, ◌∙◌, Bool, true, false, [], ◌∷◌, ◌++◌,
  Option, none, some, Bytes, length, ◌==◌, if◌then◌else◌, arith,
}
use hertz_study.WebSocket.Conn.{Conn, World, MessageWriter, Error, hide_temp_err, close_message}
use hertz_study.WebSocket.Write.{
  write_fatal, send, write, control_frame, write_control, end_message, after_write, flush_frame,
  close, ncopy, write_loop, write_bytes, begin_message, write_message,
}

-- A connection that has failed stays so, and nothing more has gone out.
abbrev Silent : Error → Conn → Conn → Type 0
Silent e c c' = (c'.write_err ≡ some e) × (c'.output ≡ c.output)

send-Silent :
    (world : World) (e : Error) (frame_type : ℕ) (payload : Bytes) (c : Conn)
    → c.write_err ≡ some e
    → send world frame_type payload c ≡ (some e, c)
unfolding send
send-Silent world e frame_type payload c h = rw h refl

-- What a write that the network takes does.
abbrev after_send : ℕ → Bytes → Conn → Conn
after_send t frame c = record c {
  output = c.output ++ frame;
  write_err = if t == close_message then some Error.close_sent else none;
}

pub send-Fresh :
    (world : World) (t : ℕ) (frame : Bytes) (c : Conn)
    → world.write_error ≡ none
    → c.write_err ≡ none
    → send world t frame c ≡ (none, after_send t frame c)
unfolding send write_fatal hide_temp_err
send-Fresh world t frame c h fine =
    ground (
      arith,
      ap (λ (e : Option Error). record c { output = c.output ++ frame; write_err = e }) fine,
    )

-- On a connection that has failed, a control message is refused, and changes nothing.
write_control-Silent :
    (world : World) (e : Error) (t : ℕ) (payload : Bytes) (c : Conn)
    → c.write_err ≡ some e
    → (write_control world t payload c).1 ≡ c
unfolding write_control
write_control-Silent world e t payload c h =
    ground (arith, send-Silent world e t (control_frame c.is_server world.mask_key t payload) c h)

end_message-Silent :
    (error e : Error) (w : MessageWriter) (c : Conn)
    → c.write_err ≡ some e
    → Silent e c (end_message error w c).1
unfolding end_message
end_message-Silent error e w c h = ground arith

write_fatal-Silent :
    (error e : Error) (c : Conn) → c.write_err ≡ some e → (write_fatal error c).1 ≡ c
unfolding write_fatal
write_fatal-Silent error e c h = ground arith

flush_frame-Silent :
    (world : World) (e : Error) (final : Bool) (extra : Bytes) (w : MessageWriter) (c : Conn)
    → c.write_err ≡ some e
    → Silent e c (flush_frame world final extra w c).1.1
unfolding flush_frame write after_write
flush_frame-Silent world e final extra w c h =
    let w' : MessageWriter = record w { compress = false } in
    rw (write_fatal-Silent Error.extra_in_client_mode e c h, send-Silent world e w.frame_type _ c h)
      (ground (
        arith,
        end_message-Silent Error.invalid_control_frame e w c h,
        end_message-Silent (write_fatal Error.extra_in_client_mode c).0 e w' c h,
        end_message-Silent e e w' c h,
      ))

close-Silent :
    (world : World) (e : Error) (w : MessageWriter) (c : Conn)
    → c.write_err ≡ some e
    → Silent e c (close world w c).1.1
unfolding close
close-Silent world e w c h = ground (arith, flush_frame-Silent world e true [] w c h)

ncopy-Silent :
    (world : World) (e : Error) (max : ℕ) (w : MessageWriter) (c : Conn)
    → c.write_err ≡ some e
    → Silent e c (ncopy world max w c).1.1
unfolding ncopy
ncopy-Silent world e max w c h = ground (arith, flush_frame-Silent world e false [] w c h)

write_loop-Silent :
    (worlds : ℕ → World) (e : Error) (fuel : ℕ) (p : Bytes) (w : MessageWriter) (c : Conn)
    → c.write_err ≡ some e
    → Silent e c (write_loop worlds fuel p w c).1.1
unfolding write_loop
write_loop-Silent worlds e zero p w c h = (h, refl)
write_loop-Silent worlds e (suc fuel) [] w c h = (h, refl)
write_loop-Silent worlds e (suc fuel) (b ∷ p) w c h =
    let (kept, quiet) = ncopy-Silent (worlds (length p)) e (length (b ∷ p)) w c h in
    elim (Option-cases (ncopy (worlds (length p)) (length (b ∷ p)) w c).0.0) [
      | inr (error, failed) ↦ rw (failed, write_loop) (kept, quiet)
      | inl none_yet ↦
          let (kept', quiet') = write_loop-Silent worlds e fuel _ _ _ kept in
          rw (none_yet, write_loop) (kept', quiet' ∙ quiet)
    ]

write_bytes-Silent :
    (worlds : ℕ → World) (e : Error) (p : Bytes) (w : MessageWriter) (c : Conn)
    → c.write_err ≡ some e
    → Silent e c (write_bytes worlds p w c).1.1
unfolding write_bytes
write_bytes-Silent worlds e p w c h = ground (
  arith,
  flush_frame-Silent (worlds 0) e false p w c h,
  write_loop-Silent worlds e (length p) p w c h,
)

begin_message-Silent :
    (world : World) (e : Error) (t : ℕ) (c : Conn)
    → c.write_err ≡ some e
    → Silent e c (begin_message world t c).1.1 × ((begin_message world t c).0 ≢ none)
unfolding begin_message
begin_message-Silent world e t c h = elim (Option-cases c.writer) [
  | inl idle ↦ rw idle (ground arith)
  | inr (old, busy) ↦ rw busy (ground (arith, close-Silent world e old c h))
]

-- On a connection that has failed, as it has after a close message, a whole message is refused, and
-- nothing goes out.
pub write_message-Silent :
    (world0 world : World) (worlds : ℕ → World) (e : Error) (t : ℕ) (payload : Bytes) (c : Conn)
    → c.write_err ≡ some e
    → let (err, c') = write_message world0 world worlds t payload c in
      (err ≢ none) × ((c'.write_err ≡ some e) × (c'.output ≡ c.output))
unfolding write_message
write_message-Silent world0 world worlds e t payload c h =
    let ((kept, quiet), fails) = begin_message-Silent world0 e t c h in
    elim (Option-cases (begin_message world0 t c).0) [
      | inl fine ↦ absurd (fails fine)
      | inr (error, failed) ↦
          rw (failed, write_message) ((λ q. absurd (ground (arith, q))), (kept, quiet))
    ]
