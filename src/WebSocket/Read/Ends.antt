-- ===== src/WebSocket/Read/Ends.antt =====
-- `NextReader` ends, its errors stay, and it reports them.
use hertz_study.Base.{
  ℕ, zero, suc, ◌+◌, ◌≤◌, ◌<◌, ◌≡◌, ◌≢◌, refl, ap, false, [], Option, none, some, Bytes, length,
  leb, if◌then◌else◌, arith,
}
use hertz_study.WebSocket.Conn.{Conn, World, Error, Result, ok, fail, is_data}
use hertz_study.WebSocket.Write.{write_control, send, write_fatal}
use hertz_study.WebSocket.Read.{
  advance_frame, next_reader, next_reader_loop, loop_step, next_reader_end, Outcome,
}
use hertz_study.WebSocket.Read.Handle.{Handlers, default_handlers, pong_error}
use hertz_study.WebSocket.Close.{format_close_message}
use hertz_study.WebSocket.Read.Progress.{IsQuiet, advance_frame-Takes}

-- The loop has ended, and if it gives no message then `readErr` is set.
abbrev Ended : Option (Option ℕ) × Conn → Type 0
Ended p = (p.0 ≢ none) × (p.0 ≡ some none → p.1.read_err ≢ none)

loop_step-Ended :
    (next : Result ℕ × Conn) (rest : Option (Option ℕ) × Conn)
    → ((t : ℕ) → next.0 ≡ ok t → Ended rest)
    → Ended (loop_step next rest)
unfolding loop_step is_data
loop_step-Ended (fail e, c) rest later = ground arith
loop_step-Ended (ok t, c) rest later = ground (arith, later t refl)

next_reader_loop-Ended :
    (worlds : ℕ → World) (handlers : ℕ → Handlers) (fuel : ℕ) (c : Conn)
    → ((i : ℕ) → IsQuiet (handlers i))
    → length c.input < fuel
    → Ended (next_reader_loop worlds handlers fuel c)
unfolding next_reader_loop
next_reader_loop-Ended worlds handlers zero c q enough = absurd (omega arith)
next_reader_loop-Ended worlds handlers (suc fuel) c q enough =
    let next = advance_frame (worlds fuel) (handlers fuel) c in
    let rest = next_reader_loop worlds handlers fuel next.1 in
    let later : (t : ℕ) → next.0 ≡ ok t → Ended rest = λ t fine.
      next_reader_loop-Ended worlds handlers fuel next.1 q (
        omega (
          arith,
          advance_frame-Takes (worlds fuel) (handlers fuel) (q fuel) c next.1 t
              (ap (λ (r : Result ℕ). (r, next.1)) fine),
        )) in
    ground (arith, loop_step-Ended next rest later)

-- `NextReader` reads a message, reports an error or panics after a thousand errors; its loop never
-- runs on, whatever the peer sends. The handlers do not give the reader more input.
pub next_reader-Ends :
    (worlds : ℕ → World) (handlers : ℕ → Handlers) (c : Conn)
    → ((i : ℕ) → IsQuiet (handlers i))
    → (next_reader worlds handlers c).0 ≢ Outcome.out_of_fuel
unfolding next_reader next_reader_end
next_reader-Ends worlds handlers c q =
    let c0 : Conn = record c { has_message_reader = false; read_length = 0 } in
    let ended = next_reader_loop-Ended worlds handlers (suc (length c.input)) c0 q (omega arith) in
    ground (arith, ended)

-- An error is permanent: once `readErr` is set, `NextReader` gives it again and reads nothing, up to
-- the thousandth time, at which it panics.
next_reader-Failed :
    (worlds : ℕ → World) (handlers : ℕ → Handlers) (e : Error) (c : Conn)
    → c.read_err ≡ some e
    → let (o, c') = next_reader worlds handlers c in
      (o ≡ (if leb 999 c.read_err_count then Outcome.panics else Outcome.no_message e))
      × ((c'.input ≡ c.input)
          × ((c'.read_err ≡ some e) × (c'.read_err_count ≡ c.read_err_count + 1)))
unfolding next_reader next_reader_end next_reader_loop
next_reader-Failed worlds handlers e c h = ground (arith, h)

write_control-input :
    (world : World) (t : ℕ) (payload : Bytes) (c : Conn)
    → (write_control world t payload c).1.input ≡ c.input
unfolding write_control send write_fatal
write_control-input world t payload c = ground arith

same_input :
    (r : Result (Unit {0}) × Conn) (c c' : Conn) (a : Unit {0})
    → r.1.input ≡ c.input
    → r ≡ (ok a, c')
    → length c'.input + 0 ≤ length c.input
same_input r c c' a kept h = omega (
  arith,
  ap (λ (p : Result (Unit {0}) × Conn). length p.1.input) h,
  ap (λ (i : Bytes). length i) kept,
)

-- The handlers that a connection starts with are of this kind.
pub default_handlers-IsQuiet : (world : World) → IsQuiet (default_handlers world)
unfolding default_handlers
default_handlers-IsQuiet world = (
  λ payload c c' a h. same_input (ok tt, c) c c' a refl h,
  (
    λ payload c c' a h.
        same_input
          (pong_error (write_control world 10 payload c).0, (write_control world 10 payload c).1) c
          c' a (write_control-input world 10 payload c) h,
    λ code text c c' a h.
        same_input (ok tt, (write_control world 8 (format_close_message code []) c).1) c c' a
          (write_control-input world 8 (format_close_message code []) c) h,
  ),
)
