-- ===== src/WebSocket/Read/Finish.antt =====
-- `Read` of the message reader ends.
use hertz_study.Base.{
  ℕ, zero, suc, ◌+◌, ◌≤◌, ◌<◌, ◌≡◌, ◌≢◌, refl, ap, Bool, ◌⊎◌, inl, inr, none, Option-cases, length,
  arith, Bool-cases,
}
use hertz_study.WebSocket.Conn.{Conn, World, Result, ok, fail, is_data}
use hertz_study.WebSocket.Read.{advance_frame}
use hertz_study.WebSocket.Read.Handle.{Handlers}
use hertz_study.WebSocket.Read.Progress.{IsQuiet, advance_frame-Takes}
use hertz_study.WebSocket.Read.Message.{next_frame, message_read, reader_read}

-- The rounds that are enough: one if the connection has failed, else two more than there are bytes.
abbrev Enough : ℕ → Conn → Type 0
Enough fuel c = ((c.read_err ≢ none) × (0 < fuel)) ⊎ (length c.input + 1 < fuel)

next_frame-Enough :
    (fuel : ℕ) (c : Conn) (next : Result ℕ × Conn)
    → length c.input + 1 < suc fuel
    → ((t : ℕ) → next.0 ≡ ok t → length next.1.input + 2 ≤ length c.input)
    → Enough fuel (next_frame next)
unfolding next_frame is_data
next_frame-Enough fuel c (fail e, d) room takes = inl (ground arith, omega arith)
next_frame-Enough fuel c (ok t, d) room takes = elim (Bool-cases (is_data t)) [
  | inl data_frame ↦ rw data_frame (inl (ground arith, omega arith))
  | inr other ↦ rw other (inr (omega (arith, takes t refl)))
]

message_read-Ends :
    (worlds : ℕ → World) (handlers : ℕ → Handlers) (at_once : Bool) (fuel chunk len : ℕ) (c : Conn)
    → ((i : ℕ) → IsQuiet (handlers i))
    → Enough fuel c
    → (message_read worlds handlers at_once fuel chunk len c).0 ≢ none
unfolding message_read
message_read-Ends worlds handlers at_once zero chunk len c q enough =
    absurd (ground (arith, enough))
message_read-Ends worlds handlers at_once (suc fuel) chunk len c q enough =
    elim (Option-cases c.read_err) [
      | inr (e, has_failed) ↦ ground (arith, has_failed)
      | inl fine ↦
          let room : length c.input + 1 < suc fuel = ground (arith, enough, fine) in
          let world = worlds fuel in
          let handler = handlers fuel in
          let next = advance_frame world handler c in
          let takes : (t : ℕ) → next.0 ≡ ok t → length next.1.input + 2 ≤ length c.input =
            λ t is_ok.
              advance_frame-Takes world handler (q fuel) c next.1 t
                (ap (λ (r : Result ℕ). (r, next.1)) is_ok) in
          let later =
            message_read-Ends worlds handlers at_once fuel chunk len (next_frame next) q
              (next_frame-Enough fuel c next room takes) in
          ground (arith, later, fine)
    ]

-- `Read` gives bytes or an error; its loop never runs on, whatever the peer sends. The handlers do
-- not give the reader more input.
pub reader_read-Ends :
    (worlds : ℕ → World) (handlers : ℕ → Handlers) (at_once : Bool) (chunk len : ℕ) (c : Conn)
    → ((i : ℕ) → IsQuiet (handlers i))
    → (reader_read worlds handlers at_once chunk len c).0 ≢ none
unfolding reader_read
reader_read-Ends worlds handlers at_once chunk len c q = ground (
  arith,
  message_read-Ends worlds handlers at_once (suc (suc (length c.input))) chunk len c q
      (inr (omega arith)),
)
