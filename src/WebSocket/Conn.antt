-- ===== src/WebSocket/Conn.antt =====
-- The state of a `Conn` of contrib/websocket/conn.go, its errors, and what the outside does.
-- Only one goroutine reads and one writes at a time, as the package asks for; the locks then only
-- decide whether a control message is sent in time.
use hertz_study.Base.{
  ℕ, Bool, true, false, ◌||◌, Option, Bytes, codes, ◌==◌, ◌≡◌, refl, ap, sym, ◌∙◌, arith,
}

abbrev pub continuation_frame : ℕ
continuation_frame = 0

abbrev pub text_message : ℕ
text_message = 1

abbrev pub binary_message : ℕ
binary_message = 2

abbrev pub close_message : ℕ
close_message = 8

abbrev pub ping_message : ℕ
ping_message = 9

abbrev pub pong_message : ℕ
pong_message = 10

abbrev pub max_control_frame_payload_size : ℕ
max_control_frame_payload_size = 125

unfoldable pub is_control : ℕ → Bool
is_control frame_type =
    frame_type == close_message || (frame_type == ping_message || frame_type == pong_message)

unfoldable pub is_data : ℕ → Bool
is_data frame_type = frame_type == text_message || frame_type == binary_message

-- `net_error` is an error of the network, known by a number, with its `Temporary` flag; `protocol`
-- carries the message of `handleProtocolError`.
pub data Error : Type 0 where
  eof close_sent read_limit write_timeout : Error
  bad_write_op_code write_closed invalid_control_frame : Error
  extra_in_client_mode unexpected_data : Error
  protocol : Bytes → Error
  close_error : ℕ → Bytes → Error
  net_error : ℕ → Bool → Error

unfoldable pub hide_temp_err : Error → Error
hide_temp_err (net_error e temporary) = net_error e false
hide_temp_err write_timeout = net_error 0 false
hide_temp_err e = e

-- `errUnexpectedEOF`.
abbrev pub unexpected_eof : Error
unexpected_eof = close_error 1006 (codes "unexpected EOF")

-- What the outside does at one write: whether the lock is had before the deadline, the error of the
-- network with the bytes that went out before it, and the random mask key.
pub record World : Type 0 where
  pub in_time : Bool
  pub write_error : Option Error
  pub sent : ℕ
  pub mask_key : Bytes

-- `buffered` is `writeBuf[maxFrameHeaderSize:pos]`.
pub record MessageWriter : Type 0 where
  pub compress : Bool
  pub buffered : Bytes
  pub frame_type : ℕ
  pub err : Option Error

-- `input` is what the reader will still get, and `input_end` the error behind it. `output` is what
-- went to the network. `buffer_size` is `len(writeBuf) - maxFrameHeaderSize`, the room for a payload.
pub record Conn : Type 0 where
  pub is_server : Bool
  pub input : Bytes
  pub input_end : Error
  pub output : Bytes
  pub write_err : Option Error
  pub buffer_size : ℕ
  pub writer : Option MessageWriter
  pub can_decompress : Bool
  pub read_err : Option Error
  pub read_err_count : ℕ
  pub read_remaining : ℕ
  pub read_final : Bool
  pub read_length : ℕ
  pub read_limit : ℕ
  pub read_mask_pos : ℕ
  pub read_mask_key : Bytes
  pub read_decompress : Bool
  pub has_message_reader : Bool

-- Steps that may fail, and keep the changes of the state that they made before.
pub data Result (A : Type 0) : Type 0 where
  ok : A → Result A
  fail : Error → Result A

abbrev pub M : Type 0 → Type 0
M A = Conn → Result A × Conn

infixl 5 ◌>>=◌ ◌>>◌
abbrev pub ◌>>=◌ : {A B : Type 0} → M A → (A → M B) → M B
◌>>=◌ m f c = let (r, c') = m c in elim r [ ok a ↦ f a c' | fail e ↦ (fail e, c') ]

abbrev pub ◌>>◌ : {B : Type 0} → M (Unit {0}) → M B → M B
m >> k = m >>= λ _. k

abbrev pub return : {A : Type 0} → A → M A
return a c = (ok a, c)

abbrev pub throw : {A : Type 0} → Error → M A
throw e c = (fail e, c)

abbrev pub modify : (Conn → Conn) → M (Unit {0})
modify f c = (ok tt, f c)

abbrev pub get : M Conn
get c = (ok c, c)

-- A step that succeeds goes on, and one that fails ends the rest.
abbrev continue : {A B : Type 0} → (A → M B) → Result A × Conn → Result B × Conn
continue f (ok a, c) = f a c
continue f (fail e, c) = (fail e, c)

pub bind-continue :
    {A B : Type 0} (m : M A) (f : A → M B) (c : Conn) → (m >>= f) c ≡ continue f (m c)
bind-continue m f c = by_cases f (m c)
  where
    by_cases :
        {A B : Type 0} (f : A → M B) (r : Result A × Conn)
        → elim r.0 [ ok a ↦ f a r.1 | fail e ↦ (fail e, r.1) ] ≡ continue f r
    by_cases f (ok a, c) = refl
    by_cases f (fail e, c) = refl

pub bind-ok :
    {A B : Type 0} (m : M A) (f : A → M B) (c c' : Conn) (a : A)
    → m c ≡ (ok a, c')
    → (m >>= f) c ≡ f a c'
bind-ok m f c c' a h = bind-continue m f c ∙ ap (continue f) h

-- A chain of steps that succeeds has succeeded at each.
pub bind-inv :
    {A B : Type 0} (m : M A) (f : A → M B) (c c'' : Conn) (b : B)
    → (m >>= f) c ≡ (ok b, c'')
    → (a : A) × ((c' : Conn) × ((m c ≡ (ok a, c')) × (f a c' ≡ (ok b, c''))))
bind-inv m f c c'' b h = by_cases f (m c) c'' b (sym (bind-continue m f c) ∙ h)
  where
    succeeds : {A : Type 0} → Result A → Bool
    succeeds (ok a) = true
    succeeds (fail e) = false

    by_cases :
        {A B : Type 0} (f : A → M B) (r : Result A × Conn) (c'' : Conn) (b : B)
        → continue f r ≡ (ok b, c'')
        → (a : A) × ((c' : Conn) × ((r ≡ (ok a, c')) × (f a c' ≡ (ok b, c''))))
    by_cases f (ok a, c) c'' b h = (a, (c, (refl, h)))
    by_cases {A} {B} f (fail e, c) c'' b h =
        absurd (ground (arith, ap (λ (p : Result B × Conn). succeeds p.0) h))
