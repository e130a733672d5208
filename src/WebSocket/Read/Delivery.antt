-- ===== src/WebSocket/Read/Delivery.antt =====
-- The message reader gives the payload of a frame back, in whatever pieces it is read.
use hertz_study.Base.{
  ℕ, suc, ◌+◌, ◌≤◌, ◌<◌, ◌≡◌, refl, ap, ap₂, sym, subst, ◌∙◌, ◌⊎◌, Bool, true, false, [], ◌∷◌, ◌++◌,
  append_assoc, Option, none, some, Bytes, length, take, drop, take-append-drop, take-length,
  drop-length, length-take, length-drop, length-append, arith, bit_and,
}
use hertz_study.WebSocket.Conn.{Conn, World, Error}
use hertz_study.WebSocket.Mask.{mask_loop, mask_bytes_safe}
use hertz_study.WebSocket.Mask.Laws.{mask_bytes_safe_laws}
use hertz_study.WebSocket.Read.Handle.{Handlers}
use hertz_study.WebSocket.Read.Message.{
  unmask, least, part_taken, part_error, read_part, amount, message_read, reader_read,
}

-- `p` is what is left of the payload of a frame, in the connection's input, with `rest` behind it.
pub record IsPending (key p rest : Bytes) (c : Conn) : Type 0 where
  pub remaining : c.read_remaining ≡ length p
  pub key_is : c.read_mask_key ≡ key
  pub input_is : c.input ≡ (unmask c.is_server key c.read_mask_pos p).0 ++ rest

length-mask : (key : Bytes) (pos : ℕ) (b : Bytes) → length (mask_loop key pos b).0 ≡ length b
unfolding mask_loop
length-mask key pos [] = refl
length-mask key pos (c ∷ b) = ap suc (length-mask key (pos + 1) b)

end-mask : (key : Bytes) (pos : ℕ) (b : Bytes) → (mask_loop key pos b).1 ≡ pos + length b
unfolding mask_loop
end-mask key pos [] = omega arith
end-mask key pos (c ∷ b) = omega (arith, end-mask key (pos + 1) b)

-- Masked bytes have the length of the plain ones, and so leave the same position.
mask_bytes_safe-length :
    (key : Bytes) (pos : ℕ) (a b : Bytes)
    → length a ≡ length b
    → (length (mask_bytes_safe key pos a).0 ≡ length a)
      × ((mask_bytes_safe key pos a).1 ≡ (mask_bytes_safe key pos b).1)
unfolding mask_bytes_safe
mask_bytes_safe-length key pos a b h = (
  length-mask key pos a,
  ap (λ (p : ℕ). bit_and p 3)
      (end-mask key pos a ∙ ap (λ (n : ℕ). pos + n) h ∙ sym (end-mask key pos b)),
)

unmask-append :
    (s : Bool) (key : Bytes) (pos : ℕ) (a b : Bytes)
    → (unmask s key pos (a ++ b)).0
      ≡ (unmask s key pos a).0 ++ (unmask s key (unmask s key pos a).1 b).0
unfolding unmask
unmask-append true key pos a b = ap (λ (p : Bytes × ℕ). p.0) (mask_bytes_safe_laws key pos a b).1
unmask-append false key pos a b = refl

unmask-unmask :
    (s : Bool) (key : Bytes) (pos : ℕ) (a : Bytes)
    → unmask s key pos (unmask s key pos a).0 ≡ (a, (unmask s key pos a).1)
unfolding unmask
unmask-unmask true key pos a =
    let (size, _) = mask_bytes_safe-length key pos a a refl in
    let (_, place) = mask_bytes_safe-length key pos (mask_bytes_safe key pos a).0 a size in
    ap₂ (λ (t : Bytes) (q : ℕ). (t, q)) (mask_bytes_safe_laws key pos a []).0 place
unmask-unmask false key pos a = refl

length-unmask :
    (s : Bool) (key : Bytes) (pos : ℕ) (a : Bytes) → length (unmask s key pos a).0 ≡ length a
unfolding unmask
length-unmask true key pos a = (mask_bytes_safe-length key pos a a refl).0
length-unmask false key pos a = refl

read_part-front :
    (at_once : Bool) (chunk len : ℕ) (front tail : Bytes) (c : Conn)
    → c.input ≡ front ++ tail
    → length front ≡ amount chunk len c
    → 0 < length c.input
    → read_part at_once chunk len c
      ≡ part_taken front tail (part_error at_once (amount chunk len c) c) c
unfolding read_part
read_part-front at_once chunk len front tail c h size some_input =
    let t : take (amount chunk len c) c.input ≡ front =
      ap₂ (λ (k : ℕ) (i : Bytes). take k i) (sym size) h ∙ take-length front tail in
    let d : drop (amount chunk len c) c.input ≡ tail =
      ap₂ (λ (k : ℕ) (i : Bytes). drop k i) (sym size) h ∙ drop-length front tail in
    ground (
      arith,
      ap₂ (λ (a b : Bytes). part_taken a b (part_error at_once (amount chunk len c) c) c) t d,
    )

pending-split :
    (n : ℕ) (key p rest : Bytes) (c : Conn)
    → IsPending key p rest c
    → let (front, pos) = unmask c.is_server key c.read_mask_pos (take n p) in
      c.input ≡ front ++ ((unmask c.is_server key pos (drop n p)).0 ++ rest)
pending-split n key p rest c e =
    let s = c.is_server in
    let (front, pos) = unmask s key c.read_mask_pos (take n p) in
    e.input_is
    ∙ ap (λ (t : Bytes). (unmask s key c.read_mask_pos t).0 ++ rest) (sym (take-append-drop n p))
    ∙ ap (λ (t : Bytes). t ++ rest) (unmask-append s key c.read_mask_pos (take n p) (drop n p))
    ∙ append_assoc front (unmask s key pos (drop n p)).0 rest

taken-Pending :
    (n : ℕ) (key p rest : Bytes) (err : Option Error) (c : Conn)
    → n ≤ length p
    → IsPending key p rest c
    → let (front, pos) = unmask c.is_server key c.read_mask_pos (take n p) in
      let r = part_taken front ((unmask c.is_server key pos (drop n p)).0 ++ rest) err c in
      (r.0 ≡ (take n p, err)) × IsPending key (drop n p) rest r.1
unfolding part_taken
taken-Pending n key p rest err c fits e =
    let s = c.is_server in
    let (front, pos) = unmask s key c.read_mask_pos (take n p) in
    let back : unmask s c.read_mask_key c.read_mask_pos front ≡ (take n p, pos) =
      ap (λ (k : Bytes). unmask s k c.read_mask_pos front) e.key_is
      ∙ unmask-unmask s key c.read_mask_pos (take n p) in
    let size : length front ≡ n =
      length-unmask s key c.read_mask_pos (take n p) ∙ omega (arith, length-take n p) in
    (
      ap (λ (q : Bytes × ℕ). (q.0, err)) back,
      record {
        remaining = omega (arith, e.remaining, size, length-drop n p);
        key_is = e.key_is;
        input_is =
            ap (λ (q : ℕ). (unmask s key q (drop n p)).0 ++ rest)
              (sym (ap (λ (q : Bytes × ℕ). q.1) back));
      },
    )

reader_read-Part :
    (worlds : ℕ → World) (handlers : ℕ → Handlers) (at_once : Bool) (chunk len : ℕ) (c : Conn)
    → c.has_message_reader ≡ true
    → c.read_err ≡ none
    → 0 < c.read_remaining
    → reader_read worlds handlers at_once chunk len c
      ≡ (some (read_part at_once chunk len c).0, (read_part at_once chunk len c).1)
unfolding reader_read message_read
reader_read-Part worlds handlers at_once chunk len c active fine more = ground arith

-- As many bytes as the buffer, the payload and the chunk allow.
abbrev pub IsAllowed : ℕ → ℕ → Bytes → ℕ → Type 0
IsAllowed chunk len p n =
    (n ≤ len) × (n ≤ length p) × (n ≤ chunk) × ((n ≡ len) ⊎ (n ≡ length p) ⊎ (n ≡ chunk))

amount-IsAllowed :
    (chunk len : ℕ) (p rest : Bytes) (c : Conn)
    → c.read_remaining ≡ length p
    → length c.input ≡ length p + length rest
    → IsAllowed chunk len p (amount chunk len c)
amount-IsAllowed chunk len p rest c remaining whole =
    let n = amount chunk len c in
    let all : n ≡ least (least len (length p)) (least chunk (length p + length rest)) =
      ap₂ (λ (a b : ℕ). least (least len a) (least chunk b)) remaining whole in
    let of_len : n ≤ len = ground (arith, all) in
    let of_frame : n ≤ length p = ground (arith, all) in
    let of_chunk : n ≤ chunk = ground (arith, all) in
    (of_len, of_frame, of_chunk, ground (arith, all))

part_error-at_once :
    (at_once : Bool) (n : ℕ) (c : Conn)
    → (part_error at_once n c ≡ none) ⊎ ((at_once ≡ true) × (n ≡ length c.input))
unfolding part_error
part_error-at_once at_once n c = ground arith

-- `Read` gives the next `n` bytes of the payload, unmasked, where `n` is the least of the length of
-- the buffer, that of the payload and the input's chunk, which are all positive.
-- An error comes with them only where these are the last bytes of the input and the connection gives
-- its error at once. What is left of the payload is pending after it, whatever
-- the position in the mask. The reader is the connection's, which has not failed.
pub reader_read-Pending :
    (worlds : ℕ → World) (handlers : ℕ → Handlers) (at_once : Bool) (chunk len : ℕ)
    (key p rest : Bytes) (c : Conn)
    → 0 < chunk
    → 0 < len
    → 0 < length p
    → c.has_message_reader ≡ true
    → c.read_err ≡ none
    → IsPending key p rest c
    → (n : ℕ) × (err : Option Error) × IsAllowed chunk len p n
      × ((err ≡ none) ⊎ ((at_once ≡ true) × (n ≡ length c.input)))
      × ((reader_read worlds handlers at_once chunk len c).0 ≡ some (take n p, err))
      × IsPending key (drop n p) rest (reader_read worlds handlers at_once chunk len c).1
reader_read-Pending worlds handlers at_once chunk len key p rest c some_chunk room more active fine
      e =
    let n = amount chunk len c in
    let s = c.is_server in
    let (front, pos) = unmask s key c.read_mask_pos (take n p) in
    let tail = (unmask s key pos (drop n p)).0 ++ rest in
    let whole : length c.input ≡ length p + length rest =
      ap (λ (i : Bytes). length i) e.input_is
      ∙ length-append (unmask s key c.read_mask_pos p).0 rest
      ∙ omega (arith, length-unmask s key c.read_mask_pos p) in
    let allowed : IsAllowed chunk len p n = amount-IsAllowed chunk len p rest c e.remaining whole in
    let fits : n ≤ length p = allowed.1 in
    let size : length front ≡ n =
      length-unmask s key c.read_mask_pos (take n p) ∙ omega (arith, length-take n p) in
    let step =
      read_part-front at_once chunk len front tail c (pending-split n key p rest c e) size
        (omega (arith, whole)) in
    let whole_step =
      reader_read-Part worlds handlers at_once chunk len c active fine (omega (arith, e.remaining))
      ∙ ap (λ (r : (Bytes × Option Error) × Conn). (some r.0, r.1)) step in
    let err = part_error at_once n c in
    let (gives, stays) = taken-Pending n key p rest err c fits e in
    (
      n,
      err,
      allowed,
      part_error-at_once at_once n c,
      ap (λ (r : Option (Bytes × Option Error) × Conn). r.0) whole_step ∙ ap some gives,
      subst (λ (r : Option (Bytes × Option Error) × Conn). IsPending key (drop n p) rest r.1)
          (sym whole_step) stays,
    )
