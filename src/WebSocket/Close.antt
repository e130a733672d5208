-- ===== src/WebSocket/Close.antt =====
-- Close codes and close messages of contrib/websocket/conn.go, and `utf8.ValidString` and
-- `strconv.Itoa` of Go's standard library, which the read half calls on them.
pub mod Laws
use hertz_study.Base.{
  ℕ, zero, suc, ◌+◌, ◌*◌, ◌/◌, ◌%◌, Bool, true, false, not, ◌&&◌, ◌||◌, [], ◌∷◌, ◌++◌, Option, none,
  some, Bytes, leb, ltb, ◌==◌, if◌then◌else◌,
}

abbrev pub close_protocol_error : ℕ
close_protocol_error = 1002

abbrev pub close_no_status_received : ℕ
close_no_status_received = 1005

abbrev pub close_abnormal_closure : ℕ
close_abnormal_closure = 1006

abbrev pub close_message_too_big : ℕ
close_message_too_big = 1009

-- The map `validReceivedCloseCodes`; a code that is not in it is not valid.
unfoldable pub valid_received_close_codes : ℕ → Bool
valid_received_close_codes code =
    code == 1000
    || (code == 1001
        || (code == 1002
            || (code == 1003
                || (code == 1007
                    || (code == 1008
                        || (code == 1009
                            || (code == 1010
                                || (code == 1011 || (code == 1012 || code == 1013)))))))))

unfoldable pub is_valid_received_close_code : ℕ → Bool
unfolding valid_received_close_codes
is_valid_received_close_code code =
    valid_received_close_codes code || (leb 3000 code && leb code 4999)

-- `binary.BigEndian.PutUint16`, and `Uint16` of it.
unfoldable pub put_uint16 : ℕ → Bytes
put_uint16 n = n / 256 % 256 ∷ n % 256 ∷ []

-- Reads the first bytes of a big-endian number; fewer bytes than wanted do not occur.
unfoldable pub big_endian : ℕ → Bytes → ℕ
big_endian acc [] = acc
big_endian acc (b ∷ bs) = big_endian (acc * 256 + b) bs

-- `uint16(closeCode)` for a code that is not negative.
unfoldable pub format_close_message : ℕ → Bytes → Bytes
unfolding put_uint16
format_close_message close_code text =
    if close_code == close_no_status_received then [] else put_uint16 (close_code % 65536) ++ text

-- The continuation bytes that follow the first byte of a UTF-8 sequence: how many, and the range of
-- the next one.
record Lead : Type 0 where
  more : ℕ
  lo : ℕ
  hi : ℕ

abbrev lead_of : ℕ → ℕ → ℕ → Option Lead
lead_of more lo hi = some (record { more = more; lo = lo; hi = hi })

abbrev within : ℕ → ℕ → ℕ → Bool
within lo hi c = leb lo c && leb c hi

utf8_lead : ℕ → Option Lead
utf8_lead c =
    if ltb c 0x80
    then lead_of 0 0x80 0xbf
    else if within 0xc2 0xdf c
    then lead_of 1 0x80 0xbf
    else if c == 0xe0
    then lead_of 2 0xa0 0xbf
    else if c == 0xed
    then lead_of 2 0x80 0x9f
    else if within 0xe1 0xef c
    then lead_of 2 0x80 0xbf
    else if c == 0xf0
    then lead_of 3 0x90 0xbf
    else if within 0xf1 0xf3 c
    then lead_of 3 0x80 0xbf
    else if c == 0xf4
    then lead_of 3 0x80 0x8f
    else none

valid_from : ℕ → ℕ → ℕ → Bytes → Bool
valid_from zero lo hi [] = true
valid_from (suc more) lo hi [] = false
valid_from zero lo hi (c ∷ s) = elim (utf8_lead c) [
  | none ↦ false
  | some l ↦ valid_from l.more l.lo l.hi s
]
valid_from (suc more) lo hi (c ∷ s) = within lo hi c && valid_from more 0x80 0xbf s

unfoldable pub valid_utf8 : Bytes → Bool
unfolding valid_from utf8_lead
valid_utf8 s = valid_from 0 0x80 0xbf s

-- The decimal digits of a number, with `fuel` digits at most in front of `out`.
unfoldable pub itoa_onto : ℕ → ℕ → Bytes → Bytes
itoa_onto zero n out = out
itoa_onto (suc fuel) n out =
    let out' = (b'0' + n % 10) ∷ out in
    let rest = itoa_onto fuel (n / 10) out' in if n / 10 == 0 then out' else rest

-- The numbers that are printed are opcodes and close codes, of five digits at most.
unfoldable pub itoa : ℕ → Bytes
unfolding itoa_onto
itoa n = itoa_onto 5 n []
