-- ===== src/Discord/Frames.antt =====
-- gateway/discord/websocket.go: reading and writing of frames. The connection is the bytes that
-- the server has sent and that are not read yet, behind which it ends, and the bytes that are
-- written. The random masking keys and whether a write succeeds are parameters. After an error the
-- caller gives the connection up, so what an error leaves unread is not kept.
pub mod Ending
pub mod Messages
pub mod RoundTrip
use aethercore.Prelude.{
  ℕ, zero, suc, ◌+◌, ◌*◌, ◌%◌, ◌^◌, Bool, true, false, not, ◌||◌, Option, none, some, List, [], ◌∷◌,
  ◌++◌, length, get_elem?, ltb, leb, nat_eq, if◌then◌else◌,
}
use aethercore.Prelude.Bytes.{Bytes, be_bytes, be_value}
use aethercore.Prelude.Result.{Result, ok, err, ◌>>=◌}
use Prim.Native.Nat.{bit_and, bit_or, bit_xor}

-- The opcodes wsOpContinuation to wsOpPong.
abbrev pub op_continuation : ℕ
op_continuation = 0

abbrev pub op_text : ℕ
op_text = 1

abbrev pub op_binary : ℕ
op_binary = 2

abbrev pub op_close : ℕ
op_close = 8

abbrev pub op_ping : ℕ
op_ping = 9

abbrev pub op_pong : ℕ
op_pong = 10

-- The errors, by the part of a frame that is not there; `eof` is io.EOF, and `out_of_fuel` stands
-- for a loop that would not end.
pub data WsError : Type 0 where
  header_byte_0 header_byte_1 length_16 length_64 mask_bytes payload_bytes : WsError
  length_overflow : ℕ → WsError
  no_mask_key write_failed eof out_of_fuel : WsError
  pong_failed : WsError → WsError

pub record Frame : Type 0 where
  pub fin : Bool
  pub opcode : ℕ
  pub body : Bytes

pub record Conn : Type 0 where
  pub input : Bytes
  pub output : Bytes
  pub writes : ℕ

-- What comes of the random source and of the transport at each write.
pub record Host : Type 0 where
  pub random_key : ℕ → Option Bytes
  pub accepts : ℕ → Bool

-- io.ReadFull of `n` bytes
unfoldable pub read_full : ℕ → Bytes → Option (Bytes × Bytes)
read_full zero bs = some ([], bs)
read_full (suc n) [] = none
read_full (suc n) (b ∷ bs) = elim (read_full n bs) [
  | none ↦ none
  | some (front, rest) ↦ some (b ∷ front, rest)
]

pub full_or : Option (Bytes × Bytes) → WsError → Result WsError (Bytes × Bytes)
full_or none e = err e
full_or (some r) e = ok r

-- maskKey[i%4]
unfoldable pub key_at : Bytes → ℕ → ℕ
key_at key i = elim (get_elem? key (i % 4)) [ none ↦ 0 | some k ↦ k ]

-- `for i := range payload { payload[i] ^= maskKey[i%4] }`
unfoldable pub mask_from : ℕ → Bytes → Bytes → Bytes
mask_from i key [] = []
mask_from i key (b ∷ bs) = bit_xor b (key_at key i) ∷ mask_from (i + 1) key bs

-- the `switch length`
unfoldable pub read_length : ℕ → Bytes → Result WsError (ℕ × Bytes)
unfolding full_or
read_length len bs =
    if nat_eq len 126
    then (do r ← full_or (read_full 2 bs) length_16; ok (be_value r.0, r.1))
    else if nat_eq len 127
    then (do
      r ← full_or (read_full 8 bs) length_64
      if leb (2 ^ 63) (be_value r.0)
          then err (length_overflow (be_value r.0))
          else ok (be_value r.0, r.1))
    else ok (len, bs)

unfoldable pub read_mask_key : Bool → Bytes → Result WsError (Bytes × Bytes)
unfolding full_or
read_mask_key masked bs =
    if masked then full_or (read_full 4 bs) mask_bytes else ok (0 ∷ 0 ∷ 0 ∷ 0 ∷ [], bs)

-- make has the memory for the length: where it has not, the process ends with a panic.
unfoldable pub read_payload : Bool → Bytes → ℕ → Bytes → Result WsError (Bytes × Bytes)
unfolding full_or
read_payload masked key zero bs = ok ([], bs)
read_payload masked key (suc n) bs = do
  r ← full_or (read_full (suc n) bs) payload_bytes
  ok ((if masked then mask_from 0 key r.0 else r.0), r.1)

-- readFrame behind its first two bytes
unfoldable pub read_body : ℕ → ℕ → Bytes → Result WsError (Frame × Bytes)
read_body b0 b1 bs = do
  let masked = not (nat_eq (bit_and b1 0x80) 0)
  l ← read_length (bit_and b1 0x7F) bs
  k ← read_mask_key masked l.1
  p ← read_payload masked k.0 l.0 k.1
  ok (record { fin = not (nat_eq (bit_and b0 0x80) 0); opcode = bit_and b0 0x0F; body = p.0 }, p.1)

-- readFrame
unfoldable pub read_frame : Bytes → Result WsError (Frame × Bytes)
unfolding read_body
read_frame [] = err header_byte_0
read_frame (b0 ∷ []) = err header_byte_1
read_frame (b0 ∷ b1 ∷ bs) = read_body b0 b1 bs

-- the part of the header that gives the length, as a client writes it
unfoldable pub length_bytes : ℕ → Bytes
length_bytes len =
    if leb len 125
    then bit_or 0x80 len ∷ []
    else if leb len 65535
    then bit_or 0x80 126 ∷ be_bytes 2 len
    else bit_or 0x80 127 ∷ be_bytes 8 len

-- the frame that writeFrame sends under a masking key
unfoldable pub encode_frame : Bytes → ℕ → Bytes → Bytes
encode_frame key opcode payload =
    bit_or 0x80 opcode ∷ (length_bytes (length payload) ++ (key ++ mask_from 0 key payload))

-- writeFrame
unfoldable pub write_frame : Host → Conn → ℕ → Bytes → Option WsError × Conn
write_frame host c opcode payload = elim (host.random_key c.writes) [
  | none ↦ (some no_mask_key, record c { writes = c.writes + 1 })
  | some key ↦
      if host.accepts c.writes
      then (
        none,
        record c { output = c.output ++ encode_frame key opcode payload; writes = c.writes + 1 },
      )
      else (some write_failed, record c { writes = c.writes + 1 })
]

-- WriteText, of the bytes of the text
unfoldable pub write_text : Host → Conn → Bytes → Option WsError × Conn
write_text host c text = write_frame host c op_text text

-- sendClose
unfoldable pub send_close : Host → Conn → Option WsError × Conn
send_close host c = write_frame host c op_close []

-- the answer to a ping, and the loop behind it unless the pong fails
pub after_pong :
    (Conn → Result WsError Bytes × Conn) → Option WsError × Conn → Result WsError Bytes × Conn
after_pong next (some e, c) = (err (pong_failed e), c)
after_pong next (none, c) = next c

abbrev pub is_part : ℕ → Bool
is_part opcode = nat_eq opcode op_text || (nat_eq opcode op_binary || nat_eq opcode op_continuation)

-- What ReadText does with a frame; `next` is the loop with the payload so far.
pub on_frame :
    Host
    → (Bytes → Conn → Result WsError Bytes × Conn)
    → Bytes
    → Frame
    → Conn
    → Result WsError Bytes × Conn
unfolding after_pong
on_frame host next payload f c =
    if nat_eq f.opcode op_close
    then (err eof, (send_close host c).1)
    else if nat_eq f.opcode op_ping
    then after_pong (next payload) (write_frame host c op_pong f.body)
    else if is_part f.opcode
    then (if f.fin then (ok (payload ++ f.body), c) else next (payload ++ f.body) c)
    else next payload c

-- the loop of ReadText, on fuel
unfoldable pub read_loop : Host → ℕ → Bytes → Conn → Result WsError Bytes × Conn
unfolding on_frame
read_loop host zero payload c = (err out_of_fuel, c)
read_loop host (suc fuel) payload c = elim (read_frame c.input) [
  | err e ↦ (err e, c)
  | ok (f, rest) ↦ on_frame host (read_loop host fuel) payload f (record c { input = rest })
]

-- ReadText: every frame takes bytes from the connection, which bound the rounds.
unfoldable pub read_text : Host → Conn → Result WsError Bytes × Conn
unfolding read_loop
read_text host c = read_loop host (suc (length c.input)) [] c
