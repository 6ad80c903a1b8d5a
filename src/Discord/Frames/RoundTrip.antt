-- ===== src/Discord/Frames/RoundTrip.antt =====
-- gateway/discord/websocket.go: a frame as RFC 6455 lays it out, and that readFrame reads it.
use Prim.Native.Nat.{bit_and}
use aethercore.Prelude.{
  ℕ, zero, suc, ◌+◌, ◌%◌, ◌^◌, ◌≤◌, ◌<◌, ◌≡◌, refl, sym, ap, ◌∙◌, inl, inr, arith, Bool, true,
  false, Bool-cases, Option-cases, Option, none, some, [], ◌∷◌, ◌++◌, append_assoc, length,
  get_elem?, leb, leb→le, not, nat_eq, if◌then◌else◌,
}
use aethercore.Prelude.Bytes.{
  Bytes, IsByte, AllBytes, be_bytes, be_value-be_bytes, length-be_bytes, and_top, and_seven,
  and_four, or_top, xor_twice,
}
use aethercore.Prelude.Result.{ok}
use aethercore.Discord.Frames.{
  read_full, full_or, key_at, mask_from, read_length, read_mask_key, read_payload, read_body,
  read_frame, length_bytes, encode_frame,
}

read_full-append : (xs ys : Bytes) → read_full (length xs) (xs ++ ys) ≡ some (xs, ys)
unfolding read_full
read_full-append [] ys = refl
read_full-append (x ∷ xs) ys = rw (read_full-append xs ys, read_full) refl

read_full-length : (n : ℕ) (xs ys : Bytes) → length xs ≡ n → read_full n (xs ++ ys) ≡ some (xs, ys)
read_full-length n xs ys h = ap (λ k. read_full k (xs ++ ys)) (sym h) ∙ read_full-append xs ys

get_elem-IsByte : (key : Bytes) (i : ℕ) {k : ℕ} → AllBytes key → get_elem? key i ≡ some k → IsByte k
get_elem-IsByte [] i h e = cc
get_elem-IsByte (x ∷ key) zero h e = ground (arith, h.0)
get_elem-IsByte (x ∷ key) (suc i) h e = get_elem-IsByte key i h.1 e

key_at-IsByte : (key : Bytes) (i : ℕ) → AllBytes key → IsByte (key_at key i)
unfolding key_at
key_at-IsByte key i h = elim (Option-cases (get_elem? key (i % 4))) [
  | inl e ↦ rw (e, key_at) (omega arith)
  | inr (k, e) ↦ rw (e, key_at) (get_elem-IsByte key (i % 4) h e)
]

mask_from-nil : (i : ℕ) (key : Bytes) → mask_from i key [] ≡ []
unfolding mask_from
mask_from-nil i key = refl

-- A payload that is masked twice is the payload.
mask_from_twice :
    (i : ℕ) (key payload : Bytes)
    → AllBytes key
    → AllBytes payload
    → mask_from i key (mask_from i key payload) ≡ payload
unfolding mask_from
mask_from_twice i key [] hk h = refl
mask_from_twice i key (b ∷ bs) hk h =
    cc (
      xor_twice b (key_at key i) h.0 (key_at-IsByte key i hk),
      mask_from_twice (i + 1) key bs hk h.1,
    )

length-mask_from : (i : ℕ) (key payload : Bytes) → length (mask_from i key payload) ≡ length payload
unfolding mask_from
length-mask_from i key [] = refl
length-mask_from i key (b ∷ bs) = omega (arith, length-mask_from (i + 1) key bs)

-- The seven bits of the length, and the bytes of a length that they do not hold.
abbrev pub short_length : ℕ → ℕ
short_length len = if leb len 125 then len else if leb len 65535 then 126 else 127

abbrev pub long_length : ℕ → Bytes
long_length len =
    if leb len 125 then [] else if leb len 65535 then be_bytes 2 len else be_bytes 8 len

abbrev pub flag : Bool → ℕ
flag true = 128
flag false = 0

-- The masking key and the payload under it, or the plain payload.
abbrev pub wire_body : Option Bytes → Bytes → Bytes
wire_body none payload = payload
wire_body (some key) payload = key ++ mask_from 0 key payload

abbrev pub is_masked : Option Bytes → Bool
is_masked none = false
is_masked (some key) = true

-- RFC 6455, section 5.2: the layout of a frame.
abbrev pub wire : Bool → ℕ → Option Bytes → Bytes → Bytes
wire fin opcode key payload =
    (flag fin + opcode)
    ∷ (flag (is_masked key) + short_length (length payload))
    ∷ (long_length (length payload) ++ wire_body key payload)

-- A key of four bytes, if there is one.
abbrev pub IsKey : Option Bytes → Type 0
IsKey none = Unit
IsKey (some key) = AllBytes key × (length key ≡ 4)

read_length_short : (len : ℕ) (rest : Bytes) → len ≤ 125 → read_length len rest ≡ ok (len, rest)
unfolding read_length
read_length_short len rest h = ground arith

read_length_16 :
    (len : ℕ) (rest : Bytes)
    → len < 256 ^ 2
    → read_length 126 (be_bytes 2 len ++ rest) ≡ ok (len, rest)
unfolding read_length full_or
read_length_16 len rest fits =
    rw
      (
        read_full-length 2 (be_bytes 2 len) rest (length-be_bytes 2 len),
        be_value-be_bytes 2 len fits,
      )
      refl

read_length_64 :
    (len : ℕ) (rest : Bytes)
    → len < 2 ^ 63
    → read_length 127 (be_bytes 8 len ++ rest) ≡ ok (len, rest)
unfolding read_length full_or
read_length_64 len rest fits =
    rw
      (
        read_full-length 8 (be_bytes 8 len) rest (length-be_bytes 8 len),
        be_value-be_bytes 8 len (omega arith),
      )
      (ground arith)

read_length-long :
    (len : ℕ) (rest : Bytes)
    → len < 2 ^ 63
    → read_length (short_length len) (long_length len ++ rest) ≡ ok (len, rest)
read_length-long len rest fits = elim (Bool-cases (leb len 125)) [
  | inl short ↦ rw short (read_length_short len rest (leb→le len 125 short))
  | inr more ↦ elim (Bool-cases (leb len 65535)) [
    | inl medium ↦ rw (more, medium) (read_length_16 len rest (ground arith))
    | inr long ↦ rw (more, long) (read_length_64 len rest fits)
  ]
]

read_mask_key-wire :
    (key : Option Bytes) (payload rest : Bytes)
    → IsKey key
    → (k : Bytes) × (read_mask_key (is_masked key) (wire_body key payload ++ rest)
        ≡ ok (k, (if is_masked key then mask_from 0 k payload else payload) ++ rest))
      × ((is_masked key ≡ true) → AllBytes k)
unfolding read_mask_key full_or
read_mask_key-wire none payload rest h = (_, refl, λ e. cc)
read_mask_key-wire (some key) payload rest h = (
  key,
  rw
      (
        append_assoc key (mask_from 0 key payload) rest,
        read_full-length 4 key (mask_from 0 key payload ++ rest) h.1,
      )
      refl,
  λ e. h.0,
)

read_payload-body :
    (masked : Bool) (k payload rest : Bytes)
    → ((masked ≡ true) → AllBytes k)
    → AllBytes payload
    → read_payload masked k
        (length payload)
        ((if masked then mask_from 0 k payload else payload) ++ rest)
      ≡ ok (payload, rest)
unfolding read_payload full_or
read_payload-body false k [] rest hk h = refl
read_payload-body true k [] rest hk h = rw (mask_from-nil 0 k) refl
read_payload-body false k (b ∷ bs) rest hk h = rw (read_full-append (b ∷ bs) rest) refl
read_payload-body true k (b ∷ bs) rest hk h =
    rw
      (
        read_full-length (suc (length bs)) (mask_from 0 k (b ∷ bs)) rest
            (length-mask_from 0 k (b ∷ bs)),
        mask_from_twice 0 k (b ∷ bs) (hk refl) h,
      )
      refl

top_bit_flag : (b : Bool) (x : ℕ) → x < 128 → not (nat_eq (bit_and (flag b + x) 0x80) 0) ≡ b
top_bit_flag true x h = rw (and_top (128 + x) (omega arith)) (ground arith)
top_bit_flag false x h = rw (and_top (0 + x) (omega arith)) (ground arith)

opcode_flag : (b : Bool) (x : ℕ) → x < 16 → bit_and (flag b + x) 0x0F ≡ x
opcode_flag true x h = omega (arith, and_four (128 + x) (omega arith))
opcode_flag false x h = omega (arith, and_four (0 + x) (omega arith))

length_flag : (b : Bool) (x : ℕ) → x < 128 → bit_and (flag b + x) 0x7F ≡ x
length_flag true x h = omega (arith, and_seven (128 + x) (omega arith))
length_flag false x h = omega (arith, and_seven (0 + x) (omega arith))

short_length-lt : (len : ℕ) → short_length len < 128
short_length-lt len = ground arith

-- readFrame reads every frame that the RFC lays out, masked or not, of less than 2^63 bytes, and
-- leaves what follows it.
pub read_frame-wire :
    (fin : Bool) (opcode : ℕ) (key : Option Bytes) (body rest : Bytes)
    → opcode < 16
    → IsKey key
    → AllBytes body
    → length body < 2 ^ 63
    → read_frame (wire fin opcode key body ++ rest)
      ≡ ok (record { fin = fin; opcode = opcode; body = body }, rest)
unfolding read_frame read_body
read_frame-wire fin opcode key body rest ho hk hb fits =
    let (k, e, bytes) = read_mask_key-wire key body rest hk in
    rw
      (
        top_bit_flag fin opcode (omega (arith, ho)),
        opcode_flag fin opcode ho,
        top_bit_flag (is_masked key) (short_length (length body)) (short_length-lt (length body)),
        length_flag (is_masked key) (short_length (length body)) (short_length-lt (length body)),
        append_assoc (long_length (length body)) (wire_body key body) rest,
        read_length-long (length body) (wire_body key body ++ rest) fits,
        e,
        read_payload-body (is_masked key) k body rest bytes hb,
      )
      refl

length_bytes-eq : (len : ℕ) → length_bytes len ≡ (128 + short_length len) ∷ long_length len
unfolding length_bytes
length_bytes-eq len = elim (Bool-cases (leb len 125)) [
  | inl short ↦ rw (short, or_top len (omega (arith, leb→le len 125 short))) refl
  | inr more ↦ elim (Bool-cases (leb len 65535)) [
    | inl medium ↦ rw (more, medium) refl
    | inr long ↦ rw (more, long) refl
  ]
]

-- What writeFrame sends is a frame of the RFC that is final and masked.
pub encode_frame-wire :
    (key : Bytes) (opcode : ℕ) (body : Bytes)
    → opcode < 16
    → encode_frame key opcode body ≡ wire true opcode (some key) body
unfolding encode_frame
encode_frame-wire key opcode body h =
    cc (or_top opcode (omega (arith, h)), length_bytes-eq (length body))

-- A frame that is written under any masking key of four bytes is read back, and what follows it is
-- left, for payloads of less than 2^63 bytes.
pub read_frame-encode_frame :
    (key : Bytes) (opcode : ℕ) (body rest : Bytes)
    → opcode < 16
    → AllBytes key
    → length key ≡ 4
    → AllBytes body
    → length body < 2 ^ 63
    → read_frame (encode_frame key opcode body ++ rest)
      ≡ ok (record { fin = true; opcode = opcode; body = body }, rest)
read_frame-encode_frame key opcode body rest ho hk four hb fits =
    rw (encode_frame-wire key opcode body ho)
      (read_frame-wire true opcode (some key) body rest ho (hk, four) hb fits)
