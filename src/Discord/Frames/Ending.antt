-- ===== src/Discord/Frames/Ending.antt =====
-- gateway/discord/websocket.go: every frame takes bytes, so that ReadText ends.
use aethercore.Prelude.{
  ℕ, zero, suc, ◌+◌, ◌≤◌, ◌<◌, ◌≡◌, ◌≢◌, refl, ap, ◌∙◌, inl, inr, arith, Bool, true, false,
  Bool-cases, Option-cases, Option, none, some, [], ◌∷◌, ◌++◌, length, nat_eq, not, subst, leb, ◌^◌,
  if◌then◌else◌,
}
use aethercore.Prelude.Bytes.{Bytes, be_value}
use Prim.Native.Nat.{bit_and}
use aethercore.Prelude.Result.{Result, ok, err, ◌>>=◌, Result-cases}
use aethercore.Discord.Frames.{
  length_16, length_64, mask_bytes, payload_bytes, length_overflow, Frame, Conn, Host, WsError,
  out_of_fuel, op_close, op_ping, op_pong, is_part, read_full, full_or, read_length, read_mask_key,
  read_payload, read_body, read_frame, write_frame, after_pong, on_frame, read_loop, read_text,
}

-- What is left of `bs` behind a step that succeeds is not longer.
abbrev Shrinks : {A : Type 0} → Bytes → Result WsError (A × Bytes) → Type 0
Shrinks bs (ok r) = length r.1 ≤ length bs
Shrinks bs (err e) = e ≢ out_of_fuel

full_or-Shrinks :
    (n : ℕ) (bs : Bytes) (e : WsError) → e ≢ out_of_fuel → Shrinks bs (full_or (read_full n bs) e)
unfolding full_or read_full
full_or-Shrinks zero bs e h = omega arith
full_or-Shrinks (suc n) [] e h = h
full_or-Shrinks (suc n) (b ∷ bs) e h = by_rest (read_full n bs) (full_or-Shrinks n bs e h)
  where
    by_rest :
        (r : Option (Bytes × Bytes))
        → Shrinks bs (full_or r e)
        → Shrinks (b ∷ bs) (
            full_or
              (elim r as (λ x. Option (Bytes × Bytes)) [
                | none ↦ none
                | some (front, rest) ↦ some (b ∷ front, rest)
              ])
              e)
    by_rest none k = k
    by_rest (some (front, rest)) k = omega arith

bind-Shrinks :
    {A B : Type 0} (bs : Bytes) (m : Result WsError (A × Bytes))
    (f : A × Bytes → Result WsError (B × Bytes))
    → Shrinks bs m
    → ((r : A × Bytes) → length r.1 ≤ length bs → Shrinks bs (f r))
    → Shrinks bs (m >>= f)
bind-Shrinks bs (ok r) f h k = k r h
bind-Shrinks bs (err e) f h k = h

weaken :
    {A : Type 0} (bs bs' : Bytes) (m : Result WsError (A × Bytes))
    → length bs' ≤ length bs
    → Shrinks bs' m
    → Shrinks bs m
weaken bs bs' (ok r) h k = omega (arith, h, k)
weaken bs bs' (err e) h k = k

read_length-Shrinks : (len : ℕ) (bs : Bytes) → Shrinks bs (read_length len bs)
unfolding read_length
read_length-Shrinks len bs = elim (Bool-cases (nat_eq len 126)) [
  | inl two ↦
      rw (two, read_length)
        (bind-Shrinks bs (full_or (read_full 2 bs) length_16) _
          (full_or-Shrinks 2 bs length_16 (λ e. cc)) (λ r h. h))
  | inr other ↦ elim (Bool-cases (nat_eq len 127)) [
    | inl eight ↦
        rw (other, eight, read_length)
          (bind-Shrinks bs (full_or (read_full 8 bs) length_64) _
            (full_or-Shrinks 8 bs length_64 (λ e. cc)) (λ r h. overflow r h))
    | inr short ↦ rw (other, short, read_length) (omega arith)
  ]
]
  where
    overflow :
        (r : Bytes × Bytes)
        → length r.1 ≤ length bs
        → Shrinks bs (
            if leb (2 ^ 63) (be_value r.0)
            then err (length_overflow (be_value r.0))
            else ok (be_value r.0, r.1))
    overflow r h = elim (Bool-cases (leb (2 ^ 63) (be_value r.0))) [
      | inl big ↦ rw big (λ e. cc)
      | inr fits ↦ rw fits h
    ]

read_mask_key-Shrinks : (masked : Bool) (bs : Bytes) → Shrinks bs (read_mask_key masked bs)
unfolding read_mask_key
read_mask_key-Shrinks true bs = full_or-Shrinks 4 bs mask_bytes (λ e. cc)
read_mask_key-Shrinks false bs = omega arith

read_payload-Shrinks :
    (masked : Bool) (key : Bytes) (n : ℕ) (bs : Bytes) → Shrinks bs (read_payload masked key n bs)
unfolding read_payload
read_payload-Shrinks masked key zero bs = omega arith
read_payload-Shrinks masked key (suc n) bs =
    bind-Shrinks bs (full_or (read_full (suc n) bs) payload_bytes) _
      (full_or-Shrinks (suc n) bs payload_bytes (λ e. cc)) (λ r h. h)

read_body-Shrinks : (b0 b1 : ℕ) (bs : Bytes) → Shrinks bs (read_body b0 b1 bs)
unfolding read_body
read_body-Shrinks b0 b1 bs =
    bind-Shrinks bs (read_length (bit_and b1 0x7F) bs) _ (read_length-Shrinks (bit_and b1 0x7F) bs)
      (λ l hl.
        bind-Shrinks bs (read_mask_key (not (nat_eq (bit_and b1 0x80) 0)) l.1) _
          (weaken bs l.1 _ hl (read_mask_key-Shrinks _ l.1))
          (λ k hk.
            bind-Shrinks bs (read_payload (not (nat_eq (bit_and b1 0x80) 0)) k.0 l.0 k.1) _
              (weaken bs k.1 _ hk (read_payload-Shrinks _ k.0 l.0 k.1)) (λ p hp. hp)))

-- A frame that is read leaves at least two bytes fewer.
read_frame-shorter :
    (bs : Bytes) {f : Frame} {rest : Bytes}
    → read_frame bs ≡ ok (f, rest)
    → length rest + 2 ≤ length bs
unfolding read_frame
read_frame-shorter [] e = cc
read_frame-shorter (b0 ∷ []) e = cc
read_frame-shorter (b0 ∷ b1 ∷ bs) {f} {rest} e =
    let h : Shrinks bs (ok (f, rest)) = subst (λ m. Shrinks bs m) e (read_body-Shrinks b0 b1 bs) in
    omega (arith, h)

read_frame-fuel : (bs : Bytes) → read_frame bs ≢ err out_of_fuel
unfolding read_frame
read_frame-fuel [] e = cc
read_frame-fuel (b0 ∷ []) e = cc
read_frame-fuel (b0 ∷ b1 ∷ bs) e = subst (λ m. Shrinks bs m) e (read_body-Shrinks b0 b1 bs) refl

write_frame-input :
    (host : Host) (c : Conn) (op : ℕ) (b : Bytes) → (write_frame host c op b).1.input ≡ c.input
unfolding write_frame
write_frame-input host c op b = elim (Option-cases (host.random_key c.writes)) [
  | inl e ↦ rw (e, write_frame) refl
  | inr (key, e) ↦ elim (Bool-cases (host.accepts c.writes)) [
    | inl sent ↦ rw (e, sent, write_frame) refl
    | inr lost ↦ rw (e, lost, write_frame) refl
  ]
]

after_pong-ends :
    (next : Conn → Result WsError Bytes × Conn) (out : Option WsError × Conn)
    → (next out.1).0 ≢ err out_of_fuel
    → (after_pong next out).0 ≢ err out_of_fuel
unfolding after_pong
after_pong-ends next (none, c) h e = h e
after_pong-ends next (some x, c) h e = cc

on_frame-ends :
    (host : Host) (next : Bytes → Conn → Result WsError Bytes × Conn) (payload : Bytes) (f : Frame)
    (c : Conn)
    → ((p : Bytes) (c' : Conn) → c'.input ≡ c.input → (next p c').0 ≢ err out_of_fuel)
    → (on_frame host next payload f c).0 ≢ err out_of_fuel
unfolding on_frame
on_frame-ends host next payload f c h = elim (Bool-cases (nat_eq f.opcode op_close)) [
  | inl close ↦ rw (close, on_frame) (λ e. cc)
  | inr open_frame ↦ elim (Bool-cases (nat_eq f.opcode op_ping)) [
    | inl ping ↦
        rw (open_frame, ping, on_frame)
          (after_pong-ends (next payload) (write_frame host c op_pong f.body)
            (h payload _ (write_frame-input host c op_pong f.body)))
    | inr other ↦ elim (Bool-cases (is_part f.opcode)) [
      | inl part ↦ elim (Bool-cases f.fin) [
        | inl last ↦ rw (open_frame, other, part, last, on_frame) (λ e. cc)
        | inr more ↦ rw (open_frame, other, part, more, on_frame) (h (payload ++ f.body) c refl)
      ]
      | inr skipped ↦ rw (open_frame, other, skipped, on_frame) (h payload c refl)
    ]
  ]
]

same_error :
    {A B : Type 0} {x y : WsError}
    → ◌≡◌ {A = Result WsError A} (err x) (err y)
    → ◌≡◌ {A = Result WsError B} (err x) (err y)
same_error q = cc

read_loop-ends :
    (host : Host) (fuel : ℕ) (payload : Bytes) (c : Conn)
    → length c.input < fuel
    → (read_loop host fuel payload c).0 ≢ err out_of_fuel
unfolding read_loop
read_loop-ends host zero payload c h = absurd (omega arith)
read_loop-ends host (suc fuel) payload c h = elim (Result-cases (read_frame c.input)) [
  | inr (x, e) ↦ rw (e, read_loop) (λ q. read_frame-fuel c.input (e ∙ same_error q))
  | inl ((f, rest), e) ↦
      rw (e, read_loop)
        (on_frame-ends host (read_loop host fuel) payload f (record c { input = rest })
          (λ p c' same.
            read_loop-ends host fuel p c'
              (omega (arith, h, ap length same, read_frame-shorter c.input e))))
]

-- ReadText ends, whatever bytes the server has sent and whatever the writes of its answers do: the
-- loop never uses up as many rounds as there are bytes.
pub read_text-ends : (host : Host) (c : Conn) → (read_text host c).0 ≢ err out_of_fuel
unfolding read_text
read_text-ends host c = read_loop-ends host (suc (length c.input)) [] c (omega arith)
