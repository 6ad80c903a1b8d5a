-- ===== src/Discord/Frames/Messages.antt =====
-- gateway/discord/websocket.go: ReadText on what a server sends for one message.
use aethercore.Prelude.{
  ℕ, zero, suc, ◌+◌, ◌^◌, ◌≤◌, ◌<◌, ◌≡◌, refl, sym, ap, ◌∙◌, arith, Bool, true, false, none, some,
  List, [], ◌∷◌, ◌++◌, append_assoc, append-nil, length, length-append, All, if◌then◌else◌,
}
use aethercore.Prelude.Bytes.{Bytes, AllBytes}
use aethercore.Prelude.Result.{Result, ok}
use aethercore.Discord.Frames.{
  Frame, Conn, Host, WsError, op_ping, op_pong, is_part, encode_frame, read_frame, write_frame,
  after_pong, on_frame, read_loop, read_text,
}
use aethercore.Discord.Frames.RoundTrip.{wire, read_frame-wire}

-- What a server may send before the last frame of a message: pings, pongs, and parts of it.
pub data Piece : Type 0 where
  ping pong : Bytes → Piece
  part : (opcode : ℕ) → is_part opcode ≡ true → Bytes → Piece

abbrev pub body_of : Piece → Bytes
body_of (ping b) = b
body_of (pong b) = b
body_of (part op h b) = b

abbrev pub wire_piece : Piece → Bytes
wire_piece (ping b) = wire true op_ping none b
wire_piece (pong b) = wire true op_pong none b
wire_piece (part op h b) = wire false op none b

abbrev pub wire_pieces : List Piece → Bytes
wire_pieces [] = []
wire_pieces (p ∷ ps) = wire_piece p ++ wire_pieces ps

-- The parts of the message, one behind the other.
abbrev pub gathered : List Piece → Bytes
gathered [] = []
gathered (part op h b ∷ ps) = b ++ gathered ps
gathered (ping b ∷ ps) = gathered ps
gathered (pong b ∷ ps) = gathered ps

-- The answers to the pings, the first of them under key `n`, and their number.
abbrev pub pongs : (ℕ → Bytes) → ℕ → List Piece → Bytes
pongs keys n [] = []
pongs keys n (ping b ∷ ps) = encode_frame (keys n) op_pong b ++ pongs keys (n + 1) ps
pongs keys n (pong b ∷ ps) = pongs keys n ps
pongs keys n (part op h b ∷ ps) = pongs keys n ps

abbrev pub pings : List Piece → ℕ
pings [] = 0
pings (ping b ∷ ps) = suc (pings ps)
pings (pong b ∷ ps) = pings ps
pings (part op h b ∷ ps) = pings ps

length-wire_piece : (p : Piece) → 1 ≤ length (wire_piece p)
length-wire_piece (ping b) = omega arith
length-wire_piece (pong b) = omega arith
length-wire_piece (part op h b) = omega arith

length-wire_pieces : (ps : List Piece) → length ps ≤ length (wire_pieces ps)
length-wire_pieces [] = omega arith
length-wire_pieces (p ∷ ps) = omega (
  arith,
  length-append (wire_piece p) (wire_pieces ps),
  length-wire_piece p,
  length-wire_pieces ps,
)

-- A payload of bytes that fits into a frame.
abbrev pub Fits : Bytes → Type 0
Fits b = AllBytes b × (length b < 2 ^ 63)

is_part-lt : (op : ℕ) → is_part op ≡ true → op < 3
is_part-lt op h = ground arith

read_loop_step :
    (host : Host) (fuel : ℕ) (payload : Bytes) (c : Conn) (f : Frame) (rest : Bytes)
    → read_frame c.input ≡ ok (f, rest)
    → read_loop host (suc fuel) payload c
      ≡ on_frame host (read_loop host fuel) payload f (record c { input = rest })
unfolding read_loop
read_loop_step host fuel payload c f rest e = rw (e, read_loop) refl

-- A part of a message is added to the payload, and the last one ends it.
on_part :
    (host : Host) (next : Bytes → Conn → Result WsError Bytes × Conn) (fin : Bool) (op : ℕ)
    (payload b : Bytes) (c : Conn)
    → is_part op ≡ true
    → on_frame host next payload (record { fin = fin; opcode = op; body = b }) c
      ≡ (if fin then (ok (payload ++ b), c) else next (payload ++ b) c)
unfolding on_frame
on_part host next fin zero payload b c h = refl
on_part host next fin (suc zero) payload b c h = refl
on_part host next fin (suc (suc zero)) payload b c h = refl
on_part host next fin (suc (suc (suc n))) payload b c h = absurd (ground arith)

on_pong :
    (host : Host) (next : Bytes → Conn → Result WsError Bytes × Conn) (payload b : Bytes) (c : Conn)
    → on_frame host next payload (record { fin = true; opcode = op_pong; body = b }) c
      ≡ next payload c
unfolding on_frame
on_pong host next payload b c = refl

abbrev pub received : Bytes → Bytes → Bytes → ℕ → Result WsError Bytes × Conn
received message rest o n = (ok message, record { input = rest; output = o; writes = n })

received-eq :
    {m m' o o' : Bytes} {n n' : ℕ} (rest : Bytes)
    → m ≡ m'
    → o ≡ o'
    → n ≡ n'
    → received m rest o n ≡ received m' rest o' n'
received-eq rest p q r = cc

module _ (host : Host) (keys : ℕ → Bytes) (random : (n : ℕ) → host.random_key n ≡ some (keys n))
    (accepting : (n : ℕ) → host.accepts n ≡ true) where
  write_frame-sent :
      (c : Conn) (opcode : ℕ) (b : Bytes)
      → write_frame host c opcode b ≡ (
        none,
        record c {
          output = c.output ++ encode_frame (keys c.writes) opcode b;
          writes = c.writes + 1;
        },
      )
  unfolding write_frame
  write_frame-sent c opcode b = rw (random c.writes, accepting c.writes, write_frame) refl

  on_ping :
      (next : Bytes → Conn → Result WsError Bytes × Conn) (payload b : Bytes) (c : Conn)
      → on_frame host next payload (record { fin = true; opcode = op_ping; body = b }) c
        ≡ next payload (record c {
          output = c.output ++ encode_frame (keys c.writes) op_pong b;
          writes = c.writes + 1;
        })
  unfolding on_frame after_pong
  on_ping next payload b c = ap (after_pong (next payload)) (write_frame-sent c op_pong b)

  read_loop-gathers :
      (ps : List Piece) (fuel op : ℕ) (payload last rest o : Bytes) (n : ℕ)
      → is_part op ≡ true
      → All (λ p. Fits (body_of p)) ps
      → Fits last
      → length ps ≤ fuel
      → read_loop host (suc fuel) payload (record {
        input = wire_pieces ps ++ (wire true op none last ++ rest);
        output = o;
        writes = n;
      })
        ≡ received (payload ++ (gathered ps ++ last)) rest (o ++ pongs keys n ps) (n + pings ps)
  read_loop-gathers [] fuel op payload last rest o n part_op hs fits h =
      read_loop_step host fuel payload _ _ _ (
        read_frame-wire true op none last rest (omega (arith, is_part-lt op part_op)) tt fits.0
          fits.1)
      ∙ on_part host (read_loop host fuel) true op payload last _ part_op
      ∙ received-eq rest refl (sym (append-nil o)) (omega arith)
  read_loop-gathers (p ∷ ps) zero op payload last rest o n part_op hs fits h = absurd (omega arith)
  read_loop-gathers (ping b ∷ ps) (suc fuel) op payload last rest o n part_op hs fits h =
      let tail = wire true op none last ++ rest in
      read_loop_step host (suc fuel) payload _ _ _ (
        ap read_frame (append_assoc (wire true op_ping none b) (wire_pieces ps) tail)
        ∙ read_frame-wire true op_ping none b _ (omega arith) tt hs.0.0 hs.0.1)
      ∙ on_ping (read_loop host (suc fuel)) payload b _
      ∙ read_loop-gathers ps fuel op payload last rest (o ++ encode_frame (keys n) op_pong b)
          (n + 1) part_op hs.1 fits (omega arith)
      ∙ received-eq rest refl
          (append_assoc o (encode_frame (keys n) op_pong b) (pongs keys (n + 1) ps)) (omega arith)
  read_loop-gathers (pong b ∷ ps) (suc fuel) op payload last rest o n part_op hs fits h =
      let tail = wire true op none last ++ rest in
      read_loop_step host (suc fuel) payload _ _ _ (
        ap read_frame (append_assoc (wire true op_pong none b) (wire_pieces ps) tail)
        ∙ read_frame-wire true op_pong none b _ (omega arith) tt hs.0.0 hs.0.1)
      ∙ on_pong host (read_loop host (suc fuel)) payload b _
      ∙ read_loop-gathers ps fuel op payload last rest o n part_op hs.1 fits (omega arith)
  read_loop-gathers (part q e b ∷ ps) (suc fuel) op payload last rest o n part_op hs fits h =
      let tail = wire true op none last ++ rest in
      read_loop_step host (suc fuel) payload _ _ _ (
        ap read_frame (append_assoc (wire false q none b) (wire_pieces ps) tail)
        ∙ read_frame-wire false q none b _ (omega (arith, is_part-lt q e)) tt hs.0.0 hs.0.1)
      ∙ on_part host (read_loop host (suc fuel)) false q payload b _ e
      ∙ read_loop-gathers ps fuel op (payload ++ b) last rest o n part_op hs.1 fits (omega arith)
      ∙ received-eq rest
          (append_assoc payload b (gathered ps ++ last)
            ∙ ap (λ t. payload ++ t) (sym (append_assoc b (gathered ps) last)))
          refl refl

  -- ReadText gives the parts of a message in order, whatever pings and pongs stand between them;
  -- it has answered each ping with a pong of its payload, and leaves what follows the message. The
  -- random source and the transport do not fail, and each payload has less than 2^63 bytes.
  pub read_text-gathers :
      (ps : List Piece) (op : ℕ) (last rest o : Bytes) (n : ℕ)
      → is_part op ≡ true
      → All (λ p. Fits (body_of p)) ps
      → Fits last
      → read_text host (record {
        input = wire_pieces ps ++ (wire true op none last ++ rest);
        output = o;
        writes = n;
      })
        ≡ received (gathered ps ++ last) rest (o ++ pongs keys n ps) (n + pings ps)
  unfolding read_text
  read_text-gathers ps op last rest o n part_op hs fits =
      read_loop-gathers ps _ op [] last rest o n part_op hs fits (
        omega (
          arith,
          length-append (wire_pieces ps) (wire true op none last ++ rest),
          length-wire_pieces ps,
        ))
