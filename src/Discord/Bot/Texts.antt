-- ===== src/Discord/Bot/Texts.antt =====
-- gateway/discord: from the bytes of a connection to the replies of the bot.
use aethercore.Prelude.{
  ℕ, Bool, zero, suc, ◌≡◌, refl, ap, ◌∙◌, true, false, none, some, List, [], ◌∷◌, ◌++◌, map, length,
  All, ◌+◌,
}
use aethercore.Prelude.Turns.{number}
use aethercore.Prelude.Bytes.{Bytes}
use aethercore.Prelude.Result.{Result, wrap_err}
use aethercore.Prelude.Text.{Text}
use aethercore.Sdk.Registry.{ModuleRegistry}
use aethercore.Discord.Frames.{
  Conn, Host, WsError, header_byte_0, is_part, read_frame, read_loop, read_text,
}
use aethercore.Discord.Frames.RoundTrip.{wire}
use aethercore.Discord.Frames.Messages.{
  Piece, Fits, body_of, wire_pieces, gathered, pongs, pings, read_text-gathers,
}
use aethercore.Discord.Session.{Decoders, Round, ws_recv, receive_loop, handed_on}
use aethercore.Discord.Session.Receive.{created, handed_on-of_payload}
use aethercore.Discord.Client.{Client, Wire}
use aethercore.Discord.Bot.{serve_all}
use aethercore.Discord.Bot.Replies.{KeepsNames, asking_channels, channels, serve_all-channels}

-- one round of receiveLoop, where the context is not done
abbrev pub round_of :
    (WsError → Text) → (Conn → List Round) → Result WsError Bytes × Conn → List Round
round_of error_text next (text, c) =
    record { done = false; text = wrap_err error_text text; cancelled_late = false } ∷ next c

-- The calls of ReadText that receiveLoop makes on a connection.
unfoldable pub read_rounds : Host → (WsError → Text) → ℕ → Conn → List Round
read_rounds host error_text zero c = []
read_rounds host error_text (suc n) c =
    round_of error_text (read_rounds host error_text n) (read_text host c)

-- A text as a server may send it: in parts, with pings and pongs between them.
pub record WireText : Type 0 where
  pub pieces : List Piece
  pub opcode : ℕ
  pub last : Bytes
  pub last_part : is_part opcode ≡ true
  pub pieces_fit : All (λ p. Fits (body_of p)) pieces
  pub last_fits : Fits last

abbrev pub wire_texts : List WireText → Bytes
wire_texts [] = []
wire_texts (t ∷ ts) = wire_pieces t.pieces ++ (wire true t.opcode none t.last ++ wire_texts ts)

abbrev pub text_of : WireText → Text
text_of t = gathered t.pieces ++ t.last

module _ (host : Host) (keys : ℕ → Bytes) (random : (n : ℕ) → host.random_key n ≡ some (keys n))
    (accepting : (n : ℕ) → host.accepts n ≡ true) (error_text : WsError → Text)
    (decoders : Decoders) where
  -- The session ends where the connection does, and has handed on what the texts create.
  pub read_rounds-created :
      (ts : List WireText) (o : Bytes) (n : ℕ)
      → receive_loop decoders true (
          read_rounds host error_text
            (suc (length ts))
            (record { input = wire_texts ts; output = o; writes = n }))
        ≡ (some (ws_recv (error_text header_byte_0)), created decoders (map text_of ts))
  unfolding read_rounds receive_loop read_text read_loop read_frame
  read_rounds-created [] o n = refl
  read_rounds-created (t ∷ ts) o n =
      let o' = o ++ pongs keys n t.pieces in
      let n' = n + pings t.pieces in
      let next = read_rounds host error_text (suc (length ts)) in
      let read =
        read_text-gathers host keys random accepting t.pieces t.opcode t.last (wire_texts ts) o n
          t.last_part t.pieces_fit t.last_fits in
      ap (λ r. receive_loop decoders true (round_of error_text next r)) read
      ∙ ap (λ r. (r.0, handed_on decoders true (decoders.payload_of (text_of t)) ++ r.1))
          (read_rounds-created ts o' n')
      ∙ ap
          (λ ms.
            (some (ws_recv (error_text header_byte_0)), ms ++ created decoders (map text_of ts)))
          (handed_on-of_payload decoders (decoders.payload_of (text_of t)))

  -- From the connection to the replies: a server sends texts, each in any number of parts with
  -- pings and pongs between them. Each text that creates a message of a user which asks for one of
  -- the four commands gets one call of SendMessage, in the channel of that message, or its
  -- goroutine still waits, and no other text gets one; in whatever order the goroutines run. The
  -- random source and the transport do not fail, each payload has less than 2^63 bytes, and the
  -- four names are in lower case.
  pub serve-texts :
      {World : Type 0} (to_lower : Text → Text) (rest : Wire World) (client : Client)
      (registry : ModuleRegistry World) (order : List (ℕ × ℕ)) (ts : List WireText) (w : World)
      → KeepsNames to_lower
      → (test : Text → Bool)
      → let out =
          serve_all to_lower rest client registry order
            (receive_loop decoders true (
              read_rounds host error_text
                (suc (length ts))
                (record { input = wire_texts ts; output = []; writes = 0 }))).1
            ([], w) in
        number test (channels out.1) + number test (asking_channels to_lower out.0)
        ≡ number test (asking_channels to_lower (created decoders (map text_of ts)))
  serve-texts to_lower rest client registry order ts w keeps test =
      serve_all-channels to_lower keeps rest client registry test order _ w
      ∙ ap (λ r. number test (asking_channels to_lower r.1)) (read_rounds-created ts [] 0)
