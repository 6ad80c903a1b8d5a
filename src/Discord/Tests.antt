-- ===== src/Discord/Tests.antt =====
-- gateway/discord: frames of a greeting in two parts with a ping between them, and the bot at a
-- command that comes in parts.
use aethercore.Prelude.{Bool, ℕ, ◌+◌, ◌≡◌, refl, arith, true, none, some, List, [], ◌∷◌, ◌++◌, map}
use aethercore.Prelude.Bytes.{Bytes}
use aethercore.Prelude.Result.{ok, err}
use aethercore.Prelude.Int.{pos}
use aethercore.Prelude.Turns.{number}
use aethercore.Prelude.Text.{Text, codes, to_lower, trim_space, cut}
use aethercore.Sdk.Registry.{ModuleRegistry, new_module_registry}
use aethercore.Discord.Session.{Decoders, receive_loop, from_bot}
use aethercore.Discord.Session.Receive.{created}
use aethercore.Discord.Client.{Wire, new_client}
use aethercore.Discord.Bot.{serve_all}
use aethercore.Discord.Bot.Replies.{channels, asking_channels}
use aethercore.Discord.Bot.Texts.{WireText, read_rounds, wire_texts, text_of, serve-texts}
use aethercore.Discord.Frames.{
  Conn, Host, WsError, op_text, op_continuation, encode_frame, read_frame, read_text,
}
use aethercore.Discord.Frames.Messages.{
  ping, part, wire_pieces, gathered, pongs, pings, received, read_text-gathers,
}
use aethercore.Discord.Frames.RoundTrip.{wire, read_frame-encode_frame}

abbrev key_bytes : ℕ → Bytes
key_bytes n = 17 ∷ 34 ∷ 51 ∷ 68 ∷ []

abbrev steady : Host
steady = record { random_key = λ n. some (key_bytes n); accepts = λ n. true }

-- "hi", and a close frame behind it
read_frame-encode_frame_example :
    read_frame (encode_frame (key_bytes 0) op_text (104 ∷ 105 ∷ []) ++ (136 ∷ 0 ∷ []))
    ≡ ok (record { fin = true; opcode = op_text; body = 104 ∷ 105 ∷ [] }, 136 ∷ 0 ∷ [])
read_frame-encode_frame_example =
    read_frame-encode_frame (key_bytes 0) op_text (104 ∷ 105 ∷ []) (136 ∷ 0 ∷ []) (omega arith)
      (omega arith, (omega arith, (omega arith, (omega arith, tt)))) refl
      (omega arith, (omega arith, tt)) (omega arith)

read_text-gathers_example :
    read_text steady (record {
      input =
          wire_pieces (part op_text refl (104 ∷ []) ∷ ping (7 ∷ []) ∷ [])
          ++ (wire true op_continuation none (105 ∷ []) ++ (136 ∷ 0 ∷ []));
      output = [];
      writes = 2;
    })
    ≡ received
        (gathered (part op_text refl (104 ∷ []) ∷ ping (7 ∷ []) ∷ []) ++ (105 ∷ []))
        (136 ∷ 0 ∷ [])
        ([] ++ pongs key_bytes 2 (part op_text refl (104 ∷ []) ∷ ping (7 ∷ []) ∷ []))
        (2 + pings (part op_text refl (104 ∷ []) ∷ ping (7 ∷ []) ∷ []))
read_text-gathers_example =
    read_text-gathers steady key_bytes (λ n. refl) (λ n. refl)
      (part op_text refl (104 ∷ []) ∷ ping (7 ∷ []) ∷ []) op_continuation (105 ∷ []) (136 ∷ 0 ∷ [])
      [] 2 refl (((omega arith, tt), omega arith), (((omega arith, tt), omega arith), tt))
      ((omega arith, tt), omega arith)

-- A pong that the transport does not take, in front of the end of the connection.
abbrev cut_off : Conn
cut_off = record { input = 137 ∷ 0 ∷ 129 ∷ []; output = []; writes = 0 }

-- Every text is a message of a user.
abbrev talkative : Decoders
talkative = record {
  payload_of = λ t. ok (record { op = 0; data_ = t; type_ = codes "MESSAGE_CREATE" });
  ready_of = λ t. none;
  message_of = λ t. ok (record { channel_id = codes "c"; author_bot = none; content = t });
  interval_of = λ t. ok (pos 41250);
}

-- A server of the REST API that takes each reply.
abbrev patient : Wire ℕ
patient = record {
  api_error_of = λ raw. err (codes "no object");
  url_of = λ raw. ok (codes "wss://gateway");
  message_of = λ raw. err (codes "no message");
  of_content = λ content. ok content;
  new_request = λ url. none;
  round_trip = λ req w. (ok (record { status_code = 200; body = ok [] }), w + 1);
}

-- "!He" and "lp" with a ping between them, and "hi"
abbrev two_texts : List WireText
two_texts =
    record {
      pieces = part op_text refl (codes "!He") ∷ ping (7 ∷ []) ∷ [];
      opcode = op_continuation;
      last = codes "lp";
      last_part = refl;
      pieces_fit = (
        ((omega arith, (omega arith, (omega arith, tt))), omega arith),
        (((omega arith, tt), omega arith), tt),
      );
      last_fits = ((omega arith, (omega arith, tt)), omega arith);
    }
    ∷ record {
      pieces = [];
      opcode = op_text;
      last = codes "hi";
      last_part = refl;
      pieces_fit = tt;
      last_fits = ((omega arith, (omega arith, tt)), omega arith);
    }
    ∷ []

abbrev nothing_loaded : ModuleRegistry ℕ
nothing_loaded = new_module_registry

abbrev silent : WsError → Text
silent e = []

abbrev any_channel : Text → Bool
any_channel channel = true

serve-texts_example :
    let out =
      serve_all to_lower patient
        (new_client (codes "token"))
        nothing_loaded
        ((1, 5) ∷ (0, 6) ∷ [])
        (receive_loop talkative true (
          read_rounds steady silent 3
            (record { input = wire_texts two_texts; output = []; writes = 0 }))).1
        ([], 0) in
    number any_channel (channels out.1) + number any_channel (asking_channels to_lower out.0)
    ≡ number any_channel (asking_channels to_lower (created talkative (map text_of two_texts)))
unfolding to_lower
serve-texts_example =
    serve-texts steady key_bytes (λ n. refl) (λ n. refl) silent talkative to_lower patient
      (new_client (codes "token")) nothing_loaded ((1, 5) ∷ (0, 6) ∷ []) two_texts 0
      (refl, refl, refl, refl) any_channel

one_asks : asking_channels to_lower (created talkative (map text_of two_texts)) ≡ codes "c" ∷ []
unfolding to_lower trim_space cut from_bot
one_asks = refl
