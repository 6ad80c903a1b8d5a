-- ===== src/Telegram/Client.antt =====
-- gateway/telegram/client.go: the calls of the Bot API. JSON and the connection are parameters; a
-- request acts on a world and answers a body.
use aethercore.Prelude.{ℕ, Bool, Option, none, some, List, ◌∷◌, ◌++◌, if◌then◌else◌}
use aethercore.Prelude.Int.{ℤ}
use aethercore.Prelude.Result.{Result, ok, err, wrap_err, ◌>>=◌}
use aethercore.Prelude.Text.{Text, codes}
use aethercore.Telegram.Poller.{Message, Update}

-- User, the parts that the gateway reads.
pub record User : Type 0 where
  pub id : ℤ
  pub username : Text

-- apiResponse, its result not yet decoded
pub record Envelope : Type 0 where
  pub is_ok : Bool
  pub result : Text
  pub error_code : ℤ
  pub description : Text

pub record SendMessageRequest : Type 0 where
  pub chat_id : ℤ
  pub text : Text
  pub parse_mode : Text

pub record GetUpdatesRequest : Type 0 where
  pub offset : ℕ
  pub limit : ℕ
  pub timeout : ℕ

pub data ClientError : Type 0 where
  build_failed marshal_failed transport_failed decode_failed result_failed :
      Text → Text → ClientError
  api_error : ℤ → Text → ClientError

-- A GET request has no body.
pub record Request : Type 0 where
  pub url : Text
  pub body : Option Text

pub record Client : Type 0 where
  pub token : Text
  pub base_url : Text

-- What encoding/json and net/http do.
pub record Wire (World : Type 0) : Type 1 where
  pub envelope_of : Text → Result Text Envelope
  pub user_of : Text → Result Text User
  pub updates_of : Text → Result Text (List Update)
  pub message_of : Text → Result Text Message
  pub of_get_updates : GetUpdatesRequest → Result Text Text
  pub of_send_message : SendMessageRequest → Result Text Text
  pub new_request : Request → Option Text
  pub round_trip : Request → World → Result Text Text × World

-- NewClient
unfoldable pub new_client : Text → Client
new_client token = record {
  token = token;
  base_url = codes "https://api.telegram.org/bot" ++ token;
}

module _ {World : Type 0} (wire : Wire World) where
  -- do behind the answer of the server
  unfoldable pub decode_body :
      {A : Type 0} → Text → (Text → Result Text A) → Result Text Text → Result ClientError A
  decode_body name decode answer = do
    body ← wrap_err (transport_failed name) answer
    envelope ← wrap_err (decode_failed name) (wire.envelope_of body)
    if envelope.is_ok
        then wrap_err (result_failed name) (decode envelope.result)
        else err (api_error envelope.error_code envelope.description)

  -- do, of a request that was built
  unfoldable pub send_request :
      {A : Type 0} → Text → (Text → Result Text A) → Request → World → Result ClientError A × World
  unfolding decode_body
  send_request name decode req w = elim (wire.new_request req) [
    | some e ↦ (err (build_failed name e), w)
    | none ↦ let (answer, w') = wire.round_trip req w in (decode_body name decode answer, w')
  ]

  -- get
  unfoldable pub get_method :
      {A : Type 0} → Client → Text → (Text → Result Text A) → World → Result ClientError A × World
  unfolding send_request
  get_method c name decode w =
      send_request name decode (record { url = c.base_url ++ (b'/' ∷ name); body = none }) w

  -- post, on what Marshal answers
  unfoldable pub post_method :
      {A : Type 0}
      → Client
      → Text
      → Result Text Text
      → (Text → Result Text A)
      → World
      → Result ClientError A × World
  unfolding send_request
  post_method c name (err e) decode w = (err (marshal_failed name e), w)
  post_method c name (ok payload) decode w =
      send_request name decode (record { url = c.base_url ++ (b'/' ∷ name); body = some payload }) w

  -- GetMe
  unfoldable pub get_me : Client → World → Result ClientError User × World
  unfolding get_method
  get_me c w = get_method c (codes "getMe") wire.user_of w

  -- GetUpdates
  unfoldable pub get_updates : Client → ℕ → ℕ → World → Result ClientError (List Update) × World
  unfolding post_method
  get_updates c offset poll_timeout w =
      post_method c (codes "getUpdates")
        (wire.of_get_updates (record { offset = offset; limit = 100; timeout = poll_timeout }))
        wire.updates_of w

  -- SendMessage
  unfoldable pub send_message : Client → ℤ → Text → World → Result ClientError Message × World
  unfolding post_method
  send_message c chat_id text w =
      post_method c (codes "sendMessage")
        (wire.of_send_message
          (record { chat_id = chat_id; text = text; parse_mode = codes "Markdown" }))
        wire.message_of w
