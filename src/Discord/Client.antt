-- ===== src/Discord/Client.antt =====
-- gateway/discord/client.go: the calls of the REST API. JSON and the connection are parameters; a
-- request acts on a world.
use aethercore.Prelude.{
  ℕ, not, Option, none, some, [], ◌++◌, leb, ◌==◌, eq_list, eq_nat, if◌then◌else◌,
}
use aethercore.Prelude.Int.{ℤ}
use aethercore.Prelude.Result.{Result, ok, err, wrap_err, ◌>>=◌}
use aethercore.Prelude.Text.{Text, codes}
use aethercore.Discord.Session.{Message}

pub record ApiError : Type 0 where
  pub code : ℤ
  pub message : Text

pub data ClientError : Type 0 where
  build_failed marshal_failed transport_failed read_failed result_failed : Text → Text → ClientError
  api_error : ApiError → ClientError
  http_status : Text → ℕ → ClientError

-- The answer of the server: its status, and its body where that can be read.
pub record Response : Type 0 where
  pub status_code : ℕ
  pub body : Result Text Text

-- A request with its two headers of its own; a GET request has no body.
pub record Request : Type 0 where
  pub url : Text
  pub body : Option Text
  pub authorization : Text
  pub user_agent : Text

pub record Client : Type 0 where
  pub token : Text
  pub base_url : Text

-- What encoding/json and net/http do.
pub record Wire (World : Type 0) : Type 1 where
  pub api_error_of : Text → Result Text ApiError
  pub url_of : Text → Result Text Text
  pub message_of : Text → Result Text Message
  pub of_content : Text → Result Text Text
  pub new_request : Text → Option Text
  pub round_trip : Request → World → Result Text Response × World

-- NewClient
unfoldable pub new_client : Text → Client
new_client token = record { token = token; base_url = codes "https://discord.com/api/v10" }

module _ {World : Type 0} (wire : Wire World) where
  -- the error for a status of 400 and above
  unfoldable pub status_error : Text → ℕ → Text → ClientError
  status_error path status raw = elim (wire.api_error_of raw) [
    | err e ↦ http_status path status
    | ok e ↦ if not (e.message == []) then api_error e else http_status path status
  ]

  -- do behind the answer of the server
  unfoldable pub decode_response :
      {A : Type 0} → Text → (Text → Result Text A) → Result Text Response → Result ClientError A
  unfolding status_error
  decode_response path decode answer = do
    resp ← wrap_err (transport_failed path) answer
    raw ← wrap_err (read_failed path) resp.body
    if leb 400 resp.status_code
        then err (status_error path resp.status_code raw)
        else wrap_err (result_failed path) (decode raw)

  -- get, post and do, on the body of the request
  unfoldable pub send_request :
      {A : Type 0}
      → Client
      → Text
      → Option Text
      → (Text → Result Text A)
      → World
      → Result ClientError A × World
  unfolding decode_response
  send_request c path body decode w = elim (wire.new_request (c.base_url ++ path)) [
    | some e ↦ (err (build_failed path e), w)
    | none ↦
        let (answer, w') =
          wire.round_trip
            (record {
              url = c.base_url ++ path;
              body = body;
              authorization = codes "Bot " ++ c.token;
              user_agent = codes "AetherCore (https://github.com/fzihak/aethercore, v0.1.0)";
            })
            w in
        (decode_response path decode answer, w')
  ]

  -- post, on what Marshal answers
  unfoldable pub post_path :
      {A : Type 0}
      → Client
      → Text
      → Result Text Text
      → (Text → Result Text A)
      → World
      → Result ClientError A × World
  unfolding send_request
  post_path c path (err e) decode w = (err (marshal_failed path e), w)
  post_path c path (ok payload) decode w = send_request c path (some payload) decode w

  -- GetGatewayURL
  unfoldable pub get_gateway_url : Client → World → Result ClientError Text × World
  unfolding send_request
  get_gateway_url c w = send_request c (codes "/gateway/bot") none wire.url_of w

  -- SendMessage
  unfoldable pub send_message : Client → Text → Text → World → Result ClientError Message × World
  unfolding post_path
  send_message c channel_id text w =
      post_path c (codes "/channels/" ++ (channel_id ++ codes "/messages")) (wire.of_content text)
        wire.message_of w
