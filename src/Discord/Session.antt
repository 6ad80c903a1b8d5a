-- ===== src/Discord/Session.antt =====
-- gateway/discord/gateway.go: the session over a connection. What the connection gives, what the
-- JSON decoders make of it and when the context is done are parameters.
pub mod Receive
use aethercore.Prelude.{
  ℕ, suc, ◌+◌, ◌*◌, Bool, true, false, not, ◌&&◌, Option, none, some, List, [], ◌∷◌, ◌++◌, ltb,
  nat_eq, ◌==◌, eq_list, eq_nat, if◌then◌else◌,
}
use aethercore.Prelude.Int.{ℤ, pos}
use aethercore.Prelude.Result.{Result, ok, err}
use aethercore.Prelude.Text.{Text, codes}

-- The opcodes of the gateway that it tests.
abbrev pub opcode_dispatch : ℕ
opcode_dispatch = 0

abbrev pub opcode_reconnect : ℕ
opcode_reconnect = 7

abbrev pub opcode_invalid_session : ℕ
opcode_invalid_session = 9

abbrev pub opcode_hello : ℕ
opcode_hello = 10

abbrev pub opcode_heartbeat_ack : ℕ
opcode_heartbeat_ack = 11

-- The part of a Message that the gateway and the router read; `author_bot` is none where the author
-- is nil.
pub record Message : Type 0 where
  pub channel_id : Text
  pub author_bot : Option Bool
  pub content : Text

-- The envelope, with its type and its data, which the decoders read.
pub record GatewayPayload : Type 0 where
  pub op : ℕ
  pub data_ : Text
  pub type_ : Text

pub data SessionError : Type 0 where
  dial_failed hello_recv hello_envelope hello_data identify_failed ws_recv : Text → SessionError
  expected_hello : ℕ → SessionError
  cancelled : SessionError

-- What handlePayload only reports to the log.
pub data PayloadError : Type 0 where
  decode_ready decode_message : Text → PayloadError
  reconnect_requested invalid_session : PayloadError

-- The decoders of encoding/json.
pub record Decoders : Type 0 where
  pub payload_of : Text → Result Text GatewayPayload
  pub ready_of : Text → Option Text
  pub message_of : Text → Result Text Message
  pub interval_of : Text → Result Text ℤ

-- Whether the author of a message is a bot.
unfoldable pub from_bot : Message → Bool
from_bot msg = elim msg.author_bot [ none ↦ false | some bot ↦ bot ]

-- What ReadText gives in one round of the loop, with whether the context is done at its start, and
-- whether it is done where the read fails.
pub record Round : Type 0 where
  pub done : Bool
  pub text : Result Text Text
  pub cancelled_late : Bool

-- What one session meets, in the order of connect.
pub record Script : Type 0 where
  pub dial : Option Text
  pub hello : Result Text Text
  pub identify : Option Text
  pub rounds : List Round

pub recv_error : Bool → Text → SessionError
recv_error late e = if late then cancelled else ws_recv e

module _ (decoders : Decoders) (has_handler : Bool) where
  -- the message of a MESSAGE_CREATE, which goes to the handler unless a bot has sent it
  unfoldable pub handle_message : Result Text Message → Option PayloadError × List Message
  handle_message (err e) = (some (decode_message e), [])
  handle_message (ok msg) =
      if from_bot msg then (none, []) else if has_handler then (none, msg ∷ []) else (none, [])

  unfoldable pub handle_ready : Option Text → Option PayloadError × List Message
  handle_ready (some e) = (some (decode_ready e), [])
  handle_ready none = (none, [])

  -- handleDispatch
  unfoldable pub handle_dispatch : GatewayPayload → Option PayloadError × List Message
  unfolding handle_message handle_ready
  handle_dispatch p =
      if p.type_ == codes "READY"
      then handle_ready (decoders.ready_of p.data_)
      else if p.type_ == codes "MESSAGE_CREATE"
      then handle_message (decoders.message_of p.data_)
      else (none, [])

  -- handlePayload
  unfoldable pub handle_payload : GatewayPayload → Option PayloadError × List Message
  unfolding handle_dispatch
  handle_payload p =
      if nat_eq p.op opcode_dispatch
      then handle_dispatch p
      else if nat_eq p.op opcode_heartbeat_ack
      then (none, [])
      else if nat_eq p.op opcode_reconnect
      then (some reconnect_requested, [])
      else if nat_eq p.op opcode_invalid_session
      then (some invalid_session, [])
      else (none, [])

  -- receiveLoop behind a text: an error of handlePayload is only reported
  unfoldable pub handed_on : Result Text GatewayPayload → List Message
  unfolding handle_payload
  handed_on (err e) = []
  handed_on (ok p) = (handle_payload p).1

  -- receiveLoop: what it returns, with the messages that go to the handler. Behind the last round
  -- the connection ends.
  unfoldable pub receive_loop : List Round → Option SessionError × List Message
  unfolding recv_error handed_on
  receive_loop [] = (some (ws_recv (codes "EOF")), [])
  receive_loop (r ∷ rs) =
      let rest = receive_loop rs in
      if r.done then (none, []) else elim r.text [
        | err e ↦ (some (recv_error r.cancelled_late e), [])
        | ok text ↦ (rest.0, handed_on (decoders.payload_of text) ++ rest.1)
      ]

  -- connect from the decoded Hello on
  unfoldable pub after_hello : Script → GatewayPayload → Option SessionError × List Message
  unfolding receive_loop
  after_hello s envelope =
      if not (nat_eq envelope.op opcode_hello)
      then (some (expected_hello envelope.op), [])
      else elim (decoders.interval_of envelope.data_) [
        | err e ↦ (some (hello_data e), [])
        | ok interval ↦ elim s.identify [
          | some e ↦ (some (identify_failed e), [])
          | none ↦ receive_loop s.rounds
        ]
      ]

  -- connect; the heartbeat runs beside the loop and hands on nothing
  unfoldable pub connect : Script → Option SessionError × List Message
  unfolding after_hello
  connect s = elim s.dial [
    | some e ↦ (some (dial_failed e), [])
    | none ↦ elim s.hello [
      | err e ↦ (some (hello_recv e), [])
      | ok text ↦ elim (decoders.payload_of text) [
        | err e ↦ (some (hello_envelope e), [])
        | ok envelope ↦ after_hello s envelope
      ]
    ]
  ]

-- `if backoff < backoffMax { backoff *= 2 }`, in seconds
unfoldable pub next_backoff : ℕ → ℕ
next_backoff backoff = if ltb backoff 60 then backoff * 2 else backoff

-- The loop of Run over what connect returns, where the context is not done: the waits. It ends
-- where connect returns nil, or where the list of sessions does.
unfoldable pub run_from : ℕ → List (Option SessionError) → List ℕ
run_from backoff [] = []
run_from backoff (none ∷ results) = []
run_from backoff (some e ∷ results) = backoff ∷ run_from (next_backoff backoff) results

-- Run
unfoldable pub run : List (Option SessionError) → List ℕ
run results = run_from 2 results
