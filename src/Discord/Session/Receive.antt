-- ===== src/Discord/Session/Receive.antt =====
-- gateway/discord/gateway.go: which messages reach the handler, and the waits between sessions.
use aethercore.Prelude.{
  ℕ, zero, suc, ◌*◌, ◌≡◌, refl, ap, ◌∙◌, inl, inr, arith, true, false, Bool-cases, Option, none,
  some, List, [], ◌∷◌, ◌++◌, map, min, nat_eq, ◌==◌, eq_list, eq_nat, list_eq_iff, ◌⊎◌,
  if◌then◌else◌, length,
}
use aethercore.Prelude.Result.{Result, ok, err}
use aethercore.Prelude.Text.{Text, codes}
use aethercore.Discord.Session.{
  Message, GatewayPayload, SessionError, Decoders, Round, from_bot, handle_message, handle_ready,
  handle_dispatch, handle_payload, handed_on, receive_loop, opcode_dispatch, next_backoff, run_from,
  run, ws_recv,
}

-- The message that a text creates: an event MESSAGE_CREATE whose author is not a bot.
abbrev pub of_author : Result Text Message → List Message
of_author (err e) = []
of_author (ok msg) = if from_bot msg then [] else msg ∷ []

abbrev pub of_payload : Decoders → Result Text GatewayPayload → List Message
of_payload decoders (err e) = []
of_payload decoders (ok p) =
    if nat_eq p.op 0
    then (if p.type_ == codes "MESSAGE_CREATE" then of_author (decoders.message_of p.data_) else [])
    else []

abbrev pub created : Decoders → List Text → List Message
created decoders [] = []
created decoders (t ∷ ts) = of_payload decoders (decoders.payload_of t) ++ created decoders ts

-- The texts of a session that is not cancelled.
abbrev pub texts : List Text → List Round
texts ts = map (λ t. record { done = false; text = ok t; cancelled_late = false }) ts

handle_message-of_author :
    (decoders : Decoders) (r : Result Text Message)
    → (handle_message decoders true r).1 ≡ of_author r
unfolding handle_message
handle_message-of_author decoders (err e) = refl
handle_message-of_author decoders (ok msg) = ground arith

handle_ready-nil : (decoders : Decoders) (r : Option Text) → (handle_ready decoders true r).1 ≡ []
unfolding handle_ready
handle_ready-nil decoders none = refl
handle_ready-nil decoders (some e) = refl

ready_other : (t : Text) → (t == codes "READY") ≡ true → (t == codes "MESSAGE_CREATE") ≡ false
ready_other t h = rw ((list_eq_iff t (codes "READY")).0 h) refl

dispatched :
    (decoders : Decoders) (p : GatewayPayload)
    → (handle_dispatch decoders true p).1
      ≡ (if p.type_ == codes "MESSAGE_CREATE" then of_author (decoders.message_of p.data_) else [])
unfolding handle_dispatch
dispatched decoders p = elim (Bool-cases (p.type_ == codes "READY")) [
  | inl ready ↦
      rw (ready, ready_other p.type_ ready, handle_dispatch)
        (handle_ready-nil decoders (decoders.ready_of p.data_))
  | inr other ↦ elim (Bool-cases (p.type_ == codes "MESSAGE_CREATE")) [
    | inl message ↦
        rw (other, message, handle_dispatch)
          (handle_message-of_author decoders (decoders.message_of p.data_))
    | inr more ↦ rw (other, more, handle_dispatch) refl
  ]
]

of_event :
    (decoders : Decoders) (p : GatewayPayload)
    → (handle_payload decoders true p).1 ≡ of_payload decoders (ok p)
unfolding handle_payload
of_event decoders p = elim (Bool-cases (nat_eq p.op opcode_dispatch)) [
  | inl event ↦ rw (event, handle_payload) (dispatched decoders p)
  | inr other ↦ rw (other, handle_payload) (ground arith)
]

pub handed_on-of_payload :
    (decoders : Decoders) (r : Result Text GatewayPayload)
    → handed_on decoders true r ≡ of_payload decoders r
unfolding handed_on
handed_on-of_payload decoders (err e) = refl
handed_on-of_payload decoders (ok p) = of_event decoders p

-- A session hands to the handler the messages that the texts of the connection create, in order
-- and each once, until the connection ends: no text that cannot be decoded and no request to
-- reconnect ends it before.
pub receive_loop-created :
    (decoders : Decoders) (ts : List Text)
    → receive_loop decoders true (texts ts) ≡ (some (ws_recv (codes "EOF")), created decoders ts)
unfolding receive_loop
receive_loop-created decoders [] = refl
receive_loop-created decoders (t ∷ ts) =
    cc (receive_loop-created decoders ts, handed_on-of_payload decoders (decoders.payload_of t))

-- The waits, from a first one on.
abbrev pub doubled : ℕ → ℕ → List ℕ
doubled zero wait = []
doubled (suc n) wait = wait ∷ doubled n (min (wait * 2) 64)

abbrev Reached : ℕ → Type 0
Reached w = (w ≡ 2) ⊎ (w ≡ 4) ⊎ (w ≡ 8) ⊎ (w ≡ 16) ⊎ (w ≡ 32) ⊎ (w ≡ 64)

next_backoff-Reached :
    (w : ℕ) → Reached w → Reached (min (w * 2) 64) × (next_backoff w ≡ min (w * 2) 64)
unfolding next_backoff
next_backoff-Reached w h = (ground arith, ground arith)

run_from-doubled :
    (w : ℕ) (errors : List SessionError)
    → Reached w
    → run_from w (map (λ e. some e) errors) ≡ doubled (length errors) w
unfolding run_from
run_from-doubled w [] h = refl
run_from-doubled w (e ∷ errors) h =
    let (r, next) = next_backoff-Reached w h in
    ap (λ ws. w ∷ ws)
      (ap (λ b. run_from b (map (λ x. some x) errors)) next
        ∙ run_from-doubled (min (w * 2) 64) errors r)

-- Where every session fails, the waits double from 2 seconds up to 64, and stay at 64 however long
-- a session between them has lasted.
pub run-doubled :
    (errors : List SessionError) → run (map (λ e. some e) errors) ≡ doubled (length errors) 2
unfolding run
run-doubled errors = run_from-doubled 2 errors (inl refl)
