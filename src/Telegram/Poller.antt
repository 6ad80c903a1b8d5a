-- ===== src/Telegram/Poller.antt =====
-- gateway/telegram/poller.go: the loop over getUpdates. What the server answers to an offset is a
-- parameter; the context is done where the list of answers ends. Durations are in seconds.
pub mod Delivery
use aethercore.Prelude.{
  ℕ, suc, ◌+◌, ◌*◌, Bool, true, false, Option, List, [], ◌∷◌, ◌++◌, ltb, if◌then◌else◌,
}
use aethercore.Prelude.Int.{ℤ}
use aethercore.Prelude.Result.{Result, ok, err}
use aethercore.Prelude.Text.{Text}

-- The parts of a Message that the gateway reads.
pub record Message : Type 0 where
  pub chat_id : ℤ
  pub text : Text

-- The identifiers of updates are positive, as the API documents.
pub record Update : Type 0 where
  pub update_id : ℕ
  pub message : Option Message

-- backoffBase and backoffMax
abbrev pub backoff_base : ℕ
backoff_base = 2

abbrev pub backoff_max : ℕ
backoff_max = 60

-- The variables of Run, the updates it has handed to the handler, and the waits behind errors.
pub record Poll : Type 0 where
  pub offset : ℕ
  pub backoff : ℕ
  pub handled : List Update
  pub waits : List ℕ

abbrev pub first_poll : Poll
first_poll = record { offset = 0; backoff = backoff_base; handled = []; waits = [] }

-- minDuration
unfoldable pub min_duration : ℕ → ℕ → ℕ
min_duration a b = if ltb a b then a else b

-- the loop over the updates, on the offset
unfoldable pub offset_after : ℕ → List Update → ℕ
offset_after offset [] = offset
offset_after offset (upd ∷ updates) = offset_after (upd.update_id + 1) updates

-- Run behind an answer of GetUpdates
unfoldable pub after_poll : {E : Type 0} → Poll → Result E (List Update) → Poll
after_poll p (err e) = record p {
  backoff = min_duration (p.backoff * 2) backoff_max;
  waits = p.waits ++ p.backoff ∷ [];
}
after_poll p (ok updates) = record p {
  offset = offset_after p.offset updates;
  backoff = backoff_base;
  handled = p.handled ++ updates;
}

-- What the server answers to an offset.
abbrev pub Server : Type 0
Server = ℕ → Result Text (List Update)

-- the loop of Run
unfoldable pub poll_all : Poll → List Server → Poll
poll_all p [] = p
poll_all p (server ∷ servers) = poll_all (after_poll p (server p.offset)) servers

-- Run
unfoldable pub run : List Server → Poll
run servers = poll_all first_poll servers
