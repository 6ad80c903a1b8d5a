-- ===== src/Telegram/Bot/Service.antt =====
-- gateway/telegram: every command that is sent to the bot is answered once.
use aethercore.Prelude.{
  ◌≡◌, ap, ◌∙◌, inl, inr, ℕ, ◌+◌, arith, Bool, Bool-cases, List, [], ◌∷◌, ◌++◌, ◌==◌, eq_list,
  eq_nat,
}
use aethercore.Prelude.Int.{ℤ}
use aethercore.Prelude.Turns.{number, number-append, gather-append}
use aethercore.Prelude.Result.{Result, ok, err}
use aethercore.Prelude.Text.{Text}
use aethercore.Sdk.Registry.{ModuleRegistry}
use aethercore.Telegram.Poller.{Update, first_poll}
use aethercore.Telegram.Poller.Delivery.{
  Ascending, Delivers, pending, pending_zero, after_poll-Delivers,
}
use aethercore.Telegram.Client.{Client, ClientError, User, Wire, new_client, get_me, get_updates}
use aethercore.Telegram.Bot.{
  poll_timeout, Event, polled, runs, Running, bot_step, bot_steps, after_get_me, start,
}
use aethercore.Telegram.Bot.Replies.{KeepsNames, asking_chat, asking_chats, chats, start-Answered}

-- getUpdates as documented, in every state of the world: the first of the updates that the offset
-- leaves, in order, as many as the server likes.
abbrev pub Documented : {World : Type 0} → Wire World → Client → List Update → Type 0
Documented {World} wire client all =
    (offset : ℕ) (w : World) (updates : List Update)
    → (get_updates wire client offset poll_timeout w).0 ≡ ok updates
    → (later : List Update) × (pending offset all ≡ updates ++ later)

module _ {World : Type 0} (to_lower : Text → Text) (wire : Wire World) (client : Client)
    (registry : ModuleRegistry World) (all : List Update) (ascending : Ascending all)
    (documented : Documented wire client all) where
  bot_step-Delivers :
      (e : Event) (s : Running World)
      → Delivers all s.0
      → Delivers all (bot_step to_lower wire client registry e s).0
  unfolding bot_step
  bot_step-Delivers polled (p, (waiting, (sent, w))) d =
      after_poll-Delivers all p (get_updates wire client p.offset poll_timeout w).0 ascending
        (documented p.offset w) d
  bot_step-Delivers (runs i now) (p, s) d = d

  bot_steps-Delivers :
      (es : List Event) (s : Running World)
      → Delivers all s.0
      → Delivers all (bot_steps to_lower wire client registry es s).0
  unfolding bot_steps
  bot_steps-Delivers [] s d = d
  bot_steps-Delivers (e ∷ es) s d = bot_steps-Delivers es _ (bot_step-Delivers e s d)

  after_get_me-Delivers :
      (es : List Event) (me : Result ClientError User × World)
      → Delivers all (after_get_me to_lower wire client registry es me).1.0
  after_get_me-Delivers es (err e, w) = pending_zero all
  after_get_me-Delivers es (ok me, w) =
      bot_steps-Delivers es (first_poll, ([], ([], w))) (pending_zero all)

start-Delivers :
    {World : Type 0} (to_lower : Text → Text) (wire : Wire World) (registry : ModuleRegistry World)
    (token : Text) (es : List Event) (w : World) (all : List Update)
    → Ascending all
    → Documented wire (new_client token) all
    → Delivers all (start to_lower wire registry token es w).1.0
unfolding start
start-Delivers to_lower wire registry token es w all ascending documented =
    elim (Bool-cases (token == [])) [
      | inl bare ↦ rw (bare, start) (pending_zero all)
      | inr named ↦
          rw (named, start)
            (after_get_me-Delivers to_lower wire (new_client token) registry all ascending
              documented es (get_me wire (new_client token) w))
    ]

-- Every command that is sent to the bot is answered by one call of SendMessage: of the updates that
-- ask for a command in a set of chats, some are answered, one call each, some wait for their
-- goroutine to run, and the others are those that the offset leaves at the server. So it is in
-- whatever order the goroutines run, between whatever polls, and whatever fails, SendMessage
-- included. The server answers as documented, and the four names are in lower case.
pub start-serves :
    {World : Type 0} (to_lower : Text → Text) (wire : Wire World) (registry : ModuleRegistry World)
    (token : Text) (es : List Event) (w : World) (all : List Update)
    → KeepsNames to_lower
    → Ascending all
    → Documented wire (new_client token) all
    → (test : ℤ → Bool)
    → let out = (start to_lower wire registry token es w).1 in
      number test (chats out.1.1)
        + number test (asking_chats to_lower out.1.0)
        + number test (asking_chats to_lower (pending out.0.offset all))
      ≡ number test (asking_chats to_lower all)
start-serves to_lower wire registry token es w all keeps ascending documented test =
    let out = (start to_lower wire registry token es w).1 in
    let left = pending out.0.offset all in
    let parts : number test (asking_chats to_lower (out.0.handled ++ left))
        ≡ number test (asking_chats to_lower out.0.handled)
          + number test (asking_chats to_lower left) =
      ap (number test) (gather-append (λ u. asking_chat to_lower u.message) out.0.handled left)
      ∙ number-append test (asking_chats to_lower out.0.handled) (asking_chats to_lower left) in
    let delivered : number test (asking_chats to_lower (out.0.handled ++ left))
        ≡ number test (asking_chats to_lower all) =
      ap (λ us. number test (asking_chats to_lower us))
        (start-Delivers to_lower wire registry token es w all ascending documented) in
    omega (arith, start-Answered to_lower wire registry token es w keeps test, parts, delivered)
