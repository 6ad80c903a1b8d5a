-- ===== src/Telegram/Bot.antt =====
-- gateway/telegram/bot.go and adapter.go: the handlers of the commands, and the bot that they make
-- with the router, the client and the poller. The poller starts a goroutine for each update: the
-- updates wait, and run in any order and between any polls, each as one step on the world, at a
-- time.
pub mod Replies
pub mod Service
use aethercore.Prelude.{
  ℕ, ◌+◌, Option, none, some, List, [], ◌∷◌, ◌++◌, ◌==◌, eq_list, eq_nat, if◌then◌else◌,
}
use aethercore.Prelude.Turns.{turn}
use aethercore.Prelude.Int.{ℤ}
use aethercore.Prelude.Result.{Result, ok, err}
use aethercore.Prelude.Text.{Text, codes, trim_space}
use aethercore.Sdk.Module.{ModuleManifest}
use aethercore.Sdk.Registry.{ModuleRegistry, manifests}
use aethercore.Telegram.Poller.{Update, Poll, first_poll, after_poll}
use aethercore.Telegram.Router.{Router, Call, new_router, register, handle, handle_run}
use aethercore.Telegram.Client.{
  Client, ClientError, Wire, User, new_client, get_me, get_updates, send_message,
}

abbrev line : Text → Text → Text
line s rest = s ++ (10 ∷ rest)

-- the loop of HandleHelp
unfoldable pub help_lines : List ModuleManifest → Text
help_lines [] = []
help_lines (mf ∷ mfs) =
    codes "• *"
    ++ (mf.name
        ++ (codes "* v" ++ (mf.version ++ (codes " — " ++ line mf.description (help_lines mfs)))))

unfoldable pub loaded_modules : List ModuleManifest → Text
unfolding help_lines
loaded_modules [] = []
loaded_modules (mf ∷ mfs) = 10 ∷ line (codes "*Loaded modules:*") (help_lines (mf ∷ mfs))

-- the text of HandleHelp
unfoldable pub help_text : List ModuleManifest → Text
unfolding loaded_modules
help_text mfs = line (codes "*AetherCore* — Minimal Agent Kernel") (
    10
    ∷ line (codes "*Commands:*") (
        line (codes "`/run <goal>` — dispatch a task to all loaded modules") (
          line (codes "`/modules` — list loaded modules")
            (line (codes "`/help` — show this message") (loaded_modules mfs)))))

-- the loop of HandleModules
unfoldable pub module_lines : List ModuleManifest → Text
module_lines [] = []
module_lines (mf ∷ mfs) =
    codes "*"
    ++ (mf.name
        ++ (codes "* v"
            ++ line mf.version (
                b'_'
                ∷ (mf.description
                    ++ line (codes "_")
                        (codes "Author: " ++ line mf.author (10 ∷ module_lines mfs))))))

-- the text of HandleModules
unfoldable pub modules_text : List ModuleManifest → Text
unfolding module_lines
modules_text [] = codes "No modules loaded."
modules_text (mf ∷ mfs) =
    trim_space (line (codes "*Loaded modules:*") (10 ∷ module_lines (mf ∷ mfs)))

-- The handlers that Start registers.
pub data Handler : Type 0 where
  help run modules : Handler

pub data BotError : Type 0 where
  empty_token : BotError
  validation_failed : ClientError → BotError

-- pollTimeout
abbrev pub poll_timeout : ℕ
poll_timeout = 30

-- The calls of SendMessage, of which any may fail, their chats and texts, and the world.
abbrev pub Sent : Type 0 → Type 0
Sent World = List (ℤ × Text) × World

-- A poll, or the goroutine at this place, that runs at a time.
pub data Event : Type 0 where
  polled : Event
  runs : ℕ → ℕ → Event

-- The poller, the updates whose goroutines wait, and what the others have sent.
abbrev pub Running : Type 0 → Type 0
Running World = Poll × (List Update × Sent World)

module _ (to_lower : Text → Text) where
  -- the commands that Start registers
  unfoldable pub bot_router : Router Handler
  unfolding register
  bot_router =
      let r0 = register to_lower new_router (codes "start") help in
      let r1 = register to_lower r0 (codes "help") help in
      let r2 = register to_lower r1 (codes "run") run in
      register to_lower r2 (codes "modules") modules

  module _ {World : Type 0} (wire : Wire World) (client : Client)
      (registry : ModuleRegistry World) where
    -- reply: an error of SendMessage is logged only
    unfoldable pub reply : ℤ → Text → Sent World → Sent World
    reply chat_id text (sent, w) =
        (sent ++ (chat_id, text) ∷ [], (send_message wire client chat_id text w).1)

    -- HandleHelp, HandleRun and HandleModules
    unfoldable pub run_handler : Handler → ℤ → Text → ℕ → Sent World → Sent World
    unfolding reply help_text modules_text
    run_handler help chat_id args now s = reply chat_id (help_text (manifests registry)) s
    run_handler modules chat_id args now s = reply chat_id (modules_text (manifests registry)) s
    run_handler run chat_id args now (sent, w) =
        let (text, w') = handle_run registry chat_id now args w in reply chat_id text (sent, w')

    abbrev pub run_call : Call Handler → ℕ → Sent World → Sent World
    run_call none now s = s
    run_call (some (h, (chat_id, args))) now s = run_handler h chat_id args now s

    -- the handler of an update
    unfoldable pub serve : Update → ℕ → Sent World → Sent World
    unfolding run_handler bot_router
    serve upd now s = run_call (handle to_lower bot_router upd) now s

    abbrev pub answered : Result ClientError (List Update) → List Update
    answered (err e) = []
    answered (ok updates) = updates

    -- one round of the loop of Run over GetUpdates, or a goroutine that runs
    unfoldable pub bot_step : Event → Running World → Running World
    unfolding serve after_poll
    bot_step polled (p, (waiting, (sent, w))) =
        let (answer, w') = get_updates wire client p.offset poll_timeout w in
        (after_poll p answer, (waiting ++ answered answer, (sent, w')))
    bot_step (runs i now) (p, s) = (p, turn serve i now s)

    unfoldable pub bot_steps : List Event → Running World → Running World
    unfolding bot_step
    bot_steps [] s = s
    bot_steps (e ∷ es) s = bot_steps es (bot_step e s)

    -- Start behind GetMe
    abbrev pub after_get_me :
        List Event → Result ClientError User × World → Option BotError × Running World
    after_get_me es (err e, w) = (some (validation_failed e), (first_poll, ([], ([], w))))
    after_get_me es (ok me, w) = (none, bot_steps es (first_poll, ([], ([], w))))

  -- Start, on what happens until the context is done
  unfoldable pub start :
      {World : Type 0}
      → Wire World
      → ModuleRegistry World
      → Text
      → List Event
      → World
      → Option BotError × Running World
  unfolding bot_steps new_client get_me
  start wire registry token es w =
      if token == []
      then (some empty_token, (first_poll, ([], ([], w))))
      else after_get_me wire (new_client token) registry es (get_me wire (new_client token) w)
