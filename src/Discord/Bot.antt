-- ===== src/Discord/Bot.antt =====
-- gateway/discord/bot.go and adapter.go: the handlers of the commands, and the bot that they make
-- with the router, the client and the sessions. A goroutine is started for each message that a
-- session hands on; they run in any order, each as one step on the world, at a time.
pub mod Replies
pub mod Texts
use aethercore.Prelude.{
  ℕ, ◌+◌, true, Option, none, some, List, [], ◌∷◌, ◌++◌, ◌==◌, eq_list, eq_nat, if◌then◌else◌,
}
use aethercore.Prelude.Turns.{turns}
use aethercore.Prelude.Result.{Result, ok, err}
use aethercore.Prelude.Text.{Text, codes}
use aethercore.Sdk.Module.{ModuleManifest}
use aethercore.Sdk.Registry.{ModuleRegistry, manifests}
use aethercore.Discord.Session.{Message, Decoders, Script, connect}
use aethercore.Discord.Router.{Router, Call, new_router, register, handle, handle_run}
use aethercore.Discord.Client.{Client, ClientError, Wire, new_client, get_gateway_url, send_message}

abbrev line : Text → Text → Text
line s rest = s ++ (10 ∷ rest)

-- the loop of HandleHelp and HandleModules
unfoldable pub module_lines : List ModuleManifest → Text
module_lines [] = []
module_lines (mf ∷ mfs) =
    codes "• **"
    ++ (mf.name
        ++ (codes "** v"
            ++ (mf.version ++ (codes " — " ++ line mf.description (module_lines mfs)))))

unfoldable pub loaded_modules : List ModuleManifest → Text
unfolding module_lines
loaded_modules [] = []
loaded_modules (mf ∷ mfs) = 10 ∷ line (codes "**Loaded modules:**") (module_lines (mf ∷ mfs))

-- the text of HandleHelp
unfoldable pub help_text : List ModuleManifest → Text
unfolding loaded_modules
help_text mfs = line (codes "**AetherCore** — Minimal Agent Kernel") (
    10
    ∷ line (codes "**Commands:**") (
        line (codes "`!run <goal>` — dispatch a task to all loaded modules") (
          line (codes "`!modules` — list loaded modules")
            (line (codes "`!help` — show this message") (loaded_modules mfs)))))

-- the text of HandleModules
unfoldable pub modules_text : List ModuleManifest → Text
unfolding module_lines
modules_text [] = codes "No modules are currently loaded."
modules_text (mf ∷ mfs) = line (codes "**Loaded modules:**") (module_lines (mf ∷ mfs))

-- The handlers that Start registers.
pub data Handler : Type 0 where
  help run modules : Handler

pub data BotError : Type 0 where
  empty_token : BotError
  validation_failed : ClientError → BotError

-- DefaultCommandPrefix
abbrev pub default_command_prefix : Text
default_command_prefix = codes "!"

-- The replies that were handed to SendMessage, with their channels, and the world.
abbrev pub Sent : Type 0 → Type 0
Sent World = List (Text × Text) × World

-- the sessions of Run up to the one that ends with the context, with what they hand on
unfoldable pub session_messages : Decoders → List Script → List Message
session_messages decoders [] = []
session_messages decoders (script ∷ scripts) =
    let (failed, msgs) = connect decoders true script in
    let later = session_messages decoders scripts in
    elim failed [ none ↦ msgs | some e ↦ msgs ++ later ]

module _ (to_lower : Text → Text) where
  -- the commands that Start registers
  unfoldable pub bot_router : Router Handler
  unfolding register
  bot_router =
      let r0 = register to_lower (new_router default_command_prefix) (codes "start") help in
      let r1 = register to_lower r0 (codes "help") help in
      let r2 = register to_lower r1 (codes "run") run in
      register to_lower r2 (codes "modules") modules

  module _ {World : Type 0} (wire : Wire World) (client : Client)
      (registry : ModuleRegistry World) where
    -- reply: an error of SendMessage is logged only
    unfoldable pub reply : Text → Text → Sent World → Sent World
    reply channel_id text (sent, w) =
        (sent ++ (channel_id, text) ∷ [], (send_message wire client channel_id text w).1)

    -- HandleHelp, HandleRun and HandleModules
    unfoldable pub run_handler : Handler → Text → Text → ℕ → Sent World → Sent World
    unfolding reply help_text modules_text
    run_handler help channel_id args now s = reply channel_id (help_text (manifests registry)) s
    run_handler modules channel_id args now s =
        reply channel_id (modules_text (manifests registry)) s
    run_handler run channel_id args now (sent, w) =
        let (text, w') = handle_run registry channel_id now args w in
        reply channel_id text (sent, w')

    abbrev pub run_call : Call Handler → ℕ → Sent World → Sent World
    run_call none now s = s
    run_call (some (h, (channel_id, args))) now s = run_handler h channel_id args now s

    -- the handler of a message
    unfoldable pub serve : Message → ℕ → Sent World → Sent World
    unfolding run_handler bot_router
    serve msg now s = run_call (handle to_lower bot_router (some msg)) now s

    -- the goroutines of the messages, in the order in which they come to run: the place of each
    -- among those that wait, and its time
    unfoldable pub serve_all : List (ℕ × ℕ) → List Message → Sent World → List Message × Sent World
    unfolding serve
    serve_all order msgs s = turns serve order (msgs, s)

    abbrev pub after_url :
        List Message
        → List (ℕ × ℕ)
        → Result ClientError Text × World
        → Option BotError × (List Message × (List Message × Sent World))
    after_url msgs order (err e, w) = (some (validation_failed e), ([], ([], ([], w))))
    after_url msgs order (ok url, w) = (none, (msgs, serve_all order msgs ([], w)))

  -- Start, on what its sessions meet until the context is done and on the order of the goroutines;
  -- it also answers the messages that the sessions hand on, and those whose goroutines still wait
  unfoldable pub start :
      {World : Type 0}
      → Wire World
      → ModuleRegistry World
      → Decoders
      → Text
      → List Script
      → List (ℕ × ℕ)
      → World
      → Option BotError × (List Message × (List Message × Sent World))
  unfolding serve_all session_messages new_client get_gateway_url
  start wire registry decoders token scripts order w =
      if token == []
      then (some empty_token, ([], ([], ([], w))))
      else after_url wire (new_client token) registry (session_messages decoders scripts) order
          (get_gateway_url wire (new_client token) w)
