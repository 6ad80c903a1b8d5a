-- ===== src/Telegram/Router.antt =====
-- gateway/telegram/router.go and adapter.go: commands and their handlers. The lower case of a text
-- is a parameter. Sending a reply may fail, which is logged only, so a reply is the text that the
-- adapter hands to the client.
use aethercore.Prelude.{
  ℕ, suc, Option, none, some, List, [], ◌∷◌, ◌++◌, GoMap, lookup, insert, drop, ◌==◌, eq_list,
  eq_nat, if◌then◌else◌,
}
use aethercore.Prelude.Int.{ℤ, pos, negsuc}
use aethercore.Prelude.Result.{ok, err}
use aethercore.Prelude.Text.{Text, codes, has_prefix, cut, trim_space, itoa}
use aethercore.Sdk.Module.{ModuleManifest, ModuleTask}
use aethercore.Sdk.Registry.{ModuleRegistry, get, manifests}
use aethercore.Telegram.Poller.{Update}

-- The handlers are of any type `H`; a nil fallback is `none`.
pub record Router (H : Type 0) : Type 0 where
  pub commands : GoMap Text H
  pub fallback : Option H

-- NewRouter
abbrev pub new_router : {H : Type 0} → Router H
new_router = record { commands = []; fallback = none }

-- SetFallback
unfoldable pub set_fallback : {H : Type 0} → Router H → H → Router H
set_fallback r h = record r { fallback = some h }

-- The handler that is called, with the chat and the text that it is given.
abbrev pub Call : Type 0 → Type 0
Call H = Option (H × (ℤ × Text))

unfoldable pub call_fallback : {H : Type 0} → Router H → ℤ → Text → Call H
call_fallback r chat_id text = elim r.fallback [ none ↦ none | some h ↦ some (h, (chat_id, text)) ]

module _ (to_lower : Text → Text) where
  -- Register
  unfoldable pub register : {H : Type 0} → Router H → Text → H → Router H
  register r command h = record r { commands = insert (to_lower command) h r.commands }

  -- parseCommand
  unfoldable pub parse_command : Text → Text × Text
  parse_command text =
      if has_prefix text (codes "/")
      then (let (name, args, spaced) = cut b' ' (drop 1 text) in
          let (command, bot, named) = cut b'@' name in (to_lower command, trim_space args))
      else ([], text)

  -- Handle behind the tests of the message
  unfoldable pub handle_text : {H : Type 0} → Router H → ℤ → Text → Call H
  unfolding call_fallback
  handle_text r chat_id text =
      let (cmd, args) = parse_command text in
      if cmd == [] then call_fallback r chat_id text else elim (lookup cmd r.commands) [
        | none ↦ call_fallback r chat_id text
        | some handler ↦ some (handler, (chat_id, args))
      ]

  -- Handle
  unfoldable pub handle : {H : Type 0} → Router H → Update → Call H
  handle r upd = elim upd.message [
    | none ↦ none
    | some msg ↦ if msg.text == [] then none else handle_text r msg.chat_id (trim_space msg.text)
  ]

-- strconv.FormatInt(n, 10)
unfoldable pub format_int : ℤ → Text
format_int (pos n) = itoa n
format_int (negsuc n) = b'-' ∷ itoa (suc n)

-- the task of HandleRun, at the time `now`
unfoldable pub run_task : ℤ → ℕ → Text → ModuleTask
run_task chat_id now goal = record {
  id = codes "tg-" ++ (format_int chat_id ++ (b'-' ∷ itoa now));
  input = goal;
  metadata = (codes "source", codes "telegram") ∷ (codes "chat_id", format_int chat_id) ∷ [];
}

abbrev blank_line : Text
blank_line = 10 ∷ 10 ∷ []

module _ {World : Type 0} where
  -- the loop of HandleRun over the manifests: what the modules answer
  unfoldable pub run_modules :
      ModuleRegistry World → ModuleTask → List ModuleManifest → World → Text × World
  run_modules r task [] w = ([], w)
  run_modules r task (mf ∷ mfs) w = elim (get r mf.name) [
    | err e ↦ run_modules r task mfs w
    | ok m ↦
        let (result, w1) = m.handle_task task w in
        let (rest, w2) = run_modules r task mfs w1 in
        (
          elim result [
            | err e ↦ codes "*" ++ (mf.name ++ (codes "* ❌ error: " ++ (e ++ (blank_line ++ rest))))
            | ok res ↦
                codes "*" ++ (mf.name ++ (codes "*" ++ (10 ∷ (res.output ++ (blank_line ++ rest)))))
          ],
          w2,
        )
  ]

  -- HandleRun, up to the reply
  unfoldable pub handle_run : ModuleRegistry World → ℤ → ℕ → Text → World → Text × World
  unfolding run_modules
  handle_run r chat_id now goal w =
      if trim_space goal == [] then (codes "Usage: `/run <your goal>`", w) else elim (manifests r) [
        | [] ↦ (codes "⚠" ++ (0xFE0F ∷ codes " No modules are currently loaded."), w)
        | mf ∷ mfs ↦
            let (text, w1) = run_modules r (run_task chat_id now goal) (mf ∷ mfs) w in
            (trim_space text, w1)
      ]
