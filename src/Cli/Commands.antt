-- ===== src/Cli/Commands.antt =====
-- cmd/aether/main.go, audit_cmd.go, scaffold.go and gateway.go: which command runs, and with what.
use aethercore.Prelude.{Option, none, some, List, [], ◌∷◌, ◌==◌, eq_list, eq_nat, if◌then◌else◌, ℕ}
use aethercore.Prelude.Result.{Result, ok, err}
use aethercore.Prelude.Text.{Text, codes}
use aethercore.Sdk.Registry.{ModuleRegistry, new_module_registry}
use aethercore.Sdk.Scaffold.Config.{Unicode, Config, ScaffoldError}
use aethercore.Sdk.Scaffold.Generate.{Disk, Os, Templating, generate}

-- How a command ends: it returns, or os.Exit ends the process. log.Fatalf exits with 1.
pub data Exit : Type 0 where
  returned : Exit
  exited : ℕ → Exit

pub data LogLevel : Type 0 where
  debug info warn error : LogLevel

-- parseLogLevel
unfoldable pub parse_log_level : (Text → Text) → Text → LogLevel
parse_log_level to_lower s =
    let word = to_lower s in
    if word == codes "debug"
    then debug
    else if word == codes "warn"
    then warn
    else if word == codes "error"
    then error
    else info

-- The handler that dispatch calls.
pub data Command : Type 0 where
  auth_cmd : Text → Command
  delete_cmd list_tools_cmd unknown_command : Command
  print_usage : Text → Command
  handle_run_cmd handle_scaffold_cmd handle_telegram_cmd handle_discord_cmd handle_audit_cmd :
      List Text → Command

-- the second word of `account` and `tool`
unfoldable pub with_word : Text → Command → Command → List Text → Command
with_word word found usage [] = usage
with_word word found usage (arg ∷ args) = if arg == word then found else usage

-- dispatch
unfoldable pub dispatch : Text → List Text → Command
unfolding with_word
dispatch name args =
    if name == codes "onboard"
    then auth_cmd (codes "signup")
    else if name == codes "login"
    then auth_cmd (codes "login")
    else if name == codes "account"
    then with_word (codes "delete") delete_cmd (print_usage (codes "aether account delete")) args
    else if name == codes "tool"
    then with_word (codes "list") list_tools_cmd (print_usage (codes "aether tool list")) args
    else if name == codes "run"
    then handle_run_cmd args
    else if name == codes "scaffold"
    then handle_scaffold_cmd args
    else if name == codes "telegram"
    then handle_telegram_cmd args
    else if name == codes "discord"
    then handle_discord_cmd args
    else if name == codes "audit"
    then handle_audit_cmd args
    else unknown_command

-- What handleAuditCmd prints: the two constants are in the code.
pub data AuditOutput : Type 0 where
  usage_audit verified_success empty_list : AuditOutput
  unknown_audit : Text → AuditOutput

-- handleAuditCmd
unfoldable pub run_audit_cmd : List Text → AuditOutput × Exit
run_audit_cmd [] = (usage_audit, exited 1)
run_audit_cmd (word ∷ args) =
    if word == codes "verify"
    then (verified_success, returned)
    else if word == codes "export"
    then (empty_list, returned)
    else (unknown_audit word, returned)

-- The flags of `aether run` that are used.
pub record RunFlags : Type 0 where
  pub goal : Text
  pub tool : Text
  pub args : Text

pub data RunChoice : Type 0 where
  exit_1 : RunChoice
  native : Text → Text → RunChoice
  pico : Text → RunChoice

-- handleRunCmd, on what Parse answers
unfoldable pub choose_run : Result Text RunFlags → RunChoice
choose_run (err e) = exit_1
choose_run (ok f) =
    if f.tool == [] then (if f.goal == [] then exit_1 else pico f.goal) else native f.tool f.args

-- the exit of a Generate
unfoldable pub exit_of : Option ScaffoldError → Exit
exit_of none = returned
exit_of (some e) = exited 1

-- handleScaffoldCmd, on the flags that Parse answers
unfoldable pub run_scaffold_cmd :
    Unicode → Os → Templating → Result Text Config → Disk → Exit × Disk
unfolding exit_of
run_scaffold_cmd unicode os templating (err e) disk = (exited 1, disk)
run_scaffold_cmd unicode os templating (ok flags) disk =
    if flags.module_name == []
    then (exited 1, disk)
    else let out = if flags.output_dir == [] then flags.module_name else flags.output_dir in
      let (failed, disk') =
        generate unicode os templating (record flags { output_dir = out }) disk in
      (exit_of failed, disk')

unfoldable pub exit_of_bot : {E : Type 0} → Option E → Exit
exit_of_bot none = returned
exit_of_bot (some e) = exited 1

-- handleGatewayCmd: the token of the flag, or else that of the environment; `start` runs the bot
-- over a registry
unfoldable pub run_gateway_cmd :
    {World E A : Type 0}
    → (ModuleRegistry World → Text → World → Option E × A)
    → Result Text Text
    → Text
    → World
    → Exit × Option A
unfolding exit_of_bot
run_gateway_cmd start (err e) env w = (exited 1, none)
run_gateway_cmd start (ok flag) env w =
    let token = if flag == [] then env else flag in
    if token == []
    then (exited 1, none)
    else let (failed, a) = start new_module_registry token w in (exit_of_bot failed, some a)
