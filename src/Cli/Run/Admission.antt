-- ===== src/Cli/Run/Admission.antt =====
-- cmd/aether/main.go: whose goals reach the engine.
use aethercore.Prelude.{◌≡◌, ◌≢◌, ◌⊎◌, Option, none, [], ◌∷◌}
use aethercore.Prelude.Int.{ℤ}
use aethercore.Prelude.Result.{Result, ok, err}
use aethercore.Prelude.Text.{Text}
use aethercore.Auth.{Codecs, JwtPayload, AuthError, Response, TokenFile, load}
use aethercore.Auth.Verify.{Valid, Admits}
use aethercore.Engine.Tools.{Tool, ToolManifest, ToolRegistry}
use aethercore.Engine.Task.{Adapter}
use aethercore.Security.Guard.{PromptGuard}
use aethercore.Cli.Commands.{exited}
use aethercore.Cli.Run.{RunOutcome, Signal, task_of, engine_of, run_worker}

module _ {World : Type 0} (marshal : ToolManifest → Result Text Text) (sys_info : Tool World)
    (adapter : Adapter World) (guard : PromptGuard) (codecs : Codecs) where
  -- The registry of the engine: the one tool under its name.
  abbrev pub one_tool : ToolRegistry World
  one_tool = record { tools = (sys_info.manifest.name, sys_info) ∷ []; verifier = none }

  -- What a run does to a refused user, and to one that is let in.
  abbrev pub Admission :
      Option Text
      → ℤ
      → (Text → Result Text Response)
      → Option Text
      → Signal
      → Text
      → TokenFile
      → World
      → RunOutcome World
      → Result AuthError JwtPayload × TokenFile
      → Type 0
  Admission failed now cloud unread signal goal file w out (answer, file') =
      (((failed ≢ none) ⊎ ((e : AuthError) × (answer ≡ err e)))
        × (out.exit ≡ exited 1)
        × (out.answer ≡ none)
        × (out.world ≡ w))
      ⊎ ((failed ≡ none)
          × (out
              ≡ run_worker marshal sys_info adapter guard signal file' (task_of goal)
                  (engine_of marshal sys_info adapter guard one_tool) w)
          × (payload : JwtPayload) × (answer ≡ ok payload)
          × (stored : Text) × (load file unread ≡ ok stored)
          × (token : Text) × Valid codecs none now token payload
          × Admits codecs none now cloud stored token)
