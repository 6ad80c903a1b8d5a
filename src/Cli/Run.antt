-- ===== src/Cli/Run.antt =====
-- cmd/aether/main.go: a goal through authentication and the engine, and one tool without them.
pub mod Admission
use aethercore.Prelude.{ℕ, false, Option, none, some, List, [], ◌∷◌}
use aethercore.Prelude.Int.{ℤ}
use aethercore.Prelude.Result.{Result, ok, err}
use aethercore.Prelude.Text.{Text, codes}
use aethercore.Auth.{Codecs, JwtPayload, AuthError, Response, TokenFile, Background, authenticate}
use aethercore.Engine.Tools.{
  Tool, ToolManifest, ToolRegistry, RegisterError, new_tool_registry, register, get,
}
use aethercore.Engine.Task.{Task, Failure, Run, Adapter, Engine, execute_ephemeral}
use aethercore.Engine.Pool.{TaskResult, PoolError, Pool, new_pool, start, submit, result_of}
use aethercore.Security.Guard.{PromptGuard}
use aethercore.Cli.Commands.{Exit, returned, exited}

-- What a run leaves: its exit, the token file, the result of the engine, and the world.
pub record RunOutcome (World : Type 0) : Type 0 where
  pub exit : Exit
  pub file : TokenFile
  pub answer : Option TaskResult
  pub world : World

-- Whether a signal comes, and whether before a worker takes the task: Stop waits for the worker.
pub data Signal : Type 0 where
  undisturbed before_work during_work : Signal

abbrev pub task_of : Text → Task
task_of goal = record { id = codes "task_1"; system = []; input = goal }

abbrev pub exit_of_error : Option Failure → Exit
exit_of_error none = returned
exit_of_error (some e) = exited 1

module _ {World : Type 0} (marshal : ToolManifest → Result Text Text) (sys_info : Tool World) where
  module _ (adapter : Adapter World) (guard : PromptGuard) where
    -- the engine of NewEngine with its one tool
    abbrev pub engine_of : ToolRegistry World → Engine World
    engine_of tools = record { tools = tools; sandbox = none; guard = some guard; audit = false }

    -- the wait of runPicoMode on the one result
    abbrev pub answered :
        Signal → TokenFile → Task → Result Failure Text × Run World → RunOutcome World
    answered undisturbed file t (r, s) = record {
      exit = exit_of_error (result_of t r).error;
      file = file;
      answer = some (result_of t r);
      world = s.world;
    }
    answered _ file t (r, s) = record {
      exit = exited 130;
      file = file;
      answer = none;
      world = s.world;
    }

    abbrev pub run_worker : Signal → TokenFile → Task → Engine World → World → RunOutcome World
    run_worker before_work file t e w = record {
      exit = exited 130;
      file = file;
      answer = none;
      world = w;
    }
    run_worker signal file t e w =
        answered signal file t (execute_ephemeral adapter e t (record { world = w; log = [] }))

    -- runPicoMode from Submit on
    unfoldable pub run_submitted :
        Signal
        → TokenFile
        → Task
        → Engine World
        → Option PoolError × Pool
        → World
        → RunOutcome World
    run_submitted signal file t e (some full, pool) w = record {
      exit = exited 1;
      file = file;
      answer = none;
      world = w;
    }
    run_submitted signal file t e (none, pool) w = run_worker signal file t e w

    -- runPicoMode from the registration on
    unfoldable pub run_registered :
        Signal
        → TokenFile
        → Text
        → Option RegisterError × ToolRegistry World
        → World
        → RunOutcome World
    unfolding run_submitted
    run_registered signal file goal (some e, tools) w = record {
      exit = exited 1;
      file = file;
      answer = none;
      world = w;
    }
    run_registered signal file goal (none, tools) w =
        run_submitted signal file (task_of goal) (engine_of tools)
          (submit (start (new_pool 100) 4) (task_of goal)) w

    -- runPicoMode from Authenticate on
    unfoldable pub run_admitted :
        Signal → Text → Result AuthError JwtPayload × TokenFile → World → RunOutcome World
    unfolding run_registered register
    run_admitted signal goal (err e, file) w = record {
      exit = exited 1;
      file = file;
      answer = none;
      world = w;
    }
    run_admitted signal goal (ok payload, file) w =
        run_registered signal file goal (register marshal (new_tool_registry none) (some sys_info))
          w

    -- runPicoMode; the manager has no key
    unfoldable pub run_pico_mode :
        (codecs : Codecs)
        → Option Text
        → ℤ
        → (Text → Result Text Response)
        → Background
        → Option Text
        → Option Text
        → Signal
        → Text
        → TokenFile
        → World
        → RunOutcome World
    unfolding run_admitted
    run_pico_mode codecs (some e) now cloud background unread unsaved signal goal file w = record {
      exit = exited 1;
      file = file;
      answer = none;
      world = w;
    }
    run_pico_mode codecs none now cloud background unread unsaved signal goal file w =
        run_admitted signal goal (authenticate codecs none now cloud background unread unsaved file)
          w

  -- the end of runToolNative
  abbrev pub tool_exit : Result Text Text × World → Exit × World
  tool_exit (err e, w) = (exited 1, w)
  tool_exit (ok out, w) = (returned, w)

  abbrev pub run_found : Text → Result Text (Tool World) → World → Exit × World
  run_found args (err e) w = (exited 1, w)
  run_found args (ok tool) w = tool_exit (tool.execute args w)

  abbrev pub run_tool :
      Text → Text → Option RegisterError × ToolRegistry World → World → Exit × World
  run_tool name args (some e, tools) w = (exited 1, w)
  run_tool name args (none, tools) w = run_found args (get tools name) w

  -- runToolNative
  unfoldable pub run_tool_native : Text → Text → World → Exit × World
  unfolding register get
  run_tool_native name args w =
      run_tool name args (register marshal (new_tool_registry none) (some sys_info)) w
