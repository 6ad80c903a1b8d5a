-- ===== src/Sdk/Lifecycle/StopAll.antt =====
-- What StopAll does, in whatever order its goroutines run.
use aethercore.Prelude.{
  ℕ, ◌≤◌, ◌≡◌, Option, none, some, List, [], ◌∷◌, map, GoMap, ◌==◌, eq_list, eq_nat,
}
use aethercore.Prelude.Turns.{number}
use aethercore.Prelude.Result.{Result, ok, err}
use aethercore.Prelude.Text.{Text}
use aethercore.Sdk.Module.{Module}
use aethercore.Sdk.Registry.{RegistryError, ModuleRegistry, get}
use aethercore.Sdk.Lifecycle.{Outcome, stop_error, cons_error, joined, default_stop_deadline_ms}

-- How often a name occurs.
abbrev pub times : Text → List Text → ℕ
times n names = number (λ k. k == n) names

module _ {World : Type 0} where
  -- The hooks OnStop of the named modules, one after the other, each with 3000 ms: the errors in
  -- this order, and the world.
  pub hook_errors : ModuleRegistry World → List Text → World → List RegistryError × World
  hook_errors r [] w = ([], w)
  hook_errors r (name ∷ names) w = elim (get r name) [
    | err e ↦ hook_errors r names w
    | ok m ↦
        let (failed, w') = m.on_stop default_stop_deadline_ms w in
        let (es, w'') = hook_errors r names w' in (cons_error (stop_error name failed) es, w'')
  ]

  abbrev with_found :
      ModuleRegistry World
      → Text
      → List Text
      → World
      → Result RegistryError (Module World)
      → List RegistryError × World
  with_found r name names w (err e) = hook_errors r names w
  with_found r name names w (ok m) =
      let (failed, w') = m.on_stop default_stop_deadline_ms w in
      let (es, w'') = hook_errors r names w' in (cons_error (stop_error name failed) es, w'')

  -- Each name of the list stands there once, and its module is found.
  abbrev EachOnce : ModuleRegistry World → List Text → Type 0
  EachOnce r names =
      (n : Text) → 1 ≤ times n names → (times n names ≡ 1) × ((m : Module World) × (get r n ≡ ok m))

  abbrev pub module_names : GoMap Text (Module World) → List Text
  module_names ms = map (λ mf. mf.name) (map (λ e. e.1.manifest) ms)

  abbrev found_once : Option (Module World) → ℕ
  found_once none = 0
  found_once (some m) = 1

  -- What StopAll answers for an order of the names.
  abbrev pub stopped_in : ModuleRegistry World → List Text → World → Outcome World
  stopped_in r order w =
      let (es, w') = hook_errors r order w in (joined es, record { modules = [] }, w')
