-- ===== src/Sdk/Lifecycle.antt =====
-- sdk/lifecycle.go: starting and stopping modules.
pub mod Start
pub mod Stop
pub mod StopAll
use aethercore.Prelude.Turns.{arrange}
use aethercore.Prelude.{ℕ, Option, none, some, List, [], ◌∷◌, map, length, if◌then◌else◌}
use aethercore.Prelude.Int.{ℤ, pos, leb_ℤ}
use aethercore.Prelude.Result.{Result, ok, err}
use aethercore.Prelude.Text.{Text}
use aethercore.Sdk.Module.{Module, ModuleManifest}
use aethercore.Sdk.Registry.{
  RegistryError, ModuleRegistry, nil_module, on_start_failed, on_stop_failed, stop_all_failed, load,
  unload, get, manifests,
}

abbrev pub default_start_deadline_ms : ℤ
default_start_deadline_ms = pos 5000

abbrev pub default_stop_deadline_ms : ℤ
default_stop_deadline_ms = pos 3000

unfoldable pub start_deadline : ModuleManifest → ℤ
start_deadline m =
    if leb_ℤ m.max_task_runtime_ms (pos 0) then default_start_deadline_ms else m.max_task_runtime_ms

-- What a call leaves behind: its error, the registry, and the state of the modules.
abbrev pub Outcome : Type 0 → Type 0
Outcome World = Option RegistryError × ModuleRegistry World × World

pub stop_error : Text → Option Text → Option RegistryError
stop_error name none = none
stop_error name (some e) = some (on_stop_failed name e)

abbrev pub cons_error : Option RegistryError → List RegistryError → List RegistryError
cons_error none es = es
cons_error (some e) es = e ∷ es

pub joined : List RegistryError → Option RegistryError
joined [] = none
joined (e ∷ es) = some (stop_all_failed (length (e ∷ es)) e)

module _ {World : Type 0} where
  -- the part of StartModule behind OnStart
  pub register_started : Module World → ModuleRegistry World → Option Text × World → Outcome World
  register_started m r (some e, w) = (some (on_start_failed m.manifest.name e), r, w)
  register_started m r (none, w) = let (e, r') = load r (some m) in (e, r', w)

  -- StartModule
  unfoldable pub start_module : ModuleRegistry World → Option (Module World) → World → Outcome World
  unfolding register_started
  start_module r none w = (some nil_module, r, w)
  start_module r (some m) w = register_started m r (m.on_start (start_deadline m.manifest) w)

  stop_found :
      ModuleRegistry World → Text → Result RegistryError (Module World) → World → Outcome World
  stop_found r name (err e) w = (some e, r, w)
  stop_found r name (ok m) w =
      let (failed, w') = m.on_stop default_stop_deadline_ms w in
      (stop_error name failed, (unload r name).1, w')

  -- StopModule: the module is unloaded also where OnStop fails
  unfoldable pub stop_module : ModuleRegistry World → Text → World → Outcome World
  unfolding stop_found stop_error
  stop_module r name w = stop_found r name (get r name) w

  -- The goroutines of StopAll in the order in which they come to run, each as a whole; the errors
  -- stand in the order in which the channel delivers them.
  unfoldable pub stop_each :
      List Text → ModuleRegistry World → World → List RegistryError × ModuleRegistry World × World
  stop_each [] r w = ([], r, w)
  stop_each (name ∷ names) r w =
      let (e, r', w') = stop_module r name w in
      let (es, r'', w'') = stop_each names r' w' in (cons_error e es, r'', w'')

  -- the names whose modules StopAll stops
  unfoldable pub stop_names : ModuleRegistry World → List Text
  unfolding manifests
  stop_names r = map (λ mf. mf.name) (manifests r)

  -- StopAll; the places say which of its goroutines comes to run next
  unfoldable pub stop_all : List ℕ → ModuleRegistry World → World → Outcome World
  unfolding joined arrange stop_names
  stop_all places r w = elim (manifests r) [
    | [] ↦ (none, r, w)
    | _ ∷ _ ↦
        let (es, r', w') = stop_each (arrange places (stop_names r)) r w in (joined es, r', w')
  ]
