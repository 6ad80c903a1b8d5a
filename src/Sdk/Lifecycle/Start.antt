-- ===== src/Sdk/Lifecycle/Start.antt =====
-- What StartModule does on each of its branches.
use aethercore.Prelude.{
  ◌≡◌, refl, ◌⊎◌, inl, inr, Option, none, some, ◌==◌, eq_list, eq_nat, if◌then◌else◌,
}
use aethercore.Prelude.Result.{ok, err}
use aethercore.Prelude.Text.{Text}
use aethercore.Sdk.Module.{Module}
use aethercore.Sdk.Registry.{
  ModuleRegistry, on_start_failed, module_already_loaded, module_not_found, get,
}
use aethercore.Sdk.Registry.Laws.{load_lem}
use aethercore.Sdk.Lifecycle.{Outcome, start_module, start_deadline, register_started}

module _ {World : Type 0} (r : ModuleRegistry World) (m : Module World) where
  -- What StartModule may leave when OnStart has answered with `started`.
  abbrev pub Starts : Option Text × World → Outcome World → Type 0
  Starts started out =
      ((e : Text) × (started.0 ≡ some e)
        × (out ≡ (some (on_start_failed m.manifest.name e), r, started.1)))
      ⊎ (((old : Module World) × (started.0 ≡ none)
            × (get r m.manifest.name ≡ ok old)
            × (out ≡ (some (module_already_loaded m.manifest.name), r, started.1)))
          ⊎ ((started.0 ≡ none)
              × (get r m.manifest.name ≡ err (module_not_found m.manifest.name))
              × (out.0 ≡ none)
              × (out.2 ≡ started.1)
              × ((n : Text) → get out.1 n ≡ (if m.manifest.name == n then ok m else get r n))))

  register_started-Starts :
      (started : Option Text × World) → Starts started (register_started m r started)
  unfolding register_started
  register_started-Starts (some e, w) = inl (e, refl, refl)
  register_started-Starts (none, w) = elim (load_lem r m) [
    | inl (failed, same, (old, taken)) ↦ inr (inl (old, refl, taken, λ i. (failed i, same i, w)))
    | inr (fine, free, after, _) ↦ inr (inr (refl, free, fine, refl, after))
  ]

  -- StartModule runs OnStart once, with the manifest's deadline or 5000 ms. If OnStart fails, its
  -- error comes back and the registry is untouched. If it succeeds and the name is taken, the
  -- registry is untouched too, with the state that OnStart left. Otherwise there is no error, Get
  -- finds the module under its name, and every other name as before.
  pub start_module-Starts :
      (w : World) → Starts (m.on_start (start_deadline m.manifest) w) (start_module r (some m) w)
  unfolding start_module
  start_module-Starts w = register_started-Starts (m.on_start (start_deadline m.manifest) w)
