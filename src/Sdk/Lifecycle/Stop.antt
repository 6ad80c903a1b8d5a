-- ===== src/Sdk/Lifecycle/Stop.antt =====
-- What StopModule does, and what is left when each of some names is stopped.
use aethercore.Prelude.{
  Bool, true, false, ◌||◌, ◌≡◌, refl, ap, ◌∙◌, ◌⊎◌, inl, inr, some, List, [], ◌∷◌, ◌==◌, eq_list,
  eq_nat, list_eq_iff, if◌then◌else◌, arith,
}
use aethercore.Prelude.Result.{ok, err}
use aethercore.Prelude.Text.{Text}
use aethercore.Sdk.Module.{Module}
use aethercore.Sdk.Registry.{RegistryError, ModuleRegistry, module_not_found, unload, get}
use aethercore.Sdk.Registry.Laws.{get-unload, get-cases}
use aethercore.Sdk.Lifecycle.{Outcome, stop_error, stop_module, stop_each, default_stop_deadline_ms}

abbrev pub member : Text → List Text → Bool
member n [] = false
member n (k ∷ ks) = k == n || member n ks

module _ {World : Type 0} where
  -- What StopModule may leave.
  abbrev pub Stops : ModuleRegistry World → Text → World → Outcome World → Type 0
  Stops r name w out =
      ((get r name ≡ err (module_not_found name)) × (out ≡ (some (module_not_found name), r, w)))
      ⊎ ((m : Module World) × (get r name ≡ ok m)
          × (out.0 ≡ stop_error name (m.on_stop default_stop_deadline_ms w).0)
          × (out.2 ≡ (m.on_stop default_stop_deadline_ms w).1)
          × ((n : Text) → get out.1 n ≡ (if name == n then err (module_not_found n) else get r n)))

  stop_module-unknown :
      (r : ModuleRegistry World) (name : Text) (w : World) (e : RegistryError)
      → get r name ≡ err e
      → stop_module r name w ≡ (some e, r, w)
  unfolding stop_module
  stop_module-unknown r name w e h = rw (h, stop_module)

  pub stop_module-known :
      (r : ModuleRegistry World) (name : Text) (w : World) (m : Module World)
      → get r name ≡ ok m
      → stop_module r name w ≡ (
        stop_error name (m.on_stop default_stop_deadline_ms w).0,
        (unload r name).1,
        (m.on_stop default_stop_deadline_ms w).1,
      )
  unfolding stop_module
  stop_module-known r name w m h = rw (h, stop_module)

  -- StopModule on a name that is not loaded reports that and changes nothing. Otherwise it runs
  -- OnStop once, with 3000 ms, reports its error if there is one, and in either case the name is
  -- free afterwards and every other name is found as before.
  pub stop_module-Stops :
      (r : ModuleRegistry World) (name : Text) (w : World) → Stops r name w (stop_module r name w)
  stop_module-Stops r name w = elim (get-cases r name) [
    | inl absent ↦ inl (absent, stop_module-unknown r name w (module_not_found name) absent)
    | inr (m, present) ↦
        let e = stop_module-known r name w m present in
        inr (
          m,
          present,
          ap (λ o. o.0) e,
          ap (λ o. o.2) e,
          λ n. ap (λ o. get o.1 n) e ∙ get-unload r name n,
        )
  ]

  get-stop_module :
      (r : ModuleRegistry World) (name : Text) (w : World) (n : Text)
      → get (stop_module r name w).1 n ≡ (if name == n then err (module_not_found n) else get r n)
  get-stop_module r name w n = elim (stop_module-Stops r name w) [
    | inl (absent, e) ↦ ap (λ o. get o.1 n) e ∙ ground (arith, list_eq_iff name n)
    | inr (m, present, _, _, after) ↦ after n
  ]

  get-stop_each :
      (names : List Text) (r : ModuleRegistry World) (w : World) (n : Text)
      → get (stop_each names r w).1 n
        ≡ (if member n names then err (module_not_found n) else get r n)
  unfolding stop_each
  get-stop_each [] r w n = refl
  get-stop_each (k ∷ names) r w n =
      let after = stop_module r k w in
      get-stop_each names after.1 after.2 n ∙ ground (arith, get-stop_module r k w n)

  -- The names to stop take in every name at which a module is found.
  abbrev pub Covers : List Text → ModuleRegistry World → Type 0
  Covers order r = (n : Text) (m : Module World) → get r n ≡ ok m → member n order ≡ true

  pub get_after_all :
      (order : List Text) (r : ModuleRegistry World) (w : World) (n : Text)
      → Covers order r
      → get (stop_each order r w).1 n ≡ err (module_not_found n)
  get_after_all order r w n covers = elim (get-cases r n) [
    | inl absent ↦ get-stop_each order r w n ∙ ground arith
    | inr (m, present) ↦ get-stop_each order r w n ∙ rw (covers n m present) refl
  ]
