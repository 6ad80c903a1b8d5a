-- ===== src/Sdk/Registry/Laws.antt =====
-- The registry as a map from names to modules, and its invariant.
use aethercore.Prelude.{
  ◌+◌, ◌≡◌, refl, ◌⊎◌, inl, inr, Option, none, some, [], ◌∷◌, GoMap, lookup, Distinct,
  lookup-insert, lookup-delete, insert-Distinct, delete-Distinct, length-insert_new, ◌==◌, eq_list,
  eq_nat, list_eq_iff, if◌then◌else◌, arith,
}
use aethercore.Prelude.Result.{Result, ok, err}
use aethercore.Prelude.Text.{Text}
use aethercore.Sdk.Module.{Module}
use aethercore.Sdk.Registry.{
  RegistryError, ModuleRegistry, module_already_loaded, module_not_found, load, unload, get, len,
}

module _ {World : Type 0} where
  -- Each module stands under the name of its own manifest, once.
  pub record IsWellFormed (r : ModuleRegistry World) : Type 0 where
    pub distinct : Distinct r.modules
    pub named : (n : Text) (m : Module World) → lookup n r.modules ≡ some m → m.manifest.name ≡ n

  -- The result of looking the name up, as Get reports it.
  abbrev pub found : Text → Option (Module World) → Result RegistryError (Module World)
  found name none = err (module_not_found name)
  found name (some m) = ok m

  get-lookup : (r : ModuleRegistry World) (n : Text) → get r n ≡ found n (lookup n r.modules)
  unfolding get
  get-lookup r n = ground arith

  -- Load answers with an error exactly when the name is taken, and then changes nothing; otherwise
  -- Get finds the new module under its name, every other name as before, and Len is one more.
  pub load_lem :
      (r : ModuleRegistry World) (m : Module World)
      → ((load r (some m)).0 ≡ some (module_already_loaded m.manifest.name))
          × ((load r (some m)).1 ≡ r)
          × ((old : Module World) × (get r m.manifest.name ≡ ok old))
        ⊎ ((load r (some m)).0 ≡ none)
          × (get r m.manifest.name ≡ err (module_not_found m.manifest.name))
          × ((n : Text)
              → get (load r (some m)).1 n ≡ (if m.manifest.name == n then ok m else get r n))
          × (len (load r (some m)).1 ≡ len r + 1)
  unfolding load get len
  load_lem r m = by_name (lookup m.manifest.name r.modules) refl
    where
      by_name :
          (o : Option (Module World))
          → lookup m.manifest.name r.modules ≡ o
          → ((load r (some m)).0 ≡ some (module_already_loaded m.manifest.name))
              × ((load r (some m)).1 ≡ r)
              × ((old : Module World) × (get r m.manifest.name ≡ ok old))
            ⊎ ((load r (some m)).0 ≡ none)
              × (get r m.manifest.name ≡ err (module_not_found m.manifest.name))
              × ((n : Text)
                  → get (load r (some m)).1 n ≡ (if m.manifest.name == n then ok m else get r n))
              × (len (load r (some m)).1 ≡ len r + 1)
      by_name (some old) e = inl (rw (e, load), rw (e, load), (old, rw (e, get)))
      by_name none e = inr (
        rw (e, load),
        rw (e, get),
        λ n. rw (e, load) (ground (arith, lookup-insert m.manifest.name n m r.modules)),
        rw (e, load) (length-insert_new m.manifest.name m r.modules e),
      )

  pub load-IsWellFormed :
      (r : ModuleRegistry World) (m : Option (Module World))
      → IsWellFormed r
      → IsWellFormed (load r m).1
  unfolding load
  load-IsWellFormed r none v = v
  load-IsWellFormed r (some m) v = by_name (lookup m.manifest.name r.modules) refl
    where
      by_name :
          (o : Option (Module World))
          → lookup m.manifest.name r.modules ≡ o
          → IsWellFormed (load r (some m)).1
      by_name (some old) e = rw (e, load) v
      by_name none e =
          rw (e, load)
            (record {
              distinct = insert-Distinct m.manifest.name m r.modules v.distinct;
              named = λ n x h. ground (
                arith,
                lookup-insert m.manifest.name n m r.modules,
                list_eq_iff m.manifest.name n,
                v.named n x,
              );
            })

  pub unload-IsWellFormed :
      (r : ModuleRegistry World) (n : Text) → IsWellFormed r → IsWellFormed (unload r n).1
  unfolding unload
  unload-IsWellFormed r n v = by_name (lookup n r.modules) refl
    where
      by_name : (o : Option (Module World)) → lookup n r.modules ≡ o → IsWellFormed (unload r n).1
      by_name none e = rw (e, unload) v
      by_name (some m) e =
          rw (e, unload)
            (record {
              distinct = delete-Distinct n r.modules v.distinct;
              named = λ k x h.
                  ground (arith, lookup-delete n k r.modules, list_eq_iff n k, v.named k x);
            })

  -- Whatever the outcome, after Unload the name is free and every other name is as it was.
  pub get-unload :
      (r : ModuleRegistry World) (n k : Text)
      → get (unload r n).1 k ≡ (if n == k then err (module_not_found k) else get r k)
  unfolding unload get
  get-unload r n k = ground (arith, lookup-delete n k r.modules, list_eq_iff n k)

  pub get-cases :
      (r : ModuleRegistry World) (n : Text)
      → (get r n ≡ err (module_not_found n)) ⊎ ((m : Module World) × (get r n ≡ ok m))
  unfolding get
  get-cases r n = by_name (lookup n r.modules) refl
    where
      by_name :
          (o : Option (Module World))
          → lookup n r.modules ≡ o
          → (get r n ≡ err (module_not_found n)) ⊎ ((m : Module World) × (get r n ≡ ok m))
      by_name none e = inl (rw (e, get))
      by_name (some m) e = inr (m, rw (e, get))

  -- A registry in which no name is found is empty.
  pub empty_of_get :
      (r : ModuleRegistry World)
      → ((n : Text) → get r n ≡ err (module_not_found n))
      → r.modules ≡ []
  unfolding get
  empty_of_get r h = by_entries r.modules (λ n. ground (arith, h n))
    where
      by_entries : (ms : GoMap Text (Module World)) → ((n : Text) → lookup n ms ≡ none) → ms ≡ []
      by_entries [] none_found = refl
      by_entries ((k, m) ∷ ms) none_found =
          absurd (unfold lookup in ground (arith, none_found k, list_eq_iff k k))
