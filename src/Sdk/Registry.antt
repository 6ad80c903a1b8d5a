-- ===== src/Sdk/Registry.antt =====
-- sdk/registry.go: the catalogue of loaded modules.
pub mod Laws
use aethercore.Prelude.{
  ℕ, Option, none, some, List, [], GoMap, insert, lookup, delete, map, length, eq_list, eq_nat,
}
use aethercore.Prelude.Result.{Result, ok, err}
use aethercore.Prelude.Text.{Text}
use aethercore.Sdk.Module.{Module, ModuleManifest}

-- The sentinel errors, with the name that is wrapped, and what the life cycle adds.
pub data RegistryError : Type 0 where
  nil_module : RegistryError
  module_already_loaded module_not_found : Text → RegistryError
  on_start_failed on_stop_failed : Text → Text → RegistryError
  stop_all_failed : ℕ → RegistryError → RegistryError

pub record ModuleRegistry (World : Type 0) : Type 0 where
  pub modules : GoMap Text (Module World)

module _ {World : Type 0} where
  -- NewModuleRegistry
  abbrev pub new_module_registry : ModuleRegistry World
  new_module_registry = record { modules = [] }

  -- Load. The hook OnStart is not called here.
  unfoldable pub load :
      ModuleRegistry World → Option (Module World) → Option RegistryError × ModuleRegistry World
  load r none = (some nil_module, r)
  load r (some m) = elim (lookup m.manifest.name r.modules) [
    | some _ ↦ (some (module_already_loaded m.manifest.name), r)
    | none ↦ (none, record r { modules = insert m.manifest.name m r.modules })
  ]

  -- Unload
  unfoldable pub unload : ModuleRegistry World → Text → Option RegistryError × ModuleRegistry World
  unload r name = elim (lookup name r.modules) [
    | none ↦ (some (module_not_found name), r)
    | some _ ↦ (none, record r { modules = delete name r.modules })
  ]

  -- Get
  unfoldable pub get : ModuleRegistry World → Text → Result RegistryError (Module World)
  get r name = elim (lookup name r.modules) [ none ↦ err (module_not_found name) | some m ↦ ok m ]

  -- Manifests
  unfoldable pub manifests : ModuleRegistry World → List ModuleManifest
  manifests r = map (λ e. e.1.manifest) r.modules

  -- Len
  unfoldable pub len : ModuleRegistry World → ℕ
  len r = length r.modules
