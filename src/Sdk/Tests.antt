-- ===== src/Sdk/Tests.antt =====
-- The theorems on the registry and the life cycle at a small module.
use aethercore.Prelude.{
  ◌≡◌, refl, lookup, insert, delete, ℕ, ◌+◌, refl, none, some, [], ◌∷◌, lookup, eq_list, eq_nat,
}
use aethercore.Prelude.Int.{pos}
use aethercore.Prelude.Result.{ok}
use aethercore.Prelude.Text.{Text, codes}
use aethercore.Sdk.Module.{Module}
use aethercore.Prelude.Turns.{arrange, take_out}
use aethercore.Sdk.Registry.{
  ModuleRegistry, load, get, unload, manifests, stop_all_failed, on_stop_failed,
}
use aethercore.Sdk.Lifecycle.{stop_names, stop_all, stop_each, stop_module}

-- A module that counts its starts, and whose OnStop fails.
abbrev counter : Module ℕ
counter = record {
  manifest = record {
    name = codes "counter";
    description = codes "counts";
    version = codes "1.0.0";
    author = codes "me";
    capabilities = [];
    max_task_runtime_ms = pos 0;
    memory_limit_mb = pos 1;
  };
  on_start = λ d n. (none, n + 1);
  on_stop = λ d n. (some (codes "busy"), n);
  handle_task = λ t n. (ok (record { task_id = t.id; output = codes "done"; metadata = [] }), n);
}

abbrev quiet : Module ℕ
quiet = record counter {
  manifest = record counter.manifest { name = codes "quiet" };
  on_stop = λ d n. (none, n + 1);
}

abbrev empty : ModuleRegistry ℕ
empty = record { modules = [] }

abbrev two : ModuleRegistry ℕ
two = (load (load empty (some counter)).1 (some quiet)).1

one_error :
    (stop_all (1 ∷ []) two 4).0
    ≡ some (stop_all_failed 1 (on_stop_failed (codes "counter") (codes "busy")))
unfolding load lookup insert stop_all stop_names manifests arrange take_out stop_each stop_module
    unload get delete
one_error = refl
