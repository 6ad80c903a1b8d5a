-- ===== src/Sdk/Module.antt =====
-- sdk/module.go and sdk/context.go: modules, tasks and results, and the tools of one module.
use aethercore.Prelude.{Option, none, some, List, GoMap, insert, lookup, map, eq_list, eq_nat}
use aethercore.Prelude.Int.{ℤ}
use aethercore.Prelude.Result.{Result}
use aethercore.Prelude.Text.{Text}

pub data Capability : Type 0 where
  network filesystem state mesh : Capability

pub record ModuleManifest : Type 0 where
  pub name : Text
  pub description : Text
  pub version : Text
  pub author : Text
  pub capabilities : List Capability
  pub max_task_runtime_ms : ℤ
  pub memory_limit_mb : ℤ

pub record ModuleTask : Type 0 where
  pub id : Text
  pub input : Text
  pub metadata : GoMap Text Text

pub record ModuleResult : Type 0 where
  pub task_id : Text
  pub output : Text
  pub metadata : GoMap Text Text

-- Module: an interface that others implement. `World` is whatever state those implementations keep;
-- a hook is given its deadline in milliseconds and may answer with an error.
pub record Module (World : Type 0) : Type 0 where
  pub manifest : ModuleManifest
  pub on_start : ℤ → World → Option Text × World
  pub on_stop : ℤ → World → Option Text × World
  pub handle_task : ModuleTask → World → Result Text ModuleResult × World

-- ModuleTool: a tool that a module offers.
pub record ModuleTool : Type 0 where
  pub tool_name : Text
  pub tool_description : Text
  pub run : Text → Result Text Text

pub data ToolError : Type 0 where
  nil_tool : ToolError
  already_registered : Text → ToolError

-- ModuleToolRegistry
pub record ModuleToolRegistry : Type 0 where
  pub items : GoMap Text ModuleTool

-- register
unfoldable pub register_tool :
    ModuleToolRegistry → Option ModuleTool → Option ToolError × ModuleToolRegistry
register_tool r none = (some nil_tool, r)
register_tool r (some t) = elim (lookup t.tool_name r.items) [
  | some _ ↦ (some (already_registered t.tool_name), r)
  | none ↦ (none, record r { items = insert t.tool_name t r.items })
]

-- names, in the order in which the map is walked
unfoldable pub tool_names : ModuleToolRegistry → List Text
tool_names r = map (λ e. e.0) r.items
