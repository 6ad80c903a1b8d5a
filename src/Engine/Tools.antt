-- ===== src/Engine/Tools.antt =====
-- core/tool.go: the registry of tools; core/llm/types.go: what an adapter of a model exchanges.
-- A tool acts on the world behind it. The JSON text of a manifest is a parameter; an error is its
-- text.
pub mod Laws
use aethercore.Prelude.{
  ℕ, ◌+◌, Bool, true, false, not, ◌||◌, Option, none, some, List, [], ◌∷◌, ◌++◌, map, GoMap, lookup,
  insert, eq_list, eq_nat, length, if◌then◌else◌,
}
use aethercore.Prelude.Int.{ℤ}
use aethercore.Prelude.Result.{Result, ok, err}
use aethercore.Prelude.Text.{Text, codes}

pub record ToolManifest : Type 0 where
  pub name : Text
  pub description : Text
  pub parameters : Text
  pub capabilities : List Text
  pub max_runtime_ms : ℤ
  pub memory_limit : ℤ

pub record ToolCall : Type 0 where
  pub id : Text
  pub name : Text
  pub arguments : Text

pub record ToolResultMessage : Type 0 where
  pub tool_call_id : Text
  pub content : Text
  pub is_error : Bool

pub record Message : Type 0 where
  pub role : Text
  pub content : Text
  pub tool_calls : List ToolCall
  pub tool_results : List ToolResultMessage

pub record LlmResponse : Type 0 where
  pub content : Text
  pub tool_calls : List ToolCall

-- The interface Tool.
pub record Tool (World : Type 0) : Type 0 where
  pub manifest : ToolManifest
  pub execute : Text → World → Result Text Text × World

-- The interface security.ToolVerifier.
abbrev pub ToolVerifier : Type 0
ToolVerifier = Text → Text → Bool × Option Text

pub record ToolRegistry (World : Type 0) : Type 0 where
  pub tools : GoMap Text (Tool World)
  pub verifier : Option ToolVerifier

-- the errors of Register
pub data RegisterError : Type 0 where
  nil_tool : RegisterError
  tool_marshal_failed : Text → RegisterError
  verification_failed : Text → Text → RegisterError
  tool_registered : Text → RegisterError

-- the verdict of a verifier, whose message is that of its error or a fixed one
pub verdict : Text → Bool × Option Text → Option RegisterError
verdict name (accepted, some e) = some (verification_failed name e)
verdict name (accepted, none) =
    if not accepted
    then some (verification_failed name (codes "signature verification rejected"))
    else none

-- the part of Register in front of the lock; the signature is always the empty text
unfoldable pub check_tool :
    (ToolManifest → Result Text Text) → Option ToolVerifier → ToolManifest → Option RegisterError
unfolding verdict
check_tool marshal none m = none
check_tool marshal (some verify) m = elim (marshal m) [
  | err e ↦ some (tool_marshal_failed e)
  | ok manifest_bytes ↦ verdict m.name (verify manifest_bytes [])
]

module _ {World : Type 0} where
  -- NewToolRegistry
  abbrev pub new_tool_registry : Option ToolVerifier → ToolRegistry World
  new_tool_registry verifier = record { tools = []; verifier = verifier }

  -- Register
  unfoldable pub register :
      (ToolManifest → Result Text Text)
      → ToolRegistry World
      → Option (Tool World)
      → Option RegisterError × ToolRegistry World
  register marshal r none = (some nil_tool, r)
  register marshal r (some t) = elim (check_tool marshal r.verifier t.manifest) [
    | some e ↦ (some e, r)
    | none ↦ elim (lookup t.manifest.name r.tools) [
      | some _ ↦ (some (tool_registered t.manifest.name), r)
      | none ↦ (none, record r { tools = insert t.manifest.name t r.tools })
    ]
  ]

  -- Get; the error text names the tool that is not found
  unfoldable pub get : ToolRegistry World → Text → Result Text (Tool World)
  get r name = elim (lookup name r.tools) [
    | none ↦ err (codes "tool not found: " ++ name)
    | some t ↦ ok t
  ]

  -- Manifests
  unfoldable pub manifests : ToolRegistry World → List ToolManifest
  manifests r = map (λ e. e.1.manifest) r.tools
