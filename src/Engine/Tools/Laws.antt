-- ===== src/Engine/Tools/Laws.antt =====
-- core/tool.go: what Register changes, and whom it lets in.
use aethercore.Prelude.{
  ◌≡◌, refl, ap, ◌∙◌, ◌⊎◌, inl, inr, arith, none, some, Option-cases, lookup, lookup-insert, ◌==◌,
  eq_list, eq_nat, if◌then◌else◌,
}
use aethercore.Prelude.Result.{Result, ok, Result-cases}
use aethercore.Prelude.Text.{Text}
use aethercore.Security.Validator.{Crypto, KeyRing, verify}
use aethercore.Engine.Tools.{
  ToolManifest, Tool, ToolRegistry, RegisterError, check_tool, verdict, register, get,
  tool_registered,
}

check_tool-unsigned :
    (marshal : ToolManifest → Result Text Text) (crypto : Crypto) (k : KeyRing) (m : ToolManifest)
    → (e : RegisterError) × (check_tool marshal (some (verify crypto k)) m ≡ some e)
unfolding check_tool verdict verify
check_tool-unsigned marshal crypto k m = elim (Result-cases (marshal m)) [
  | inl (bytes, e) ↦ rw (e, check_tool) (_, refl)
  | inr (x, e) ↦ rw (e, check_tool) (_, refl)
]

module _ {World : Type 0} (marshal : ToolManifest → Result Text Text) where
  -- Register lets a tool in exactly when the verifier, if there is one, accepts it and its name is
  -- free; then Get finds it under its name and every other name as before. Otherwise it reports an
  -- error and the registry is the same.
  pub register_lem :
      (r : ToolRegistry World) (t : Tool World)
      → ((check_tool marshal r.verifier t.manifest ≡ none)
          × (lookup t.manifest.name r.tools ≡ none)
          × ((register marshal r (some t)).0 ≡ none)
          × ((n : Text)
              → get (register marshal r (some t)).1 n
                ≡ (if t.manifest.name == n then ok t else get r n)))
        ⊎ (((e : RegisterError) × ((register marshal r (some t)).0 ≡ some e))
            × ((register marshal r (some t)).1 ≡ r))
  unfolding register get
  register_lem r t = elim (Option-cases (check_tool marshal r.verifier t.manifest)) [
    | inr (e, refused) ↦ inr ((e, ground arith), ground arith)
    | inl accepted ↦ elim (Option-cases (lookup t.manifest.name r.tools)) [
      | inr (old, taken) ↦ inr ((tool_registered t.manifest.name, ground arith), ground arith)
      | inl free ↦ inl (
        accepted,
        free,
        ground arith,
        λ n. ground (arith, lookup-insert t.manifest.name n t r.tools),
      )
    ]
  ]

  -- A registry whose verifier is the validator of signed manifests refuses every tool: Register
  -- hands it an empty signature, which it always rejects.
  pub register-unsigned :
      (crypto : Crypto) (k : KeyRing) (r : ToolRegistry World) (t : Tool World)
      → r.verifier ≡ some (verify crypto k)
      → ((e : RegisterError) × ((register marshal r (some t)).0 ≡ some e))
        × ((register marshal r (some t)).1 ≡ r)
  unfolding register
  register-unsigned crypto k r t h = refused (check_tool-unsigned marshal crypto k t.manifest)
    where
      refused :
          (e : RegisterError) × (check_tool marshal (some (verify crypto k)) t.manifest ≡ some e)
          → ((e : RegisterError) × ((register marshal r (some t)).0 ≡ some e))
            × ((register marshal r (some t)).1 ≡ r)
      refused (e, p) =
          let q : check_tool marshal r.verifier t.manifest ≡ some e =
            ap (λ v. check_tool marshal v t.manifest) h ∙ p in
          ((e, ground arith), ground arith)
