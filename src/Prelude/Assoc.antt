-- ===== src/Prelude/Assoc.antt =====
-- A Go map as an association list. The order of the entries is the order in which one `range`
-- over the map meets them; Go leaves it open, so what is proved of every list holds for each order.
use Prim.Native.Nat.{◌+◌}
use mathlib.Core.Path.{◌≡◌, refl}
use mathlib.Core.Logic.{◌≢◌}
use mathlib.Core.List.{List, [], ◌∷◌}
use mathlib.Core.Bool.{Bool}
use mathlib.Core.Option.{Option, none, some}
use native.Mathlib.Omega.{arith}
use aethercore.Prelude.Tests.{if◌then◌else◌}
use aethercore.Prelude.Classes.{Eq, ◌==◌}
use aethercore.Prelude.Lists.{length}

abbrev pub GoMap {ℓ κ} : Type ℓ → Type κ → Type (ℓ ⊔ κ)
GoMap K V = List (K × V)

-- What is left of an entry.
abbrev pub unless {κ} : {V : Type κ} → (V → Bool) → Option V → Option V
unless gone none = none
unless gone (some v) = if gone v then none else some v

module _ {ℓ κ} {K : Type ℓ} {V : Type κ} ⦃e : Eq K⦄ where
  -- m[k], with the comma-ok form
  unfoldable pub lookup : K → GoMap K V → Option V
  lookup k [] = none
  lookup k ((key, v) ∷ entries) = if key == k then some v else lookup k entries

  -- m[k] = v
  unfoldable pub insert : K → V → GoMap K V → GoMap K V
  insert k v [] = (k, v) ∷ []
  insert k v ((key, old) ∷ entries) =
      if key == k then (k, v) ∷ entries else (key, old) ∷ insert k v entries

  -- delete(m, k)
  unfoldable pub delete : K → GoMap K V → GoMap K V
  delete k [] = []
  delete k ((j, v) ∷ m) = let rest = delete k m in if j == k then rest else (j, v) ∷ rest

  -- for k, v := range m { if gone(v) { delete(m, k) } }
  unfoldable pub delete_where : (V → Bool) → GoMap K V → GoMap K V
  delete_where gone [] = []
  delete_where gone ((j, v) ∷ m) =
      let rest = delete_where gone m in if gone v then rest else (j, v) ∷ rest

  -- Every key occurs once, as in a Go map.
  abbrev pub Distinct : GoMap K V → Type κ
  Distinct [] = Unit
  Distinct ((j, v) ∷ m) = (lookup j m ≡ none) × Distinct m

  pub lookup-insert :
      (new j : K) (v : V) (entries : GoMap K V)
      → lookup j (insert new v entries) ≡ (if new == j then some v else lookup j entries)
  unfolding lookup insert
  lookup-insert new j v [] = refl
  lookup-insert new j v ((key, old) ∷ entries) = ground (
    arith,
    lookup-insert new j v entries,
    e.equal_iff new j,
    e.equal_iff key new,
    e.equal_iff key j,
  )

  pub lookup-insert_self : (k : K) (v : V) (m : GoMap K V) → lookup k (insert k v m) ≡ some v
  lookup-insert_self k v m = ground (arith, lookup-insert k k v m, e.equal_iff k k)

  pub lookup-insert_ne :
      (k j : K) (v : V) (m : GoMap K V) → k ≢ j → lookup j (insert k v m) ≡ lookup j m
  lookup-insert_ne k j v m h = ground (arith, lookup-insert k j v m, e.equal_iff k j)

  pub lookup-delete :
      (k j : K) (m : GoMap K V) → lookup j (delete k m) ≡ (if k == j then none else lookup j m)
  unfolding lookup delete
  lookup-delete k j [] = ground arith
  lookup-delete k j ((i, v) ∷ m) =
      ground (arith, lookup-delete k j m, e.equal_iff i k, e.equal_iff i j, e.equal_iff k j)

  pub lookup-delete_self : (k : K) (m : GoMap K V) → lookup k (delete k m) ≡ none
  lookup-delete_self k m = ground (arith, lookup-delete k k m, e.equal_iff k k)

  pub lookup-delete_ne : (k j : K) (m : GoMap K V) → k ≢ j → lookup j (delete k m) ≡ lookup j m
  lookup-delete_ne k j m h = ground (arith, lookup-delete k j m, e.equal_iff k j)

  pub length-insert_new :
      (k : K) (v : V) (m : GoMap K V) → lookup k m ≡ none → length (insert k v m) ≡ length m + 1
  unfolding lookup insert
  length-insert_new k v [] h = omega arith
  length-insert_new k v ((j, w) ∷ m) h = ground (arith, length-insert_new k v m)

  pub delete_absent : (k : K) (m : GoMap K V) → lookup k m ≡ none → delete k m ≡ m
  unfolding lookup delete
  delete_absent k [] h = refl
  delete_absent k ((j, v) ∷ m) h = ground (arith, delete_absent k m)

  pub length-delete :
      (k : K) (v : V) (m : GoMap K V)
      → Distinct m
      → lookup k m ≡ some v
      → length (delete k m) + 1 ≡ length m
  unfolding lookup delete
  length-delete k v [] d h = cc
  length-delete k v ((j, w) ∷ m) d h =
      ground (arith, e.equal_iff j k, delete_absent k m, length-delete k v m)

  pub insert-Distinct : (k : K) (v : V) (m : GoMap K V) → Distinct m → Distinct (insert k v m)
  unfolding lookup insert
  insert-Distinct k v [] d = (refl, tt)
  insert-Distinct k v ((j, w) ∷ m) d =
      ground (arith, e.equal_iff j k, e.equal_iff k j, lookup-insert k j v m, insert-Distinct k v m)

  pub delete-Distinct : (k : K) (m : GoMap K V) → Distinct m → Distinct (delete k m)
  unfolding lookup delete
  delete-Distinct k [] d = tt
  delete-Distinct k ((j, w) ∷ m) d =
      ground (arith, e.equal_iff j k, e.equal_iff k j, lookup-delete k j m, delete-Distinct k m)

  pub lookup-delete_where :
      (gone : V → Bool) (k : K) (m : GoMap K V)
      → Distinct m
      → lookup k (delete_where gone m) ≡ unless gone (lookup k m)
  unfolding lookup delete_where
  lookup-delete_where gone k [] d = refl
  lookup-delete_where gone k ((j, v) ∷ m) d =
      ground (arith, e.equal_iff j k, lookup-delete_where gone k m)

  pub delete_where-Distinct :
      (gone : V → Bool) (m : GoMap K V) → Distinct m → Distinct (delete_where gone m)
  unfolding delete_where
  delete_where-Distinct gone [] d = tt
  delete_where-Distinct gone ((j, v) ∷ m) d =
      ground (arith, lookup-delete_where gone j m, delete_where-Distinct gone m)

pub ruleset map_laws = (lookup-insert, lookup-delete)
