-- ===== src/Prelude/Sorting.antt =====
-- `sort.Slice`: what it documents of its result. It leaves equal elements in any order, so a model
-- takes it as a parameter.
use aethercore.Prelude.{
  ◌≡◌, refl, subst, if◌then◌else◌, inl, inr, arith, Bool, true, false, Bool-cases, List, [], ◌∷◌,
  All, select, length, suc, zero, ℕ, take, drop,
}

pub refuted : (b : Bool) → (b ≡ true → ⊥) → b ≡ false
refuted true h = absurd (h refl)
refuted false h = refl

module _ {A : Type 0} where
  -- The list `ys` is in the order of `less`: what stands behind an element is not before it.
  abbrev pub Ordered : (A → A → Bool) → List A → Type 0
  Ordered less [] = Unit
  Ordered less (y ∷ ys) = All (λ z. less z y ≡ false) ys × Ordered less ys

  -- What `sort.Slice` documents of its result `ys` on `xs`: the same elements, in order.
  pub record Sorted (less : A → A → Bool) (xs ys : List A) : Type 1 where
    pub kept : (P : A → Type 0) → All P xs → All P ys
    pub complete : (P : A → Type 0) → All P ys → All P xs
    pub size : length ys ≡ length xs
    pub ordered : Ordered less ys

  pub select-All : (p : A → Bool) (xs : List A) → All (λ x. p x ≡ true) (select p xs)
  select-All p [] = tt
  select-All p (x ∷ xs) = elim (Bool-cases (p x)) [
    | inl passes ↦ rw passes (passes, select-All p xs)
    | inr fails ↦ rw fails (select-All p xs)
  ]

  -- What is known of the elements that pass the test is known of every element that passes it.
  pub select_complete :
      (p : A → Bool) (Q : A → Type 0) (xs : List A)
      → All Q (select p xs)
      → All (λ x. p x ≡ true → Q x) xs
  select_complete p Q [] h = tt
  select_complete p Q (x ∷ xs) h = elim (Bool-cases (p x)) [
    | inl passes ↦
        let k = subst (λ b. All Q (if b then x ∷ select p xs else select p xs)) passes h in
        ((λ e. k.0), select_complete p Q xs k.1)
    | inr fails ↦
        let k = subst (λ b. All Q (if b then x ∷ select p xs else select p xs)) fails h in
        ((λ e. absurd (ground arith)), select_complete p Q xs k)
  ]

  pub All-map : (P Q : A → Type 0) (xs : List A) → ((x : A) → P x → Q x) → All P xs → All Q xs
  All-map P Q [] f h = tt
  All-map P Q (x ∷ xs) f h = (f x h.0, All-map P Q xs f h.1)

  pub All-take : (P : A → Type 0) (n : ℕ) (xs : List A) → All P xs → All P (take n xs)
  All-take P zero xs h = tt
  All-take P (suc n) [] h = tt
  All-take P (suc n) (x ∷ xs) h = (h.0, All-take P n xs h.1)

  All-drop : (P : A → Type 0) (n : ℕ) (xs : List A) → All P xs → All P (drop n xs)
  All-drop P zero xs h = h
  All-drop P (suc n) [] h = tt
  All-drop P (suc n) (x ∷ xs) h = All-drop P n xs h.1

  -- The first `n` elements of a list in order: none of the others comes before one of them.
  pub Ordered-take :
      (less : A → A → Bool) (n : ℕ) (ys : List A)
      → Ordered less ys
      → Ordered less (take n ys) × All (λ y. All (λ z. less z y ≡ false) (drop n ys)) (take n ys)
  Ordered-take less zero ys o = (tt, tt)
  Ordered-take less (suc n) [] o = (tt, tt)
  Ordered-take less (suc n) (y ∷ ys) o =
      let (front, behind) = Ordered-take less n ys o.1 in
      (
        (All-take (λ z. less z y ≡ false) n ys o.0, front),
        (All-drop (λ z. less z y ≡ false) n ys o.0, behind),
      )
