-- ===== src/Prelude/Turns.antt =====
-- Goroutines that wait for their turn: each of them runs once, in whatever order, and each as one
-- step on what they share.
use aethercore.Prelude.{
  ◌≡◌, refl, sym, ap, ◌∙◌, arith, ℕ, zero, suc, ◌+◌, Bool, Option, none, some, List, [], ◌∷◌, ◌++◌,
  append_assoc, if◌then◌else◌,
}

-- How many elements pass a test.
abbrev pub number {ℓ} : {A : Type ℓ} → (A → Bool) → List A → ℕ
number test [] = 0
number test (x ∷ xs) = let rest = number test xs in if test x then suc rest else rest

-- What the elements give, one behind the other.
abbrev pub gather {ℓ κ} : {A : Type ℓ} → {B : Type κ} → (A → List B) → List A → List B
gather f [] = []
gather f (x ∷ xs) = f x ++ gather f xs

-- The element at a place, and the others.
unfoldable pub take_out {ℓ} : {A : Type ℓ} → ℕ → List A → Option (A × List A)
take_out i [] = none
take_out zero (x ∷ xs) = some (x, xs)
take_out (suc i) (x ∷ xs) = elim (take_out i xs) [
  | none ↦ none
  | some (y, rest) ↦ some (y, x ∷ rest)
]

-- The one that waits at a place runs, at a time; where none does, nothing happens.
unfoldable pub turn {ℓ κ} :
    {A : Type ℓ} → {S : Type κ} → (A → ℕ → S → S) → ℕ → ℕ → List A × S → List A × S
turn run i now (waiting, s) = elim (take_out i waiting) [
  | none ↦ (waiting, s)
  | some (x, rest) ↦ (rest, run x now s)
]

-- The elements in the order in which they are taken out, the last ones as they stand.
unfoldable pub arrange {ℓ} : {A : Type ℓ} → List ℕ → List A → List A
arrange [] xs = xs
arrange (i ∷ places) xs = elim (take_out i xs) [
  | none ↦ arrange places xs
  | some (x, rest) ↦ x ∷ arrange places rest
]

unfoldable pub turns {ℓ κ} :
    {A : Type ℓ} → {S : Type κ} → (A → ℕ → S → S) → List (ℕ × ℕ) → List A × S → List A × S
turns run [] s = s
turns run ((i, now) ∷ order) s = turns run order (turn run i now s)

pub number-append {ℓ} :
    {A : Type ℓ} (test : A → Bool) (xs ys : List A)
    → number test (xs ++ ys) ≡ number test xs + number test ys
number-append test [] ys = omega arith
number-append test (x ∷ xs) ys = ground (arith, number-append test xs ys)

pub gather-append {ℓ κ} :
    {A : Type ℓ} {B : Type κ} (f : A → List B) (xs ys : List A)
    → gather f (xs ++ ys) ≡ gather f xs ++ gather f ys
gather-append f [] ys = refl
gather-append f (x ∷ xs) ys =
    ap (λ zs. f x ++ zs) (gather-append f xs ys)
    ∙ sym (append_assoc (f x) (gather f xs) (gather f ys))

module _ {ℓ κ} {A : Type ℓ} {B : Type κ} (f : A → List B) (test : B → Bool) where
  -- What is taken out and what is left are together what there was.
  abbrev Parts : List A → Option (A × List A) → Type 0
  Parts xs none = Unit
  Parts xs (some (y, rest)) =
      number test (gather f xs) ≡ number test (f y) + number test (gather f rest)

  later-Parts :
      (x : A) (xs : List A) (o : Option (A × List A))
      → Parts xs o
      → Parts (x ∷ xs) (elim o as (λ z. Option (A × List A)) [
        | none ↦ none
        | some (y, rest) ↦ some (y, x ∷ rest)
      ])
  later-Parts x xs none h = tt
  later-Parts x xs (some (y, rest)) h =
      omega
        (arith, h, number-append test (f x) (gather f xs), number-append test (f x) (gather f rest))

  take_out-Parts : (i : ℕ) (xs : List A) → Parts xs (take_out i xs)
  unfolding take_out
  take_out-Parts i [] = tt
  take_out-Parts zero (x ∷ xs) = number-append test (f x) (gather f xs)
  take_out-Parts (suc i) (x ∷ xs) = later-Parts x xs (take_out i xs) (take_out-Parts i xs)

  module _ {ν} {S : Type ν} (run : A → ℕ → S → S) (out : S → List B)
      (runs : (x : A) (now : ℕ) (s : S) → out (run x now s) ≡ out s ++ f x) where
    -- What has come out, and what those that wait will give.
    abbrev pub sum : List A × S → ℕ
    sum (waiting, s) = number test (out s) + number test (gather f waiting)

    taken-sum :
        (now : ℕ) (xs : List A) (s : S) (o : Option (A × List A))
        → Parts xs o
        → sum
            (elim o as (λ z. List A × S) [ none ↦ (xs, s) | some (x, rest) ↦ (rest, run x now s) ])
          ≡ number test (out s) + number test (gather f xs)
    taken-sum now xs s none h = refl
    taken-sum now xs s (some (x, rest)) h =
        omega (arith, h, ap (number test) (runs x now s), number-append test (out s) (f x))

    pub turn-sum :
        (i now : ℕ) (waiting : List A) (s : S)
        → sum (turn run i now (waiting, s)) ≡ sum (waiting, s)
    unfolding turn
    turn-sum i now waiting s =
        taken-sum now waiting s (take_out i waiting) (take_out-Parts i waiting)

    -- Each of those that wait gives its part once, in whatever order they run.
    pub turns-sum : (order : List (ℕ × ℕ)) (s : List A × S) → sum (turns run order s) ≡ sum s
    unfolding turns
    turns-sum [] s = refl
    turns-sum ((i, now) ∷ order) (waiting, s) =
        turns-sum order (turn run i now (waiting, s)) ∙ turn-sum i now waiting s

module _ {ℓ} {A : Type ℓ} (test : A → Bool) where
  abbrev Taken : List A → Option (A × List A) → Type 0
  Taken xs none = Unit
  Taken xs (some (x, rest)) = number test xs ≡ number test (x ∷ rest)

  take_out-Taken : (i : ℕ) (xs : List A) → Taken xs (take_out i xs)
  unfolding take_out
  take_out-Taken i [] = tt
  take_out-Taken zero (x ∷ xs) = refl
  take_out-Taken (suc i) (x ∷ xs) = later (take_out i xs) (take_out-Taken i xs)
    where
      later :
          (o : Option (A × List A))
          → Taken xs o
          → Taken (x ∷ xs) (elim o as (λ z. Option (A × List A)) [
            | none ↦ none
            | some (y, rest) ↦ some (y, x ∷ rest)
          ])
      later none h = tt
      later (some (y, rest)) h = ground arith

  arranged :
      (places : List ℕ) (xs : List A) (o : Option (A × List A))
      → ((ys : List A) → number test (arrange places ys) ≡ number test ys)
      → Taken xs o
      → number test (elim o as (λ z. List A) [
        | none ↦ arrange places xs
        | some (x, rest) ↦ x ∷ arrange places rest
      ])
        ≡ number test xs
  arranged places xs none ih h = ih xs
  arranged places xs (some (x, rest)) ih h = ground (arith, h, ih rest)

  -- An arrangement has the same elements, each as often.
  pub number-arrange :
      (places : List ℕ) (xs : List A) → number test (arrange places xs) ≡ number test xs
  unfolding arrange
  number-arrange [] xs = refl
  number-arrange (i ∷ places) xs =
      arranged places xs (take_out i xs) (number-arrange places) (take_out-Taken i xs)
