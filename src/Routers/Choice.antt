-- ===== src/Routers/Choice.antt =====
-- core/llm: which provider a router chooses.
use aethercore.Prelude.{
  ◌≡◌, ◌≤◌, ◌↔◌, ◌⊎◌, refl, inl, inr, arith, Bool, true, false, Bool-cases, [], ◌∷◌, All, select,
}
use aethercore.Prelude.Int.{ℤ, pos, negsuc, ltb_ℤ}
use aethercore.Prelude.Sorting.{Ordered, Sorted, select-All, select_complete, All-map, refuted}
use aethercore.Prelude.Result.{Result, ok, err}
use aethercore.Routers.{
  Provider, Providers, Sort, Status, healthy, degraded, offline, NoProvider, first, cheaper,
  is_candidate, is_healthy, select_cheapest, select_first, prior, new_fallback_router,
}

ltb_ℤ-irreflexive : (z : ℤ) → ltb_ℤ z z ≡ false
ltb_ℤ-irreflexive (pos n) = ground arith
ltb_ℤ-irreflexive (negsuc n) = ground arith

is_healthy_iff : (s : Status) → (is_healthy s ≡ true) ↔ (s ≡ healthy)
is_healthy_iff healthy = (λ h. refl, λ h. refl)
is_healthy_iff degraded = (λ h. cc, λ h. cc)
is_healthy_iff offline = (λ h. cc, λ h. cc)

module _ {World : Type 0} where
  -- The result of a choice: a provider that passes the test, and that no provider that passes it
  -- comes before; or none, where no provider passes it.
  abbrev pub Chosen :
      (Provider World → Provider World → Bool)
      → (Provider World → Bool)
      → Providers World
      → Result NoProvider (Provider World)
      → Type 0
  Chosen less test providers (ok p) =
      (test p ≡ true) × All (λ q. test q ≡ true → less q p ≡ false) providers
  Chosen less test providers (err e) = All (λ q. test q ≡ false) providers

  first-Chosen :
      (less : Provider World → Provider World → Bool) (test : Provider World → Bool)
      (providers ys : Providers World)
      → ((p : Provider World) → less p p ≡ false)
      → Sorted less (select test providers) ys
      → Chosen less test providers (first ys)
  first-Chosen less test providers [] irreflexive s =
      All-map (λ q. test q ≡ true → ⊥) (λ q. test q ≡ false) providers (λ q. refuted (test q))
        (select_complete test (λ q. ⊥) providers (s.complete (λ q. ⊥) tt))
  first-Chosen less test providers (y ∷ ys) irreflexive s = (
    (s.kept (λ q. test q ≡ true) (select-All test providers)).0,
    select_complete test (λ q. less q y ≡ false) providers
        (s.complete (λ q. less q y ≡ false) (irreflexive y, s.ordered.0)),
  )

  cheaper-irreflexive : (p : Provider World) → cheaper p p ≡ false
  unfolding cheaper
  cheaper-irreflexive p = ground arith

  prior-irreflexive : (p : Provider World) → prior p p ≡ false
  unfolding prior
  prior-irreflexive p = ltb_ℤ-irreflexive p.priority

  -- A provider that is healthy and has at least the capability.
  abbrev pub Eligible : ℤ → Provider World → Type 0
  Eligible min_capability p =
      (p.status ≡ healthy) × (ltb_ℤ p.metadata.capability_rank min_capability ≡ false)

  -- The provider is one of these.
  abbrev pub Among : Provider World → Providers World → Type 0
  Among p [] = ⊥
  Among p (q ∷ qs) = (q ≡ p) ⊎ Among p qs

  -- One of the providers that is eligible and costs no more than any eligible one; or none, where
  -- no provider is eligible.
  abbrev pub Cheapest : ℤ → Providers World → Result NoProvider (Provider World) → Type 0
  Cheapest min_capability providers (ok p) =
      Eligible min_capability p
      × Among p providers
      × All
          (λ q.
            Eligible min_capability q
            → p.metadata.cost_per_1k_tokens ≤ q.metadata.cost_per_1k_tokens)
          providers
  Cheapest min_capability providers (err e) = All (λ q. Eligible min_capability q → ⊥) providers

  All-Among :
      (ps qs : Providers World)
      → ((p : Provider World) → Among p ps → Among p qs)
      → All (λ p. Among p qs) ps
  All-Among [] qs h = tt
  All-Among (p ∷ ps) qs h = (h p (inl refl), All-Among ps qs (λ q m. h q (inr m)))

  All-select :
      (P : Provider World → Type 0) (test : Provider World → Bool) (ps : Providers World)
      → All P ps
      → All P (select test ps)
  All-select P test [] h = tt
  All-select P test (p ∷ ps) h = elim (Bool-cases (test p)) [
    | inl passes ↦ rw passes (h.0, All-select P test ps h.1)
    | inr fails ↦ rw fails (All-select P test ps h.1)
  ]

  is_candidate_iff :
      (min_capability : ℤ) (p : Provider World)
      → (is_candidate min_capability p ≡ true) ↔ Eligible min_capability p
  unfolding is_candidate
  is_candidate_iff min_capability p =
      (λ h. ((is_healthy_iff p.status).0 (ground arith), ground arith), λ h. rw (h.0, h.1) refl)

  Chosen-Cheapest :
      (min_capability : ℤ) (providers ys : Providers World)
      → All (λ q. Among q providers) ys
      → Chosen cheaper (is_candidate min_capability) providers (first ys)
      → Cheapest min_capability providers (first ys)
  unfolding cheaper
  Chosen-Cheapest min_capability providers [] among c =
      All-map (λ q. is_candidate min_capability q ≡ false) (λ q. Eligible min_capability q → ⊥)
        providers (λ q miss h. ground (arith, (is_candidate_iff min_capability q).1 h)) c
  Chosen-Cheapest min_capability providers (y ∷ ys) among c = (
    (is_candidate_iff min_capability y).0 c.0,
    among.0,
    All-map (λ q. is_candidate min_capability q ≡ true → cheaper q y ≡ false)
        (λ q.
          Eligible min_capability q → y.metadata.cost_per_1k_tokens ≤ q.metadata.cost_per_1k_tokens)
        providers (λ q f h. ground (arith, f ((is_candidate_iff min_capability q).1 h))) c.1,
  )

  -- The cost router chooses one of the providers that is healthy and has the required capability,
  -- and none of these costs less; it fails exactly where there is none, if the sort orders what it
  -- is given.
  pub select_cheapest-Cheapest :
      (sort : Sort World) (min_capability : ℤ) (providers : Providers World)
      → Sorted cheaper
          (select (is_candidate min_capability) providers)
          (sort cheaper (select (is_candidate min_capability) providers))
      → Cheapest min_capability providers (select_cheapest sort min_capability providers)
  unfolding select_cheapest
  select_cheapest-Cheapest sort min_capability providers s =
      Chosen-Cheapest min_capability providers _
        (s.kept (λ q. Among q providers)
          (All-select (λ q. Among q providers) (is_candidate min_capability) providers
            (All-Among providers providers (λ p m. m))))
        (first-Chosen cheaper (is_candidate min_capability) providers _ cheaper-irreflexive s)

  first_healthy-Chosen :
      (ys : Providers World)
      → Ordered prior ys
      → Chosen prior (λ p. is_healthy p.status) ys (select_first ys)
  unfolding select_first
  first_healthy-Chosen [] o = tt
  first_healthy-Chosen (y ∷ ys) o = elim (Bool-cases (is_healthy y.status)) [
    | inl well ↦
        rw (well, select_first)
          (
            well,
            (
              (λ e. prior-irreflexive y),
              All-map (λ z. prior z y ≡ false) (λ z. is_healthy z.status ≡ true → prior z y ≡ false)
                  ys (λ z h e. h) o.0,
            ),
          )
    | inr ill ↦ rw (ill, select_first) (skip (select_first ys) ill (first_healthy-Chosen ys o.1))
  ]
    where
      skip :
          (r : Result NoProvider (Provider World))
          → is_healthy y.status ≡ false
          → Chosen prior (λ p. is_healthy p.status) ys r
          → Chosen prior (λ p. is_healthy p.status) (y ∷ ys) r
      skip (ok p) ill c = (c.0, ((λ e. absurd (ground arith)), c.1))
      skip (err e) ill c = (ill, c)

  -- The fallback router chooses a healthy provider such that no healthy one has a higher priority,
  -- and fails exactly where no provider is healthy, if the sort orders what it is given.
  pub select_first-Chosen :
      (sort : Sort World) (providers : Providers World)
      → Sorted prior providers (sort prior providers)
      → Chosen prior
          (λ p. is_healthy p.status)
          providers
          (select_first (new_fallback_router sort providers))
  unfolding new_fallback_router
  select_first-Chosen sort providers s =
      unsort (select_first (sort prior providers))
        (first_healthy-Chosen (sort prior providers) s.ordered)
    where
      unsort :
          (r : Result NoProvider (Provider World))
          → Chosen prior (λ p. is_healthy p.status) (sort prior providers) r
          → Chosen prior (λ p. is_healthy p.status) providers r
      unsort (ok p) c = (c.0, s.complete (λ q. is_healthy q.status ≡ true → prior q p ≡ false) c.1)
      unsort (err e) c = s.complete (λ q. is_healthy q.status ≡ false) c
