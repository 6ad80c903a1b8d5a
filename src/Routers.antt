-- ===== src/Routers.antt =====
-- core/llm: the routers that choose a provider (cost_router.go, latency_router.go,
-- fallback_router.go), the provider that tries again (retry.go), and orchestrator.go. A price is in a unit in which
-- all prices are whole; `sort.Slice`, which leaves equal elements in any order, is a parameter.
pub mod Choice
pub mod Retry
mod Tests
use aethercore.Prelude.{
  ℕ, zero, suc, ◌+◌, ◌*◌, ◌^◌, Bool, true, false, ◌&&◌, not, Option, none, some, List, [], ◌∷◌, ltb,
  nat_eq, select, if◌then◌else◌,
}
use aethercore.Prelude.Int.{ℤ, pos, negsuc, ltb_ℤ}
use aethercore.Prelude.Result.{Result, ok, err}
use aethercore.Prelude.Text.{Text, codes}

pub data Status : Type 0 where
  healthy degraded offline : Status

pub record ModelMetadata : Type 0 where
  pub cost_per_1k_tokens : ℕ
  pub latency_millis : ℤ
  pub capability_rank : ℤ

-- The interface Provider; Execute acts on a world.
pub record Provider (World : Type 0) : Type 0 where
  pub name : Text
  pub status : Status
  pub priority : ℤ
  pub metadata : ModelMetadata
  pub execute : Text → World → Result Text Text × World

abbrev pub is_healthy : Status → Bool
is_healthy healthy = true
is_healthy degraded = false
is_healthy offline = false

-- The error where no provider is left.
pub data NoProvider : Type 0 where
  no_provider : NoProvider

abbrev pub Providers : Type 0 → Type 0
Providers World = List (Provider World)

-- a sort by the given `less`
abbrev pub Sort : Type 0 → Type 0
Sort World = (Provider World → Provider World → Bool) → Providers World → Providers World

-- the attempts that the loop of Execute makes at most
abbrev pub attempts : ℤ → ℕ
attempts (pos n) = n
attempts (negsuc n) = 0

module _ {World : Type 0} where
  abbrev pub first : Providers World → Result NoProvider (Provider World)
  first [] = err no_provider
  first (p ∷ ps) = ok p

  unfoldable pub cheaper : Provider World → Provider World → Bool
  cheaper p q = ltb p.metadata.cost_per_1k_tokens q.metadata.cost_per_1k_tokens

  unfoldable pub faster : Provider World → Provider World → Bool
  faster p q = ltb_ℤ p.metadata.latency_millis q.metadata.latency_millis

  unfoldable pub prior : Provider World → Provider World → Bool
  prior p q = ltb_ℤ p.priority q.priority

  unfoldable pub is_candidate : ℤ → Provider World → Bool
  is_candidate min_capability p =
      is_healthy p.status && not (ltb_ℤ p.metadata.capability_rank min_capability)

  -- CostRouter.Select
  unfoldable pub select_cheapest :
      Sort World → ℤ → Providers World → Result NoProvider (Provider World)
  select_cheapest sort min_capability providers =
      first (sort cheaper (select (is_candidate min_capability) providers))

  -- LatencyRouter.Select
  unfoldable pub select_fastest : Sort World → Providers World → Result NoProvider (Provider World)
  select_fastest sort providers = first (sort faster (select (λ p. is_healthy p.status) providers))

  -- NewFallbackRouter
  unfoldable pub new_fallback_router : Sort World → Providers World → Providers World
  new_fallback_router sort providers = sort prior providers

  -- FallbackRouter.Select
  unfoldable pub select_first : Providers World → Result NoProvider (Provider World)
  select_first [] = err no_provider
  select_first (p ∷ ps) = let rest = select_first ps in if is_healthy p.status then ok p else rest

  -- the loop of RetryingProvider.Execute with the attempts left and the number of this one; `wait`
  -- waits for so many milliseconds and gives the error of a context that ends before
  unfoldable pub try_again :
      Provider World
      → (ℕ → World → Option Text × World)
      → Text
      → ℕ
      → ℕ
      → Option Text
      → World
      → (Text × Option Text) × World
  try_again base wait task zero i last_err w = (([], last_err), w)
  try_again base wait task (suc left) i last_err w =
      let (r, w1) = base.execute task w in
      elim r [
        | ok out ↦ ((out, none), w1)
        | err e ↦ elim (nat_eq left 0) [
          | true ↦ (([], some e), w1)
          | false ↦
              let (ended, w2) = wait (2 ^ i * 100) w1 in
              elim ended [
                | some x ↦ (([], some x), w2)
                | none ↦ try_again base wait task left (i + 1) (some e) w2
              ]
        ]
      ]

  -- RetryingProvider.Execute
  unfoldable pub execute_retrying :
      Provider World
      → (ℕ → World → Option Text × World)
      → ℤ
      → Text
      → World
      → (Text × Option Text) × World
  unfolding try_again
  execute_retrying base wait max_retries task w =
      try_again base wait task (attempts max_retries) 0 none w

  -- Orchestrator.Execute: what a router selects runs the task
  unfoldable pub orchestrate :
      Result NoProvider (Provider World) → Text → World → Result Text Text × World
  orchestrate (err e) task w = (err (codes "router_selection_failed"), w)
  orchestrate (ok provider) task w = provider.execute task w
