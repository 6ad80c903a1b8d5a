-- ===== src/Scheduler/Cron/Next.antt =====
-- NextAfter finds the first matching minute of its window.
use aethercore.Prelude.{
  ℕ, zero, suc, ◌+◌, ◌*◌, ◌%◌, ◌≤◌, ◌<◌, ◌≡◌, refl, sym, ◌∙◌, ap, ◌⊎◌, inl, inr, true, false,
  Bool-cases, arith,
}
use aethercore.Scheduler.Cron.{
  Civil, CronExpr, matches, search_from, next_after, truncate_minute, minute_ns, max_iter,
}

module _ (civil : ℕ → Civil) (c : CronExpr) where
  -- `t` is the first of the `n` minutes from `start` on at which the expression matches.
  abbrev pub IsFirst : ℕ → ℕ → ℕ → Type 0
  IsFirst n start t =
      (i : ℕ) × (i < n)
      × (t ≡ start + i * minute_ns)
      × (matches civil c t ≡ true)
      × ((j : ℕ) → j < i → matches civil c (start + j * minute_ns) ≡ false)

  -- No minute of the window matches.
  abbrev pub NoMatch : ℕ → ℕ → Type 0
  NoMatch n start = (j : ℕ) → j < n → matches civil c (start + j * minute_ns) ≡ false

  shift : (start j : ℕ) → start + minute_ns + j * minute_ns ≡ start + suc j * minute_ns
  shift start j = omega arith

  shifted :
      (start n : ℕ)
      → matches civil c start ≡ false
      → ((j : ℕ) → j < n → matches civil c (start + minute_ns + j * minute_ns) ≡ false)
      → (j : ℕ) → j < suc n
      → matches civil c (start + j * minute_ns) ≡ false
  shifted start n h later zero lt = ap (matches civil c) (omega arith) ∙ h
  shifted start n h later (suc j) lt =
      ap (matches civil c) (sym (shift start j)) ∙ later j (omega arith)

  search-cases :
      (n start : ℕ)
      → IsFirst n start (search_from civil n c start)
        ⊎ ((search_from civil n c start ≡ 0) × NoMatch n start)
  unfolding search_from
  search-cases zero start = inr (refl, λ j h. absurd (omega arith))
  search-cases (suc n) start = elim (Bool-cases (matches civil c start)) [
    | inl hit ↦ inl (
      0,
      omega arith,
      rw (hit, search_from) (omega arith),
      rw (hit, search_from) hit,
      λ j h. absurd (omega arith),
    )
    | inr miss ↦
        let skip : search_from civil (suc n) c start ≡ search_from civil n c (start + minute_ns) =
          rw (miss, search_from) refl in
        elim (search-cases n (start + minute_ns)) [
          | inl (i, lt, at, hit, before) ↦ inl (
            suc i,
            omega arith,
            skip ∙ at ∙ shift start i,
            ap (matches civil c) skip ∙ hit,
            shifted start i miss before,
          )
          | inr (none, before) ↦ inr (skip ∙ none, shifted start n miss before)
        ]
  ]

  -- NextAfter looks at the whole minutes behind `t`, the first of them at most a minute later, as
  -- many as 366 days have. It returns the first at which the expression matches, or the zero time
  -- when it matches at none of them.
  pub next_after-IsFirst :
      (t : ℕ)
      → (t < truncate_minute t + minute_ns)
        × (truncate_minute t + minute_ns ≤ t + minute_ns)
        × (truncate_minute t % minute_ns ≡ 0)
        × (IsFirst max_iter (truncate_minute t + minute_ns) (next_after civil c t)
            ⊎ ((next_after civil c t ≡ 0) × NoMatch max_iter (truncate_minute t + minute_ns)))
  unfolding next_after truncate_minute
  next_after-IsFirst t =
      (omega arith, omega arith, omega arith, search-cases max_iter (truncate_minute t + minute_ns))
