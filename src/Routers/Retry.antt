-- ===== src/Routers/Retry.antt =====
-- core/llm/retry.go: how often the provider tries, and what its answers are.
use aethercore.Prelude.{
  ℕ, zero, suc, ◌+◌, ◌*◌, ◌^◌, ◌≤◌, ◌≡◌, refl, inl, inr, ◌⊎◌, arith, Bool-cases, Option-cases,
  Option, none, some, [], nat_eq,
}
use aethercore.Prelude.Int.{ℤ, pos, negsuc}
use aethercore.Prelude.Result.{ok, Result-cases}
use aethercore.Prelude.Text.{Text}
use aethercore.Routers.{Provider, attempts, try_again, execute_retrying}

module _ {World : Type 0} (base : Provider World) (wait : ℕ → World → Option Text × World)
    (task : Text) where
  module _ (cost : World → ℕ) (price : ℕ)
      (priced : (w : World) → cost (base.execute task w).1 ≤ cost w + price)
      (waits : (n : ℕ) (w : World) → cost (wait n w).1 ≤ cost w) where
    try_again-cost :
        (left i : ℕ) (last_err : Option Text) (w : World)
        → cost (try_again base wait task left i last_err w).1 ≤ cost w + left * price
    unfolding try_again
    try_again-cost zero i last_err w = omega arith
    try_again-cost (suc left) i last_err w =
        let w1 = (base.execute task w).1 in
        let w2 = (wait (2 ^ i * 100) w1).1 in
        elim (Result-cases (base.execute task w).0) [
          | inl (out, e) ↦ rw (e, try_again) (omega (arith, priced w))
          | inr (x, e) ↦ elim (Bool-cases (nat_eq left 0)) [
            | inl last ↦ rw (e, last, try_again) (omega (arith, priced w))
            | inr more ↦ elim (Option-cases (wait (2 ^ i * 100) w1).0) [
              | inr (y, ended) ↦
                  rw (e, more, ended, try_again) (omega (arith, priced w, waits (2 ^ i * 100) w1))
              | inl passed ↦
                  rw (e, more, passed, try_again)
                    (omega (
                      arith,
                      priced w,
                      waits (2 ^ i * 100) w1,
                      try_again-cost left (i + 1) (some x) w2,
                    ))
            ]
          ]
        ]

    -- Where one attempt costs at most `price` and waiting costs nothing, Execute costs at most the
    -- price times the number of retries that is set, and nothing for a number below one: it makes
    -- no more attempts.
    pub execute_retrying-cost :
        (max_retries : ℤ) (w : World)
        → cost (execute_retrying base wait max_retries task w).1
          ≤ cost w + attempts max_retries * price
    unfolding execute_retrying
    execute_retrying-cost max_retries w = try_again-cost (attempts max_retries) 0 none w

  try_again-ok :
      (left i : ℕ) (x : Text) (w : World)
      → (try_again base wait task left i (some x) w).0.1 ≡ none
      → (v : World) × ((base.execute task v).0
          ≡ ok (try_again base wait task left i (some x) w).0.0)
  unfolding try_again
  try_again-ok zero i x w = λ h. cc
  try_again-ok (suc left) i x w =
      let w1 = (base.execute task w).1 in
      elim (Result-cases (base.execute task w).0) [
        | inl (out, e) ↦ rw (e, try_again) (λ h. (w, e))
        | inr (y, e) ↦ elim (Bool-cases (nat_eq left 0)) [
          | inl last ↦ rw (e, last, try_again) (λ h. cc)
          | inr more ↦ elim (Option-cases (wait (2 ^ i * 100) w1).0) [
            | inr (z, ended) ↦ rw (e, more, ended, try_again) (λ h. cc)
            | inl passed ↦
                rw (e, more, passed, try_again)
                  (try_again-ok left (i + 1) y (wait (2 ^ i * 100) w1).1)
          ]
        ]
      ]

  -- With at least one attempt, an answer without an error is one that the provider itself gave;
  -- with none, Execute answers the empty text without an error and without asking the provider.
  pub execute_retrying-ok :
      (max_retries : ℤ) (w : World)
      → ((attempts max_retries ≡ 0)
          × (execute_retrying base wait max_retries task w ≡ (([], none), w)))
        ⊎ ((execute_retrying base wait max_retries task w).0.1 ≡ none
            → (v : World) × ((base.execute task v).0
                ≡ ok (execute_retrying base wait max_retries task w).0.0))
  unfolding execute_retrying try_again
  execute_retrying-ok (pos zero) w = inl (refl, refl)
  execute_retrying-ok (pos (suc n)) w = inr (try_again-ok (suc n) 0 [] w)
  execute_retrying-ok (negsuc n) w = inl (refl, refl)
