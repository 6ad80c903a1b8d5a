-- ===== src/Engine/Pool/Ending.antt =====
-- core/event_loop.go: a Stop that has begun can end.
use aethercore.Prelude.{
  ℕ, zero, suc, ◌+◌, ◌*◌, ◌≤◌, ◌<◌, ◌≡◌, refl, ap, ◌⊎◌, inl, inr, arith, true, false, Bool-cases,
  List, [], ◌∷◌, length, length-append, ltb,
}
use aethercore.Engine.Task.{Adapter, Engine, Run, execute_ephemeral}
use aethercore.Engine.Pool.{Pool, begin_stop, result_of}
use aethercore.Engine.Pool.Conserved.{
  Step, worker_sends, worker_quits, reader_takes, stop_ends, Reach, here, next,
}

list_cases : {A : Type 0} (xs : List A) → (xs ≡ []) ⊎ ((x : A) × (ys : List A) × (xs ≡ x ∷ ys))
list_cases [] = inl refl
list_cases (x ∷ xs) = inr (x, xs, refl)

nat_cases : (n : ℕ) → (n ≡ 0) ⊎ ((k : ℕ) × (n ≡ suc k))
nat_cases zero = inl refl
nat_cases (suc k) = inr (k, refl)

-- What the workers and the reader have still to do.
abbrev pub work_left : Pool → ℕ
work_left p = 3 * length p.busy + p.idle + length p.result_queue

module _ {World : Type 0} (adapter : Adapter World) (e : Engine World) where
  then_reach : {p q r : Pool} → Step adapter e p q → Reach adapter e q r → Reach adapter e p r
  then_reach s here = next here s
  then_reach s (next r s') = next (then_reach s r) s'

  -- The end of Stop, or a step towards it.
  abbrev Advances : Pool → Type 0
  Advances p =
      (q : Pool) × Step adapter e p q
      × ((q.closed ≡ true)
          ⊎ ((q.quit ≡ true) × (q.queue_size ≡ p.queue_size) × (work_left q < work_left p)))

  advances :
      (p : Pool) → Run World → p.quit ≡ true → p.closed ≡ false → 1 ≤ p.queue_size → Advances p
  advances p s quit open_ room = elim (list_cases p.busy) [
    | inl none_busy ↦ elim (nat_cases p.idle) [
      | inl none_idle ↦ (_, stop_ends p quit none_idle none_busy, inl refl)
      | inr (k, idle) ↦ (_, worker_quits p k quit idle, inr (quit, refl, omega (arith, idle)))
    ]
    | inr (t, ts, busy) ↦ elim (Bool-cases (ltb (length p.result_queue) p.queue_size)) [
      | inl fits ↦ (
        _,
        worker_sends p [] ts t s busy (ground arith) open_,
        inr (
          quit,
          refl,
          omega (
            arith,
            ap length busy,
            length-append {0} p.result_queue (result_of t (execute_ephemeral adapter e t s).0 ∷ []),
          ),
        ),
      )
      | inr full ↦ elim (list_cases p.result_queue) [
        | inl empty ↦ absurd (ground (arith, ap length empty))
        | inr (r, rs, waiting) ↦
            (_, reader_takes p r rs waiting, inr (quit, refl, omega (arith, ap length waiting)))
      ]
    ]
  ]

  ends_within :
      (n : ℕ) (p : Pool)
      → Run World
      → p.quit ≡ true
      → 1 ≤ p.queue_size
      → work_left p < n
      → (q : Pool) × Reach adapter e p q × (q.closed ≡ true)
  ends_within zero p s quit room h = absurd (omega arith)
  ends_within (suc n) p s quit room h = elim (Bool-cases p.closed) [
    | inl closed ↦ (p, here, closed)
    | inr open_ ↦ further (advances p s quit open_ room) (λ q. ends_within n q s)
  ]
    where
      further :
          Advances p
          → ((q : Pool)
              → q.quit ≡ true
              → 1 ≤ q.queue_size
              → work_left q < n
              → (r : Pool) × Reach adapter e q r × (r.closed ≡ true))
          → (q : Pool) × Reach adapter e p q × (q.closed ≡ true)
      further (q, step, inl closed) rest = (q, next here step, closed)
      further (q, step, inr (quit', size, less)) rest =
          let (r, reach, closed) = rest q quit' (omega (arith, size)) (omega (arith, less)) in
          (r, then_reach step reach, closed)

  -- A Stop that has begun can end, from every state of the queues and whatever tasks are running:
  -- the workers and a reader have steps that lead to it. A queue has room for at least one result.
  pub begin_stop-ends :
      (p : Pool)
      → Run World
      → 1 ≤ p.queue_size
      → (q : Pool) × Reach adapter e (begin_stop p) q × (q.closed ≡ true)
  unfolding begin_stop
  begin_stop-ends p s room =
      ends_within (suc (work_left (begin_stop p))) (begin_stop p) s refl room (omega arith)
