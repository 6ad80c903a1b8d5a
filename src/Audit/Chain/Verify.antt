-- ===== src/Audit/Chain/Verify.antt =====
-- VerifyChain against a description of a linked chain, and what `Append` keeps.
use aethercore.Prelude.{
  ℕ, ◌≡◌, refl, ◌↔◌, true, none, some, List, [], ◌∷◌, ◌++◌, map, append-nil, append_assoc, ap, sym,
  ◌∙◌, eq_list, eq_nat, list_eq_iff, arith,
}
use mathlib.Core.List.{map-append}
use aethercore.Audit.Event.{Event, Block}
use aethercore.Audit.Chain.{
  Host, ChainManager, record_text, last?, calculate_hash, next_block, append, new_chain_manager,
  verify_from, verify_chain, log_events,
}

module _ (host : Host) where
  -- Each block names the hash of the one before it, and carries the hash of its own content.
  abbrev pub Linked : Block → List Block → Type 0
  Linked prev [] = Unit
  Linked prev (curr ∷ rest) =
      (curr.previous_hash ≡ prev.hash) × (calculate_hash host curr ≡ curr.hash) × Linked curr rest

  abbrev pub IsLinked : List Block → Type 0
  IsLinked [] = Unit
  IsLinked (genesis ∷ rest) = Linked genesis rest

  verify_from-Linked :
      (prev : Block) (rest : List Block)
      → verify_from host prev rest ≡ (true, none)
      → Linked prev rest
  unfolding verify_from
  verify_from-Linked prev [] h = tt
  verify_from-Linked prev (curr ∷ rest) h = ground (
    arith,
    list_eq_iff curr.previous_hash prev.hash,
    list_eq_iff (calculate_hash host curr) curr.hash,
    verify_from-Linked curr rest,
  )

  Linked-verify_from :
      (prev : Block) (rest : List Block)
      → Linked prev rest
      → verify_from host prev rest ≡ (true, none)
  unfolding verify_from
  Linked-verify_from prev [] h = refl
  Linked-verify_from prev (curr ∷ rest) h = ground (
    arith,
    list_eq_iff curr.previous_hash prev.hash,
    list_eq_iff (calculate_hash host curr) curr.hash,
    Linked-verify_from curr rest h.2,
  )

  -- VerifyChain answers (true, nil) exactly on the chains in which every block but the first
  -- names the stored hash of its predecessor and stores the hash of its own content.
  pub verify_chain_iff :
      (c : ChainManager) → (verify_chain host c ≡ (true, none)) ↔ IsLinked c.blocks
  unfolding verify_chain
  verify_chain_iff c = by_blocks c.blocks
    where
      by_blocks :
          (bs : List Block)
          → (verify_chain host (record { blocks = bs }) ≡ (true, none)) ↔ IsLinked bs
      by_blocks [] = (λ _. tt, λ _. refl)
      by_blocks (g ∷ rest) = (verify_from-Linked g rest, Linked-verify_from g rest)

  Linked-snoc :
      (prev : Block) (rest : List Block) (p b : Block)
      → last? (prev ∷ rest) ≡ some p
      → Linked prev rest
      → b.previous_hash ≡ p.hash
      → calculate_hash host b ≡ b.hash
      → Linked prev (rest ++ b ∷ [])
  Linked-snoc prev [] p b e l q r = ground arith
  Linked-snoc prev (curr ∷ rest) p b e l q r = (l.0, l.1, Linked-snoc curr rest p b e l.2 q r)

  hash-next_block :
      (now : ℕ) (event : Event) (prev : Block)
      → calculate_hash host (next_block host now event prev) ≡ (next_block host now event prev).hash
  unfolding next_block calculate_hash record_text
  hash-next_block now event prev = refl

  last?-cons : (b : Block) (rest : List Block) → (p : Block) × (last? (b ∷ rest) ≡ some p)
  last?-cons b [] = (b, refl)
  last?-cons b (c ∷ rest) = last?-cons c rest

  -- What one Append of a non-empty linked chain gives.
  pub append_lem :
      (genesis : Block) (rest : List Block) (now : ℕ) (event : Event)
      → Linked genesis rest
      → (b : Block) × (append host (record { blocks = genesis ∷ rest }) now event
          ≡ some (record { blocks = genesis ∷ (rest ++ b ∷ []) }, b))
        × Linked genesis (rest ++ b ∷ [])
        × (b.event ≡ event)
        × (b.timestamp ≡ now)
  unfolding append next_block
  append_lem genesis rest now event l =
      let (p, e) = last?-cons genesis rest in
      let b = next_block host now event p in
      (
        b,
        rw (e, append),
        Linked-snoc genesis rest p b e l refl (hash-next_block now event p),
        refl,
        refl,
      )

  -- The recorded (time, event) pairs of a chain.
  abbrev pub logged : List Block → List (ℕ × Event)
  logged = map (λ b. (b.timestamp, b.event))

  log_from :
      (genesis : Block) (rest : List Block) (events : List (ℕ × Event))
      → Linked genesis rest
      → (blocks : List Block) × (log_events host (record { blocks = genesis ∷ rest }) events
          ≡ some (record { blocks = genesis ∷ blocks }))
        × Linked genesis blocks
        × (logged blocks ≡ logged rest ++ events)
  unfolding log_events
  log_from genesis rest [] l = (rest, refl, l, sym (append-nil (logged rest)))
  log_from genesis rest ((now, event) ∷ events) l =
      let (b, appended, linked, e, s) = append_lem genesis rest now event l in
      let (blocks, result, linked', recorded) = log_from genesis (rest ++ b ∷ []) events linked in
      (
        blocks,
        rw (appended, log_events) result,
        linked',
        recorded
            ∙ ap (λ l. l ++ events)
                (map-append (λ (b : Block). (b.timestamp, b.event)) rest (b ∷ []))
            ∙ append_assoc (logged rest) (logged (b ∷ [])) events
            ∙ ap (λ (x : ℕ × Event). logged rest ++ (x ∷ events)) (λ i. (s i, e i)),
      )

  -- Logging any events on a new chain succeeds; behind its genesis block the chain holds the events
  -- with their times, in order, and VerifyChain accepts it.
  pub log_events-verify :
      (start : ℕ) (events : List (ℕ × Event))
      → (genesis : Block) × (blocks : List Block) × (log_events host
            (new_chain_manager host start)
            events
          ≡ some (record { blocks = genesis ∷ blocks }))
        × (logged blocks ≡ events)
        × (verify_chain host (record { blocks = genesis ∷ blocks }) ≡ (true, none))
  unfolding new_chain_manager
  log_events-verify start events =
      let (blocks, result, linked, recorded) = log_from _ [] events tt in
      (_, blocks, result, recorded, (verify_chain_iff (record { blocks = _ ∷ blocks })).1 linked)

  -- The first block is never checked: whatever event it is given, VerifyChain answers the same.
  pub verify_chain-genesis :
      (genesis : Block) (rest : List Block) (event : Event)
      → verify_chain host (record { blocks = record genesis { event = event } ∷ rest })
        ≡ verify_chain host (record { blocks = genesis ∷ rest })
  unfolding verify_chain verify_from
  verify_chain-genesis genesis [] event = refl
  verify_chain-genesis genesis (curr ∷ rest) event = refl
