-- ===== src/Audit/Chain/Commitment.antt =====
-- The head hash of a verified chain fixes every block before it, up to a collision of SHA-256.
use aethercore.Prelude.{
  ℕ, ◌≡◌, ◌≢◌, sym, ap, ◌∙◌, ◌⊎◌, inl, inr, true, none, some, List, [], ◌∷◌, ◌++◌, length, All,
  append_assoc, subst, ◌==◌, eq_list, eq_nat, list_eq_iff, Bool-cases, arith,
}
use aethercore.Prelude.Text.{Text, Free, itoa, itoa-Free, parted_once}
use aethercore.Audit.Event.{Block}
use aethercore.Audit.Chain.{Host, calculate_hash, record_text, verify_chain}
use aethercore.Audit.Chain.Verify.{Linked, verify_chain_iff}

-- What Go documents of the parameters: a digest in hexadecimal holds no colon, and a UTC time in
-- RFC 3339 ends in its only `Z`.
pub record IsStandard (host : Host) : Type 0 where
  pub hex : (x : Text) → Free b':' (host.sha256_hex x)
  pub stem : ℕ → Text
  pub stem_free : (t : ℕ) → Free b'Z' (stem t)
  pub zulu : (t : ℕ) → host.format_time t ≡ stem t ++ b'Z' ∷ []

module _ (host : Host) where
  -- The block's event has a JSON text.
  abbrev pub Marshals : Block → Type 0
  Marshals b = (bytes : Text) × (host.marshal b.event ≡ some bytes)

  -- The two blocks are a collision of SHA-256: different printed records, one digest.
  abbrev pub ClashAt : Block → Block → Type 0
  ClashAt b c =
      (x : Text) × (y : Text) × (host.marshal b.event ≡ some x)
      × (host.marshal c.event ≡ some y)
      × (record_text host b x ≢ record_text host c y)
      × (host.sha256_hex (record_text host b x) ≡ host.sha256_hex (record_text host c y))

  -- Two blocks at one place of the two lists are a collision.
  abbrev pub Clash : List Block → List Block → Type 0
  Clash (b ∷ bs) (c ∷ cs) = ClashAt b c ⊎ Clash bs cs
  Clash _ _ = ⊥

  -- The two blocks say the same: number, time, event and predecessor, as they are printed.
  abbrev pub SameContent : Block → Block → Type 0
  SameContent b c =
      (itoa b.index ≡ itoa c.index)
      × (host.format_time b.timestamp ≡ host.format_time c.timestamp)
      × (host.marshal b.event ≡ host.marshal c.event)
      × (b.previous_hash ≡ c.previous_hash)

  abbrev pub AllSame : List Block → List Block → Type 0
  AllSame (b ∷ bs) (c ∷ cs) = SameContent b c × AllSame bs cs
  AllSame [] [] = Unit
  AllSame _ _ = ⊥

  calculate_hash-some :
      (b : Block) (bytes : Text)
      → host.marshal b.event ≡ some bytes
      → calculate_hash host b ≡ host.sha256_hex (record_text host b bytes)
  unfolding calculate_hash
  calculate_hash-some b bytes e = rw (e, calculate_hash)

  abbrev pub head_hash : Block → List Block → Text
  head_hash prev [] = prev.hash
  head_hash prev (curr ∷ rest) = head_hash curr rest

  module _ (std : IsStandard host) where
    parted_time :
        (s t : ℕ) (x y : Text)
        → host.format_time s ++ (b':' ∷ x) ≡ host.format_time t ++ (b':' ∷ y)
        → (host.format_time s ≡ host.format_time t) × (x ≡ y)
    parted_time s t x y h =
        let (stems, rests) =
          parted_once b'Z' (std.stem s) (std.stem t) (b':' ∷ x) (b':' ∷ y) (std.stem_free s)
            (std.stem_free t)
            (sym (append_assoc (std.stem s) (b'Z' ∷ []) (b':' ∷ x))
              ∙ ap (λ z. z ++ (b':' ∷ x)) (sym (std.zulu s))
              ∙ h
              ∙ ap (λ z. z ++ (b':' ∷ y)) (std.zulu t)
              ∙ append_assoc (std.stem t) (b'Z' ∷ []) (b':' ∷ y)) in
        (std.zulu s ∙ ap (λ z. z ++ b'Z' ∷ []) stems ∙ sym (std.zulu t), cc rests)

    -- The printed record is read back in one way.
    record_text-inj :
        (b c : Block) (x y : Text)
        → Free b':' b.previous_hash
        → Free b':' c.previous_hash
        → record_text host b x ≡ record_text host c y
        → (itoa b.index ≡ itoa c.index)
          × (host.format_time b.timestamp ≡ host.format_time c.timestamp)
          × (b.previous_hash ≡ c.previous_hash)
          × (x ≡ y)
    unfolding record_text
    record_text-inj b c x y f g h =
        let (indices, rest) =
          parted_once b':' (itoa b.index) (itoa c.index) _ _ (itoa-Free b':' b.index (omega arith))
            (itoa-Free b':' c.index (omega arith)) h in
        let (times, rest') = parted_time b.timestamp c.timestamp _ _ rest in
        let (hashes, bytes) = parted_once b':' b.previous_hash c.previous_hash x y f g rest' in
        (indices, times, hashes, bytes)

    hash-Free : (b : Block) → Marshals b → calculate_hash host b ≡ b.hash → Free b':' b.hash
    hash-Free b (bytes, e) h =
        subst (Free b':') (sym (calculate_hash-some b bytes e) ∙ h)
          (std.hex (record_text host b bytes))

    same_block :
        (b c : Block)
        → Marshals b
        → Marshals c
        → Free b':' b.previous_hash
        → Free b':' c.previous_hash
        → calculate_hash host b ≡ calculate_hash host c
        → ClashAt b c ⊎ SameContent b c
    same_block b c (x, p) (y, q) f g h =
        let texts = list_eq_iff (record_text host b x) (record_text host c y) in
        let digests = sym (calculate_hash-some b x p) ∙ h ∙ calculate_hash-some c y q in
        elim (Bool-cases (record_text host b x == record_text host c y)) [
          | inl eq ↦
              let (indices, times, hashes, bytes) = record_text-inj b c x y f g (texts.0 eq) in
              inr (indices, times, p ∙ ap some bytes ∙ sym q, hashes)
          | inr ne ↦ inl (x, y, p, q, (λ e. cc (ne, texts.1 e)), digests)
        ]

    commit :
        (prev prev' : Block) (rest rest' : List Block)
        → Free b':' prev.hash
        → Free b':' prev'.hash
        → All Marshals rest
        → All Marshals rest'
        → Linked host prev rest
        → Linked host prev' rest'
        → length rest ≡ length rest'
        → head_hash prev rest ≡ head_hash prev' rest'
        → Clash rest rest' ⊎ (AllSame rest rest' × (prev.hash ≡ prev'.hash))
    commit prev prev' [] [] f f' m m' l l' n h = inr (tt, h)
    commit prev prev' [] (c ∷ r) f f' m m' l l' n h = absurd (omega arith)
    commit prev prev' (c ∷ r) [] f f' m m' l l' n h = absurd (omega arith)
    commit prev prev' (c ∷ r) (c' ∷ r') f f' m m' l l' n h =
        elim (commit c c' r r' (hash-Free c m.0 l.1) (hash-Free c' m'.0 l'.1) m.1 m'.1 l.2 l'.2
          (omega arith) h) [
            | inl collision ↦ inl (inr collision)
            | inr later ↦
                elim (same_block c c' m.0 m'.0 (subst (Free b':') (sym l.0) f)
                  (subst (Free b':') (sym l'.0) f') (l.1 ∙ later.1 ∙ sym l'.1)) [
                    | inl collision ↦ inl (inl collision)
                    | inr same ↦ inr ((same, later.0), sym l.0 ∙ same.3 ∙ l'.0)
                  ]
          ]

    -- Two chains of one length that VerifyChain accepts, with the same hash in their last block, have
    -- in every block behind the first the same printed number and time, the same JSON text of the
    -- event and the same hash of the predecessor, and the same stored hash in the first block; or the
    -- printed records of two blocks at one place differ and have one SHA-256 digest. The events have
    -- JSON texts, and the stored hashes of the first blocks, which VerifyChain does not look at,
    -- hold no colon.
    pub verify_chain-commits :
        (genesis genesis' : Block) (rest rest' : List Block)
        → Free b':' genesis.hash
        → Free b':' genesis'.hash
        → All Marshals rest
        → All Marshals rest'
        → verify_chain host (record { blocks = genesis ∷ rest }) ≡ (true, none)
        → verify_chain host (record { blocks = genesis' ∷ rest' }) ≡ (true, none)
        → length rest ≡ length rest'
        → head_hash genesis rest ≡ head_hash genesis' rest'
        → Clash rest rest' ⊎ (AllSame rest rest' × (genesis.hash ≡ genesis'.hash))
    verify_chain-commits g g' rest rest' f f' m m' v v' =
        commit g g' rest rest' f f' m m'
          ((verify_chain_iff host (record { blocks = g ∷ rest })).0 v)
          ((verify_chain_iff host (record { blocks = g' ∷ rest' })).0 v')
