-- ===== src/Audit/Chain/Tests.antt =====
-- Instances of the theorems of core/audit/chain.go, over a small stand-in for the parameters.
use aethercore.Prelude.{
  ℕ, ◌+◌, ◌*◌, ◌≡◌, refl, true, false, none, some, List, [], ◌∷◌, ◌++◌, ◌⊎◌, arith,
}
use aethercore.Prelude.Text.{Text, codes, itoa, itoa-Free}
use aethercore.Audit.Event.{Event, Block}
use aethercore.Audit.Chain.{
  Host, ChainManager, new_chain_manager, next_block, verify_chain, verify_from, log_events,
  calculate_hash, record_text, tampered,
}
use aethercore.Audit.Chain.Verify.{logged, log_events-verify}
use aethercore.Audit.Chain.Commitment.{IsStandard, Clash, AllSame, verify_chain-commits}

abbrev sum : Text → ℕ
sum [] = 0
sum (c ∷ s) = c + 2 * sum s

abbrev toy : Host
toy = record {
  marshal = λ e. some (codes e.actor);
  format_time = λ t. itoa t ++ b'Z' ∷ [];
  sha256_hex = λ x. itoa (sum x);
}

toy-IsStandard : IsStandard toy
toy-IsStandard = record {
  hex = λ x. itoa-Free b':' (sum x) (omega arith);
  stem = itoa;
  stem_free = λ t. itoa-Free b'Z' t (omega arith);
  zulu = λ t. refl;
}

abbrev login : Event
login = record { id = "e1"; timestamp = 7; kind = "AUTH_LOGIN"; actor = "u1"; metadata = [] }

abbrev genesis_block : Block
genesis_block = record {
  index = 0;
  timestamp = 1;
  event = record { id = ""; timestamp = 0; kind = "SYSTEM_INIT"; actor = "kernel"; metadata = [] };
  previous_hash = codes "0";
  hash = codes "17";
}

abbrev first : Block
first = next_block toy 8 login genesis_block

abbrev chain : ChainManager
chain = record { blocks = genesis_block ∷ first ∷ [] }

chain_accepted : verify_chain toy chain ≡ (true, none)
unfolding verify_chain verify_from next_block calculate_hash record_text itoa
chain_accepted = refl

tampering_is_seen :
    verify_chain toy (record {
      blocks = genesis_block ∷ record first { event = record login { actor = "u2" } } ∷ [];
    })
    ≡ (false, some tampered)
unfolding verify_chain verify_from next_block calculate_hash record_text itoa
tampering_is_seen = refl

log_events-verify_example :
    (genesis : Block) × (blocks : List Block) × (log_events toy
        (new_chain_manager toy 3)
        ((8, login) ∷ [])
      ≡ some (record { blocks = genesis ∷ blocks }))
    × (logged toy blocks ≡ (8, login) ∷ [])
    × (verify_chain toy (record { blocks = genesis ∷ blocks }) ≡ (true, none))
log_events-verify_example = log_events-verify toy 3 ((8, login) ∷ [])

-- The same actor in another event: what is printed is the same.
abbrev second : Block
second = record first { event = record login { id = "e2" } }

second_accepted : verify_chain toy (record { blocks = genesis_block ∷ second ∷ [] }) ≡ (true, none)
unfolding verify_chain verify_from next_block calculate_hash record_text itoa
second_accepted = refl

verify_chain-commits_example :
    Clash toy (first ∷ []) (second ∷ [])
    ⊎ (AllSame toy (first ∷ []) (second ∷ []) × (genesis_block.hash ≡ genesis_block.hash))
unfolding next_block
verify_chain-commits_example =
    verify_chain-commits toy toy-IsStandard genesis_block genesis_block (first ∷ []) (second ∷ [])
      (omega arith) (omega arith) ((codes "u1", refl), tt) ((codes "u1", refl), tt) chain_accepted
      second_accepted refl refl
