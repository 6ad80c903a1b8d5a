-- ===== src/Audit/Chain.antt =====
-- core/audit/chain.go: the hash chain. `json.Marshal`, the layout of a time and SHA-256 are
-- parameters; `time.Now` is an argument.
pub mod Verify
pub mod Commitment
mod Tests
use aethercore.Prelude.{
  ℕ, ◌+◌, ◌%◌, ◌^◌, Bool, true, false, Option, none, some, List, [], ◌∷◌, ◌++◌, ◌==◌, eq_list,
  eq_nat, if◌then◌else◌,
}
use aethercore.Prelude.Text.{Text, codes, itoa}
use aethercore.Audit.Event.{Event, Block}

-- What the chain takes from Go's standard library.
pub record Host : Type 0 where
  pub marshal : Event → Option Text
  pub format_time : ℕ → Text
  pub sha256_hex : Text → Text

pub data VerifyError : Type 0 where
  broken_link tampered : VerifyError

-- ChainManager
pub record ChainManager : Type 0 where
  pub blocks : List Block

abbrev pub genesis_previous : Text
genesis_previous = codes "0000000000000000000000000000000000000000000000000000000000000000"

abbrev pub last? : List Block → Option Block
last? [] = none
last? (b ∷ []) = some b
last? (b ∷ c ∷ rest) = last? (c ∷ rest)

module _ (host : Host) where
  -- the text of `fmt.Sprintf("%d:%s:%s:%s", …)`
  unfoldable pub record_text : Block → Text → Text
  record_text b event_bytes =
      itoa b.index
      ++ (b':'
          ∷ (host.format_time b.timestamp ++ (b':' ∷ (b.previous_hash ++ (b':' ∷ event_bytes)))))

  unfoldable pub calculate_hash : Block → Text
  calculate_hash b = elim (host.marshal b.event) [
    | none ↦ codes "invalid-json-hash"
    | some event_bytes ↦ host.sha256_hex (record_text b event_bytes)
  ]

  unfoldable pub new_chain_manager : ℕ → ChainManager
  new_chain_manager now =
      let genesis : Block = record {
        index = 0;
        timestamp = now;
        event = record {
          id = "";
          timestamp = 0;
          kind = "SYSTEM_INIT";
          actor = "kernel";
          metadata = [];
        };
        previous_hash = genesis_previous;
        hash = [];
      } in
      record { blocks = record genesis { hash = calculate_hash genesis } ∷ [] }

  unfoldable pub next_block : ℕ → Event → Block → Block
  next_block now event prev =
      let b : Block = record {
        index = (prev.index + 1) % 2 ^ 64;
        timestamp = now;
        event = event;
        previous_hash = prev.hash;
        hash = [];
      } in
      record b { hash = calculate_hash b }

  -- Append. `none` is the panic of `c.blocks[len(c.blocks)-1]` on an empty chain.
  unfoldable pub append : ChainManager → ℕ → Event → Option (ChainManager × Block)
  append c now event = elim (last? c.blocks) [
    | none ↦ none
    | some prev ↦
        let b = next_block now event prev in some (record { blocks = c.blocks ++ b ∷ [] }, b)
  ]

  -- the loop of VerifyChain; `prev` is `c.blocks[i-1]`
  unfoldable pub verify_from : Block → List Block → Bool × Option VerifyError
  verify_from prev [] = (true, none)
  verify_from prev (curr ∷ rest) =
      if curr.previous_hash == prev.hash
      then (if calculate_hash curr == curr.hash
          then verify_from curr rest
          else (false, some tampered))
      else (false, some broken_link)

  unfoldable pub verify_chain : ChainManager → Bool × Option VerifyError
  verify_chain c = elim c.blocks [ [] ↦ (true, none) | genesis ∷ rest ↦ verify_from genesis rest ]

  -- LogEvent, once for each event with the time at which it comes
  unfoldable pub log_events : ChainManager → List (ℕ × Event) → Option ChainManager
  log_events c [] = some c
  log_events c ((now, event) ∷ rest) = elim (append c now event) [
    | none ↦ none
    | some (c', _) ↦ log_events c' rest
  ]
