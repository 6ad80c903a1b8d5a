-- ===== src/Audit/Event.antt =====
-- core/audit/event.go and block.go: the events of the trail and the blocks that carry them.
use aethercore.Prelude.{ℕ, String, GoMap}
use aethercore.Prelude.Text.{Text}

-- What the program stores under `interface{}`; `other` stands for any further Go value.
pub data Value : Type 0 where
  text : String → Value
  number : ℕ → Value
  other : ℕ → Value

-- Event. A time is its nanoseconds.
pub record Event : Type 0 where
  pub id : String
  pub timestamp : ℕ
  pub kind : String
  pub actor : String
  pub metadata : GoMap String Value

-- Block
pub record Block : Type 0 where
  pub index : ℕ  -- uint64
  pub timestamp : ℕ
  pub event : Event
  pub previous_hash : Text
  pub hash : Text
