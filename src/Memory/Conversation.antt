-- ===== src/Memory/Conversation.antt =====
-- core/memory/engine.go: the memory of a conversation. The storage is that of
-- Memory/Storage; the layout of the time in an id is a parameter.
pub mod Window
use aethercore.Prelude.{
  ℕ, zero, suc, ◌+◌, ◌/◌, Bool, true, false, Option, none, some, List, [], ◌∷◌, ◌++◌, map, length,
  leb, ltb, drop, if◌then◌else◌,
}
use aethercore.Prelude.Int.{ℤ, pos, ltb_ℤ}
use aethercore.Prelude.Text.{Text, codes, itoa}
use aethercore.Engine.Tools.{Message}
use aethercore.Memory.Storage.{
  MemoryEntry, SearchOptions, Storage, StorageError, put, search_storage,
}

pub record MemoryEngine : Type 0 where
  pub storage : Storage
  pub short_term : List Message
  pub max_short_term : ℤ

-- NewMemoryEngine
abbrev pub new_memory_engine : Storage → ℤ → MemoryEngine
new_memory_engine storage max_short_term = record {
  storage = storage;
  short_term = [];
  max_short_term = max_short_term;
}

-- The short-term part of Record: the oldest message goes where there are too many.
unfoldable pub remember : ℤ → List Message → Message → List Message
remember max_short_term short_term msg =
    if ltb_ℤ max_short_term (pos (length (short_term ++ msg ∷ [])))
    then drop 1 (short_term ++ msg ∷ [])
    else short_term ++ msg ∷ []

unfoldable pub entry_of : ℕ → Message → MemoryEntry
entry_of now msg = record {
  id = codes "mem_" ++ itoa now;
  content = msg.content;
  metadata = (codes "role", msg.role) ∷ [];
  created_at = now;
}

-- Record, at the time `now` in nanoseconds since 1970
unfoldable pub record_message : MemoryEngine → ℕ → Message → Option StorageError × MemoryEngine
record_message e now msg =
    let (failed, storage) = put e.storage (entry_of now msg) in
    (
      failed,
      record e { storage = storage; short_term = remember e.max_short_term e.short_term msg },
    )

unfoldable pub reminder : MemoryEntry → Message
reminder entry = record {
  role = codes "system";
  content = codes "[Memory Recall] " ++ entry.content;
  tool_calls = [];
  tool_results = [];
}

-- Recall, for the lower case of a text; the search of this storage does not fail
unfoldable pub recall : (Text → Text) → MemoryEngine → Text → List Message
recall to_lower e query =
    e.short_term
    ++ map reminder (search_storage to_lower e.storage query (record { limit = pos 3; tags = [] }))

abbrev pub summary : Message
summary = record {
  role = codes "system";
  content =
      codes
        "[Context Summary] The conversation began with objective initialization and tool discovery.";
  tool_calls = [];
  tool_results = [];
}

-- Summarize
unfoldable pub summarize : MemoryEngine → MemoryEngine
summarize e =
    if leb (length e.short_term) 3
    then e
    else record e { short_term = summary ∷ drop (length e.short_term / 2) e.short_term }
