-- ===== src/Memory/Conversation/Window.antt =====
-- core/memory/engine.go: how much of a conversation the short-term memory holds.
use aethercore.Prelude.{
  ℕ, ◌/◌, ◌≤◌, ◌≡◌, inl, inr, arith, Bool-cases, List, [], ◌∷◌, ◌++◌, length, length-append,
  length-drop, leb,
}
use aethercore.Prelude.Int.{pos}
use aethercore.Engine.Tools.{Message}
use aethercore.Memory.Conversation.{MemoryEngine, remember, record_message, summarize}

-- What is asked of a conversation: a message at a time, or a summary.
pub data Request : Type 0 where
  message : ℕ → Message → Request
  compress : Request

abbrev pub serve : MemoryEngine → Request → MemoryEngine
serve e (message now msg) = (record_message e now msg).1
serve e compress = summarize e

abbrev pub serve_all : MemoryEngine → List Request → MemoryEngine
serve_all e [] = e
serve_all e (r ∷ rs) = serve_all (serve e r) rs

remember-length :
    (n : ℕ) (short : List Message) (msg : Message)
    → length short ≤ n
    → length (remember (pos n) short msg) ≤ n
unfolding remember
remember-length n short msg h =
    ground (arith, length-append {0} short (msg ∷ []), length-drop {0} 1 (short ++ msg ∷ []))

serve-length :
    (e : MemoryEngine) (n : ℕ) (r : Request)
    → e.max_short_term ≡ pos n
    → length e.short_term ≤ n
    → ((serve e r).max_short_term ≡ pos n) × (length (serve e r).short_term ≤ n)
unfolding record_message summarize
serve-length e n (message now msg) m h = (m, rw m (remember-length n e.short_term msg h))
serve-length e n compress m h = elim (Bool-cases (leb (length e.short_term) 3)) [
  | inl few ↦ rw few (m, h)
  | inr many ↦ rw many (m, ground (arith, length-drop {0} (length e.short_term / 2) e.short_term))
]

-- Through any sequence of messages and summaries the short-term memory never holds more than its
-- bound, also where the storage fails.
pub serve_all-length :
    (e : MemoryEngine) (n : ℕ) (rs : List Request)
    → e.max_short_term ≡ pos n
    → length e.short_term ≤ n
    → length (serve_all e rs).short_term ≤ n
serve_all-length e n [] m h = h
serve_all-length e n (r ∷ rs) m h =
    let (m', h') = serve-length e n r m h in serve_all-length (serve e r) n rs m' h'
