-- ===== src/Memory.antt =====
-- memory and core/memory: the store of embeddings, signed queries to it, the storage of entries,
-- and the memory of a conversation.
pub mod Vectors
pub mod Signed
pub mod Storage
pub mod Conversation
mod Tests
