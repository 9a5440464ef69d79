-- ===== src/Rag.antt =====
-- server/rag: the knowledge base.
pub mod Index
pub mod Store
mod Examples
