-- ===== src/Tests.antt =====
-- Concrete runs of the program's parts.
pub mod Outbox
pub mod Review
pub mod Llm
pub mod Manuscript
pub mod Writeback
pub mod Narrative
pub mod Snowflake
pub mod Scene
pub mod Threads
