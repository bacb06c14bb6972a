-- ===== src/ContextPack.antt =====
-- Context packs: src-tauri/src/context_pack.rs.
-- The packs are a JSON file on the disk of FsAtomic. serde_json, the clock and the configuration
-- directory are parameters; logging has no effect on the state and is left out.
pub mod Validation
pub mod Store
pub mod Files
pub mod Prompt
pub mod Laws
pub mod Lookup
pub mod Persistence
pub mod Decisions
pub mod Operations
pub mod Tests
