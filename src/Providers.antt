-- ===== src/Providers.antt =====
-- Speech to text and the language model: src-tauri/src/providers/.
pub mod Stt
pub mod Budget
pub mod Signal
pub mod Llm
pub mod Fallback
pub mod Tests
