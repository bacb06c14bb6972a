-- ===== src/Bilingual.antt =====
-- The live bilingual session: src-tauri/src/bilingual/.
-- Transcript events of the speech stream become segments (`SegmentManager`); final segments go to
-- the context of the answer (`ContextBuffer`), to the stored transcript and to the translation
-- queue (`Batcher`); `Session` reconnects the stream.
pub mod ContextBuffer
pub mod SegmentManager
pub mod Segments
pub mod Buffering
pub mod Session
pub mod Reconnect
pub mod Stores
pub mod Streaming
pub mod Batcher
pub mod Batches
pub mod Report
pub mod Tests
