-- ===== src/Lib.antt =====
-- Replyline records what is said while a hotkey is held, has it transcribed, and shows a card that
-- a language model makes of the transcript and the conversation so far. This library models the
-- backend (src-tauri/src), and proves what makes its parts correct.
--
-- The parts and how they interact. A capture (commands/capture.rs) is started and stopped by the
-- user; the pipeline (services/capture_pipeline.rs) stops it, sends the sound to the transcriber,
-- remembers the transcript in the conversation context (context.rs), builds the context of the
-- prompt from it and from the active context pack (context_pack.rs), asks the model for a card,
-- and commits both. The answer of the model becomes a card in card_v3.rs, which reads it, checks
-- and repairs its sections by the limits of an answer profile (prompt_registry.rs); an interview
-- card (interview_card_v1.rs) is asked for, judged and repaired once, and its question and answer
-- enter the report that the end of an interview session stores (interview_report.rs). Texts for
-- the log are redacted (privacy.rs). Packs and settings (settings.rs) are files that are replaced
-- as a whole (fs_atomic.rs). A recording is sent to the transcriber within a budget (providers/).
-- Apart from that a bilingual session (bilingual/) streams speech, numbers its segments, buffers
-- and translates them, and can be exported, with its texts or without.
--
-- Which file models which part:
--   Prelude        the tests, lists, texts, results and decimals that all parts use,
--                  slices of texts, and the Unicode tables
--   Context        src-tauri/src/context.rs. Window: which transcripts are kept. Expiry: reads
--                  before and after the twenty minutes. Invariant: all histories of calls
--   FsAtomic       src-tauri/src/fs_atomic.rs. Temp: the temporary name. Atomic: what a write leaves
--   ContextPack    src-tauri/src/context_pack.rs. Validation, Store and Files hold the definitions,
--                  Laws and Lookup the changes to a list of packs, Persistence, Decisions and
--                  Operations the operations on the disk, Prompt the part of a pack that enters a prompt
--   Capture        src-tauri/src/state.rs, commands/capture.rs, services/capture_pipeline.rs,
--                  services/pipeline_errors.rs, ui_strings.rs. Analyze and Retry hold the two
--                  operations stage by stage, Phases, Effects, Endings and Release how a call ends,
--                  Again starting twice and retrying
--   Profiles       src-tauri/src/prompt_registry.rs
--   Card           src-tauri/src/card_v3.rs. Words, Parse, Validate, Fallback, Repair and Normalize
--                  hold the definitions; Texts what ASCII and Russian text gives, Steps and Answers
--                  the repairs, Valid the card that is shown and Marks its marks, Panics, Extraction and Recovery the
--                  reading of an answer
--   InterviewCard  src-tauri/src/interview_card_v1.rs. Parse, Checks, Gate and Generate hold the
--                  definitions, Sound what a card that passes satisfies, Judging the gate's judgement,
--                  Outcomes how a generation ends
--   Privacy        src-tauri/src/privacy.rs. Markers, Values and Redaction: what stands behind
--                  a marker
--   Reports        src-tauri/src/interview_report.rs. Score, Markdown and Files hold the definitions,
--                  Saved and Kept what the end of a session leaves
--   Settings       src-tauri/src/settings.rs. Migration and Files hold the definitions, Valid and Saved
--                  what is loaded and saved, Migrated and TraceMode what the migrations keep
--   Providers      src-tauri/src/providers/deepgram.rs, stt_provider.rs, openai_compatible.rs. Stt
--                  with Budget, and Llm with Fallback: the requests and their retries; Signal:
--                  whether a recording is sent
--   Bilingual      src-tauri/src/bilingual/. ContextBuffer with Buffering, SegmentManager with
--                  Segments, Session with Reconnect, Stores and Streaming, Batcher with Batches,
--                  Report with Export and Hidden: the export, with the hash of
--                  src-tauri/src/trace_manifest.rs
--
-- How the code corresponds. A method that takes `&mut self` is a function that returns the new
-- state; a function that can fail returns a `Result`. A `String` is the list of its code points,
-- an `Instant` a number of nanoseconds, and each reading of a clock is an argument. `u64` counters
-- saturate where the code says so. Locks, threads and asynchronous calls are explicit: what a call
-- waits for is its argument, and what it tells the app, the log or a channel is a list that it
-- returns. The disk is a function from paths to contents; `Faults` says which calls of the system
-- fail, and the history of a `World` holds each moment at which a crash could come, with the files
-- that were not synced and that it may spoil. serde_json, chrono,
-- the transcriber, the model and the file system's directories are parameters, and so are the
-- Unicode tables of the standard library, of which the values on ASCII and Russian letters are
-- relied on. A panic is a failure of its own.
--
-- Bounds. The search for a temporary name tries the 64 suffixes of the code. The retries of the
-- stream, of the requests and of a translation are those of the code; no loop of the model needs
-- more fuel than it is given, and each theorem that a call completes says so without a condition on
-- fuel.
--
-- Not modelled: the frontend and the scripts, which are other languages; capturing and encoding
-- sound; the bodies of requests and responses; logs and traces as files.
-- The texts and fields of log lines are left out where a part writes them.
pub mod Prelude
pub mod Privacy
pub mod Profiles
pub mod InterviewCard
pub mod Context
pub mod FsAtomic
pub mod ContextPack
pub mod Bilingual
pub mod Capture
pub mod Card
pub mod Settings
pub mod Reports
pub mod Providers
