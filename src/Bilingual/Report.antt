-- ===== src/Bilingual/Report.antt =====
-- The export of a bilingual session: src-tauri/src/bilingual/report.rs, and sha256_hex of
-- src-tauri/src/trace_manifest.rs. Export holds the operations, Hidden is about what a redacted export does
-- not show.
pub mod Export
pub mod Hidden
mod Tests
use replyline.Prelude.{Bool, List, Option, Text, word_count, ℕ}
use replyline.FsAtomic.{Faults, FilePath, IoErrorKind}
use replyline.Bilingual.SegmentManager.{LiveTranscriptSegmentDto}
use replyline.Bilingual.Batcher.{LiveTranslationSegmentDto}

pub data ExportType : Type 0 where
  full : ExportType
  redacted : ExportType

pub record BilingualAnswerRecord : Type 0 where
  pub timestamp : Text
  pub latency_ms : ℕ
  pub source_segment_ids : List Text
  pub answer_main : Text
  pub answer_short : Text
  pub answer_strong : Text

pub record BilingualSessionExportSnapshot : Type 0 where
  pub session_id : Text
  pub started_at : Text
  pub ended_at : Text
  pub finalized_segments : List LiveTranscriptSegmentDto
  pub translation_segments : List LiveTranslationSegmentDto
  pub generated_answers : List BilingualAnswerRecord
  pub latency_samples_ms : List ℕ

pub record FullExportSegment : Type 0 where
  pub segment_id : Text
  pub timestamp : Text
  pub text : Text
  pub finalized : Bool

pub record FullExportTranslation : Type 0 where
  pub segment_id : Text
  pub source_segment_ids : List Text
  pub timestamp : Text
  pub translated_text : Text
  pub latency_ms : ℕ
  pub status : Text

pub record FullExportAnswer : Type 0 where
  pub timestamp : Text
  pub latency_ms : ℕ
  pub source_segment_ids : List Text
  pub answer_main : Text
  pub answer_short : Text
  pub answer_strong : Text

pub record FullExportPayload : Type 0 where
  pub schema_version : ℕ
  pub export_type : Text
  pub session_id : Text
  pub started_at : Text
  pub ended_at : Text
  pub duration_ms : ℕ
  pub transcript_segments : List FullExportSegment
  pub translations : List FullExportTranslation
  pub generated_answers : List FullExportAnswer
  pub latency_samples_ms : List ℕ

pub record RedactedExportSegment : Type 0 where
  pub segment_id : Text
  pub timestamp : Text
  pub word_count : ℕ
  pub text_hash : Text
  pub status : Text

pub record RedactedExportTranslation : Type 0 where
  pub segment_id : Text
  pub source_segment_ids : List Text
  pub timestamp : Text
  pub word_count : ℕ
  pub translated_text_hash : Text
  pub latency_ms : ℕ
  pub status : Text

pub record RedactedExportAnswer : Type 0 where
  pub timestamp : Text
  pub source_segment_ids : List Text
  pub answer_hash : Text
  pub answer_word_count : ℕ
  pub latency_ms : ℕ
  pub status : Text

pub record RedactedExportPayload : Type 0 where
  pub schema_version : ℕ
  pub export_type : Text
  pub session_id : Text
  pub started_at : Text
  pub ended_at : Text
  pub duration_ms : ℕ
  pub transcript_segments : List RedactedExportSegment
  pub translations : List RedactedExportTranslation
  pub generated_answers : List RedactedExportAnswer
  pub latency_samples_ms : List ℕ

pub record ExportSummary : Type 0 where
  pub export_type : ExportType
  pub session_id : Text
  pub path : Text
  pub questions_count : ℕ
  pub transcript_segments_count : ℕ

pub data ExportError : Type 0 where
  export_output_path_empty : ExportError
  local_data_dir_unavailable : ExportError
  not_printed : ExportError
  io_error : IoErrorKind → ExportError

-- What an export finds outside: the digest of Sha256, RFC 3339 in milliseconds from a fixed time
-- before all others, serde_json, the paths of the system and its calls that fail.
pub record ExportEnv (B : Type 0) : Type 0 where
  pub digest : Text → List ℕ
  pub timestamp_millis : Text → Option ℕ
  pub print_full : FullExportPayload → Option B
  pub print_redacted : RedactedExportPayload → Option B
  pub empty : B
  pub data_dir : Option Text
  pub path_from : Text → FilePath
  pub display : FilePath → Text
  pub create_fails : Bool
  pub faults : Faults B
