-- ===== src/Bilingual/Report/Export.antt =====
-- The payloads of src-tauri/src/bilingual/report.rs, the path and the write.
use replyline.Prelude.{
  Bool, List, Option, Result, Text, [], codes, err, if◌then◌else◌, is_empty, length, ltb, map, none,
  not, ok, retain, some, trim, ℕ, ◌%◌, ◌++◌, ◌+◌, ◌-◌, ◌/◌, ◌∷◌,
}
use replyline.Prelude.Slices.{split_whitespace}
use replyline.FsAtomic.{Disk, FilePath, IoErrorKind, other, write_bytes_atomically}
use replyline.FsAtomic.Atomic.{start}
use replyline.Bilingual.SegmentManager.{LiveTranscriptSegmentDto}
use replyline.Bilingual.Batcher.{LiveTranslationSegmentDto}
use replyline.Bilingual.Report.{
  BilingualAnswerRecord, BilingualSessionExportSnapshot, ExportEnv, ExportError, ExportSummary,
  ExportType, FullExportPayload, RedactedExportAnswer, RedactedExportPayload, RedactedExportSegment,
  RedactedExportTranslation, export_output_path_empty, full, io_error, local_data_dir_unavailable,
  not_printed, redacted,
}

abbrev hex_digit : ℕ → ℕ
hex_digit n = if ltb n 10 then 48 + n else 87 + n

abbrev pub hex : List ℕ → Text
hex [] = []
hex (byte ∷ bytes) = hex_digit (byte / 16) ∷ hex_digit (byte % 16) ∷ hex bytes

unfoldable pub word_count_of : Text → ℕ
unfolding split_whitespace
word_count_of value =
    length (retain (λ token. not (is_empty (trim token))) (split_whitespace value))

abbrev pub elapsed : Option ℕ → Option ℕ → ℕ
elapsed (some started) (some ended) = ended - started
elapsed (some started) none = 0
elapsed none ended = 0

abbrev pub finalized_status : Bool → Text
finalized_status finalized = if finalized then codes "finalized" else codes "partial"

abbrev pub fallback_status : Bool → Text
fallback_status is_fallback = if is_fallback then codes "fallback" else codes "translated"

-- The three texts of an answer in one.
abbrev pub combined : BilingualAnswerRecord → Text
combined answer =
    answer.answer_main ++ codes "\n" ++ answer.answer_short ++ codes "\n" ++ answer.answer_strong

abbrev pub suffix : ExportType → Text
suffix full = codes "full"
suffix redacted = codes "redacted"

abbrev pub reported :
    ExportSummary → Result (Unit {0}) IoErrorKind → Result ExportSummary ExportError
reported summary (ok _) = ok summary
reported summary (err e) = err (io_error e)

module _ {B : Type 0} (env : ExportEnv B) where
  unfoldable pub sha256_hex : Text → Text
  sha256_hex value = codes "sha256:" ++ hex (env.digest value)

  -- The difference stops at 0, which is what the code gives for an end before the start.
  unfoldable pub duration_ms : BilingualSessionExportSnapshot → ℕ
  duration_ms snapshot =
      elapsed (env.timestamp_millis snapshot.started_at) (env.timestamp_millis snapshot.ended_at)

  unfoldable pub build_full_payload : BilingualSessionExportSnapshot → FullExportPayload
  unfolding duration_ms
  build_full_payload snapshot = record {
    schema_version = 1;
    export_type = codes "full";
    session_id = snapshot.session_id;
    started_at = snapshot.started_at;
    ended_at = snapshot.ended_at;
    duration_ms = duration_ms snapshot;
    transcript_segments =
        map
          (λ (segment : LiveTranscriptSegmentDto). record {
            segment_id = segment.segment_id;
            timestamp = segment.timestamp;
            text = segment.text;
            finalized = segment.finalized;
          })
          snapshot.finalized_segments;
    translations =
        map
          (λ (segment : LiveTranslationSegmentDto). record {
            segment_id = segment.segment_id;
            source_segment_ids = segment.source_segment_ids;
            timestamp = segment.timestamp;
            translated_text = segment.translated_text;
            latency_ms = segment.latency_ms;
            status = fallback_status segment.is_fallback;
          })
          snapshot.translation_segments;
    generated_answers =
        map
          (λ (answer : BilingualAnswerRecord). record {
            timestamp = answer.timestamp;
            latency_ms = answer.latency_ms;
            source_segment_ids = answer.source_segment_ids;
            answer_main = answer.answer_main;
            answer_short = answer.answer_short;
            answer_strong = answer.answer_strong;
          })
          snapshot.generated_answers;
    latency_samples_ms = snapshot.latency_samples_ms;
  }

  unfoldable pub to_redacted_segment : LiveTranscriptSegmentDto → RedactedExportSegment
  unfolding word_count_of sha256_hex
  to_redacted_segment segment = record {
    segment_id = segment.segment_id;
    timestamp = segment.timestamp;
    word_count = word_count_of segment.text;
    text_hash = sha256_hex segment.text;
    status = finalized_status segment.finalized;
  }

  unfoldable pub to_redacted_translation : LiveTranslationSegmentDto → RedactedExportTranslation
  unfolding word_count_of sha256_hex
  to_redacted_translation segment = record {
    segment_id = segment.segment_id;
    source_segment_ids = segment.source_segment_ids;
    timestamp = segment.timestamp;
    word_count = word_count_of segment.translated_text;
    translated_text_hash = sha256_hex segment.translated_text;
    latency_ms = segment.latency_ms;
    status = fallback_status segment.is_fallback;
  }

  unfoldable pub to_redacted_answer : BilingualAnswerRecord → RedactedExportAnswer
  unfolding word_count_of sha256_hex
  to_redacted_answer answer = record {
    timestamp = answer.timestamp;
    source_segment_ids = answer.source_segment_ids;
    answer_hash = sha256_hex (combined answer);
    answer_word_count = word_count_of (combined answer);
    latency_ms = answer.latency_ms;
    status = codes "generated";
  }

  unfoldable pub build_redacted_payload : BilingualSessionExportSnapshot → RedactedExportPayload
  unfolding duration_ms to_redacted_segment to_redacted_translation to_redacted_answer
  build_redacted_payload snapshot = record {
    schema_version = 1;
    export_type = codes "redacted";
    session_id = snapshot.session_id;
    started_at = snapshot.started_at;
    ended_at = snapshot.ended_at;
    duration_ms = duration_ms snapshot;
    transcript_segments = map to_redacted_segment snapshot.finalized_segments;
    translations = map to_redacted_translation snapshot.translation_segments;
    generated_answers = map to_redacted_answer snapshot.generated_answers;
    latency_samples_ms = snapshot.latency_samples_ms;
  }

  unfoldable pub ensure_parent_dir : FilePath → Result FilePath ExportError
  ensure_parent_dir path = if env.create_fails then err (io_error other) else ok path

  -- The path asked for, or by default a file among the reports.
  unfoldable pub output_path_of :
      Text → ExportType → Option Text → Option Text → Result FilePath ExportError
  output_path_of session_id export_type (some output_path) data_dir =
      if is_empty (trim output_path)
      then err export_output_path_empty
      else ok (env.path_from (trim output_path))
  output_path_of session_id export_type none none = err local_data_dir_unavailable
  output_path_of session_id export_type none (some base) = ok (record {
    parent = base ++ codes "/com.replyline.app/reports";
    file_name =
        codes "bilingual-interview-report-"
        ++ suffix export_type
        ++ codes "-"
        ++ session_id
        ++ codes ".json";
  })

  abbrev pub parent_ensured : Result FilePath ExportError → Result FilePath ExportError
  parent_ensured (err e) = err e
  parent_ensured (ok path) = ensure_parent_dir path

  unfoldable pub resolve_output_path :
      BilingualSessionExportSnapshot → ExportType → Option Text → Result FilePath ExportError
  unfolding output_path_of ensure_parent_dir
  resolve_output_path snapshot export_type output_path =
      parent_ensured (output_path_of snapshot.session_id export_type output_path env.data_dir)

  unfoldable pub payload_of : BilingualSessionExportSnapshot → ExportType → Option B
  unfolding build_full_payload build_redacted_payload
  payload_of snapshot full = env.print_full (build_full_payload snapshot)
  payload_of snapshot redacted = env.print_redacted (build_redacted_payload snapshot)

  -- The write, and what the caller is told. An error of serde_json is no error of the write.
  unfoldable pub write_payload :
      FilePath → Option B → ExportSummary → Disk B → Disk B × Result ExportSummary ExportError
  unfolding write_bytes_atomically
  write_payload path none summary disk = (disk, err not_printed)
  write_payload path (some payload) summary disk =
      let (w, r) = write_bytes_atomically env.faults env.empty path payload (start disk) in
      (w.disk, reported summary r)

  abbrev pub summary_of : ExportType → Text → ℕ → ℕ → FilePath → ExportSummary
  summary_of export_type session_id questions_count transcript_segments_count path = record {
    export_type = export_type;
    session_id = session_id;
    path = env.display path;
    questions_count = questions_count;
    transcript_segments_count = transcript_segments_count;
  }

  abbrev pub write_to :
      Result FilePath ExportError
      → Option B
      → (FilePath → ExportSummary)
      → Disk B
      → Disk B × Result ExportSummary ExportError
  write_to (err e) payload summary disk = (disk, err e)
  write_to (ok path) payload summary disk = write_payload path payload (summary path) disk

  unfoldable pub export_session_report :
      BilingualSessionExportSnapshot
      → ExportType
      → Option Text
      → Disk B
      → Disk B × Result ExportSummary ExportError
  unfolding resolve_output_path payload_of write_payload
  export_session_report snapshot export_type output_path =
      write_to (resolve_output_path snapshot export_type output_path)
        (payload_of snapshot export_type)
        (summary_of export_type snapshot.session_id (length snapshot.generated_answers)
          (length snapshot.finalized_segments))
