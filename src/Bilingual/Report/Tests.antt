-- ===== src/Bilingual/Report/Tests.antt =====
-- Exports of two sessions whose texts have as many words and the same digest.
use replyline.Prelude.{
  Text, [], codes, err, false, is_ok, length, none, ok, refl, some, trim, true, ◌∷◌, ◌≡◌,
}
use replyline.FsAtomic.{FilePath, put}
use replyline.Bilingual.SegmentManager.{LiveTranscriptSegmentDto}
use replyline.Bilingual.Report.{
  BilingualAnswerRecord, BilingualSessionExportSnapshot, ExportEnv, FullExportPayload,
  RedactedExportPayload, export_output_path_empty, redacted,
}
use replyline.Bilingual.Report.Export.{
  build_redacted_payload, duration_ms, export_session_report, resolve_output_path, sha256_hex,
  word_count_of,
}
use replyline.Bilingual.Report.Hidden.{redacted_export_hides}

-- The contents of a file.
data Contents : Type 0 where
  full_file : FullExportPayload → Contents
  redacted_file : RedactedExportPayload → Contents
  empty_file : Contents

abbrev file : FilePath
file = record { parent = codes "out"; file_name = codes "export.json" }

-- A digest on which texts of the same length collide.
abbrev env : ExportEnv Contents
env = record {
  digest = λ text. length text ∷ 171 ∷ [];
  timestamp_millis = λ text. some (length text);
  print_full = λ payload. some (full_file payload);
  print_redacted = λ payload. some (redacted_file payload);
  empty = empty_file;
  data_dir = none;
  path_from = λ text. file;
  display = λ path. path.file_name;
  create_fails = false;
  faults = record {
    create_dir_all = false;
    open_file = false;
    write_all = none;
    sync_all = false;
    replace = false;
    remove_file = false;
  };
}

abbrev segment_of : Text → LiveTranscriptSegmentDto
segment_of text = record {
  segment_id = codes "seg-1";
  timestamp = codes "t1";
  text = text;
  finalized = true;
}

abbrev answer_of : Text → BilingualAnswerRecord
answer_of text = record {
  timestamp = codes "t2";
  latency_ms = 220;
  source_segment_ids = codes "seg-1" ∷ [];
  answer_main = text;
  answer_short = [];
  answer_strong = text;
}

abbrev session_of : Text → Text → BilingualSessionExportSnapshot
session_of said replied = record {
  session_id = codes "bs-1";
  started_at = codes "t";
  ended_at = codes "later";
  finalized_segments = segment_of said ∷ [];
  translation_segments = [];
  generated_answers = answer_of replied ∷ [];
  latency_samples_ms = 33 ∷ [];
}

abbrev session_1 : BilingualSessionExportSnapshot
session_1 = session_of (codes "my old salary") (codes "yes")

abbrev session_2 : BilingualSessionExportSnapshot
session_2 = session_of (codes "an odd planet") (codes "not")

rejects_empty_output_path :
    export_session_report env session_1 redacted (some (codes "  ")) (λ _. none)
    ≡ ((λ _. none), err export_output_path_empty)
unfolding export_session_report trim
rejects_empty_output_path = refl

hashes_in_hex : sha256_hex env (codes "yes") ≡ codes "sha256:03ab"
unfolding sha256_hex
hashes_in_hex = refl

lasts_four_milliseconds : duration_ms env session_1 ≡ 4
unfolding duration_ms
lasts_four_milliseconds = refl

redacted_export_hides_example :
    let (d, r) = export_session_report env session_1 redacted (some (codes "a")) (λ _. none) in
    ((d, r) ≡ export_session_report env session_2 redacted (some (codes "a")) (λ _. none))
    × (is_ok r ≡ true
        → (path : FilePath) × (bytes : Contents) × (resolve_output_path env session_2 redacted
              (some (codes "a"))
            ≡ ok path)
          × (env.print_redacted (build_redacted_payload env session_2) ≡ some bytes)
          × (d ≡ put path (some bytes) (λ _. none)))
    × (is_ok r ≡ false → env.faults.remove_file ≡ false → d ≡ (λ _. none))
unfolding word_count_of trim
redacted_export_hides_example =
    redacted_export_hides env session_1 session_2 (some (codes "a")) (λ _. none)
      (record {
        session_id = refl;
        started_at = refl;
        ended_at = refl;
        segments = (
          record {
            segment_id = refl;
            timestamp = refl;
            text = record { word_count = refl; digest = refl };
            finalized = refl;
          },
          tt,
        );
        translations = tt;
        answers = (
          record {
            timestamp = refl;
            source_segment_ids = refl;
            answer = record { word_count = refl; digest = refl };
            latency_ms = refl;
          },
          tt,
        );
        latencies = refl;
      })
