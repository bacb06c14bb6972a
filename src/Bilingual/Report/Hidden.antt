-- ===== src/Bilingual/Report/Hidden.antt =====
-- What a redacted export of src-tauri/src/bilingual/report.rs shows of the texts.
use replyline.Prelude.{
  List, Option, Result, Result-cases, Text, [], ap, codes, err, false, inl, inr, is_ok, length, map,
  none, ok, refl, some, subst, suc, sym, true, ◌++◌, ◌∷◌, ◌≡◌,
}
use replyline.FsAtomic.{Disk, FilePath, IoErrorKind, put, write_bytes_atomically}
use replyline.FsAtomic.Atomic.{start, write_effect}
use replyline.Bilingual.SegmentManager.{LiveTranscriptSegmentDto}
use replyline.Bilingual.Batcher.{LiveTranslationSegmentDto}
use replyline.Bilingual.Report.{
  BilingualAnswerRecord, BilingualSessionExportSnapshot, ExportEnv, ExportError, ExportSummary,
  redacted,
}
use replyline.Bilingual.Report.Export.{
  build_redacted_payload, combined, duration_ms, elapsed, export_session_report, fallback_status,
  finalized_status, hex, output_path_of, parent_ensured, payload_of, reported, resolve_output_path,
  sha256_hex, summary_of, to_redacted_answer, to_redacted_segment, to_redacted_translation,
  word_count_of, write_payload, write_to,
}

-- The elements of two lists, one by one.
abbrev pub Paired : {A : Type 0} → (A → A → Type 0) → List A → List A → Type 0
Paired R [] [] = Unit
Paired R [] (y ∷ ys) = ⊥
Paired R (x ∷ xs) [] = ⊥
Paired R (x ∷ xs) (y ∷ ys) = R x y × Paired R xs ys

map-Paired :
    {A C : Type 0} {R : A → A → Type 0} (f : A → C) (same : (x y : A) → R x y → f x ≡ f y)
    (xs ys : List A)
    → Paired R xs ys
    → map f xs ≡ map f ys
map-Paired f same [] [] p = refl
map-Paired f same [] (y ∷ ys) p = elim p [ ]
map-Paired f same (x ∷ xs) [] p = elim p [ ]
map-Paired f same (x ∷ xs) (y ∷ ys) (r, p) =
    let head = same x y r in let tail = map-Paired f same xs ys p in cc

length-Paired :
    {A : Type 0} (R : A → A → Type 0) (xs ys : List A) → Paired R xs ys → length xs ≡ length ys
length-Paired R [] [] p = refl
length-Paired R [] (y ∷ ys) p = elim p [ ]
length-Paired R (x ∷ xs) [] p = elim p [ ]
length-Paired R (x ∷ xs) (y ∷ ys) (r, p) = ap (λ n. suc n) (length-Paired R xs ys p)

reported-ok :
    (summary : ExportSummary) (r : Result (Unit {0}) IoErrorKind)
    → is_ok (reported summary r) ≡ true
    → r ≡ ok tt
reported-ok summary (ok tt) h = refl
reported-ok summary (err e) h = cc

reported-err :
    (summary : ExportSummary) (r : Result (Unit {0}) IoErrorKind)
    → is_ok (reported summary r) ≡ false
    → is_ok r ≡ false
reported-err summary (ok tt) h = cc
reported-err summary (err e) h = refl

module _ {B : Type 0} (env : ExportEnv B) where
  -- Two texts with as many words and the same digest.
  pub record IsAlike (s t : Text) : Type 0 where
    pub word_count : word_count_of s ≡ word_count_of t
    pub digest : env.digest s ≡ env.digest t

  pub record SameSegment (a b : LiveTranscriptSegmentDto) : Type 0 where
    pub segment_id : a.segment_id ≡ b.segment_id
    pub timestamp : a.timestamp ≡ b.timestamp
    pub text : IsAlike a.text b.text
    pub finalized : a.finalized ≡ b.finalized

  pub record SameTranslation (a b : LiveTranslationSegmentDto) : Type 0 where
    pub segment_id : a.segment_id ≡ b.segment_id
    pub source_segment_ids : a.source_segment_ids ≡ b.source_segment_ids
    pub timestamp : a.timestamp ≡ b.timestamp
    pub translated_text : IsAlike a.translated_text b.translated_text
    pub latency_ms : a.latency_ms ≡ b.latency_ms
    pub is_fallback : a.is_fallback ≡ b.is_fallback

  pub record SameAnswer (a b : BilingualAnswerRecord) : Type 0 where
    pub timestamp : a.timestamp ≡ b.timestamp
    pub source_segment_ids : a.source_segment_ids ≡ b.source_segment_ids
    pub answer : IsAlike (combined a) (combined b)
    pub latency_ms : a.latency_ms ≡ b.latency_ms

  -- Two sessions that differ at most in what was said: every text has its match.
  pub record SameButTexts (a b : BilingualSessionExportSnapshot) : Type 0 where
    pub session_id : a.session_id ≡ b.session_id
    pub started_at : a.started_at ≡ b.started_at
    pub ended_at : a.ended_at ≡ b.ended_at
    pub segments : Paired SameSegment a.finalized_segments b.finalized_segments
    pub translations : Paired SameTranslation a.translation_segments b.translation_segments
    pub answers : Paired SameAnswer a.generated_answers b.generated_answers
    pub latencies : a.latency_samples_ms ≡ b.latency_samples_ms

  same_segment :
      (a b : LiveTranscriptSegmentDto)
      → SameSegment a b
      → to_redacted_segment env a ≡ to_redacted_segment env b
  unfolding to_redacted_segment sha256_hex
  same_segment a b same i = record {
    segment_id = same.segment_id i;
    timestamp = same.timestamp i;
    word_count = same.text.word_count i;
    text_hash = codes "sha256:" ++ hex (same.text.digest i);
    status = finalized_status (same.finalized i);
  }

  same_translation :
      (a b : LiveTranslationSegmentDto)
      → SameTranslation a b
      → to_redacted_translation env a ≡ to_redacted_translation env b
  unfolding to_redacted_translation sha256_hex
  same_translation a b same i = record {
    segment_id = same.segment_id i;
    source_segment_ids = same.source_segment_ids i;
    timestamp = same.timestamp i;
    word_count = same.translated_text.word_count i;
    translated_text_hash = codes "sha256:" ++ hex (same.translated_text.digest i);
    latency_ms = same.latency_ms i;
    status = fallback_status (same.is_fallback i);
  }

  same_answer :
      (a b : BilingualAnswerRecord)
      → SameAnswer a b
      → to_redacted_answer env a ≡ to_redacted_answer env b
  unfolding to_redacted_answer sha256_hex
  same_answer a b same i = record {
    timestamp = same.timestamp i;
    source_segment_ids = same.source_segment_ids i;
    answer_hash = codes "sha256:" ++ hex (same.answer.digest i);
    answer_word_count = same.answer.word_count i;
    latency_ms = same.latency_ms i;
    status = codes "generated";
  }

  same_payload :
      (a b : BilingualSessionExportSnapshot)
      → SameButTexts a b
      → build_redacted_payload env a ≡ build_redacted_payload env b
  unfolding build_redacted_payload duration_ms
  same_payload a b same i = record {
    schema_version = 1;
    export_type = codes "redacted";
    session_id = same.session_id i;
    started_at = same.started_at i;
    ended_at = same.ended_at i;
    duration_ms =
        elapsed (env.timestamp_millis (same.started_at i)) (env.timestamp_millis (same.ended_at i));
    transcript_segments = map-Paired (to_redacted_segment env) same_segment _ _ same.segments i;
    translations =
        map-Paired (to_redacted_translation env) same_translation _ _ same.translations i;
    generated_answers = map-Paired (to_redacted_answer env) same_answer _ _ same.answers i;
    latency_samples_ms = same.latencies i;
  }

  same_export :
      (a b : BilingualSessionExportSnapshot) (output_path : Option Text) (disk : Disk B)
      → SameButTexts a b
      → export_session_report env a redacted output_path disk
        ≡ export_session_report env b redacted output_path disk
  unfolding export_session_report payload_of resolve_output_path
  same_export a b output_path disk same i =
      write_to env
        (parent_ensured env
          (output_path_of env (same.session_id i) redacted output_path env.data_dir))
        (env.print_redacted (same_payload a b same i))
        (summary_of env redacted (same.session_id i) (length-Paired SameAnswer _ _ same.answers i)
          (length-Paired SameSegment _ _ same.segments i))
        disk

  write_payload_effect :
      (path : FilePath) (payload : Option B) (summary : ExportSummary) (disk : Disk B)
      → let (d, r) = write_payload env path payload summary disk in
        (is_ok r ≡ true → (bytes : B) × (payload ≡ some bytes) × (d ≡ put path (some bytes) disk))
        × (is_ok r ≡ false → env.faults.remove_file ≡ false → d ≡ disk)
  unfolding write_payload
  write_payload_effect path none summary disk = (λ h. cc, λ _ _. refl)
  write_payload_effect path (some bytes) summary disk =
      let (changed, same) = write_effect env.faults env.empty path bytes disk in
      let written = write_bytes_atomically env.faults env.empty path bytes (start disk) in
      (
        λ h. (bytes, refl, changed (reported-ok summary written.1 h)),
        λ h. same (reported-err summary written.1 h),
      )

  -- What an export of a session leaves.
  abbrev Exported :
      BilingualSessionExportSnapshot
      → Option Text
      → Disk B
      → Disk B × Result ExportSummary ExportError
      → Type 0
  Exported snapshot output_path disk (d, r) =
      (is_ok r ≡ true
        → (path : FilePath) × (bytes : B) × (resolve_output_path env snapshot redacted output_path
            ≡ ok path)
          × (env.print_redacted (build_redacted_payload env snapshot) ≡ some bytes)
          × (d ≡ put path (some bytes) disk))
      × (is_ok r ≡ false → env.faults.remove_file ≡ false → d ≡ disk)

  export-Exported :
      (snapshot : BilingualSessionExportSnapshot) (output_path : Option Text) (disk : Disk B)
      → Exported snapshot output_path disk
          (export_session_report env snapshot redacted output_path disk)
  unfolding export_session_report payload_of
  export-Exported snapshot output_path disk =
      elim (Result-cases (resolve_output_path env snapshot redacted output_path)) [
        | inl (e, f) ↦ rw (f, export_session_report) (λ h. cc, λ _ _. refl)
        | inr (path, f) ↦
            let (changed, same) = write_payload_effect path _ _ disk in
            rw (f, export_session_report)
              (
                λ h. let (bytes, printed, there) = changed h in (path, bytes, refl, printed, there),
                same,
              )
      ]

  -- Two sessions that differ at most in what was said, each text having as many words as its match
  -- and the same digest, are exported in redacted form in the same way: the same disk and the same
  -- answer to the caller. An export that succeeds leaves the print of the redacted payload at the
  -- path it resolved and changes nothing else; one that fails, if a temporary file can be removed,
  -- changes nothing.
  pub redacted_export_hides :
      (a b : BilingualSessionExportSnapshot) (output_path : Option Text) (disk : Disk B)
      → SameButTexts a b
      → let (d, r) = export_session_report env a redacted output_path disk in
        ((d, r) ≡ export_session_report env b redacted output_path disk)
        × (is_ok r ≡ true
            → (path : FilePath) × (bytes : B) × (resolve_output_path env b redacted output_path
                ≡ ok path)
              × (env.print_redacted (build_redacted_payload env b) ≡ some bytes)
              × (d ≡ put path (some bytes) disk))
        × (is_ok r ≡ false → env.faults.remove_file ≡ false → d ≡ disk)
  redacted_export_hides a b output_path disk same =
      let alike = same_export a b output_path disk same in
      let (wrote, kept) =
        subst (Exported b output_path disk) (sym alike) (export-Exported b output_path disk) in
      (alike, wrote, kept)
