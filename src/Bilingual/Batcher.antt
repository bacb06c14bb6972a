-- ===== src/Bilingual/Batcher.antt =====
-- The translation of final segments: src-tauri/src/bilingual/translation.rs.
-- What `run_batch_loop` waits for is its input: each `Arrival` is the result of one wait. The text
-- of a batch goes to `translate`, whose requests are its input too. Times and the clock's readings
-- are arguments; `is_alphabetic` is the test of `char`.
use replyline.Prelude.{
  Bool, List, Option, Result, Text, [], codes, err, false, if◌then◌else◌, is_empty, is_whitespace,
  join, length, ltb, map, max, min, none, not, ok, some, suc, trim, true, zero, ℕ, ◌++◌, ◌+◌, ◌==◌,
  ◌||◌, ◌∷◌,
}
use replyline.Bilingual.SegmentManager.{LiveTranscriptSegmentDto}

abbrev pub max_translation_retries : ℕ
max_translation_retries = 1

abbrev pub translation_retry_backoff_ms : ℕ
translation_retry_backoff_ms = 150

abbrev pub translation_fallback_text : Text
translation_fallback_text = codes "[перевод недоступен]"

pub record PendingSegment : Type 0 where
  pub id : Text
  pub text : Text

-- `translation_debounce_ms.clamp(300, 1500)` and `translation_min_word_count.max(1)`.
abbrev pub debounce_ms : ℕ → ℕ
debounce_ms configured = min (max configured 300) 1500

abbrev pub min_words : ℕ → ℕ
min_words configured = max configured 1

-- `TranslationBatcher::enqueue_final`, on the channel if there is one; `closed` when the receiver
-- is gone, and the send fails.
unfoldable pub enqueue :
    Bool → Bool → LiveTranscriptSegmentDto → List PendingSegment → List PendingSegment
enqueue enabled closed segment channel =
    if not segment.finalized
    then channel
    else if not enabled
    then channel
    else if closed
    then channel
    else channel ++ record { id = segment.segment_id; text = segment.text } ∷ []

-- One wait of `run_batch_loop`: a segment, the end of the channel, or the timeout.
pub data Arrival : Type 0 where
  received : PendingSegment → Arrival
  closed timeout : Arrival

-- The batches handed to `on_batch`. A wait for the first segment has no timeout.
unfoldable pub run_batch_loop : List PendingSegment → List Arrival → List (List PendingSegment)
run_batch_loop pending [] = []
run_batch_loop pending (received next ∷ arrivals) = run_batch_loop (pending ++ next ∷ []) arrivals
run_batch_loop pending (closed ∷ arrivals) = if is_empty pending then [] else pending ∷ []
run_batch_loop pending (timeout ∷ arrivals) =
    let later = run_batch_loop [] arrivals in if is_empty pending then later else pending ∷ later

pub data TranslationStrategy : Type 0 where
  llm_micro : TranslationStrategy

pub record LiveTranslationSegmentDto : Type 0 where
  pub segment_id : Text
  pub source_segment_ids : List Text
  pub primary_source_segment_id : Text
  pub timestamp : Text
  pub source_text : Text
  pub translated_text : Text
  pub source_language : Text
  pub target_language : Text
  pub is_final : Bool
  pub latency_ms : ℕ
  pub is_fallback : Bool
  pub strategy : TranslationStrategy
  pub batch_size : ℕ

abbrev pub batch_source_text : List PendingSegment → Text
batch_source_text batch = join (codes " ") (map (λ item. item.text) batch)

-- `ids.first().cloned().unwrap_or_else(|| "unknown".to_string())`.
abbrev pub first_or_unknown : List Text → Text
first_or_unknown [] = codes "unknown"
first_or_unknown (id ∷ ids) = id

-- `segment_id` and `timestamp` are the prints of the clock's readings.
unfoldable pub build_translation_dto :
    (segment_id timestamp : Text)
    → List PendingSegment
    → (source_text translated_text : Text) → (is_fallback : Bool) → (latency_ms : ℕ)
    → LiveTranslationSegmentDto
build_translation_dto segment_id timestamp batch source_text translated_text is_fallback
      latency_ms =
    let ids = map (λ item. item.id) batch in
    record {
      segment_id = segment_id;
      source_segment_ids = ids;
      primary_source_segment_id = first_or_unknown ids;
      timestamp = timestamp;
      source_text = source_text;
      translated_text = translated_text;
      source_language = codes "en";
      target_language = codes "ru";
      is_final = true;
      latency_ms = latency_ms;
      is_fallback = is_fallback;
      strategy = llm_micro;
      batch_size = length batch;
    }

-- One request of `translate`: its answer, its error, or the timeout around it.
pub data Answer : Type 0 where
  answered : (raw : Text) → Answer
  refused : (reason : Text) → Answer
  timed_out : Answer

-- The loop of `translate` from `attempt` on, with the pauses it makes. `requests i` is what the
-- request of attempt `i` gives; the fuel is the attempts left.
unfoldable pub translate_from : ℕ → ℕ → (ℕ → Answer) → Result Text Text × List ℕ
translate_from zero attempt requests = (err (codes "TIMEOUT"), [])
translate_from (suc left) attempt requests =
    let (result, pauses) = translate_from left (attempt + 1) requests in
    elim (requests attempt) [
      | answered raw ↦ (ok (trim raw), [])
      | refused reason ↦
          if attempt == max_translation_retries
          then (err reason, [])
          else (result, translation_retry_backoff_ms ∷ pauses)
      | timed_out ↦
          if attempt == max_translation_retries
          then (err (codes "TIMEOUT"), [])
          else (result, translation_retry_backoff_ms ∷ pauses)
    ]

unfoldable pub translate : (base_url model : Text) → (ℕ → Answer) → Result Text Text × List ℕ
translate base_url model requests =
    if is_empty (trim base_url) || is_empty (trim model)
    then (err (codes "LLM_ROUTE_MISSING"), [])
    else translate_from (max_translation_retries + 1) 0 requests

module _ (is_alphabetic : ℕ → Bool) where
  -- `split_whitespace()`, the words with an alphabetic character counted: `meaningful` is whether
  -- the word being read has one.
  unfoldable pub meaningful_from : Bool → Text → ℕ
  meaningful_from meaningful [] = if meaningful then 1 else 0
  meaningful_from meaningful (c ∷ s) =
      let at_space = meaningful_from false s in
      let in_word = meaningful_from (meaningful || is_alphabetic c) s in
      if is_whitespace c then (if meaningful then 1 else 0) + at_space else in_word

  unfoldable pub meaningful_word_count : Text → ℕ
  meaningful_word_count input = meaningful_from false input

  -- The text `process_batch` shows for the source text, and whether it is a fallback.
  unfoldable pub translated : (min_words : ℕ) (source_text : Text) → Result Text Text → Text × Bool
  translated min_words source_text translation =
      if ltb (meaningful_word_count source_text) min_words
      then (codes "[пропуск]", true)
      else elim translation [ ok text ↦ (text, false) | err _ ↦ (translation_fallback_text, true) ]

  -- What `process_batch` hands to the observer and the app.
  unfoldable pub process_batch :
      (segment_id timestamp base_url model : Text) (min_words latency_ms : ℕ)
      → (Text → ℕ → Answer)
      → List PendingSegment
      → Option LiveTranslationSegmentDto
  process_batch segment_id timestamp base_url model min_words latency_ms requests batch =
      if is_empty batch
      then none
      else let source_text = batch_source_text batch in
        let (text, is_fallback) =
          translated min_words source_text (translate base_url model (requests source_text)).0 in
        some
          (build_translation_dto segment_id timestamp batch source_text text is_fallback latency_ms)
