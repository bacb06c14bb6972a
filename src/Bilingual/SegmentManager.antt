-- ===== src/Bilingual/SegmentManager.antt =====
-- Transcript events become numbered segments: src-tauri/src/bilingual/segment_manager.rs.
-- `to_rfc3339` is what chrono prints for a time in milliseconds. An event's `ended_at`, seconds as a
-- float, is the `Duration` it converts to, in nanoseconds; one that is negative or not finite, at
-- which `Duration::from_secs_f64` panics, is outside of the model. A method that takes `&mut self`
-- returns the new manager; the calls of `on_final` are a list.
use replyline.Prelude.{
  Bool, List, Option, Text, [], codes, false, if◌then◌else◌, ltb, min, none, some, text_eq, true, ℕ,
  ◌%◌, ◌++◌, ◌+◌, ◌-◌, ◌/◌, ◌^◌, ◌∷◌,
}
use replyline.Prelude.Decimal.{display}
use replyline.Bilingual.ContextBuffer.{QuestionContextBuffer, push_final}

abbrev pub partial_throttle_ms : ℕ
partial_throttle_ms = 120

abbrev pub u64_max : ℕ
u64_max = 18446744073709551615

-- `StreamingSttEvent` of src-tauri/src/providers/deepgram_streaming.rs, less the fields that no
-- reader looks at.
pub data StreamingSttEvent : Type 0 where
  partial : (text : Text) → StreamingSttEvent
  final : (text : Text) (ended_at : Option ℕ) → StreamingSttEvent
  error : (code : Option Text) (message : Text) (recoverable : Bool) → StreamingSttEvent

pub record LiveTranscriptSegmentDto : Type 0 where
  pub segment_id : Text
  pub timestamp : Text
  pub text : Text
  pub finalized : Bool

pub record SegmentManager : Type 0 where
  pub seq : ℕ
  pub last_partial_text : Option Text
  pub last_partial_emit_at_ms : Option ℕ

-- `SegmentManager::default()`.
abbrev pub fresh_manager : SegmentManager
fresh_manager = record { seq = 0; last_partial_text = none; last_partial_emit_at_ms = none }

abbrev pub segment_id_of : ℕ → Text
segment_id_of seq = codes "seg-" ++ display seq

-- `self.last_partial_text.as_deref() == Some(text.as_str())`.
unfoldable pub unchanged : Option Text → Text → Bool
unchanged none text = false
unchanged (some last) text = text_eq last text

-- `now_ms.saturating_sub(last_emit_at) < PARTIAL_THROTTLE_MS`, when there is a `last_emit_at`.
unfoldable pub throttled : Option ℕ → ℕ → Bool
throttled none now_ms = false
throttled (some last_emit_at) now_ms = ltb (now_ms - last_emit_at) partial_throttle_ms

-- What `handle_event` does: the new manager and context, the calls of `on_final`, and the result.
pub record Handled : Type 0 where
  pub manager : SegmentManager
  pub context : QuestionContextBuffer
  pub on_final : List LiveTranscriptSegmentDto
  pub segment : Option LiveTranscriptSegmentDto

module _ (to_rfc3339 : ℕ → Text) where
  unfoldable pub build_segment :
      Text → Bool → ℕ → SegmentManager → SegmentManager × LiveTranscriptSegmentDto
  build_segment text finalized now_ms manager =
      let seq = min (manager.seq + 1) u64_max in
      (
        record manager { seq = seq },
        record {
          segment_id = segment_id_of seq;
          timestamp = to_rfc3339 now_ms;
          text = text;
          finalized = finalized;
        },
      )

  unfoldable pub handle_partial :
      Text → ℕ → SegmentManager → SegmentManager × Option LiveTranscriptSegmentDto
  handle_partial text now_ms manager =
      if unchanged manager.last_partial_text text
      then (manager, none)
      else if throttled manager.last_partial_emit_at_ms now_ms
      then (record manager { last_partial_text = some text }, none)
      else let (manager', dto) = build_segment text false now_ms (record manager {
        last_partial_text = some text;
        last_partial_emit_at_ms = some now_ms;
      }) in
        (manager', some dto)

  -- `Duration::from_secs_f64(sec).as_millis() as u64`, or the time of the event.
  abbrev pub ended_at_ms : Option ℕ → ℕ → ℕ
  ended_at_ms none now_ms = now_ms
  ended_at_ms (some duration) now_ms = duration / 1_000_000 % 2 ^ 64

  unfoldable pub handle_event :
      StreamingSttEvent → ℕ → SegmentManager → QuestionContextBuffer → Handled
  handle_event (partial text) now_ms manager context =
      let (manager', segment) = handle_partial text now_ms manager in
      record { manager = manager'; context = context; on_final = []; segment = segment }
  handle_event (final text ended_at) now_ms manager context =
      let (manager', dto) = build_segment text true now_ms manager in
      record {
        manager = manager';
        context =
            push_final
              (record {
                segment_id = dto.segment_id;
                text = dto.text;
                ended_at_ms = ended_at_ms ended_at now_ms;
              })
              context;
        on_final = dto ∷ [];
        segment = some dto;
      }
  handle_event (error code message recoverable) now_ms manager context = record {
    manager = manager;
    context = context;
    on_final = [];
    segment = none;
  }
