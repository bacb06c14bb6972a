-- ===== src/Bilingual/Tests.antt =====
-- The bilingual session on concrete events, and each theorem about it at an input that meets its
-- hypotheses.
use replyline.Prelude.{
  Bool, List, Text, [], arith, codes, concat, err, last?, none, ok, refl, retain, some, suc, trim,
  true, zero, ℕ, ◌++◌, ◌∷◌, ◌≡◌,
}
use replyline.Bilingual.ContextBuffer.{
  FinalTranscriptSegment, QuestionContextBuffer, prune, prune_count, prune_window, push_final,
  snapshot_for_answer,
}
use replyline.Bilingual.Buffering.{push_final_keeps_longest}
use replyline.Bilingual.SegmentManager.{
  LiveTranscriptSegmentDto, build_segment, final, fresh_manager, handle_event, handle_partial,
  partial, segment_id_of, throttled, unchanged,
}
use replyline.Bilingual.Segments.{
  Spaced, Timed, final_texts, finalized_of, finals_reach, partials-Spaced, run_events,
  segment_ids_distinct, texts,
}
use replyline.Bilingual.Session.{Attempt, Stream, degraded, emit_status, idle, run_ws_task}
use replyline.Bilingual.Reconnect.{
  is_task_message, read_fails, reconnect_rounds, run_ws_task_messages, send_fails,
}
use replyline.Bilingual.Stores.{keep_last, queued}
use replyline.Bilingual.Streaming.{run_ws_task_stores}
use replyline.Bilingual.Batcher.{
  Answer, Arrival, PendingSegment, answered, closed, received, run_batch_loop, timed_out, timeout,
  translate,
}
use replyline.Bilingual.Batches.{batches_complete, translate_retries_once}

abbrev spoke : ℕ → FinalTranscriptSegment
spoke ended = record { segment_id = codes "seg"; text = codes "safe"; ended_at_ms = ended }

abbrev half_minutes : QuestionContextBuffer
half_minutes = record { segments = spoke 0 ∷ spoke 30_000 ∷ spoke 60_000 ∷ [] }

prunes_old_segments_by_window :
    snapshot_for_answer (push_final (spoke 90_000) half_minutes)
    ≡ spoke 30_000 ∷ spoke 60_000 ∷ spoke 90_000 ∷ []
unfolding push_final prune prune_count prune_window
prunes_old_segments_by_window = refl

push_final_keeps_longest_example :
    last? (snapshot_for_answer (push_final (spoke 90_000) half_minutes)) ≡ some (spoke 90_000)
push_final_keeps_longest_example = (push_final_keeps_longest (spoke 90_000) half_minutes).0

abbrev no_time : ℕ → Text
no_time now = []

abbrev empty_context : QuestionContextBuffer
empty_context = record { segments = [] }

abbrev events : List Timed
events =
    (1_000, partial (codes "hello"))
    ∷ (1_050, partial (codes "hello 2"))
    ∷ (1_300, partial (codes "hello 2"))
    ∷ (2_000, final (codes "same") (some 2_100_000_000))
    ∷ (2_100, final (codes "same") none)
    ∷ []

partial_is_throttled_and_skips_unchanged :
    (run_events no_time events fresh_manager empty_context).partial_times ≡ 1_000 ∷ []
unfolding run_events handle_event handle_partial build_segment unchanged throttled
partial_is_throttled_and_skips_unchanged = refl

finals_reach_example :
    texts (finalized_of (run_events no_time events fresh_manager empty_context).emitted)
    ≡ codes "same" ∷ codes "same" ∷ []
unfolding final_texts
finals_reach_example = (finals_reach no_time events fresh_manager empty_context).0

abbrev segment : ℕ → Text → Bool → LiveTranscriptSegmentDto
segment n text finalized = record {
  segment_id = segment_id_of n;
  timestamp = [];
  text = text;
  finalized = finalized;
}

segment_ids_distinct_example : ◌≡◌ {A = ℕ} 1 1
unfolding run_events handle_event handle_partial build_segment unchanged throttled
segment_ids_distinct_example =
    segment_ids_distinct no_time events fresh_manager empty_context 1 1
      (segment 2 (codes "same") true) (segment 2 (codes "same") true) (omega arith) refl refl refl

partials-Spaced_example :
    Spaced none (run_events no_time events fresh_manager empty_context).partial_times
partials-Spaced_example = partials-Spaced no_time events fresh_manager empty_context

abbrev refused_attempt : Attempt
refused_attempt = record { connect = err (codes "refused"); ticks = [] }

abbrev heard : Attempt
heard = record {
  connect = ok tt;
  ticks =
      record {
        chunks = [];
        event = some (ok (final (codes "same") none));
        now_ms = 5;
        context_locked = true;
      }
      ∷ record {
        chunks = [];
        event = some (err (codes "closed"));
        now_ms = 6;
        context_locked = true;
      }
      ∷ [];
}

abbrev new_stream : Stream
new_stream = record {
  manager = fresh_manager;
  context = empty_context;
  finalized_segments = [];
  latency_samples_ms = [];
}

run_ws_task_messages_example :
    retain is_task_message
      (run_ws_task no_time
        (refused_attempt ∷ heard ∷ refused_attempt ∷ refused_attempt ∷ heard ∷ [])
        new_stream).1
    ≡ concat reconnect_rounds ++ emit_status degraded ∷ emit_status idle ∷ []
unfolding send_fails read_fails
run_ws_task_messages_example =
    run_ws_task_messages no_time
      (refused_attempt ∷ heard ∷ refused_attempt ∷ refused_attempt ∷ heard ∷ []) new_stream

run_ws_task_stores_example :
    (run_ws_task no_time (heard ∷ []) new_stream).0.finalized_segments
    ≡ keep_last 2_000 (queued (run_ws_task no_time (heard ∷ []) new_stream).1)
run_ws_task_stores_example =
    (run_ws_task_stores no_time (heard ∷ []) new_stream (omega arith, omega arith)).1

abbrev said : Text → PendingSegment
said text = record { id = codes "seg-1"; text = text }

abbrev arrivals : List Arrival
arrivals = received (said (codes "a")) ∷ timeout ∷ received (said (codes "b")) ∷ timeout ∷ []

batches_complete_example :
    concat (run_batch_loop [] (arrivals ++ closed ∷ [])) ≡ said (codes "a") ∷ said (codes "b") ∷ []
batches_complete_example = (batches_complete arrivals).0

abbrev second_answers : ℕ → Answer
second_answers zero = timed_out
second_answers (suc n) = answered (codes " привет ")

translate_retries_once_example :
    translate (codes "https://a") (codes "m") second_answers ≡ (ok (codes "привет"), 150 ∷ [])
unfolding trim
translate_retries_once_example =
    translate_retries_once (codes "https://a") (codes "m") second_answers refl refl
