-- ===== src/Bilingual/Session.antt =====
-- The task that keeps the speech stream up: `run_ws_task` and what it calls, in
-- src-tauri/src/bilingual/session.rs.
-- The task's surroundings are its input. A `Tick` is one turn of the loop of `streaming_loop`: the
-- chunks waiting, each with the clock at its turn and whether the socket takes it, and what
-- `read_next_event` gives within 25 ms, nothing after a timeout. An `Attempt` is one call of
-- `connect_and_stream`; when its ticks are over without an error the stop signal has come, and so
-- when there is no further attempt. What goes to the app, the log and the batcher is recorded.
-- The locks of the stored segments and latencies are held only to push, which does not panic, so
-- that they are never poisoned.
use replyline.Prelude.{
  Bool, List, Option, Result, Text, [], codes, drop, err, get_elem?, if◌then◌else◌, length, ltb,
  map, none, ok, some, true, ℕ, ◌++◌, ◌+◌, ◌-◌, ◌∷◌,
}
use replyline.Bilingual.ContextBuffer.{QuestionContextBuffer}
use replyline.Bilingual.SegmentManager.{
  LiveTranscriptSegmentDto, SegmentManager, StreamingSttEvent, error, final, fresh_manager,
  handle_event, partial,
}

abbrev pub max_ws_retries : ℕ
max_ws_retries = 3

abbrev pub reconnect_backoff : List ℕ
reconnect_backoff = 2_000 ∷ 4_000 ∷ 8_000 ∷ []

abbrev pub max_stored_transcript_segments : ℕ
max_stored_transcript_segments = 2_000

abbrev pub max_stored_latency_samples : ℕ
max_stored_latency_samples = 10_000

pub data BilingualStatus : Type 0 where
  idle active reconnecting degraded errored : BilingualStatus

pub record AudioChunk : Type 0 where
  pub bytes : List ℕ
  pub sample_rate : ℕ
  pub duration_ms : ℕ
  pub started_at : ℕ

-- What the task tells its surroundings. An error is the call of `emit_error`, which shows the first
-- 200 characters of the redacted message (`Privacy.safe_preview`).
pub data Message : Type 0 where
  emit_status : BilingualStatus → Message
  emit_error : (code : Text) (message : Text) (recoverable : Bool) → Message
  emit_latency : (latency_ms : ℕ) (sample_rate : ℕ) (duration_ms : ℕ) → Message
  emit_partial_latency : (latency_ms : ℕ) → Message
  emit_segment : LiveTranscriptSegmentDto → Message
  enqueue_final : LiveTranscriptSegmentDto → Message
  log_reconnect : (attempt : ℕ) (backoff_ms : ℕ) → Message
  send_audio : List ℕ → Message

pub record Waiting : Type 0 where
  pub chunk : AudioChunk
  pub now_ms : ℕ
  pub sent : Result (Unit {0}) Text

pub record Tick : Type 0 where
  pub chunks : List Waiting
  pub event : Option (Result StreamingSttEvent Text)
  pub now_ms : ℕ
  pub context_locked : Bool

pub record Attempt : Type 0 where
  pub connect : Result (Unit {0}) Text
  pub ticks : List Tick

-- The buffers of the session and the segment manager.
pub record Stream : Type 0 where
  pub manager : SegmentManager
  pub context : QuestionContextBuffer
  pub finalized_segments : List LiveTranscriptSegmentDto
  pub latency_samples_ms : List ℕ

-- The stream after a call, what the call told, and its result: `none` when the stop signal came
-- before the call returned.
abbrev pub Outcome : Type 0
Outcome = Stream × List Message × Option (Result (Unit {0}) Text)

unfoldable pub push_bounded {ℓ} : {A : Type ℓ} → List A → A → ℕ → List A
push_bounded items value max_len =
    let pushed = items ++ value ∷ [] in
    if ltb max_len (length pushed) then drop (length pushed - max_len) pushed else pushed

unfoldable pub reconnect_backoff_ms : ℕ → ℕ
reconnect_backoff_ms attempt = elim (get_elem? reconnect_backoff (attempt - 1)) [
  | none ↦ 8_000
  | some backoff ↦ backoff
]

-- `code.clone().unwrap_or_else(|| "UNKNOWN".to_string())`.
abbrev pub safe_code : Option Text → Text
safe_code none = codes "UNKNOWN"
safe_code (some code) = code

module _ (to_rfc3339 : ℕ → Text) where
  -- What `process_event` does with the result of `handle_event`.
  unfoldable pub store_segment : Option LiveTranscriptSegmentDto → Stream → Stream × List Message
  store_segment none stream = (stream, [])
  store_segment (some segment) stream = (
    if segment.finalized
        then record stream {
          finalized_segments =
              push_bounded stream.finalized_segments segment max_stored_transcript_segments;
        }
        else stream,
    emit_segment segment ∷ [],
  )

  -- An event that is no error: the lock of the context and `handle_event`.
  unfoldable pub process_transcript : StreamingSttEvent → ℕ → Bool → Stream → Stream × List Message
  process_transcript event now_ms context_locked stream =
      let handled = handle_event to_rfc3339 event now_ms stream.manager stream.context in
      let (stream', messages) =
        store_segment handled.segment
          (record stream { manager = handled.manager; context = handled.context }) in
      if context_locked then (stream', map enqueue_final handled.on_final ++ messages) else (
        stream,
        emit_error (codes "BILINGUAL_CONTEXT_LOCK_FAILED") (codes "Context lock failed") true ∷ [],
      )

  unfoldable pub process_event : StreamingSttEvent → ℕ → Bool → Stream → Stream × List Message
  process_event (error code message recoverable) now_ms context_locked stream = (
    stream,
    emit_error (safe_code code) message recoverable
        ∷ (if recoverable then [] else emit_status errored ∷ []),
  )
  process_event (partial text) now_ms context_locked stream =
      process_transcript (partial text) now_ms context_locked stream
  process_event (final text ended_at) now_ms context_locked stream =
      process_transcript (final text ended_at) now_ms context_locked stream

  -- The `while let` loop over the waiting chunks; it returns the error of a send.
  unfoldable pub send_chunks :
      List Waiting → Stream → Stream × List Message × Result (Unit {0}) Text
  send_chunks [] stream = (stream, [], ok tt)
  send_chunks (waiting ∷ rest) stream =
      let chunk = waiting.chunk in
      let latency_ms = waiting.now_ms - chunk.started_at in
      let measured = record stream {
        latency_samples_ms =
            push_bounded stream.latency_samples_ms latency_ms max_stored_latency_samples;
      } in
      let told =
        emit_latency latency_ms chunk.sample_rate chunk.duration_ms
        ∷ emit_partial_latency latency_ms
        ∷ send_audio chunk.bytes
        ∷ [] in
      let (stream', messages, result) = send_chunks rest measured in
      elim waiting.sent [
        | err e ↦ (measured, told, err e)
        | ok _ ↦ (stream', told ++ messages, result)
      ]

  -- The `match` on `read_next_event` within its timeout.
  unfoldable pub take_event :
      Option (Result StreamingSttEvent Text)
      → ℕ
      → Bool
      → Stream
      → Stream × List Message × Result (Unit {0}) Text
  take_event none now_ms context_locked stream = (stream, [], ok tt)
  take_event (some (err e)) now_ms context_locked stream = (stream, [], err e)
  take_event (some (ok event)) now_ms context_locked stream =
      let (stream', messages) = process_event event now_ms context_locked stream in
      (stream', messages, ok tt)

  unfoldable pub run_tick : Tick → Stream → Stream × List Message × Result (Unit {0}) Text
  run_tick tick stream =
      let (sent, told, sending) = send_chunks tick.chunks stream in
      elim sending [
        | err e ↦ (sent, told, err e)
        | ok _ ↦
            let (stream', messages, result) =
              take_event tick.event tick.now_ms tick.context_locked sent in
            (stream', told ++ messages, result)
      ]

  unfoldable pub streaming_loop : List Tick → Stream → Outcome
  streaming_loop [] stream = (stream, [], none)
  streaming_loop (tick ∷ ticks) stream =
      let (stream', told, result) = run_tick tick stream in
      let (after, messages, end) = streaming_loop ticks stream' in
      elim result [ err e ↦ (stream', told, some (err e)) | ok _ ↦ (after, told ++ messages, end) ]

  unfoldable pub connect_and_stream : Attempt → Stream → Outcome
  connect_and_stream attempt stream = elim attempt.connect [
    | err e ↦ (stream, [], some (err e))
    | ok _ ↦
        let (after, messages, end) = streaming_loop attempt.ticks stream in
        (after, emit_status active ∷ messages, end)
  ]

  -- The loop of `run_ws_task` from `retries` on, and the idle status after it.
  unfoldable pub run_ws_loop : ℕ → List Attempt → Stream → Stream × List Message
  run_ws_loop retries [] stream = (stream, [])
  run_ws_loop retries (attempt ∷ attempts) stream =
      let (after, told, end) = connect_and_stream attempt stream in
      let (last, messages) = run_ws_loop (retries + 1) attempts after in
      let backoff_ms = reconnect_backoff_ms (retries + 1) in
      elim end [
        | none ↦ (after, told)
        | some (ok _) ↦ (after, told ++ emit_status idle ∷ [])
        | some (err e) ↦
            if ltb max_ws_retries (retries + 1)
            then (
              after,
              told
                  ++ emit_status degraded
                    ∷ emit_error (codes "BILINGUAL_STREAM_DEGRADED") e true
                    ∷ emit_status idle
                    ∷ [],
            )
            else (
              last,
              told ++ emit_status reconnecting ∷ log_reconnect (retries + 1) backoff_ms ∷ messages,
            )
      ]

  unfoldable pub run_ws_task : List Attempt → Stream → Stream × List Message
  run_ws_task attempts stream = run_ws_loop 0 attempts (record stream { manager = fresh_manager })
