-- ===== src/Bilingual/Streaming.antt =====
-- What the stream of src-tauri/src/bilingual/session.rs stores and passes on.
use replyline.Prelude.{
  Bool, Bool-cases, List, Option, Option-cases, Result, Result-cases, Text, [], codes, err, false,
  inl, inr, ltb, none, ok, refl, some, true, ℕ, ◌++◌, ◌+◌, ◌-◌, ◌∷◌, ◌≡◌,
}
use replyline.Bilingual.SegmentManager.{
  StreamingSttEvent, build_segment, error, final, fresh_manager, handle_event, partial,
}
use replyline.Bilingual.Segments.{handle_partial_cases}
use replyline.Bilingual.Session.{
  Attempt, Message, Stream, Tick, Waiting, active, connect_and_stream, degraded, emit_error,
  emit_latency, emit_partial_latency, emit_status, idle, log_reconnect, max_stored_latency_samples,
  max_stored_transcript_segments, process_event, process_transcript, push_bounded,
  reconnect_backoff_ms, reconnecting, run_tick, run_ws_loop, run_ws_task, send_audio, send_chunks,
  store_segment, streaming_loop, take_event,
}
use replyline.Bilingual.Stores.{
  Bounded, Stores, Stores-append, Stores-quiet, keep_last, keep_last-same, latencies,
  length-push_bounded, push_bounded-keep_last, queued, shown_finals,
}

module _ (to_rfc3339 : ℕ → Text) where
  process_event-Stores :
      (event : StreamingSttEvent) (now : ℕ) (locked : Bool) (stream : Stream)
      → Bounded stream
      → let (after, told) = process_event to_rfc3339 event now locked stream in
        Stores stream after told
  unfolding process_event process_transcript handle_event store_segment build_segment
  process_event-Stores (error code message true) now locked stream v =
      Stores-quiet _ _ _ v refl refl refl refl refl
  process_event-Stores (error code message false) now locked stream v =
      Stores-quiet _ _ _ v refl refl refl refl refl
  process_event-Stores (partial text) now false stream v =
      Stores-quiet _ _ _ v refl refl refl refl refl
  process_event-Stores (final text ended_at) now false stream v =
      Stores-quiet _ _ _ v refl refl refl refl refl
  process_event-Stores (partial text) now true stream v =
      handle_partial_cases to_rfc3339 now stream.manager stream.context text
        (λ (m, segment).
          let (after, told) =
            store_segment to_rfc3339 segment
              (record stream { manager = m; context = stream.context }) in
          Stores stream after told)
        (λ last. Stores-quiet _ _ _ v refl refl refl refl refl)
        (λ late. Stores-quiet _ _ _ v refl refl refl refl refl)
  process_event-Stores (final text ended_at) now true stream v = record {
    passed_on = refl;
    transcript =
        push_bounded-keep_last stream.finalized_segments
          (build_segment to_rfc3339 text true now stream.manager).1 max_stored_transcript_segments;
    samples =
        keep_last-same max_stored_latency_samples stream.latency_samples_ms _ [] v.1 refl refl;
    few_segments =
        length-push_bounded stream.finalized_segments
          (build_segment to_rfc3339 text true now stream.manager).1 max_stored_transcript_segments;
    few_samples = v.1;
  }

  -- The store of one latency.
  measure_step :
      (waiting : Waiting) (stream : Stream)
      → Bounded stream
      → let latency_ms = waiting.now_ms - waiting.chunk.started_at in
        Stores stream
          (record stream {
            latency_samples_ms =
                push_bounded stream.latency_samples_ms latency_ms max_stored_latency_samples;
          })
          (emit_latency latency_ms waiting.chunk.sample_rate waiting.chunk.duration_ms
            ∷ emit_partial_latency latency_ms
            ∷ send_audio waiting.chunk.bytes
            ∷ [])
  measure_step waiting stream v =
      let latency_ms = waiting.now_ms - waiting.chunk.started_at in
      record {
        passed_on = refl;
        transcript =
            keep_last-same max_stored_transcript_segments stream.finalized_segments _ [] v.0 refl
              refl;
        samples =
            push_bounded-keep_last stream.latency_samples_ms latency_ms max_stored_latency_samples;
        few_segments = v.0;
        few_samples =
            length-push_bounded stream.latency_samples_ms latency_ms max_stored_latency_samples;
      }

  send_chunks-Stores :
      (waiting : List Waiting) (stream : Stream)
      → Bounded stream
      → let (after, told, _) = send_chunks to_rfc3339 waiting stream in Stores stream after told
  unfolding send_chunks
  send_chunks-Stores [] stream v = Stores-quiet stream stream [] v refl refl refl refl refl
  send_chunks-Stores (w ∷ rest) stream v =
      let measured = measure_step w stream v in
      elim (Result-cases w.sent) [
        | inl (e, fails) ↦ rw (fails, send_chunks) measured
        | inr (_, sends) ↦
            rw (sends, send_chunks)
              (Stores-append stream _ _ _ _ measured
                (send_chunks-Stores rest _ (measured.few_segments, measured.few_samples)))
      ]

  take_event-Stores :
      (event : Option (Result StreamingSttEvent Text)) (now : ℕ) (locked : Bool) (stream : Stream)
      → Bounded stream
      → let (after, told, _) = take_event to_rfc3339 event now locked stream in
        Stores stream after told
  unfolding take_event
  take_event-Stores none now locked stream v =
      Stores-quiet stream stream [] v refl refl refl refl refl
  take_event-Stores (some (err e)) now locked stream v =
      Stores-quiet stream stream [] v refl refl refl refl refl
  take_event-Stores (some (ok event)) now locked stream v =
      process_event-Stores event now locked stream v

  run_tick-Stores :
      (tick : Tick) (stream : Stream)
      → Bounded stream
      → let (after, told, _) = run_tick to_rfc3339 tick stream in Stores stream after told
  unfolding run_tick
  run_tick-Stores tick stream v =
      let sent = send_chunks-Stores tick.chunks stream v in
      elim (Result-cases (send_chunks to_rfc3339 tick.chunks stream).2) [
        | inl (e, fails) ↦ rw (fails, run_tick) sent
        | inr (_, sends) ↦
            rw (sends, run_tick)
              (Stores-append stream _ _ _ _ sent (
                take_event-Stores tick.event tick.now_ms tick.context_locked _
                  (sent.few_segments, sent.few_samples)))
      ]

  streaming_loop-Stores :
      (ticks : List Tick) (stream : Stream)
      → Bounded stream
      → let (after, told, _) = streaming_loop to_rfc3339 ticks stream in Stores stream after told
  unfolding streaming_loop
  streaming_loop-Stores [] stream v = Stores-quiet stream stream [] v refl refl refl refl refl
  streaming_loop-Stores (tick ∷ ticks) stream v =
      let turned = run_tick-Stores tick stream v in
      elim (Result-cases (run_tick to_rfc3339 tick stream).2) [
        | inl (e, fails) ↦ rw (fails, streaming_loop) turned
        | inr (_, goes_on) ↦
            rw (goes_on, streaming_loop)
              (Stores-append stream _ _ _ _ turned
                (streaming_loop-Stores ticks _ (turned.few_segments, turned.few_samples)))
      ]

  connect_and_stream-Stores :
      (attempt : Attempt) (stream : Stream)
      → Bounded stream
      → let (after, told, _) = connect_and_stream to_rfc3339 attempt stream in
        Stores stream after told
  unfolding connect_and_stream
  connect_and_stream-Stores attempt stream v = elim (Result-cases attempt.connect) [
    | inl (e, fails) ↦ rw fails (Stores-quiet stream stream [] v refl refl refl refl refl)
    | inr (_, connects) ↦ rw connects (
        Stores-append stream stream _ (emit_status active ∷ []) _
          (Stores-quiet stream stream _ v refl refl refl refl refl)
          (streaming_loop-Stores attempt.ticks stream v))
  ]

  -- What follows an attempt stores nothing.
  Stores-end :
      (a b c : Stream) (told own later : List Message)
      → Stores a b told
      → queued own ≡ []
      → shown_finals own ≡ []
      → latencies own ≡ []
      → Stores b c later
      → Stores a c (told ++ (own ++ later))
  Stores-end a b c told own later first q s l next = Stores-append a b c told (own ++ later) first (
      Stores-append b b c own later
        (Stores-quiet b b own (first.few_segments, first.few_samples) refl refl q s l) next)

  run_ws_loop-Stores :
      (retries : ℕ) (attempts : List Attempt) (stream : Stream)
      → Bounded stream
      → let (after, told) = run_ws_loop to_rfc3339 retries attempts stream in
        Stores stream after told
  unfolding run_ws_loop
  run_ws_loop-Stores retries [] stream v = Stores-quiet stream stream [] v refl refl refl refl refl
  run_ws_loop-Stores retries (attempt ∷ attempts) stream v =
      let after = (connect_and_stream to_rfc3339 attempt stream).0 in
      let first = connect_and_stream-Stores attempt stream v in
      let kept : Bounded after = (first.few_segments, first.few_samples) in
      let nothing = Stores-quiet after after [] kept refl refl refl refl refl in
      elim (Option-cases (connect_and_stream to_rfc3339 attempt stream).2) [
        | inl stops ↦ rw (stops, run_ws_loop) first
        | inr (result, returned) ↦ elim (Result-cases result) [
          | inr (_, e) ↦
              rw (returned, e, run_ws_loop)
                (Stores-end stream after after _ (emit_status idle ∷ []) [] first refl refl refl
                  nothing)
          | inl (text, e) ↦ elim (Bool-cases (ltb 3 (retries + 1))) [
            | inl over ↦
                rw (returned, e, run_ws_loop)
                  (rw over (
                    Stores-end stream after after _
                      (emit_status degraded
                        ∷ emit_error (codes "BILINGUAL_STREAM_DEGRADED") text true
                        ∷ emit_status idle
                        ∷ [])
                      [] first refl refl refl nothing))
            | inr again ↦
                rw (returned, e, run_ws_loop)
                  (rw again (
                    Stores-end stream after _ _
                      (emit_status reconnecting
                        ∷ log_reconnect (retries + 1) (reconnect_backoff_ms (retries + 1))
                        ∷ [])
                      _ first refl refl refl
                      (run_ws_loop-Stores (retries + 1) attempts after kept)))
          ]
        ]
      ]

  -- Over a whole run of the task, whatever fails: the segments queued for translation are the final
  -- segments shown, in their order. The stored transcript is the last 2000 of the stored segments
  -- with these, and the stored latencies are the last 10000 of the old ones with the reported ones.
  pub run_ws_task_stores :
      (attempts : List Attempt) (stream : Stream)
      → Bounded stream
      → let (after, told) = run_ws_task to_rfc3339 attempts stream in
        (queued told ≡ shown_finals told)
        × (after.finalized_segments ≡ keep_last 2_000 (stream.finalized_segments ++ queued told))
        × (after.latency_samples_ms
            ≡ keep_last 10_000 (stream.latency_samples_ms ++ latencies told))
  unfolding run_ws_task
  run_ws_task_stores attempts stream v =
      let stores = run_ws_loop-Stores 0 attempts (record stream { manager = fresh_manager }) v in
      (stores.passed_on, stores.transcript, stores.samples)
