-- ===== src/Bilingual/Reconnect.antt =====
-- How often and after which pauses `run_ws_task` of src-tauri/src/bilingual/session.rs connects.
use replyline.Prelude.{
  Bool, Bool-cases, List, Option, Result, Result-cases, Text, [], any, ap, arith, concat, err,
  false, if◌then◌else◌, inl, inr, is_ok, leb, ltb, map, none, not, ok, refl, retain, retain-append,
  some, suc, take, true, zero, ℕ, ◌++◌, ◌+◌, ◌||◌, ◌∙◌, ◌∷◌, ◌≡◌, ◌⊎◌,
}
use replyline.Bilingual.SegmentManager.{
  LiveTranscriptSegmentDto, StreamingSttEvent, error, final, partial,
}
use replyline.Bilingual.Session.{
  Attempt, Message, Stream, Tick, Waiting, connect_and_stream, degraded, emit_status, enqueue_final,
  idle, log_reconnect, max_ws_retries, process_event, process_transcript, reconnect_backoff_ms,
  reconnecting, run_tick, run_ws_loop, run_ws_task, send_chunks, store_segment, streaming_loop,
  take_event,
}

-- The messages of the task itself, not of the stream.
abbrev pub is_task_message : Message → Bool
is_task_message (emit_status reconnecting) = true
is_task_message (emit_status degraded) = true
is_task_message (emit_status idle) = true
is_task_message (log_reconnect attempt backoff_ms) = true
is_task_message _ = false

-- Whether an attempt ends in an error: of the connection, of a send or of the reader.
unfoldable pub send_fails : List Waiting → Bool
send_fails [] = false
send_fails (waiting ∷ rest) = not (is_ok waiting.sent) || send_fails rest

unfoldable pub read_fails : Option (Result StreamingSttEvent Text) → Bool
read_fails none = false
read_fails (some result) = not (is_ok result)

abbrev pub attempt_fails : Attempt → Bool
attempt_fails attempt =
    not (is_ok attempt.connect)
    || any (λ tick. send_fails tick.chunks || read_fails tick.event) attempt.ticks

abbrev pub leading_failures : List Attempt → ℕ
leading_failures [] = 0
leading_failures (attempt ∷ attempts) =
    if attempt_fails attempt then suc (leading_failures attempts) else 0

-- What the task tells when the first `n` attempts fail, from the retry after `retries` on.
abbrev pub task_messages : ℕ → ℕ → List Message
task_messages retries zero = []
task_messages retries (suc n) =
    let later = task_messages (retries + 1) n in
    if ltb max_ws_retries (retries + 1)
    then emit_status degraded ∷ emit_status idle ∷ []
    else emit_status reconnecting
      ∷ log_reconnect (retries + 1) (reconnect_backoff_ms (retries + 1))
      ∷ later

-- Reads the result of a call: an error exactly when the call fails.
abbrev Ends : Bool → Option (Result (Unit {0}) Text) → Type 0
Ends fails end =
    ((fails ≡ true) × ((e : Text) × (end ≡ some (err e)))) ⊎ ((fails ≡ false) × (end ≡ none))

abbrev Returns : Bool → Result (Unit {0}) Text → Type 0
Returns fails result =
    ((fails ≡ true) × ((e : Text) × (result ≡ err e))) ⊎ ((fails ≡ false) × (result ≡ ok tt))

abbrev pub reconnect_rounds : List (List Message)
reconnect_rounds =
    (emit_status reconnecting ∷ log_reconnect 1 2_000 ∷ [])
    ∷ (emit_status reconnecting ∷ log_reconnect 2 4_000 ∷ [])
    ∷ (emit_status reconnecting ∷ log_reconnect 3 8_000 ∷ [])
    ∷ []

task_messages_rounds :
    (n : ℕ)
    → task_messages 0 n
      ≡ concat (take n reconnect_rounds)
        ++ (if leb 4 n then emit_status degraded ∷ emit_status idle ∷ [] else [])
unfolding reconnect_backoff_ms
task_messages_rounds zero = refl
task_messages_rounds (suc zero) = refl
task_messages_rounds (suc (suc zero)) = refl
task_messages_rounds (suc (suc (suc zero))) = refl
task_messages_rounds (suc (suc (suc (suc n)))) = ground arith

module _ (to_rfc3339 : ℕ → Text) where
  quiet_enqueue :
      (xs : List LiveTranscriptSegmentDto) → retain is_task_message (map enqueue_final xs) ≡ []
  quiet_enqueue [] = refl
  quiet_enqueue (x ∷ xs) = quiet_enqueue xs

  quiet_store :
      (segment : Option LiveTranscriptSegmentDto) (stream : Stream)
      → retain is_task_message (store_segment to_rfc3339 segment stream).1 ≡ []
  unfolding store_segment
  quiet_store none stream = refl
  quiet_store (some segment) stream = refl

  quiet_transcript :
      (event : StreamingSttEvent) (now : ℕ) (locked : Bool) (stream : Stream)
      → retain is_task_message (process_transcript to_rfc3339 event now locked stream).1 ≡ []
  unfolding process_transcript
  quiet_transcript event now true stream =
      rw (retain-append is_task_message, quiet_enqueue, quiet_store)
  quiet_transcript event now false stream = refl

  quiet_event :
      (event : StreamingSttEvent) (now : ℕ) (locked : Bool) (stream : Stream)
      → retain is_task_message (process_event to_rfc3339 event now locked stream).1 ≡ []
  unfolding process_event
  quiet_event (partial text) now locked stream = quiet_transcript (partial text) now locked stream
  quiet_event (final text ended_at) now locked stream =
      quiet_transcript (final text ended_at) now locked stream
  quiet_event (error code message true) now locked stream = refl
  quiet_event (error code message false) now locked stream = refl

  send_chunks-Returns :
      (waiting : List Waiting) (stream : Stream)
      → let (_, told, result) = send_chunks to_rfc3339 waiting stream in
        (retain is_task_message told ≡ []) × Returns (send_fails waiting) result
  unfolding send_chunks send_fails
  send_chunks-Returns [] stream = (refl, inr (refl, refl))
  send_chunks-Returns (w ∷ rest) stream = elim (Result-cases w.sent) [
    | inl (e, fails) ↦ rw fails (refl, inl (refl, (e, refl)))
    | inr (_, sends) ↦ rw sends (send_chunks-Returns rest _)
  ]

  take_event-Returns :
      (event : Option (Result StreamingSttEvent Text)) (now : ℕ) (locked : Bool) (stream : Stream)
      → let (_, told, result) = take_event to_rfc3339 event now locked stream in
        (retain is_task_message told ≡ []) × Returns (read_fails event) result
  unfolding take_event read_fails
  take_event-Returns none now locked stream = (refl, inr (refl, refl))
  take_event-Returns (some (err e)) now locked stream = (refl, inl (refl, (e, refl)))
  take_event-Returns (some (ok event)) now locked stream =
      (quiet_event event now locked stream, inr (refl, refl))

  run_tick-Returns :
      (tick : Tick) (stream : Stream)
      → let (_, told, result) = run_tick to_rfc3339 tick stream in
        (retain is_task_message told ≡ [])
        × Returns (send_fails tick.chunks || read_fails tick.event) result
  unfolding run_tick
  run_tick-Returns tick stream =
      let (quiet, returns) = send_chunks-Returns tick.chunks stream in
      elim returns [
        | inl (fails, (e, q)) ↦ rw (fails, q, run_tick) (quiet, inl (refl, (e, refl)))
        | inr (sends, q) ↦
            let (still, result) =
              take_event-Returns tick.event tick.now_ms tick.context_locked
                (send_chunks to_rfc3339 tick.chunks stream).0 in
            rw (sends, q, run_tick, retain-append is_task_message, quiet, still) (refl, result)
      ]

  -- The loop has no way out but an error: it never returns `Ok`.
  streaming_loop-Ends :
      (ticks : List Tick) (stream : Stream)
      → let (_, told, end) = streaming_loop to_rfc3339 ticks stream in
        (retain is_task_message told ≡ [])
        × Ends (any (λ tick. send_fails tick.chunks || read_fails tick.event) ticks) end
  unfolding streaming_loop
  streaming_loop-Ends [] stream = (refl, inr (refl, refl))
  streaming_loop-Ends (tick ∷ ticks) stream =
      let (quiet, returns) = run_tick-Returns tick stream in
      elim returns [
        | inl (fails, (e, q)) ↦ rw (fails, q, streaming_loop) (quiet, inl (refl, (e, refl)))
        | inr (goes_on, q) ↦
            let (still, end) = streaming_loop-Ends ticks (run_tick to_rfc3339 tick stream).0 in
            rw (goes_on, q, streaming_loop, retain-append is_task_message, quiet, still) (refl, end)
      ]

  connect_and_stream-Ends :
      (attempt : Attempt) (stream : Stream)
      → let (_, told, end) = connect_and_stream to_rfc3339 attempt stream in
        (retain is_task_message told ≡ []) × Ends (attempt_fails attempt) end
  unfolding connect_and_stream
  connect_and_stream-Ends attempt stream = elim (Result-cases attempt.connect) [
    | inl (e, fails) ↦ rw fails (refl, inl (refl, (e, refl)))
    | inr (_, connects) ↦ rw connects (streaming_loop-Ends attempt.ticks stream)
  ]

  run_ws_loop_messages :
      (retries : ℕ) (attempts : List Attempt) (stream : Stream)
      → retain is_task_message (run_ws_loop to_rfc3339 retries attempts stream).1
        ≡ task_messages retries (leading_failures attempts)
  unfolding run_ws_loop
  run_ws_loop_messages retries [] stream = refl
  run_ws_loop_messages retries (attempt ∷ attempts) stream =
      let after = (connect_and_stream to_rfc3339 attempt stream).0 in
      let (quiet, ends) = connect_and_stream-Ends attempt stream in
      elim ends [
        | inr (goes_on, q) ↦ rw (q, goes_on, run_ws_loop) quiet
        | inl (fails, (e, q)) ↦ elim (Bool-cases (ltb 3 (retries + 1))) [
          | inl over ↦ rw (q, fails, over, run_ws_loop, retain-append is_task_message, quiet)
          | inr again ↦
              rw (q, fails, again, run_ws_loop, retain-append is_task_message, quiet)
                (ap
                  (λ later.
                    emit_status reconnecting
                    ∷ log_reconnect (retries + 1) (reconnect_backoff_ms (retries + 1))
                    ∷ later)
                  (run_ws_loop_messages (retries + 1) attempts after))
        ]
      ]

  -- Of all attempts to connect or stream only the number of failures at the beginning decides
  -- what the task tells: after each of the first three it reports that it reconnects, pausing 2, 4
  -- and 8 seconds, and after a fourth it reports that it is degraded, then idle, and is done.
  pub run_ws_task_messages :
      (attempts : List Attempt) (stream : Stream)
      → retain is_task_message (run_ws_task to_rfc3339 attempts stream).1
        ≡ concat (take (leading_failures attempts) reconnect_rounds)
          ++ (if leb 4 (leading_failures attempts)
              then emit_status degraded ∷ emit_status idle ∷ []
              else [])
  unfolding run_ws_task
  run_ws_task_messages attempts stream =
      run_ws_loop_messages 0 attempts _ ∙ task_messages_rounds (leading_failures attempts)
