-- ===== src/Bilingual/Segments.antt =====
-- What a run of events makes of src-tauri/src/bilingual/segment_manager.rs: no final segment is
-- lost, ids are never used twice, partial segments are spaced.
use replyline.Prelude.{
  Bool-cases, List, Option, Text, [], ap, arith, drop, false, get_elem?, if◌then◌else◌, inl, inr,
  length, map, min, none, refl, retain, some, subst, suc, sym, true, zero, ℕ, ◌++◌, ◌+◌, ◌-◌, ◌∙◌,
  ◌∷◌, ◌≡◌, ◌≤◌, ◌⊎◌,
}
use replyline.Prelude.Decimal.{display, read-display, read_from}
use replyline.Bilingual.ContextBuffer.{QuestionContextBuffer}
use replyline.Bilingual.SegmentManager.{
  LiveTranscriptSegmentDto, SegmentManager, StreamingSttEvent, build_segment, error, final,
  handle_event, handle_partial, partial, partial_throttle_ms, segment_id_of, throttled, u64_max,
  unchanged,
}

-- The events with the times at which they are handled.
abbrev pub Timed : Type 0
Timed = ℕ × StreamingSttEvent

-- The texts of the final events.
unfoldable pub final_texts : List Timed → List Text
final_texts [] = []
final_texts ((now, partial text) ∷ events) = final_texts events
final_texts ((now, final text ended_at) ∷ events) = text ∷ final_texts events
final_texts ((now, error code message recoverable) ∷ events) = final_texts events

abbrev pub cons? {ℓ} : {A : Type ℓ} → Option A → List A → List A
cons? none xs = xs
cons? (some a) xs = a ∷ xs

-- The dtos of the final segments among those emitted.
abbrev pub finalized_of : List LiveTranscriptSegmentDto → List LiveTranscriptSegmentDto
finalized_of xs = retain (λ dto. dto.finalized) xs

abbrev pub texts : List LiveTranscriptSegmentDto → List Text
texts xs = map (λ dto. dto.text) xs

abbrev pub ids : List LiveTranscriptSegmentDto → List Text
ids xs = map (λ dto. dto.segment_id) xs

-- What a run of events leaves.
pub record Ran : Type 0 where
  pub manager : SegmentManager
  pub context : QuestionContextBuffer
  pub on_final : List LiveTranscriptSegmentDto
  pub emitted : List LiveTranscriptSegmentDto
  pub partial_times : List ℕ

-- The time of the event, if it is a partial segment that is emitted.
abbrev pub partial_time : ℕ → StreamingSttEvent → Option LiveTranscriptSegmentDto → Option ℕ
partial_time now event none = none
partial_time now event (some dto) = if dto.finalized then none else some now

-- Each time is at least the throttle after the one before it.
abbrev pub Spaced : Option ℕ → List ℕ → Type 0
Spaced last [] = Unit
Spaced last (time ∷ times) =
    ((t : ℕ) → last ≡ some t → partial_throttle_ms ≤ time - t) × Spaced (some time) times

get_elem?-cons {ℓ} :
    {A : Type ℓ} (a : A) (xs : List A) (i : ℕ) (b : A)
    → get_elem? (a ∷ xs) i ≡ some b
    → ((i ≡ 0) × (a ≡ b)) ⊎ ((j : ℕ) × (i ≡ suc j) × (get_elem? xs j ≡ some b))
get_elem?-cons a xs zero b e = inl (refl, cc)
get_elem?-cons a xs (suc i) b e = inr (i, refl, e)

segment_id_of-injective : (m n : ℕ) → segment_id_of m ≡ segment_id_of n → m ≡ n
segment_id_of-injective m n e =
    let digits : display m ≡ display n = ap (drop 4) e in
    sym (read-display m) ∙ ap (read_from 0) digits ∙ read-display n

module _ (to_rfc3339 : ℕ → Text) where
  unfoldable pub run_events : List Timed → SegmentManager → QuestionContextBuffer → Ran
  run_events [] manager context = record {
    manager = manager;
    context = context;
    on_final = [];
    emitted = [];
    partial_times = [];
  }
  run_events ((now, event) ∷ events) manager context =
      let here = handle_event to_rfc3339 event now manager context in
      let later = run_events events here.manager here.context in
      record {
        manager = later.manager;
        context = later.context;
        on_final = here.on_final ++ later.on_final;
        emitted = cons? here.segment later.emitted;
        partial_times = cons? (partial_time now event here.segment) later.partial_times;
      }

  module _ (now : ℕ) (manager : SegmentManager) (context : QuestionContextBuffer) where
    -- A partial event is skipped, or it becomes a segment that is not final.
    pub handle_partial_cases {ℓ} :
        (text : Text) (P : SegmentManager × Option LiveTranscriptSegmentDto → Type ℓ)
        → ((last : Option Text) → P (record manager { last_partial_text = last }, none))
        → (throttled manager.last_partial_emit_at_ms now ≡ false
            → P (
              record {
                seq = min (manager.seq + 1) u64_max;
                last_partial_text = some text;
                last_partial_emit_at_ms = some now;
              },
              some (record {
                segment_id = segment_id_of (min (manager.seq + 1) u64_max);
                timestamp = to_rfc3339 now;
                text = text;
                finalized = false;
              }),
            ))
        → P (handle_partial to_rfc3339 text now manager)
    unfolding handle_partial build_segment
    handle_partial_cases text P skipped made =
        elim (Bool-cases (unchanged manager.last_partial_text text)) [
          | inl same ↦ rw same (skipped manager.last_partial_text)
          | inr differs ↦ elim (Bool-cases (throttled manager.last_partial_emit_at_ms now)) [
            | inl early ↦ rw (differs, early) (skipped (some text))
            | inr late ↦ rw (differs, late) (made late)
          ]
        ]

  -- A run loses no final event: the final segments it emits have the texts of the final events, in
  -- their order, and `on_final` is called with exactly these segments.
  pub finals_reach :
      (events : List Timed) (manager : SegmentManager) (context : QuestionContextBuffer)
      → let ran = run_events events manager context in
        (texts (finalized_of ran.emitted) ≡ final_texts events)
        × (ran.on_final ≡ finalized_of ran.emitted)
  unfolding run_events final_texts handle_event build_segment
  finals_reach [] manager context = (refl, refl)
  finals_reach ((now, partial text) ∷ events) manager context =
      handle_partial_cases now manager context text
        (λ (m, segment).
          let later = run_events events m context in
          (texts (finalized_of (cons? segment later.emitted)) ≡ final_texts events)
          × (later.on_final ≡ finalized_of (cons? segment later.emitted)))
        (λ last. finals_reach events _ context) (λ late. finals_reach events _ context)
  finals_reach ((now, final text ended_at) ∷ events) manager context =
      let (t, f) = finals_reach events _ _ in
      (ap (◌∷◌ text) t, ap (◌∷◌ (build_segment to_rfc3339 text true now manager).1) f)
  finals_reach ((now, error code message recoverable) ∷ events) manager context =
      finals_reach events manager context

  -- An event emits nothing and leaves the counter, or emits one segment with the next number.
  handle_event_number :
      (event : StreamingSttEvent) (now : ℕ) (manager : SegmentManager)
      (context : QuestionContextBuffer)
      → let here = handle_event to_rfc3339 event now manager context in
        ((here.segment ≡ none) × (here.manager.seq ≡ manager.seq))
        ⊎ ((dto : LiveTranscriptSegmentDto) × (here.segment ≡ some dto)
            × (dto.segment_id ≡ segment_id_of (min (manager.seq + 1) u64_max))
            × (here.manager.seq ≡ min (manager.seq + 1) u64_max))
  unfolding handle_event build_segment
  handle_event_number (partial text) now manager context =
      handle_partial_cases now manager context text
        (λ (m, segment).
          ((segment ≡ none) × (m.seq ≡ manager.seq))
          ⊎ ((dto : LiveTranscriptSegmentDto) × (segment ≡ some dto)
              × (dto.segment_id ≡ segment_id_of (min (manager.seq + 1) u64_max))
              × (m.seq ≡ min (manager.seq + 1) u64_max)))
        (λ last. inl (refl, refl)) (λ late. inr (_, refl, refl, refl))
  handle_event_number (final text ended_at) now manager context = inr (_, refl, refl, refl)
  handle_event_number (error code message recoverable) now manager context = inl (refl, refl)

  -- Below the limit of the counter the segments are numbered one after the other.
  run_events_number :
      (events : List Timed) (manager : SegmentManager) (context : QuestionContextBuffer) (i : ℕ)
      (dto : LiveTranscriptSegmentDto)
      → manager.seq + length events ≤ u64_max
      → get_elem? (run_events events manager context).emitted i ≡ some dto
      → dto.segment_id ≡ segment_id_of (manager.seq + 1 + i)
  unfolding run_events
  run_events_number [] manager context i dto few e = cc
  run_events_number ((now, event) ∷ events) manager context i dto few e =
      let here = handle_event to_rfc3339 event now manager context in
      elim (handle_event_number event now manager context) [
        | inl (none_here, same) ↦
            run_events_number events here.manager here.context i dto (omega arith)
              (rw none_here at e)
            ∙ ap (λ n. segment_id_of (n + 1 + i)) same
        | inr (a, some_here, id, next) ↦ elim (get_elem?-cons a _ i dto (rw some_here at e)) [
          | inl (first, same) ↦
              ap (λ d. d.segment_id) (sym same) ∙ id ∙ ap segment_id_of (omega arith)
          | inr (j, after, f) ↦
              run_events_number events here.manager here.context j dto (omega arith) f
              ∙ ap segment_id_of (omega arith)
        ]
      ]

  -- In a run that the counter does not limit, which is one of fewer than 2^64 events from a fresh
  -- manager, no two segments emitted have the same id.
  pub segment_ids_distinct :
      (events : List Timed) (manager : SegmentManager) (context : QuestionContextBuffer) (i j : ℕ)
      (a b : LiveTranscriptSegmentDto)
      → manager.seq + length events ≤ u64_max
      → let emitted = (run_events events manager context).emitted in
        get_elem? emitted i ≡ some a
        → get_elem? emitted j ≡ some b
        → a.segment_id ≡ b.segment_id
        → i ≡ j
  segment_ids_distinct events manager context i j a b few e f same = omega (
    arith,
    segment_id_of-injective (manager.seq + 1 + i) (manager.seq + 1 + j) (
        sym (run_events_number events manager context i a few e)
        ∙ same
        ∙ run_events_number events manager context j b few f),
  )

  -- An event that emits a partial segment comes late enough after the last one.
  handle_event_times :
      (event : StreamingSttEvent) (now : ℕ) (manager : SegmentManager)
      (context : QuestionContextBuffer)
      → let here = handle_event to_rfc3339 event now manager context in
        ((partial_time now event here.segment ≡ none)
          × (here.manager.last_partial_emit_at_ms ≡ manager.last_partial_emit_at_ms))
        ⊎ ((partial_time now event here.segment ≡ some now)
            × (here.manager.last_partial_emit_at_ms ≡ some now)
            × (throttled manager.last_partial_emit_at_ms now ≡ false))
  unfolding handle_event build_segment
  handle_event_times (partial text) now manager context =
      handle_partial_cases now manager context text
        (λ (m, segment).
          ((partial_time now (partial text) segment ≡ none)
            × (m.last_partial_emit_at_ms ≡ manager.last_partial_emit_at_ms))
          ⊎ ((partial_time now (partial text) segment ≡ some now)
              × (m.last_partial_emit_at_ms ≡ some now)
              × (throttled manager.last_partial_emit_at_ms now ≡ false)))
        (λ last. inl (refl, refl)) (λ late. inr (refl, refl, late))
  handle_event_times (final text ended_at) now manager context = inl (refl, refl)
  handle_event_times (error code message recoverable) now manager context = inl (refl, refl)

  -- The partial segments of a run are spaced: between one and the next at least 120 milliseconds
  -- pass, and so between the last one before the run and its first.
  pub partials-Spaced :
      (events : List Timed) (manager : SegmentManager) (context : QuestionContextBuffer)
      → Spaced manager.last_partial_emit_at_ms (run_events events manager context).partial_times
  unfolding run_events throttled
  partials-Spaced [] manager context = tt
  partials-Spaced ((now, event) ∷ events) manager context =
      let here = handle_event to_rfc3339 event now manager context in
      elim (handle_event_times event now manager context) [
        | inl (no_time, same) ↦ rw no_time (
            subst (λ l. Spaced l (run_events events here.manager here.context).partial_times) same
              (partials-Spaced events here.manager here.context))
        | inr (time, emitted, late) ↦ rw time (
          λ last e. ground (arith, e, late),
          subst (λ l. Spaced l (run_events events here.manager here.context).partial_times) emitted
              (partials-Spaced events here.manager here.context),
        )
      ]
