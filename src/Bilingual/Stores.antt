-- ===== src/Bilingual/Stores.antt =====
-- What a store of src-tauri/src/bilingual/session.rs holds after the calls that push to it.
use mathlib.Core.List.{append_assoc, append-nil}
use replyline.Prelude.{
  Bool-cases, List, [], ap, arith, drop, drop-drop, if◌then◌else◌, inl, inr, length, length-append,
  length-drop, ltb, refl, subst, suc, sym, zero, ℕ, ◌++◌, ◌-◌, ◌∙◌, ◌∷◌, ◌≡◌, ◌≤◌,
}
use replyline.Bilingual.SegmentManager.{LiveTranscriptSegmentDto}
use replyline.Bilingual.Session.{
  Message, Stream, emit_latency, emit_segment, enqueue_final, max_stored_latency_samples,
  max_stored_transcript_segments, push_bounded,
}

-- The last `n` entries.
abbrev pub keep_last {ℓ} : {A : Type ℓ} → ℕ → List A → List A
keep_last n xs = drop (length xs - n) xs

-- The segments queued for translation, the final segments shown, the latencies reported.
abbrev pub queued : List Message → List LiveTranscriptSegmentDto
queued [] = []
queued (enqueue_final dto ∷ messages) = dto ∷ queued messages
queued (_ ∷ messages) = queued messages

abbrev pub shown_finals : List Message → List LiveTranscriptSegmentDto
shown_finals [] = []
shown_finals (emit_segment dto ∷ messages) =
    if dto.finalized then dto ∷ shown_finals messages else shown_finals messages
shown_finals (_ ∷ messages) = shown_finals messages

abbrev pub latencies : List Message → List ℕ
latencies [] = []
latencies (emit_latency latency_ms sample_rate duration_ms ∷ messages) =
    latency_ms ∷ latencies messages
latencies (_ ∷ messages) = latencies messages

pub push_bounded-keep_last {ℓ} :
    {A : Type ℓ} (xs : List A) (a : A) (n : ℕ) → push_bounded xs a n ≡ keep_last n (xs ++ a ∷ [])
unfolding push_bounded
push_bounded-keep_last xs a n = elim (Bool-cases (ltb n (length (xs ++ a ∷ [])))) [
  | inl over ↦ rw over
  | inr few ↦ rw few (ap (λ j. drop j (xs ++ a ∷ [])) {x = 0} (ground arith))
]

module _ {ℓ} {A : Type ℓ} where
  pub drop-append : (j : ℕ) (xs ys : List A) → j ≤ length xs → drop j (xs ++ ys) ≡ drop j xs ++ ys
  drop-append zero xs ys h = refl
  drop-append (suc j) [] ys h = absurd (omega arith)
  drop-append (suc j) (x ∷ xs) ys h = drop-append j xs ys (omega arith)

  -- Dropping early what is dropped in the end makes no difference.
  pub keep_last-append :
      (n : ℕ) (xs ys : List A) → keep_last n (keep_last n xs ++ ys) ≡ keep_last n (xs ++ ys)
  keep_last-append n xs ys =
      let d = length xs - n in
      ap (λ zs. drop (length zs - n) zs) (sym (drop-append d xs ys (omega arith)))
      ∙ drop-drop (length (drop d (xs ++ ys)) - n) d (xs ++ ys)
      ∙ ap (λ j. drop j (xs ++ ys)) (omega (arith, length-drop d (xs ++ ys), length-append xs ys))

  pub keep_last-short : (n : ℕ) (xs : List A) → length xs ≤ n → keep_last n xs ≡ xs
  keep_last-short n xs h = ap (λ j. drop j xs) {x = length xs - n} {y = 0} (omega arith)

  pub keep_last-then :
      (n : ℕ) (a b c xs ys : List A)
      → b ≡ keep_last n (a ++ xs)
      → c ≡ keep_last n (b ++ ys)
      → c ≡ keep_last n (a ++ (xs ++ ys))
  keep_last-then n a b c xs ys first next =
      next
      ∙ ap (λ zs. keep_last n (zs ++ ys)) first
      ∙ keep_last-append n (a ++ xs) ys
      ∙ ap (keep_last n) (append_assoc a xs ys)

  pub keep_last-same :
      (n : ℕ) (a b xs : List A) → length a ≤ n → b ≡ a → xs ≡ [] → b ≡ keep_last n (a ++ xs)
  keep_last-same n a b xs h same nothing =
      same
      ∙ sym (keep_last-short n a h)
      ∙ ap (keep_last n) (sym (append-nil a))
      ∙ ap (λ zs. keep_last n (a ++ zs)) (sym nothing)

-- A call that tells `told` takes the stores from `before` to `after`: what is queued is what is
-- shown as final, and the stores are the last entries of what they held with what came.
pub record Stores (before after : Stream) (told : List Message) : Type 0 where
  pub passed_on : queued told ≡ shown_finals told
  pub transcript :
      after.finalized_segments
      ≡ keep_last max_stored_transcript_segments (before.finalized_segments ++ queued told)
  pub samples :
      after.latency_samples_ms
      ≡ keep_last max_stored_latency_samples (before.latency_samples_ms ++ latencies told)
  pub few_segments : length after.finalized_segments ≤ max_stored_transcript_segments
  pub few_samples : length after.latency_samples_ms ≤ max_stored_latency_samples

-- The stores are within their limits.
abbrev pub Bounded : Stream → Type 0
Bounded stream =
    (length stream.finalized_segments ≤ max_stored_transcript_segments)
    × (length stream.latency_samples_ms ≤ max_stored_latency_samples)

pub queued-append : (xs ys : List Message) → queued (xs ++ ys) ≡ queued xs ++ queued ys
queued-append [] ys = refl
queued-append (x ∷ xs) ys = ground (arith, queued-append xs ys)

pub shown_finals-append :
    (xs ys : List Message) → shown_finals (xs ++ ys) ≡ shown_finals xs ++ shown_finals ys
shown_finals-append [] ys = refl
shown_finals-append (x ∷ xs) ys = ground (arith, shown_finals-append xs ys)

pub latencies-append : (xs ys : List Message) → latencies (xs ++ ys) ≡ latencies xs ++ latencies ys
latencies-append [] ys = refl
latencies-append (x ∷ xs) ys = ground (arith, latencies-append xs ys)

-- One call after the other.
pub Stores-append :
    (a b c : Stream) (xs ys : List Message) → Stores a b xs → Stores b c ys → Stores a c (xs ++ ys)
Stores-append a b c xs ys first next = record {
  passed_on = rw (queued-append, shown_finals-append, first.passed_on, next.passed_on);
  transcript = rw queued-append (
      keep_last-then max_stored_transcript_segments a.finalized_segments b.finalized_segments
        c.finalized_segments (queued xs) (queued ys) first.transcript next.transcript);
  samples = rw latencies-append (
      keep_last-then max_stored_latency_samples a.latency_samples_ms b.latency_samples_ms
        c.latency_samples_ms (latencies xs) (latencies ys) first.samples next.samples);
  few_segments = next.few_segments;
  few_samples = next.few_samples;
}

-- A call that stores nothing and passes nothing on.
pub Stores-quiet :
    (a b : Stream) (told : List Message)
    → Bounded a
    → b.finalized_segments ≡ a.finalized_segments
    → b.latency_samples_ms ≡ a.latency_samples_ms
    → queued told ≡ []
    → shown_finals told ≡ []
    → latencies told ≡ []
    → Stores a b told
Stores-quiet a b told (few, short) same_segments same_samples q s l = record {
  passed_on = q ∙ sym s;
  transcript =
      keep_last-same max_stored_transcript_segments a.finalized_segments b.finalized_segments
        (queued told) few same_segments q;
  samples =
      keep_last-same max_stored_latency_samples a.latency_samples_ms b.latency_samples_ms
        (latencies told) short same_samples l;
  few_segments = subst (λ zs. length zs ≤ 2_000) (sym same_segments) few;
  few_samples = subst (λ zs. length zs ≤ 10_000) (sym same_samples) short;
}

pub length-keep_last {ℓ} : {A : Type ℓ} (n : ℕ) (xs : List A) → length (keep_last n xs) ≤ n
length-keep_last n xs = omega (arith, length-drop (length xs - n) xs)

pub length-push_bounded {ℓ} :
    {A : Type ℓ} (xs : List A) (a : A) (n : ℕ) → length (push_bounded xs a n) ≤ n
length-push_bounded xs a n = rw (push_bounded-keep_last xs a n) (length-keep_last n (xs ++ a ∷ []))

pub Stores-Bounded : (a b : Stream) (told : List Message) → Stores a b told → Bounded b
Stores-Bounded a b told stores = (stores.few_segments, stores.few_samples)
