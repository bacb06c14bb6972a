-- ===== src/Bilingual/Buffering.antt =====
-- Which segments `push_final` of src-tauri/src/bilingual/context_buffer.rs keeps.
use replyline.Prelude.{
  All, All-map, Bool-cases, IsSuffix, List, [], ap, arith, drop, drop-drop, head?, inl, inr, last?,
  last?-append, last?-drop, leb, length, length-append, length-drop, ltb, refl, some, suc, take,
  take-append-drop, zero, ℕ, ◌++◌, ◌+◌, ◌-◌, ◌∙◌, ◌∷◌, ◌≡◌, ◌≤◌,
}
use replyline.Bilingual.ContextBuffer.{
  FinalTranscriptSegment, QuestionContextBuffer, max_segments, prune, prune_count, prune_window,
  push_final, snapshot_for_answer,
}

-- `segment` ended within the window that ends with `latest`.
abbrev pub IsRecent : FinalTranscriptSegment → FinalTranscriptSegment → Type 0
IsRecent latest segment = latest.ended_at_ms ≤ segment.ended_at_ms + 60_000

prune_count-drop :
    (xs : List FinalTranscriptSegment) → prune_count xs ≡ drop (length xs - max_segments) xs
unfolding prune_count
prune_count-drop [] = refl
prune_count-drop (x ∷ xs) = elim (Bool-cases (ltb 20 (length (x ∷ xs)))) [
  | inl over ↦
      rw over
        (prune_count-drop xs ∙ ap (λ j. drop j (x ∷ xs)) {x = suc (length xs - 20)} (ground arith))
  | inr few ↦ rw few (ap (λ j. drop j (x ∷ xs)) {x = 0} (ground arith))
]

prune_window-drop :
    (m : ℕ) (xs : List FinalTranscriptSegment) → (k : ℕ) × (prune_window m xs ≡ drop k xs)
unfolding prune_window
prune_window-drop m [] = (0, refl)
prune_window-drop m (x ∷ xs) = elim (Bool-cases (leb m x.ended_at_ms)) [
  | inl recent ↦ rw recent (0, refl)
  | inr old ↦ rw old (let (k, e) = prune_window-drop m xs in (suc k, e))
]

-- The loop stops at the newest segment at the latest.
last?-prune_window :
    (m : ℕ) (xs : List FinalTranscriptSegment) (latest : FinalTranscriptSegment)
    → last? xs ≡ some latest
    → m ≤ latest.ended_at_ms
    → last? (prune_window m xs) ≡ some latest
unfolding prune_window
last?-prune_window m [] latest e h = cc
last?-prune_window m (x ∷ []) latest e h = ground arith
last?-prune_window m (x ∷ y ∷ xs) latest e h =
    ground (arith, last?-prune_window m (y ∷ xs) latest e h)

head?-prune_window :
    (m : ℕ) (xs : List FinalTranscriptSegment) (front : FinalTranscriptSegment)
    → head? (prune_window m xs) ≡ some front
    → m ≤ front.ended_at_ms
unfolding prune_window
head?-prune_window m [] front e = cc
head?-prune_window m (x ∷ xs) front e = ground (arith, head?-prune_window m xs front)

prune_window_maximal :
    (m k : ℕ) (xs : List FinalTranscriptSegment)
    → All (λ s. m ≤ s.ended_at_ms) (drop k xs)
    → length (drop k xs) ≤ length (prune_window m xs)
unfolding prune_window
prune_window_maximal m k [] h = omega (arith, length-drop {A = FinalTranscriptSegment} k [])
prune_window_maximal m zero (x ∷ xs) h = ground arith
prune_window_maximal m (suc k) (x ∷ xs) h =
    ground (arith, prune_window_maximal m k xs h, length-drop k xs)

prune_keeps :
    (xs : List FinalTranscriptSegment) (latest : FinalTranscriptSegment)
    → last? xs ≡ some latest
    → 1 ≤ length xs
    → prune xs ≡ prune_window (latest.ended_at_ms - 60_000) (drop (length xs - max_segments) xs)
unfolding prune
prune_keeps xs latest e h =
    let newest : last? (prune_count xs) ≡ some latest =
      ap last? (prune_count-drop xs) ∙ last?-drop (length xs - 20) xs (omega arith) ∙ e in
    rw (newest, prune) (ap (prune_window (latest.ended_at_ms - 60_000)) (prune_count-drop xs))

-- A final segment enters the buffer as its newest. The buffer holds a suffix of the old segments
-- with the new one, at most twenty, and begins with one that ended at most sixty seconds before the
-- newest; it is no shorter than any suffix of at most twenty segments that all ended so.
pub push_final_keeps_longest :
    (segment : FinalTranscriptSegment) (buffer : QuestionContextBuffer)
    → let kept = snapshot_for_answer (push_final segment buffer) in
      let offered = buffer.segments ++ segment ∷ [] in
      (last? kept ≡ some segment)
      × IsSuffix kept offered
      × (length kept ≤ max_segments)
      × ((front : FinalTranscriptSegment) → head? kept ≡ some front → IsRecent segment front)
      × ((j : ℕ)
          → length (drop j offered) ≤ max_segments
          → All (IsRecent segment) (drop j offered)
          → length (drop j offered) ≤ length kept)
unfolding push_final
push_final_keeps_longest segment buffer =
    let offered = buffer.segments ++ segment ∷ [] in
    let m = segment.ended_at_ms - 60_000 in
    let d = length offered - max_segments in
    let nonempty : 1 ≤ length offered =
      omega (arith, length-append buffer.segments (segment ∷ [])) in
    let newest : last? offered ≡ some segment = last?-append buffer.segments segment in
    let (k, e) = prune_window-drop m (drop d offered) in
    rw (prune_keeps offered segment newest nonempty) (
      last?-prune_window m (drop d offered) segment (last?-drop d offered (omega arith) ∙ newest)
          (omega arith),
      (take (d + k) offered, rw (e, drop-drop k d offered) (take-append-drop (d + k) offered)),
      rw e (omega (arith, length-drop k (drop d offered), length-drop d offered)),
      λ front f. ground (arith, head?-prune_window m (drop d offered) front f),
      λ j few recent.
          let g : drop (j - d) (drop d offered) ≡ drop j offered =
            drop-drop (j - d) d offered
            ∙ ap (λ i. drop i offered) {x = d + (j - d)} (omega (arith, length-drop j offered)) in
          rw g at (
            prune_window_maximal m (j - d) (drop d offered)
              (rw g (All-map (λ s h. omega arith) (drop j offered) recent))),
    )
