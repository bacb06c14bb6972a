-- ===== src/Bilingual/ContextBuffer.antt =====
-- The final segments an answer may refer to: src-tauri/src/bilingual/context_buffer.rs.
-- The `VecDeque` is the list of its entries, the front first.
use replyline.Prelude.{
  List, Text, [], if◌then◌else◌, last?, leb, length, ltb, none, some, ℕ, ◌*◌, ◌++◌, ◌-◌, ◌∷◌,
}

abbrev pub max_window_secs : ℕ
max_window_secs = 60

abbrev pub max_segments : ℕ
max_segments = 20

pub record FinalTranscriptSegment : Type 0 where
  pub segment_id : Text
  pub text : Text
  pub ended_at_ms : ℕ

pub record QuestionContextBuffer : Type 0 where
  pub segments : List FinalTranscriptSegment

-- The first `while` loop of `prune`.
unfoldable pub prune_count : List FinalTranscriptSegment → List FinalTranscriptSegment
prune_count [] = []
prune_count (front ∷ rest) =
    let shorter = prune_count rest in
    if ltb max_segments (length (front ∷ rest)) then shorter else front ∷ rest

-- The second `while` loop of `prune`.
unfoldable pub prune_window : ℕ → List FinalTranscriptSegment → List FinalTranscriptSegment
prune_window min_ms [] = []
prune_window min_ms (front ∷ rest) =
    let later = prune_window min_ms rest in
    if leb min_ms front.ended_at_ms then front ∷ rest else later

unfoldable pub prune : List FinalTranscriptSegment → List FinalTranscriptSegment
prune segments =
    let counted = prune_count segments in
    elim (last? counted) [
      | none ↦ counted
      | some latest ↦ prune_window (latest.ended_at_ms - max_window_secs * 1000) counted
    ]

unfoldable pub push_final : FinalTranscriptSegment → QuestionContextBuffer → QuestionContextBuffer
push_final segment buffer = record { segments = prune (buffer.segments ++ segment ∷ []) }

abbrev pub snapshot_for_answer : QuestionContextBuffer → List FinalTranscriptSegment
snapshot_for_answer buffer = buffer.segments
