-- ===== src/Context/Invariant.antt =====
-- The invariant of the context of src-tauri/src/context.rs, over every history of calls.
use replyline.Prelude.{
  All, List, Text, [], arith, false, is_empty, length, none, some, trim, true, word_count, ℕ, ◌∷◌,
  ◌≡◌, ◌≢◌, ◌≤◌, ◌⊎◌,
}
use replyline.Context.{
  ConversationContext, clear, clear_if_expired, commit_transcript, context_max_chars,
  context_max_entries, formatted_context, is_some, last_card, last_transcript, remember_card,
  remember_transcript, status, total_chars,
}

pub data Call (Card : Type 0) : Type 0 where
  clears expires reads_card reads_context reads_transcript reads_status : Call Card
  remembers commits : Text → Call Card
  keeps_card : Card → Call Card

module _ {Card : Type 0} where
  pub record IsValid (c : ConversationContext Card) : Type 0 where
    pub few : length c.entries ≤ context_max_entries
    pub short : (total_chars c.entries ≤ context_max_chars) ⊎ (length c.entries ≤ 1)
    pub spoken : All (λ s. 2 ≤ word_count s) c.entries
    pub retryable : c.entries ≢ [] → is_some c.last_transcript ≡ true
    pub stamped :
        c.last_touched ≡ none → (c.entries ≡ []) × (c.last_transcript ≡ none) × (c.last_card ≡ none)
    pub heard : (s : Text) → c.last_transcript ≡ some s → (trim s ≡ s) × (s ≢ [])

  pub clear-IsValid : (c : ConversationContext Card) → IsValid (clear c)
  unfolding clear
  clear-IsValid c = ground arith

  -- A transcript that is not blank is remembered with its time.
  pub remember_stores :
      (now : ℕ) (t : Text) (c : ConversationContext Card)
      → is_empty (trim t) ≡ false
      → remember_transcript now t c
        ≡ record c { last_touched = some now; last_transcript = some (trim t) }
  unfolding remember_transcript
  remember_stores now t c h = rw h

  -- A call at a time; `reads_status` reads the clock once more a moment later.
  unfoldable pub step : ConversationContext Card → ℕ × Call Card → ConversationContext Card
  step c (now, clears) = clear c
  step c (now, expires) = clear_if_expired now c
  step c (now, reads_card) = (last_card now c).0
  step c (now, reads_context) = (formatted_context now c).0
  step c (now, reads_transcript) = (last_transcript now c).0
  step c (now, reads_status) = (status now now c).0
  step c (now, remembers t) = remember_transcript now t c
  step c (now, commits t) = commit_transcript now t c
  step c (now, keeps_card card) = remember_card now card c

  unfoldable pub run : ConversationContext Card → List (ℕ × Call Card) → ConversationContext Card
  run c [] = c
  run c (call ∷ calls) = run (step c call) calls
