-- ===== src/Context/Tests.antt =====
-- The context on concrete calls, and each theorem about it at an input that meets its hypotheses.
use replyline.Prelude.{
  List, [], arith, codes, join, none, refl, some, trim, word_count, ℕ, ◌∷◌, ◌≡◌,
}
use replyline.Prelude.Decimal.{display}
use replyline.Context.{
  ConversationContext, clear, clear_if_expired, commit_transcript, drain_chars, drain_overflow,
  formatted_context, last_card, numbered, remember_transcript,
}
use replyline.Context.Invariant.{Call, commits, run, step}
use replyline.Context.Expiry.{expired_reads, fresh_reads}

abbrev fresh : ConversationContext ℕ
fresh = record { entries = []; last_touched = none; last_transcript = none; last_card = none }

abbrev four_commits : List (ℕ × Call ℕ)
four_commits =
    (1, commits (codes "entry one"))
    ∷ (2, commits (codes "entry two"))
    ∷ (3, commits (codes " entry three "))
    ∷ (4, commits (codes "entry four"))
    ∷ []

trims_context_to_recent_entries :
    (formatted_context 5 (run fresh four_commits)).1
    ≡ codes "1: entry two\n2: entry three\n3: entry four"
unfolding formatted_context run step commit_transcript remember_transcript drain_overflow
    drain_chars clear_if_expired numbered display trim word_count join
trims_context_to_recent_entries = refl

abbrev spoken : ConversationContext ℕ
spoken = record {
  entries = codes "entry one" ∷ [];
  last_touched = some 1000;
  last_transcript = some (codes "entry one");
  last_card = some 7;
}

expired_reads_example : last_card 2_000_000_000_000 spoken ≡ (clear spoken, none)
expired_reads_example =
    (expired_reads spoken 2_000_000_000_000 2_000_000_000_000 1000 refl (omega arith)).0

fresh_reads_example : last_card 2000 spoken ≡ (spoken, some 7)
fresh_reads_example = (fresh_reads spoken 2000 2000 1000 refl (omega arith) (omega arith)).0
