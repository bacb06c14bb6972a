-- ===== src/Context.antt =====
-- The rolling conversation context: src-tauri/src/context.rs.
-- An `Instant` is a number of nanoseconds on the monotonic clock, and each call that reads the
-- clock takes the reading as its argument `now`. A method that takes `&mut self` returns the new
-- context. The card type is a parameter: this file only stores it.
pub mod Invariant
pub mod Expiry
pub mod Window
pub mod Tests
use replyline.Prelude.{
  ℕ, zero, suc, ◌+◌, ◌-◌, ◌*◌, ◌≤◌, Bool, true, false, not, Option, none, some, List, [], ◌∷◌, ◌++◌,
  map, ltb, leb, if◌then◌else◌, length, take, drop, is_empty, Text, codes, trim, word_count, join,
}
use replyline.Prelude.Decimal.{display}
use mathlib.Core.Option
use mathlib.Core.Option.{IsSome}

abbrev pub context_ttl : ℕ
context_ttl = 20 * 60 * 1_000_000_000

abbrev pub context_max_entries : ℕ
context_max_entries = 3

abbrev pub context_max_chars : ℕ
context_max_chars = 1500

abbrev pub transcript_preview_max_chars : ℕ
transcript_preview_max_chars = 360

pub record ConversationContext (Card : Type 0) : Type 0 where
  pub entries : List Text
  pub last_touched : Option ℕ
  pub last_transcript : Option Text
  pub last_card : Option Card

pub record ContextStatusDto : Type 0 where
  pub context_active : Bool
  pub entry_count : ℕ
  pub last_transcript_preview : Option Text
  pub can_retry_last_transcript : Bool

-- `entries.iter().map(|value| value.chars().count()).sum()`.
abbrev pub total_chars : List Text → ℕ
total_chars [] = 0
total_chars (s ∷ entries) = length s + total_chars entries

-- The overflow test of `commit_transcript`: `drain(0..overflow)`.
unfoldable pub drain_overflow : List Text → List Text
drain_overflow entries =
    if ltb context_max_entries (length entries)
    then drop (length entries - context_max_entries) entries
    else entries

-- The `while` loop of `commit_transcript`, which stops at one entry.
unfoldable pub drain_chars : List Text → List Text
drain_chars [] = []
drain_chars (s ∷ []) = s ∷ []
drain_chars (s ∷ t ∷ rest) =
    let shorter = drain_chars (t ∷ rest) in
    if ltb context_max_chars (total_chars (s ∷ t ∷ rest)) then shorter else s ∷ t ∷ rest

-- `format!("{}: {}", index + 1, item)` over the enumerated entries.
unfoldable pub numbered : ℕ → List Text → List Text
numbered index [] = []
numbered index (item ∷ rest) =
    (display (index + 1) ++ (codes ": " ++ item)) ∷ numbered (index + 1) rest

unfoldable pub truncate_preview : Text → ℕ → Text
truncate_preview text max_chars =
    if leb (length text) max_chars then text else take max_chars text ++ codes "…"

-- `Option::is_some`.
abbrev pub is_some {ℓ} : {A : Type ℓ} → Option A → Bool
is_some none = false
is_some (some a) = true

module _ {Card : Type 0} where
  -- `ConversationContext::default()`.
  unfoldable pub clear : ConversationContext Card → ConversationContext Card
  clear c = record { entries = []; last_touched = none; last_transcript = none; last_card = none }

  unfoldable pub clear_if_expired : ℕ → ConversationContext Card → ConversationContext Card
  clear_if_expired now c = elim c.last_touched [
    | none ↦ c
    | some last_touched ↦ if ltb context_ttl (now - last_touched) then clear c else c
  ]

  unfoldable pub remember_transcript :
      ℕ → Text → ConversationContext Card → ConversationContext Card
  remember_transcript now transcript c =
      let value = trim transcript in
      if is_empty value
      then c
      else record c { last_touched = some now; last_transcript = some value }

  unfoldable pub commit_transcript : ℕ → Text → ConversationContext Card → ConversationContext Card
  commit_transcript now transcript c =
      let value = trim transcript in
      let c' = remember_transcript now value c in
      if ltb (word_count value) 2
      then c'
      else record c' { entries = drain_chars (drain_overflow (c'.entries ++ value ∷ [])) }

  unfoldable pub remember_card : ℕ → Card → ConversationContext Card → ConversationContext Card
  remember_card now card c = record c { last_touched = some now; last_card = some card }

  unfoldable pub last_card : ℕ → ConversationContext Card → ConversationContext Card × Option Card
  last_card now c = let c' = clear_if_expired now c in (c', c'.last_card)

  unfoldable pub formatted_context : ℕ → ConversationContext Card → ConversationContext Card × Text
  formatted_context now c =
      let c' = clear_if_expired now c in (c', join (codes "\n") (numbered 0 c'.entries))

  unfoldable pub last_transcript :
      ℕ → ConversationContext Card → ConversationContext Card × Option Text
  last_transcript now c = let c' = clear_if_expired now c in (c', c'.last_transcript)

  -- `later` is the second reading of the clock, inside `last_transcript`.
  unfoldable pub status :
      ℕ → ℕ → ConversationContext Card → ConversationContext Card × ContextStatusDto
  status now later c =
      let (c', last) = last_transcript later (clear_if_expired now c) in
      (
        c',
        record {
          context_active = not (is_empty c'.entries);
          entry_count = length c'.entries;
          last_transcript_preview =
              Option.map (λ text. truncate_preview text transcript_preview_max_chars) last;
          can_retry_last_transcript = is_some last;
        },
      )
