-- ===== src/Context/Expiry.antt =====
-- Expiry of the context after twenty minutes without a touch: src-tauri/src/context.rs.
use replyline.Prelude.{
  Bool, List, get_elem?, if◌then◌else◌, leb, ltb, suc, zero, ap, is_empty, not, ◌∷◌, ◌++◌, ◌∙◌,
  Text, [], arith, codes, false, join, length, length-append, length-take, none, refl, some, take,
  ℕ, ◌+◌, ◌<◌, ◌≡◌, ◌≤◌,
}
use replyline.Prelude.Decimal.{display}
use mathlib.Core.Option
use replyline.Context.{
  ContextStatusDto, ConversationContext, clear, clear_if_expired, context_ttl, formatted_context,
  is_some, last_card, last_transcript, numbered, status, truncate_preview,
}

pub truncate_preview_bound : (s : Text) (n : ℕ) → length (truncate_preview s n) ≤ n + 1
unfolding truncate_preview
truncate_preview_bound s n = ground (arith, length-append (take n s) (codes "…"), length-take n s)

nonempty-ltb : (entries : List Text) → not (is_empty entries) ≡ ltb 0 (length entries)
nonempty-ltb [] = refl
nonempty-ltb (entry ∷ entries) = ground arith

numbered-lines :
    (index : ℕ) (entries : List Text) (i : ℕ)
    → get_elem? (numbered index entries) i
      ≡ Option.map (λ entry. display (index + i + 1) ++ (codes ": " ++ entry)) (get_elem? entries i)
unfolding numbered
numbered-lines index [] i = refl
numbered-lines index (entry ∷ entries) zero =
    ap (λ n. some (display (n + 1) ++ (codes ": " ++ entry))) (omega arith)
numbered-lines index (entry ∷ entries) (suc i) =
    numbered-lines (index + 1) entries i
    ∙ ap (λ n. Option.map (λ entry. display (n + 1) ++ (codes ": " ++ entry)) (get_elem? entries i))
        (omega arith)

numbered_from_one :
    (entries : List Text) (i : ℕ)
    → get_elem? (numbered 0 entries) i
      ≡ Option.map (λ entry. display (i + 1) ++ (codes ": " ++ entry)) (get_elem? entries i)
numbered_from_one entries i =
    numbered-lines 0 entries i
    ∙ ap (λ n. Option.map (λ entry. display n ++ (codes ": " ++ entry)) (get_elem? entries i))
        (omega arith)

module _ {Card : Type 0} (c : ConversationContext Card) where
  cleared :
      (now touched : ℕ)
      → c.last_touched ≡ some touched
      → touched + context_ttl < now
      → clear_if_expired now c ≡ clear c
  unfolding clear_if_expired
  cleared now touched stamp old = rw (stamp, clear_if_expired) (ground arith)

  pub kept :
      (now touched : ℕ)
      → c.last_touched ≡ some touched
      → now ≤ touched + context_ttl
      → clear_if_expired now c ≡ c
  unfolding clear_if_expired
  kept now touched stamp fresh = rw (stamp, clear_if_expired) (ground arith)

  -- A read more than twenty minutes after the last touch answers as from an empty context, and
  -- leaves it empty: no transcript, no card, no text for the prompt, nothing to retry.
  pub expired_reads :
      (now later touched : ℕ)
      → c.last_touched ≡ some touched
      → touched + context_ttl < now
      → (last_card now c ≡ (clear c, none))
        × (last_transcript now c ≡ (clear c, none))
        × (formatted_context now c ≡ (clear c, []))
        × (status now later c ≡ (
          clear c,
          record {
            context_active = false;
            entry_count = 0;
            last_transcript_preview = none;
            can_retry_last_transcript = false;
          },
        ))
  unfolding last_card last_transcript formatted_context status clear numbered join clear_if_expired
  expired_reads now later touched stamp old =
      rw (cleared now touched stamp old) (refl, refl, refl, refl)

  abbrev status_of : Bool → ConversationContext Card × ContextStatusDto
  status_of context_active = (
    c,
    record {
      context_active = context_active;
      entry_count = length c.entries;
      last_transcript_preview =
          Option.map (λ text. if leb (length text) 360 then text else take 360 text ++ codes "…")
            c.last_transcript;
      can_retry_last_transcript = is_some c.last_transcript;
    },
  )

  -- Until then the reads change nothing and answer from what is stored: the card, the transcript,
  -- the lines of the prompt, which are the entries in their order with their places from 1, and the
  -- status, with the first 360 characters of the transcript and a mark where it is longer.
  pub fresh_reads :
      (now later touched : ℕ)
      → c.last_touched ≡ some touched
      → now ≤ later
      → later ≤ touched + context_ttl
      → (last_card now c ≡ (c, c.last_card))
        × (last_transcript now c ≡ (c, c.last_transcript))
        × ((lines : List Text) × (formatted_context now c ≡ (c, join (codes "\n") lines))
            × ((i : ℕ)
                → get_elem? lines i
                  ≡ Option.map
                      (λ entry. display (i + 1) ++ (codes ": " ++ entry))
                      (get_elem? c.entries i)))
        × (status now later c ≡ (
          c,
          record {
            context_active = ltb 0 (length c.entries);
            entry_count = length c.entries;
            last_transcript_preview =
                Option.map
                  (λ text. if leb (length text) 360 then text else take 360 text ++ codes "…")
                  c.last_transcript;
            can_retry_last_transcript = is_some c.last_transcript;
          },
        ))
  unfolding last_card last_transcript formatted_context status truncate_preview
  fresh_reads now later touched stamp order fresh =
      rw (kept now touched stamp (omega arith), kept later touched stamp fresh)
        (
          refl,
          refl,
          (numbered 0 c.entries, refl, numbered_from_one c.entries),
          ap status_of (nonempty-ltb c.entries),
        )
