-- ===== src/Context/Window.antt =====
-- Which transcripts `commit_transcript` of src-tauri/src/context.rs keeps.
use replyline.Prelude.{
  Bool-cases, List, Text, [], ap, arith, drop, drop-drop, false, inl, inr, last?, last?-append,
  last?-drop, length, length-append, length-drop, ltb, refl, some, suc, trim, word_count, zero, ℕ,
  ◌++◌, ◌+◌, ◌-◌, ◌∙◌, ◌∷◌, ◌≡◌, ◌≤◌, ◌⊎◌,
}
use replyline.Context.{
  ConversationContext, commit_transcript, context_max_chars, context_max_entries, drain_chars,
  drain_overflow, remember_transcript, total_chars,
}

-- What the window holds when the budget of entries and characters is met.
abbrev pub Fits : List Text → Type 0
Fits entries = (length entries ≤ context_max_entries) × (total_chars entries ≤ context_max_chars)

pub drain_overflow-drop :
    (xs : List Text) → drain_overflow xs ≡ drop (length xs - context_max_entries) xs
unfolding drain_overflow
drain_overflow-drop xs = elim (Bool-cases (ltb 3 (length xs))) [
  | inl over ↦ rw over
  | inr few ↦ rw few (ap (λ j. drop j xs) {x = 0} (ground arith))
]

-- The loop returns the longest of the suffixes within the budget, and at least one entry.
pub drain_chars-drop : (xs : List Text) → (k : ℕ) × (drain_chars xs ≡ drop k xs)
unfolding drain_chars
drain_chars-drop [] = (0, refl)
drain_chars-drop (s ∷ []) = (0, refl)
drain_chars-drop (s ∷ t ∷ rest) = elim (Bool-cases (ltb 1500 (total_chars (s ∷ t ∷ rest)))) [
  | inl over ↦ rw over (let ih = drain_chars-drop (t ∷ rest) in (suc ih.0, ih.1))
  | inr fits ↦ rw fits (0, refl)
]

pub drain_chars_bound :
    (xs : List Text)
    → (total_chars (drain_chars xs) ≤ context_max_chars) ⊎ (length (drain_chars xs) ≤ 1)
unfolding drain_chars
drain_chars_bound [] = inr (omega arith)
drain_chars_bound (s ∷ []) = inr (omega arith)
drain_chars_bound (s ∷ t ∷ rest) = ground (arith, drain_chars_bound (t ∷ rest))

pub drain_chars_maximal :
    (k : ℕ) (xs : List Text)
    → total_chars (drop k xs) ≤ context_max_chars
    → length (drop k xs) ≤ length (drain_chars xs)
unfolding drain_chars
drain_chars_maximal k [] h = omega (arith, length-drop {A = Text} k [])
drain_chars_maximal k (s ∷ []) h = omega (arith, length-drop {A = Text} k (s ∷ []))
drain_chars_maximal zero (s ∷ t ∷ rest) h = ground arith
drain_chars_maximal (suc k) (s ∷ t ∷ rest) h =
    elim (Bool-cases (ltb 1500 (total_chars (s ∷ t ∷ rest)))) [
      | inl over ↦ rw over (drain_chars_maximal k (t ∷ rest) h)
      | inr fits ↦ rw fits (omega (arith, length-drop k (t ∷ rest)))
    ]

pub last?-drain_chars : (xs : List Text) → last? (drain_chars xs) ≡ last? xs
unfolding drain_chars
last?-drain_chars [] = refl
last?-drain_chars (s ∷ []) = refl
last?-drain_chars (s ∷ t ∷ rest) = elim (Bool-cases (ltb 1500 (total_chars (s ∷ t ∷ rest)))) [
  | inl over ↦ rw over (last?-drain_chars (t ∷ rest))
  | inr fits ↦ rw fits
]

-- The two prunings together, on the entries with the new one at the end.
unfoldable pub window : List Text → List Text
window xs = drain_chars (drain_overflow xs)

remember-entries :
    {Card : Type 0} (now : ℕ) (t : Text) (c : ConversationContext Card)
    → (remember_transcript now t c).entries ≡ c.entries
unfolding remember_transcript
remember-entries now t c = ground arith

ltb_of_le : (n : ℕ) → 2 ≤ n → ltb n 2 ≡ false
ltb_of_le n h = ground arith

pub commit-entries :
    {Card : Type 0} (now : ℕ) (t : Text) (c : ConversationContext Card)
    → 2 ≤ word_count (trim t)
    → (commit_transcript now t c).entries ≡ window (c.entries ++ trim t ∷ [])
unfolding commit_transcript window
commit-entries now t c h = rw (ltb_of_le (word_count (trim t)) h, remember-entries now (trim t) c)

pub window-last : (xs : List Text) (s : Text) → last? (window (xs ++ s ∷ [])) ≡ some s
unfolding window
window-last xs s =
    last?-drain_chars _
    ∙ ap last? (drain_overflow-drop (xs ++ s ∷ []))
    ∙ last?-drop (length (xs ++ s ∷ []) - context_max_entries) (xs ++ s ∷ [])
        (omega (arith, length-append xs (s ∷ [])))
    ∙ last?-append xs s

pub window-drop : (xs : List Text) → (k : ℕ) × (window xs ≡ drop k xs)
unfolding window
window-drop xs =
    let d = length xs - context_max_entries in
    let (k, e) = drain_chars-drop (drop d xs) in
    (d + k, rw drain_overflow-drop (e ∙ drop-drop k d xs))

-- The entries are at most three, and within the budget of characters unless there is only one.
pub window_bounds :
    (xs : List Text)
    → (length (window xs) ≤ context_max_entries)
      × ((total_chars (window xs) ≤ context_max_chars) ⊎ (length (window xs) ≤ 1))
unfolding window
window_bounds xs =
    let d = length xs - context_max_entries in
    let (k, e) = drain_chars-drop (drop d xs) in
    (
      rw (drain_overflow-drop, e) (omega (arith, length-drop k (drop d xs), length-drop d xs)),
      drain_chars_bound (drain_overflow xs),
    )
