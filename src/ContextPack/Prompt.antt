-- ===== src/ContextPack/Prompt.antt =====
-- The part of a pack that goes into a prompt: `compact_for_prompt` of src-tauri/src/context_pack.rs.
use mathlib.Core.List.{append_assoc}
use replyline.Prelude.{
  Bool-cases, Option, Option-cases, Text, [], ap, arith, byte_len, codes, drop, false,
  if◌then◌else◌, inl, inr, leb, length, length-append, length-take, le→leb, none, some, sym, take,
  take-append-drop, trim, ℕ, ◌++◌, ◌-◌, ◌<◌, ◌==◌, ◌∙◌, ◌∷◌, ◌≡◌, ◌≤◌,
}

abbrev pub context_pack_max_prompt_chars : ℕ
context_pack_max_prompt_chars = 4000

abbrev pub truncation_marker : Text
truncation_marker = codes "\n[...truncated]"

-- `truncated.rfind('\\n')`: the text before the last newline. Its bytes are the position found.
unfoldable pub before_last_newline : Text → Option Text
before_last_newline [] = none
before_last_newline (c ∷ s) = elim (before_last_newline s) [
  | some before ↦ some (c ∷ before)
  | none ↦ if c == 10 then some [] else none
]

-- `cutoff` is the number of bytes of the first 4000 characters.
unfoldable pub compact_for_prompt : Text → Text
compact_for_prompt content =
    let trimmed = trim content in
    let truncated = take context_pack_max_prompt_chars trimmed in
    let cutoff = byte_len truncated in
    if leb (length trimmed) context_pack_max_prompt_chars
    then trimmed
    else elim (before_last_newline truncated) [
      | some before ↦
          if leb (cutoff - 200) (byte_len before)
          then before ++ truncation_marker
          else truncated ++ truncation_marker
      | none ↦ truncated ++ truncation_marker
    ]

-- Text that begins `s`.
abbrev pub IsPrefix : Text → Text → Type 0
IsPrefix p s = (rest : Text) × (p ++ rest ≡ s)

before_last_newline_prefix :
    (s before : Text)
    → before_last_newline s ≡ some before
    → (rest : Text) × (before ++ (10 ∷ rest) ≡ s)
unfolding before_last_newline
before_last_newline_prefix [] before h = absurd (cc)
before_last_newline_prefix (c ∷ s) before h = elim (Option-cases (before_last_newline s)) [
  | inl none_there ↦ (s, ground arith)
  | inr (found, e) ↦
      let (rest, q) = before_last_newline_prefix s found e in
      let same : before ≡ c ∷ found = ground arith in (rest, rw same (ap (◌∷◌ c) q))
]

-- The two ways to cut a long text, each with what it keeps.
whole_prefix : (s : Text) → IsPrefix (take context_pack_max_prompt_chars s) s
whole_prefix s =
    (drop context_pack_max_prompt_chars s, take-append-drop context_pack_max_prompt_chars s)

line_prefix :
    (s before : Text)
    → before_last_newline (take context_pack_max_prompt_chars s) ≡ some before
    → IsPrefix before s × (length before ≤ context_pack_max_prompt_chars)
line_prefix s before e =
    let truncated = take context_pack_max_prompt_chars s in
    let (rest, q) = before_last_newline_prefix truncated before e in
    (
      (
        (10 ∷ rest) ++ drop context_pack_max_prompt_chars s,
        sym (append_assoc before (10 ∷ rest) _)
            ∙ ap (λ t. t ++ drop context_pack_max_prompt_chars s) q
            ∙ take-append-drop context_pack_max_prompt_chars s,
      ),
      omega (
        arith,
        ap length q,
        length-append before (10 ∷ rest),
        length-take context_pack_max_prompt_chars s,
      ),
    )

take_short :
    (s : Text) → length (take context_pack_max_prompt_chars s) ≤ context_pack_max_prompt_chars
take_short s = omega (arith, length-take context_pack_max_prompt_chars s)

-- Blank ends are cut. A text of up to 4000 characters is otherwise left whole; of a longer one a
-- beginning of at most 4000 characters is kept and the marker put behind it.
pub compact_for_prompt_bound :
    (content : Text)
    → (length (trim content) ≤ context_pack_max_prompt_chars
        → compact_for_prompt content ≡ trim content)
      × (context_pack_max_prompt_chars < length (trim content)
          → (kept : Text) × (compact_for_prompt content ≡ kept ++ truncation_marker)
            × IsPrefix kept (trim content)
            × (length kept ≤ context_pack_max_prompt_chars))
unfolding compact_for_prompt
compact_for_prompt_bound content = (
  λ h. ground (arith, le→leb _ _ h),
  λ h.
      let s = trim content in
      let long : leb (length s) context_pack_max_prompt_chars ≡ false = ground arith in
      let truncated = take context_pack_max_prompt_chars s in
      elim (Option-cases (before_last_newline truncated)) [
        | inl e ↦ (truncated, rw (long, e, compact_for_prompt), whole_prefix s, take_short s)
        | inr (before, e) ↦ elim (Bool-cases (leb (byte_len truncated - 200) (byte_len before))) [
          | inl near ↦
              let (prefix, short) = line_prefix s before e in
              (before, rw (long, e, near, compact_for_prompt), prefix, short)
          | inr far ↦
              (truncated, rw (long, e, far, compact_for_prompt), whole_prefix s, take_short s)
        ]
      ],
)
