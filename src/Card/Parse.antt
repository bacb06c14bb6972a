-- ===== src/Card/Parse.antt =====
-- How the answer of the model becomes a card: `parse_card_json` of src-tauri/src/card_v3.rs. The
-- deserializers of serde_json are parameters, of which the code reads only whether they accept.
use replyline.Prelude.{
  Option, Result, Text, [], codes, drop, err, if◌then◌else◌, is_empty, ltb, none, ok, some, take,
  trim, trim_start, ℕ, ◌++◌, ◌+◌, ◌-◌, ◌==◌, ◌||◌, ◌∷◌,
}
use replyline.Prelude.Slices.{after_first, before_char, find_char, rfind_char}
use replyline.Card.{ParsedCard, RawCardLegacy, RawCardV3, RawCardV4, legacy, v3, v4}

-- `serde_json::from_str::<T>(text).ok()` for the three shapes.
pub record FromStr : Type 0 where
  pub raw_card_v4 : Text → Option RawCardV4
  pub raw_card_v3 : Text → Option RawCardV3
  pub raw_card_legacy : Text → Option RawCardLegacy

-- A slice whose end lies before its start panics.
pub data CardFailure : Type 0 where
  refused : Text → CardFailure
  panicked : CardFailure

abbrev pub quote : ℕ
quote = 34

unfoldable pub extract_field : Text → Text → Option Text
unfolding after_first before_char trim_start
extract_field text key = elim (after_first text (quote ∷ key ++ quote ∷ [])) [
  | none ↦ none
  | some after_key ↦ elim (after_first after_key (codes ":")) [
    | none ↦ none
    | some after_colon ↦ elim (trim_start after_colon) [
      | [] ↦ none
      | c ∷ inner ↦ if c == quote then before_char quote inner else none
    ]
  ]
]

abbrev pub unwrap_or_default : Option Text → Text
unwrap_or_default none = []
unwrap_or_default (some s) = s

infixl 5 ◌>>=?◌
abbrev pub ◌>>=?◌ : {A B : Type 0} → Option A → (A → Option B) → Option B
none >>=? f = none
some a >>=? f = f a

abbrev pub partial_mark : Text
partial_mark = codes "[partial] "

unfoldable pub try_partial_extract_v4 : Text → Option RawCardV4
unfolding extract_field
try_partial_extract_v4 text = extract_field text (codes "question_brief") >>=? λ question_brief.
    extract_field text (codes "answer_short") >>=? λ answer_short.
    extract_field text (codes "answer_full") >>=? λ answer_full.
    extract_field text (codes "follow_up_line") >>=? λ follow_up_line.
    extract_field text (codes "next_step") >>=? λ next_step.
    if is_empty question_brief
      || is_empty answer_short
      || is_empty answer_full
      || is_empty follow_up_line
      || is_empty next_step
    then none
    else some (record {
      question_brief = partial_mark ++ question_brief;
      answer_short = answer_short;
      answer_full = answer_full;
      follow_up_line = follow_up_line;
      evidence = unwrap_or_default (extract_field text (codes "evidence"));
      next_step = next_step;
      risk_or_clarifier = extract_field text (codes "risk_or_clarifier");
    })

unfoldable pub try_partial_extract_v3 : Text → Option RawCardV3
unfolding extract_field
try_partial_extract_v3 text = extract_field text (codes "question_brief") >>=? λ question_brief.
    extract_field text (codes "answer_now") >>=? λ answer_now.
    extract_field text (codes "next_step") >>=? λ next_step.
    if is_empty question_brief || is_empty answer_now || is_empty next_step
    then none
    else some (record {
      question_brief = partial_mark ++ question_brief;
      answer_now = answer_now;
      star_evidence = unwrap_or_default (extract_field text (codes "star_evidence"));
      next_step = next_step;
      risk_or_clarifier = extract_field text (codes "risk_or_clarifier");
    })

unfoldable pub try_partial_extract_legacy : Text → Option RawCardLegacy
unfolding extract_field
try_partial_extract_legacy text = extract_field text (codes "gist") >>=? λ gist.
    extract_field text (codes "say_now") >>=? λ say_now.
    extract_field text (codes "next_move") >>=? λ next_move.
    if is_empty gist || is_empty say_now || is_empty next_move
    then none
    else some (record { gist = partial_mark ++ gist; say_now = say_now; next_move = next_move })

-- The first shape that is there, in the order of the code.
abbrev pub first_shape :
    Option RawCardV4 → Option RawCardV3 → Option RawCardLegacy → Option ParsedCard
first_shape (some card) b c = some (v4 card)
first_shape none (some card) c = some (v3 card)
first_shape none none (some card) = some (legacy card)
first_shape none none none = none

unfoldable pub from_json : FromStr → Text → Option ParsedCard
from_json json text =
    first_shape (json.raw_card_v4 text) (json.raw_card_v3 text) (json.raw_card_legacy text)

unfoldable pub partial_extract : Text → Option ParsedCard
unfolding try_partial_extract_v4 try_partial_extract_v3 try_partial_extract_legacy
partial_extract text =
    first_shape (try_partial_extract_v4 text) (try_partial_extract_v3 text)
      (try_partial_extract_legacy text)

-- What is left of the ladder once no JSON was found.
unfoldable pub parse_partial : Text → Result ParsedCard CardFailure
unfolding partial_extract
parse_partial trimmed = elim (partial_extract trimmed) [
  | some card ↦ ok card
  | none ↦ err (refused (codes "LLM returned invalid JSON: " ++ trimmed))
]

-- `&trimmed[start..=end]`, and its JSON.
unfoldable pub parse_slice : FromStr → Text → ℕ → ℕ → Result ParsedCard CardFailure
unfolding from_json parse_partial
parse_slice json trimmed start end =
    if ltb (end + 1) start
    then err panicked
    else elim (from_json json (take (end + 1 - start) (drop start trimmed))) [
      | some card ↦ ok card
      | none ↦ parse_partial trimmed
    ]

unfoldable pub parse_braces : FromStr → Text → Result ParsedCard CardFailure
unfolding find_char rfind_char parse_slice parse_partial
parse_braces json trimmed = elim (find_char b'{' trimmed) [
  | none ↦ parse_partial trimmed
  | some start ↦ elim (rfind_char b'}' trimmed) [
    | none ↦ parse_partial trimmed
    | some end ↦ parse_slice json trimmed start end
  ]
]

unfoldable pub parse_card_json : FromStr → Text → Result ParsedCard CardFailure
unfolding trim from_json parse_braces
parse_card_json json raw_text =
    let trimmed = trim raw_text in
    elim (from_json json trimmed) [ some card ↦ ok card | none ↦ parse_braces json trimmed ]
