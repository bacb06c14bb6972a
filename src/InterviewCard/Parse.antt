-- ===== src/InterviewCard/Parse.antt =====
-- How an answer of the model becomes an interview card: `parse_interview_card_json` and
-- `extract_json_object` of src-tauri/src/interview_card_v1.rs. The deserializer of serde_json is a
-- parameter.
use replyline.Prelude.{
  Option, Result, Text, [], codes, drop, err, if◌then◌else◌, none, ok, some, trim, ℕ, ◌&&◌, ◌++◌,
  ◌+◌, ◌-◌, ◌==◌, ◌∷◌,
}
use replyline.Prelude.Slices.{find_char}
use replyline.Prelude.Unicode.{Unicode}
use replyline.Privacy.{safe_preview}
use replyline.Card.Parse.{CardFailure, panicked, refused}
use replyline.InterviewCard.{InterviewCardDto}

-- `in_string` and `escaped`.
pub data Reading : Type 0 where
  outside inside escaped_inside : Reading

-- The loop behind the first brace. It goes over bytes in the code; those that it looks for are
-- characters of their own. The answer is the object up to its last brace.
unfoldable pub object_from : Reading → ℕ → Text → Option Text
object_from reading depth [] = none
object_from escaped_inside depth (c ∷ s) = elim (object_from inside depth s) [
  | none ↦ none
  | some object ↦ some (c ∷ object)
]
object_from inside depth (c ∷ s) =
    let next : Reading = if c == 92 then escaped_inside else if c == 34 then outside else inside in
    elim (object_from next depth s) [ none ↦ none | some object ↦ some (c ∷ object) ]
object_from outside depth (c ∷ s) =
    let next : Reading = if c == 34 then inside else outside in
    let deeper : ℕ = if c == b'{' then depth + 1 else if c == b'}' then depth - 1 else depth in
    let later = object_from next deeper s in
    if c == b'}' && depth == 0
    then none
    else if c == b'}' && depth == 1
    then some (c ∷ [])
    else elim later [ none ↦ none | some object ↦ some (c ∷ object) ]

unfoldable pub extract_json_object : Text → Option Text
unfolding find_char object_from
extract_json_object input = elim (find_char b'{' input) [
  | none ↦ none
  | some start ↦ object_from outside 0 (drop start input)
]

-- An error with a preview, in which the redaction may panic.
unfoldable pub with_preview : Option Text → Text → Text → CardFailure
with_preview none before after = panicked
with_preview (some preview) before after = refused (before ++ preview ++ after)

unfoldable pub parse_interview_card_json :
    (Text → Option InterviewCardDto) → Unicode → Text → Result InterviewCardDto CardFailure
unfolding trim extract_json_object with_preview safe_preview
parse_interview_card_json from_str u raw_text =
    let trimmed = trim raw_text in
    let failed =
      with_preview (safe_preview u trimmed 120)
        (codes "Interview card parse failed: invalid JSON payload [") (codes "]") in
    elim (from_str trimmed) [
      | some card ↦ ok card
      | none ↦ elim (extract_json_object trimmed) [
        | none ↦ err failed
        | some candidate ↦ elim (from_str candidate) [ some card ↦ ok card | none ↦ err failed ]
      ]
    ]
