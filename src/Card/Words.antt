-- ===== src/Card/Words.antt =====
-- The word tests of src-tauri/src/card_v3.rs: `contains_any` and what it calls,
-- `is_question_like` and `has_paragraph_shape`.
use replyline.Prelude.{
  Bool, List, Text, [], all, any, byte_len, codes, contains, if◌then◌else◌, is_empty, leb, length,
  map, not, retain, take, text_eq, trim, word_count, ℕ, ◌&&◌, ◌==◌, ◌||◌, ◌∷◌,
}
use replyline.Prelude.Slices.{split_on, split_whitespace, trim_matches}
use replyline.Prelude.Unicode.{Unicode}

abbrev pub is_ascii_alphabetic : ℕ → Bool
is_ascii_alphabetic c = leb 65 c && leb c 90 || leb 97 c && leb c 122

unfoldable pub contains_standalone_word : Unicode → Text → Text → Bool
unfolding split_on
contains_standalone_word u haystack token =
    any (λ part. text_eq part token) (split_on (λ c. not (u.is_alphanumeric c)) haystack)

unfoldable pub contains_token : Unicode → Text → Text → Bool
unfolding contains_standalone_word contains
contains_token u haystack token =
    if all is_ascii_alphabetic token && leb (byte_len token) 7
    then contains_standalone_word u haystack token
    else contains haystack token

unfoldable pub contains_any : Unicode → Text → List Text → Bool
unfolding contains_token
contains_any u haystack tokens = any (contains_token u haystack) tokens

abbrev pub question_words : List Text
question_words =
    codes "кто"
    ∷ codes "что"
    ∷ codes "какой"
    ∷ codes "какая"
    ∷ codes "какое"
    ∷ codes "какие"
    ∷ codes "где"
    ∷ codes "когда"
    ∷ codes "сколько"
    ∷ codes "почему"
    ∷ codes "зачем"
    ∷ codes "как"
    ∷ codes "who"
    ∷ codes "what"
    ∷ codes "which"
    ∷ codes "where"
    ∷ codes "when"
    ∷ codes "why"
    ∷ codes "how"
    ∷ []

unfoldable pub is_question_like : Unicode → Text → Bool
unfolding split_whitespace trim_matches contains
is_question_like u transcript =
    let lower = u.to_lowercase (trim transcript) in
    contains lower (codes "?")
    || any
        (λ word. any (text_eq (trim_matches (λ c. not (u.is_alphanumeric c)) word)) question_words)
        (take 4 (split_whitespace lower))

abbrev pub is_sentence_end : ℕ → Bool
is_sentence_end c = c == b'.' || c == b'!' || c == b'?'

unfoldable pub has_paragraph_shape : Text → Bool
unfolding split_on trim word_count
has_paragraph_shape value =
    let sentences =
      length (retain (λ part. not (is_empty part)) (map trim (split_on is_sentence_end value))) in
    leb 2 sentences || leb 18 (word_count value)
