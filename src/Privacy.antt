-- ===== src/Privacy.antt =====
-- The redaction of src-tauri/src/privacy.rs. A position is a number of bytes of the text in lower case
-- that is used in the text itself, as in the code; where it is no boundary there the code panics, and
-- the model answers `none`.
pub mod Markers
pub mod Values
pub mod Redaction
mod Tests
use replyline.Prelude.{
  Bool, List, Option, Text, [], byte_len, codes, concat, contains_char, drop, if◌then◌else◌,
  is_whitespace, leb, length, ltb, map, none, not, some, starts_with, suc, take, trim_end, zero, ℕ,
  ◌++◌, ◌+◌, ◌==◌, ◌||◌, ◌∷◌,
}
use replyline.Prelude.Slices.{before_first, split_at_byte, split_char, split_whitespace}
use replyline.Prelude.Unicode.{Unicode}
use replyline.Prelude.Decimal.{display}

abbrev pub redacted_mark : Text
redacted_mark = codes "[redacted]"

-- The characters that end a value.
unfoldable pub ends_value : ℕ → Bool
unfolding is_whitespace
ends_value c =
    is_whitespace c || c == b';' || c == b',' || c == 34 || c == 39 || c == b'&' || c == b'?'

unfoldable pub drop_value : Text → Text
unfolding ends_value
drop_value [] = []
drop_value (c ∷ s) = if ends_value c then c ∷ s else drop_value s

-- One round of the loop: what stands before `offset` from then on, and what is left behind it. The
-- inner `none` ends the loop, the outer one is a panic.
unfoldable pub marker_round : Unicode → Text → Text → Option (Option (Text × Text))
unfolding before_first split_at_byte drop_value
marker_round u marker tail = elim (before_first (u.to_lowercase tail) (u.to_lowercase marker)) [
  | none ↦ some none
  | some front ↦ elim (split_at_byte tail (byte_len front + byte_len marker)) [
    | none ↦ none
    | some (head, value) ↦ some (
        some (
          head ++ redacted_mark,
          if starts_with value redacted_mark
              then drop (length redacted_mark) value
              else drop_value value,
        ))
  ]
]

-- The loop on `result[offset..]`. Each round shortens it, so its length is enough fuel.
unfoldable pub marker_loop : Unicode → Text → ℕ → Text → Option Text
unfolding marker_round
marker_loop u marker zero tail = some tail
marker_loop u marker (suc fuel) tail = elim (marker_round u marker tail) [
  | none ↦ none
  | some none ↦ some tail
  | some (some (head, rest)) ↦ elim (marker_loop u marker fuel rest) [
    | none ↦ none
    | some out ↦ some (head ++ out)
  ]
]

unfoldable pub redact_after_marker : Unicode → Text → Text → Option Text
unfolding marker_loop
redact_after_marker u input marker = marker_loop u marker (length input + 1) input

-- One round of the loop on a JSON field. The text that is kept up to `offset` and what is left.
unfoldable pub field_round : Unicode → Text → Text → Option (Option (Text × Text))
unfolding before_first split_at_byte split_char
field_round u needle tail = elim (before_first (u.to_lowercase tail) (u.to_lowercase needle)) [
  | none ↦ some none
  | some front ↦ elim (split_at_byte tail (byte_len front)) [
    | none ↦ none
    | some (head, from_key) ↦ elim (split_char 58 from_key) [
      | none ↦ some none
      | some (key, value) ↦ elim (split_char 34 value) [
        | none ↦ some (some (head ++ key ++ 58 ∷ [], value))
        | some (blank, content) ↦ elim (split_char 34 content) [
          | none ↦ some none
          | some (_, rest) ↦
              some (some (head ++ key ++ 58 ∷ blank ++ 34 ∷ redacted_mark, 34 ∷ rest))
        ]
      ]
    ]
  ]
]

unfoldable pub field_loop : Unicode → Text → ℕ → Text → Option Text
unfolding field_round
field_loop u needle zero tail = some tail
field_loop u needle (suc fuel) tail = elim (field_round u needle tail) [
  | none ↦ none
  | some none ↦ some tail
  | some (some (head, rest)) ↦ elim (field_loop u needle fuel rest) [
    | none ↦ none
    | some out ↦ some (head ++ out)
  ]
]

unfoldable pub redact_json_secret_field : Unicode → Text → Text → Option Text
unfolding field_loop
redact_json_secret_field u input key = field_loop u (34 ∷ key ++ 34 ∷ []) (length input + 1) input

unfoldable pub redact_userinfo : Text → Text
unfolding split_char
redact_userinfo url_after_scheme = elim (split_char b'@' url_after_scheme) [
  | none ↦ url_after_scheme
  | some (before_at, after_at) ↦
      if contains_char before_at 58 || not (contains_char before_at b'/')
      then codes "[redacted_credentials]@" ++ after_at
      else url_after_scheme
]

unfoldable pub redact_token : Text → Text
unfolding redact_userinfo
redact_token token =
    if starts_with token (codes "http://")
    then codes "http://" ++ redact_userinfo (drop 7 token)
    else if starts_with token (codes "https://")
    then codes "https://" ++ redact_userinfo (drop 8 token)
    else token

unfoldable pub redact_url_credentials : Text → Text
unfolding split_whitespace redact_token trim_end
redact_url_credentials value =
    trim_end (concat (map (λ token. redact_token token ++ codes " ") (split_whitespace value)))

abbrev pub markers : List Text
markers =
    codes "x-api-key: "
    ∷ codes "authorization:"
    ∷ codes "authorization="
    ∷ codes "bearer "
    ∷ codes "api_key="
    ∷ codes "apikey="
    ∷ codes "token="
    ∷ codes "password="
    ∷ codes "secret="
    ∷ codes "x-api-key:"
    ∷ codes "x-api-key="
    ∷ []

abbrev pub json_secret_fields : List Text
json_secret_fields =
    codes "authorization"
    ∷ codes "auth_token"
    ∷ codes "apiKey"
    ∷ codes "api_key"
    ∷ codes "apikey"
    ∷ codes "token"
    ∷ codes "access_token"
    ∷ codes "refresh_token"
    ∷ codes "password"
    ∷ codes "secret"
    ∷ codes "client_secret"
    ∷ codes "api_secret"
    ∷ []

-- `for x in xs { out = redact(&out, x); }`, in which a panic ends everything.
unfoldable pub redact_each : (Text → Text → Option Text) → List Text → Text → Option Text
redact_each redact [] out = some out
redact_each redact (x ∷ xs) out = elim (redact out x) [
  | none ↦ none
  | some next ↦ redact_each redact xs next
]

unfoldable pub redact_secrets : Unicode → Text → Option Text
unfolding redact_each redact_after_marker redact_json_secret_field redact_url_credentials
redact_secrets u value = elim (redact_each (redact_after_marker u) markers value) [
  | none ↦ none
  | some marked ↦ elim (redact_each (redact_json_secret_field u) json_secret_fields marked) [
    | none ↦ none
    | some fielded ↦ some (redact_url_credentials fielded)
  ]
]

-- `replace(['\r', '\n'], " ")`.
abbrev single_line : Text → Text
single_line s = map (λ c. if c == 13 || c == 10 then 32 else c) s

unfoldable pub safe_preview : Unicode → Text → ℕ → Option Text
unfolding redact_secrets
safe_preview u value max_chars = elim (redact_secrets u value) [
  | none ↦ none
  | some redacted ↦
      let line = single_line redacted in
      some
        (if leb (length line) max_chars then line else take max_chars line ++ codes "…[truncated]")
]

abbrev preview_default_max_chars : ℕ
preview_default_max_chars = 160

unfoldable pub chars_band_label : Text → Text
chars_band_label value =
    let count = length value in
    if count == 0
    then codes "empty"
    else if ltb count 128
    then codes "short"
    else if ltb count 512
    then codes "medium"
    else if ltb count 1024
    then codes "long"
    else codes "xlong"

unfoldable pub redact_transcript_like : Unicode → Text → Option Text
unfolding safe_preview chars_band_label display
redact_transcript_like u value = elim (safe_preview u value preview_default_max_chars) [
  | none ↦ none
  | some preview ↦ some (
      codes "transcript_like(len="
      ++ display (length value)
      ++ codes ",chars_band="
      ++ chars_band_label value
      ++ codes ") "
      ++ preview)
]
