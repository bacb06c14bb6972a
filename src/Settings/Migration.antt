-- ===== src/Settings/Migration.antt =====
-- The migrations of stored settings, and the fields they must have: src-tauri/src/settings.rs.
-- `Json` is what the code uses of serde_json's `Value`; an object is the list of its entries.
use replyline.Profiles.{default_answer_profile_id}
use replyline.Prelude.{
  Bool, List, Option, Result, Text, [], all, codes, err, false, if◌then◌else◌, is_empty, ltb, none,
  not, ok, some, text_eq, trim, true, ℕ, ◌%◌, ◌^◌, ◌∷◌,
}
use replyline.Settings.{SettingsError, partial_config_invalid}

pub record Json (V : Type 0) : Type 0 where
  pub as_object : V → Option (List (Text × V))
  pub of_object : List (Text × V) → V
  pub as_u64 : V → Option ℕ
  pub as_bool : V → Option Bool
  pub as_str : V → Option Text
  pub of_num : ℕ → V
  pub of_bool : Bool → V
  pub of_str : Text → V

module _ {V : Type 0} where
  -- `get`, `contains_key`, `insert`, `entry(..).or_insert(..)` and `remove` of an object.
  unfoldable pub get : Text → List (Text × V) → Option V
  get key [] = none
  get key ((k, v) ∷ obj) = let rest = get key obj in if text_eq k key then some v else rest

  abbrev pub contains_key : Text → List (Text × V) → Bool
  contains_key key obj = elim (get key obj) [ none ↦ false | some v ↦ true ]

  unfoldable pub insert : Text → V → List (Text × V) → List (Text × V)
  insert key value [] = (key, value) ∷ []
  insert key value ((k, v) ∷ obj) =
      let rest = insert key value obj in if text_eq k key then (key, value) ∷ obj else (k, v) ∷ rest

  unfoldable pub or_insert : Text → V → List (Text × V) → List (Text × V)
  or_insert key value obj = if contains_key key obj then obj else insert key value obj

  unfoldable pub remove : Text → List (Text × V) → List (Text × V)
  remove key [] = []
  remove key ((k, v) ∷ obj) =
      let rest = remove key obj in if text_eq k key then rest else (k, v) ∷ rest

module _ {V : Type 0} (json : Json V) where
  abbrev pub Object : Type 0
  Object = List (Text × V)

  unfoldable pub migrate_v1_to_v2 : Object → Object
  migrate_v1_to_v2 obj = insert (codes "schemaVersion") (json.of_num 2) obj

  unfoldable pub migrate_v2_to_v3 : Object → Object
  migrate_v2_to_v3 obj =
      or_insert (codes "activeAnswerProfile") (json.of_str default_answer_profile_id)
        (insert (codes "schemaVersion") (json.of_num 3) obj)

  unfoldable pub migrate_v3_to_v4 : Object → Object
  migrate_v3_to_v4 obj =
      or_insert (codes "selectedModelPreset") (json.of_str (codes "custom_openai_compatible"))
        (insert (codes "schemaVersion") (json.of_num 4) obj)

  unfoldable pub migrate_v4_to_v5 : Object → Object
  migrate_v4_to_v5 obj = or_insert (codes "interviewCompactMode") (json.of_bool false) (
      or_insert (codes "windowOpacity") (json.of_num 100)
        (insert (codes "schemaVersion") (json.of_num 5) obj))

  unfoldable pub migrate_v5_to_v6 : Object → Object
  migrate_v5_to_v6 obj =
      or_insert (codes "interviewReportRetentionDays") (json.of_num 0)
        (insert (codes "schemaVersion") (json.of_num 6) obj)

  unfoldable pub migrate_v6_to_v7 : Object → Object
  migrate_v6_to_v7 obj = or_insert (codes "keepOnTopDuringCapture") (json.of_bool false) (
      or_insert (codes "hideToTrayOnClose") (json.of_bool true)
        (insert (codes "schemaVersion") (json.of_num 7) obj))

  unfoldable pub migrate_v7_to_v8 : Object → Object
  migrate_v7_to_v8 obj =
      or_insert (codes "traceIncludeContent") (json.of_bool false)
        (insert (codes "schemaVersion") (json.of_num 8) obj)

  -- `obj.get("traceIncludeContent").and_then(|v| v.as_bool()).unwrap_or(false)`.
  unfoldable pub trace_include_content : Object → Bool
  trace_include_content obj = elim (get (codes "traceIncludeContent") obj) [
    | none ↦ false
    | some v ↦ elim (json.as_bool v) [ none ↦ false | some include ↦ include ]
  ]

  unfoldable pub migrate_v8_to_v9 : Object → Object
  migrate_v8_to_v9 obj = remove (codes "traceIncludeContent") (
      or_insert (codes "debugTraceRetentionDays") (json.of_num 3) (
        insert (codes "debugTraceMode")
          (if trace_include_content (insert (codes "schemaVersion") (json.of_num 9) obj)
            then json.of_str (codes "full_local")
            else json.of_str (codes "redacted"))
          (insert (codes "schemaVersion") (json.of_num 9) obj)))

  unfoldable pub migrate_v9_to_v10 : Object → Object
  migrate_v9_to_v10 obj =
      or_insert (codes "bilingualAnswerStyle") (json.of_str (codes "b2_conversational")) (
        or_insert (codes "bilingualRetentionBehavior") (json.of_str (codes "session_only")) (
          or_insert (codes "translationMinWordCount") (json.of_num 3) (
            or_insert (codes "translationDebounceMs") (json.of_num 600) (
              or_insert (codes "liveTranslationEnabled") (json.of_bool false) (
                or_insert (codes "translationLanguage") (json.of_str (codes "ru")) (
                  or_insert (codes "interviewInputLanguage") (json.of_str (codes "en")) (
                    or_insert (codes "bilingualInterviewEnabled") (json.of_bool false)
                      (insert (codes "schemaVersion") (json.of_num 10) obj))))))))

  -- `value.get("schemaVersion").and_then(|v| v.as_u64()).unwrap_or(1) as u32`.
  unfoldable pub version_of : Object → ℕ
  version_of obj = elim (get (codes "schemaVersion") obj) [
    | none ↦ 1
    | some v ↦ elim (json.as_u64 v) [ none ↦ 1 | some n ↦ n % 2 ^ 32 ]
  ]

  abbrev pub below : ℕ → ℕ → (Object → Object) → Object → Object
  below version limit migrate obj = if ltb version limit then migrate obj else obj

  unfoldable pub migrate_object : ℕ → Object → Object
  migrate_object version obj = below version 10 migrate_v9_to_v10 (
      below version 9 migrate_v8_to_v9 (
        below version 8 migrate_v7_to_v8 (
          below version 7 migrate_v6_to_v7 (
            below version 6 migrate_v5_to_v6 (
              below version 5 migrate_v4_to_v5 (
                below version 4 migrate_v3_to_v4
                  (below version 3 migrate_v2_to_v3 (below version 2 migrate_v1_to_v2 obj))))))))

  -- A value that is no object has version 1, and each migration leaves it.
  unfoldable pub migrate_settings : V → V
  migrate_settings value = elim (json.as_object value) [
    | none ↦ value
    | some obj ↦ json.of_object (migrate_object (version_of obj) obj)
  ]

  abbrev pub required_fields : List Text
  required_fields =
      codes "schemaVersion"
      ∷ codes "hotkey"
      ∷ codes "llmBaseUrl"
      ∷ codes "llmModel"
      ∷ codes "selectedModelPreset"
      ∷ codes "captureMaxSeconds"
      ∷ codes "activeAnswerProfile"
      ∷ codes "windowOpacity"
      ∷ codes "hideToTrayOnClose"
      ∷ codes "keepOnTopDuringCapture"
      ∷ codes "interviewCompactMode"
      ∷ codes "interviewReportRetentionDays"
      ∷ codes "debugTraceMode"
      ∷ codes "debugTraceRetentionDays"
      ∷ codes "bilingualInterviewEnabled"
      ∷ codes "interviewInputLanguage"
      ∷ codes "translationLanguage"
      ∷ codes "liveTranslationEnabled"
      ∷ codes "translationDebounceMs"
      ∷ codes "translationMinWordCount"
      ∷ codes "bilingualRetentionBehavior"
      ∷ codes "bilingualAnswerStyle"
      ∷ []

  -- `obj.get(key).and_then(|v| v.as_str()).map(|v| v.trim().is_empty()).unwrap_or(true)`.
  unfoldable pub blank_field : Text → Object → Bool
  blank_field key obj = elim (get key obj) [
    | none ↦ true
    | some v ↦ elim (json.as_str v) [ none ↦ true | some s ↦ is_empty (trim s) ]
  ]

  unfoldable pub ensure_required_fields : V → Result (Unit {0}) SettingsError
  ensure_required_fields value = elim (json.as_object value) [
    | none ↦ err partial_config_invalid
    | some obj ↦
        if not (all (λ key. contains_key key obj) required_fields)
        then err partial_config_invalid
        else if blank_field (codes "hotkey") obj
        then err partial_config_invalid
        else if blank_field (codes "llmModel") obj
        then err partial_config_invalid
        else ok tt
  ]
