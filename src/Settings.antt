-- ===== src/Settings.antt =====
-- The settings of the app, their checks and repairs: src-tauri/src/settings.rs and `AppSettings` of
-- src-tauri/src/types.rs.
pub mod Migration
pub mod Files
pub mod Saved
pub mod Valid
pub mod Migrated
pub mod TraceMode
pub mod Tests
use replyline.Profiles.{default_answer_profile_id}
use replyline.Prelude.{
  Bool, List, Option, Result, Text, [], codes, ends_with, err, false, if◌then◌else◌, is_empty, join,
  leb, map, none, not, ok, some, text_eq, trim, true, ℕ, ◌&&◌, ◌+◌, ◌==◌, ◌>>=◌, ◌||◌, ◌∷◌,
}
use replyline.Capture.{DebugTraceMode, redacted}

pub data SettingsError : Type 0 where
  io_error json_error url_error : SettingsError
  invalid_url invalid_schema model_required hotkey_required hotkey_reserved : SettingsError
  capture_range_invalid partial_config_invalid retention_policy_invalid : SettingsError

pub record AppSettings : Type 0 where
  pub schema_version : ℕ
  pub hotkey : Text
  pub llm_base_url : Text
  pub llm_model : Text
  pub selected_model_preset : Text
  pub capture_max_seconds : ℕ
  pub active_answer_profile : Text
  pub window_opacity : ℕ
  pub hide_to_tray_on_close : Bool
  pub keep_on_top_during_capture : Bool
  pub interview_compact_mode : Bool
  pub interview_report_retention_days : ℕ
  pub debug_trace_mode : DebugTraceMode
  pub debug_trace_retention_days : ℕ
  pub bilingual_interview_enabled : Bool
  pub interview_input_language : Text
  pub translation_language : Text
  pub live_translation_enabled : Bool
  pub translation_debounce_ms : ℕ
  pub translation_min_word_count : ℕ
  pub bilingual_retention_behavior : Text
  pub bilingual_answer_style : Text

abbrev pub current_schema_version : ℕ
current_schema_version = 10

-- `AppSettings::default()`.
abbrev pub default_settings : AppSettings
default_settings = record {
  schema_version = 10;
  hotkey = codes "Ctrl+Alt+Space";
  llm_base_url = [];
  llm_model = codes "gpt-4o-mini";
  selected_model_preset = codes "custom_openai_compatible";
  capture_max_seconds = 45;
  active_answer_profile = default_answer_profile_id;
  window_opacity = 100;
  hide_to_tray_on_close = true;
  keep_on_top_during_capture = false;
  interview_compact_mode = false;
  interview_report_retention_days = 0;
  debug_trace_mode = redacted;
  debug_trace_retention_days = 3;
  bilingual_interview_enabled = false;
  interview_input_language = codes "en";
  translation_language = codes "ru";
  live_translation_enabled = true;
  translation_debounce_ms = 600;
  translation_min_word_count = 3;
  bilingual_retention_behavior = codes "session_only";
  bilingual_answer_style = codes "b2_conversational";
}

-- `to_ascii_lowercase`.
unfoldable pub to_ascii_lowercase : Text → Text
to_ascii_lowercase [] = []
to_ascii_lowercase (c ∷ s) = (if leb 65 c && leb c 90 then c + 32 else c) ∷ to_ascii_lowercase s

-- The character put before the first part of a split.
abbrev pub extend_first : ℕ → List Text → List Text
extend_first c [] = (c ∷ []) ∷ []
extend_first c (part ∷ parts) = (c ∷ part) ∷ parts

-- `split(separator)`.
unfoldable pub split : ℕ → Text → List Text
split separator [] = [] ∷ []
split separator (c ∷ s) =
    let parts = split separator s in if c == separator then [] ∷ parts else extend_first c parts

unfoldable pub is_reserved_hotkey : Text → Bool
is_reserved_hotkey hotkey =
    let normalized =
      join (codes "+") (map (λ part. to_ascii_lowercase (trim part)) (split 43 hotkey)) in
    text_eq normalized (codes "ctrl+w")
    || text_eq normalized (codes "ctrl+q")
    || text_eq normalized (codes "ctrl+r")
    || text_eq normalized (codes "ctrl+shift+r")
    || text_eq normalized (codes "alt+f4")

-- `["en", "ru"].contains(..)`.
abbrev pub is_language : Text → Bool
is_language text = text_eq text (codes "en") || text_eq text (codes "ru")

unfoldable pub sanitize_loaded_hotkey : AppSettings → AppSettings × Bool
sanitize_loaded_hotkey settings =
    if is_reserved_hotkey settings.hotkey
    then (record settings { hotkey = default_settings.hotkey }, true)
    else (settings, false)

-- A language in lower case, or the one to fall back to.
abbrev pub language_or : Text → Text → Text
language_or fallback text =
    let lang = to_ascii_lowercase (trim text) in if is_language lang then lang else fallback

unfoldable pub sanitize_bilingual_settings : AppSettings → AppSettings
sanitize_bilingual_settings settings = record settings {
  schema_version = current_schema_version;
  interview_input_language = language_or (codes "en") settings.interview_input_language;
  translation_language = language_or (codes "ru") settings.translation_language;
  translation_debounce_ms =
      if leb 300 settings.translation_debounce_ms && leb settings.translation_debounce_ms 1500
      then settings.translation_debounce_ms
      else 600;
  translation_min_word_count =
      if leb 1 settings.translation_min_word_count && leb settings.translation_min_word_count 10
      then settings.translation_min_word_count
      else 3;
  bilingual_retention_behavior =
      if is_empty (trim settings.bilingual_retention_behavior)
      then codes "session_only"
      else settings.bilingual_retention_behavior;
  bilingual_answer_style =
      if is_empty (trim settings.bilingual_answer_style)
      then codes "b2_conversational"
      else settings.bilingual_answer_style;
}

-- What the crate url makes of a text.
pub record Url : Type 0 where
  pub scheme : Text
  pub host_str : Option Text

-- `std::net::IpAddr`: four bytes, or eight numbers of 16 bits.
pub data IpAddr : Type 0 where
  v4 : (a b c d : ℕ) → IpAddr
  v6 : (first : ℕ) (others : List ℕ) → IpAddr

-- `is_loopback`, `is_private` and `is_link_local`, of which the single address 169.254.169.254 is one;
-- for the longer addresses `is_loopback`, `is_unique_local` and `is_unicast_link_local`.
unfoldable pub is_local_ip : IpAddr → Bool
is_local_ip (v4 a b c d) =
    a == 127
    || (a == 10 || a == 172 && (leb 16 b && leb b 31) || a == 192 && b == 168)
    || a == 169 && b == 254
    || a == 169 && (b == 254 && (c == 169 && d == 254))
is_local_ip (v6 first others) =
    first == 0 && text_eq others (0 ∷ 0 ∷ 0 ∷ 0 ∷ 0 ∷ 0 ∷ 1 ∷ [])
    || leb 0xfc00 first && leb first 0xfdff
    || leb 0xfe80 first && leb first 0xfebf

-- `parse_url` is the crate url's parser, `parse_ip` that of the standard library for addresses.
module _ (parse_url : Text → Option Url) (parse_ip : Text → Option IpAddr) where
  unfoldable pub is_local_http_host : Text → Bool
  unfolding is_local_ip
  is_local_http_host host =
      if text_eq host (codes "localhost") then true else elim (parse_ip host) [
        | some ip ↦ is_local_ip ip
        | none ↦ ends_with host (codes ".local")
      ]

  unfoldable pub validate_http_url : Text → Result (Unit {0}) SettingsError
  validate_http_url value = elim (parse_url value) [
    | none ↦ err invalid_url
    | some u ↦
        if text_eq u.scheme (codes "https")
        then ok tt
        else if not (text_eq u.scheme (codes "http"))
        then err invalid_url
        else elim u.host_str [
          | none ↦ err invalid_url
          | some host ↦
              if is_local_http_host (to_ascii_lowercase (trim host)) then ok tt else err invalid_url
        ]
  ]

  -- The checks on their own, in the order of `validate`.
  abbrev pub check : Bool → SettingsError → Result (Unit {0}) SettingsError
  check holds e = if holds then ok tt else err e

  unfoldable pub validate : AppSettings → Result (Unit {0}) SettingsError
  validate s =
      check (leb 1 s.schema_version && leb s.schema_version current_schema_version) invalid_schema
      >>= λ _. check (not (is_empty (trim s.hotkey))) hotkey_required >>= λ _.
          check (not (is_reserved_hotkey s.hotkey)) hotkey_reserved >>= λ _.
          check (not (is_empty (trim s.llm_model))) model_required >>= λ _.
          check (leb 5 s.capture_max_seconds && leb s.capture_max_seconds 180) capture_range_invalid
          >>= λ _.
              (if is_empty (trim s.llm_base_url)
                then ok tt
                else validate_http_url (trim s.llm_base_url))
              >>= λ _.
                  check (not (is_empty (trim s.active_answer_profile))) partial_config_invalid
                  >>= λ _.
                      check (not (is_empty (trim s.selected_model_preset))) partial_config_invalid
                      >>= λ _.
                          check
                            (s.window_opacity == 70
                              || s.window_opacity == 80
                              || s.window_opacity == 90
                              || s.window_opacity == 100)
                            partial_config_invalid
                          >>= λ _.
                              check
                                (s.interview_report_retention_days == 0
                                  || s.interview_report_retention_days == 7
                                  || s.interview_report_retention_days == 30
                                  || s.interview_report_retention_days == 90)
                                retention_policy_invalid
                              >>= λ _.
                                  check
                                    (s.debug_trace_retention_days == 1
                                      || s.debug_trace_retention_days == 3
                                      || s.debug_trace_retention_days == 7
                                      || s.debug_trace_retention_days == 0)
                                    retention_policy_invalid
                                  >>= λ _.
                                      check (is_language s.interview_input_language)
                                        partial_config_invalid
                                      >>= λ _.
                                          check (is_language s.translation_language)
                                            partial_config_invalid
