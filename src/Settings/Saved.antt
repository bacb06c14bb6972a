-- ===== src/Settings/Saved.antt =====
-- What `save` of src-tauri/src/settings.rs stores for the settings that it is given.
use replyline.Prelude.{
  Bool, Bool-cases, Result-cases, Text, arith, false, if◌then◌else◌, inl, inr, is_empty, leb, ok,
  refl, trim, true, ℕ, ◌&&◌, ◌≡◌, ◌≤◌,
}
use replyline.FsAtomic.{Disk}
use replyline.Settings.{AppSettings, sanitize_bilingual_settings}
use replyline.Settings.Files.{Env, load, preserve_existing_llm_route_if_accidentally_cleared}

module _ {B V : Type 0} (env : Env B V) where
  -- The route of the given settings, or the stored one where theirs is blank.
  pub record IsRouted (disk : Disk B) (settings routed : AppSettings) : Type 0 where
    pub given : is_empty (trim settings.llm_base_url) ≡ false → routed ≡ settings
    pub stored :
        (existing : AppSettings)
        → is_empty (trim settings.llm_base_url) ≡ true
        → (load env disk).1 ≡ ok existing
        → is_empty (trim existing.llm_base_url) ≡ false
        → routed ≡ record settings {
          llm_base_url = existing.llm_base_url;
          llm_model =
              if is_empty (trim settings.llm_model) then existing.llm_model else settings.llm_model;
        }
    pub none_stored :
        ((existing : AppSettings)
          → (load env disk).1 ≡ ok existing
          → is_empty (trim existing.llm_base_url) ≡ true)
        → routed ≡ settings

  pub preserve-IsRouted :
      (settings : AppSettings) (disk : Disk B)
      → IsRouted disk settings
          (preserve_existing_llm_route_if_accidentally_cleared env settings disk).1
  unfolding preserve_existing_llm_route_if_accidentally_cleared
  preserve-IsRouted settings disk = record {
    given = λ filled. rw filled;
    stored = λ existing blank loaded filled.
        rw (blank, loaded, filled, preserve_existing_llm_route_if_accidentally_cleared);
    none_stored = λ nothing. elim (Bool-cases (is_empty (trim settings.llm_base_url))) [
      | inr filled ↦ rw filled
      | inl blank ↦ elim (Result-cases (load env disk).1) [
        | inl (x, f) ↦ rw (blank, f, preserve_existing_llm_route_if_accidentally_cleared)
        | inr (existing, f) ↦
            let none_there = nothing existing f in
            rw (blank, f, none_there, preserve_existing_llm_route_if_accidentally_cleared)
      ]
    ];
  }

  -- What is saved for the given settings. But for the route and what a bilingual session needs it is
  -- what was given, and so are the two numbers where they are in their ranges.
  pub record IsSavedFor (disk : Disk B) (settings saved : AppSettings) : Type 0 where
    pub routed : AppSettings
    pub route : IsRouted disk settings routed
    pub same_route :
        (saved.llm_base_url ≡ routed.llm_base_url) × (saved.llm_model ≡ routed.llm_model)
    pub rest : saved ≡ record routed {
      schema_version = 10;
      interview_input_language = saved.interview_input_language;
      translation_language = saved.translation_language;
      translation_debounce_ms = saved.translation_debounce_ms;
      translation_min_word_count = saved.translation_min_word_count;
      bilingual_retention_behavior = saved.bilingual_retention_behavior;
      bilingual_answer_style = saved.bilingual_answer_style;
    }
    pub debounce :
        300 ≤ routed.translation_debounce_ms
        → routed.translation_debounce_ms ≤ 1500
        → saved.translation_debounce_ms ≡ routed.translation_debounce_ms
    pub words :
        1 ≤ routed.translation_min_word_count
        → routed.translation_min_word_count ≤ 10
        → saved.translation_min_word_count ≡ routed.translation_min_word_count
    pub retention :
        is_empty (trim routed.bilingual_retention_behavior) ≡ false
        → saved.bilingual_retention_behavior ≡ routed.bilingual_retention_behavior
    pub style :
        is_empty (trim routed.bilingual_answer_style) ≡ false
        → saved.bilingual_answer_style ≡ routed.bilingual_answer_style

  within :
      (low high n default : ℕ)
      → low ≤ n
      → n ≤ high
      → (if leb low n && leb n high then n else default) ≡ n
  within low high n default h k = ground arith

  if-filled : (b : Bool) (x y : Text) → b ≡ false → (if b then x else y) ≡ y
  if-filled true x y h = cc
  if-filled false x y h = refl

  pub sanitize-IsSavedFor :
      (disk : Disk B) (settings routed : AppSettings)
      → IsRouted disk settings routed
      → IsSavedFor disk settings (sanitize_bilingual_settings routed)
  unfolding sanitize_bilingual_settings
  sanitize-IsSavedFor disk settings routed route = record {
    routed = routed;
    route = route;
    same_route = (refl, refl);
    rest = refl;
    debounce = within 300 1500 routed.translation_debounce_ms 600;
    words = within 1 10 routed.translation_min_word_count 3;
    retention = if-filled _ _ _;
    style = if-filled _ _ _;
  }
