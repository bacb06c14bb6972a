-- ===== src/Settings/TraceMode.antt =====
-- The migrations of src-tauri/src/settings.rs carry the switch for traces with content over to the
-- trace mode that replaces it.
use replyline.Prelude.{
  Bool, Bool-cases, List, Text, ap, arith, codes, false, if◌then◌else◌, inl, inr, ltb, lt→ltb, refl,
  some, text_eq, ℕ, ◌<◌, ◌∙◌, ◌≡◌,
}
use replyline.Settings.Migration.{
  Json, below, get, insert, migrate_object, migrate_v1_to_v2, migrate_v2_to_v3, migrate_v3_to_v4,
  migrate_v4_to_v5, migrate_v5_to_v6, migrate_v6_to_v7, migrate_v7_to_v8, migrate_v8_to_v9,
  migrate_v9_to_v10, or_insert, trace_include_content,
}
use replyline.Settings.Migrated.{
  get-insert_other, get-insert_same, get-or_insert, get-remove, or_insert-cases,
}

-- The switch of an object, and what it is before a migration that may set its default.
module _ {V : Type 0} (js : Json V)
    (reads_back : (b : Bool) → js.as_bool (js.of_bool b) ≡ some b) where
  switch-insert_other :
      (k : Text) (v : V) (obj : List (Text × V))
      → text_eq k (codes "traceIncludeContent") ≡ false
      → trace_include_content js (insert k v obj) ≡ trace_include_content js obj
  unfolding trace_include_content
  switch-insert_other k v obj h =
      rw (get-insert_other k (codes "traceIncludeContent") v obj h, trace_include_content)

  switch-or_insert :
      (k : Text) (v : V) (obj : List (Text × V))
      → text_eq k (codes "traceIncludeContent") ≡ false
      → trace_include_content js (or_insert k v obj) ≡ trace_include_content js obj
  switch-or_insert k v obj h = elim (or_insert-cases k v obj) [
    | inl (absent, inserted) ↦
        ap (trace_include_content js) inserted ∙ switch-insert_other k v obj h
    | inr same ↦ ap (trace_include_content js) same
  ]

  -- The default of the switch is off, as a missing switch counts.
  switch-default :
      (obj : List (Text × V))
      → trace_include_content js (or_insert (codes "traceIncludeContent") (js.of_bool false) obj)
        ≡ trace_include_content js obj
  unfolding trace_include_content
  switch-default obj = elim (or_insert-cases (codes "traceIncludeContent") (js.of_bool false) obj) [
    | inl (absent, inserted) ↦
        ap (trace_include_content js) inserted
        ∙ rw (
          get-insert_same (codes "traceIncludeContent") (js.of_bool false) obj,
          reads_back,
          absent,
          trace_include_content,
        )
    | inr same ↦ ap (trace_include_content js) same
  ]

  abbrev Same : (List (Text × V) → List (Text × V)) → Type 0
  Same migrate =
      (obj : List (Text × V))
      → trace_include_content js (migrate obj) ≡ trace_include_content js obj

  below-Same :
      (version limit : ℕ) (migrate : List (Text × V) → List (Text × V))
      → Same migrate
      → Same (below js version limit migrate)
  below-Same version limit migrate same obj = elim (Bool-cases (ltb version limit)) [
    | inl older ↦ rw older (same obj)
    | inr newer ↦ rw newer
  ]

  versioned-Same : (n : ℕ) → Same (insert (codes "schemaVersion") (js.of_num n))
  versioned-Same n obj = switch-insert_other (codes "schemaVersion") (js.of_num n) obj refl

  -- The object as the migration to version 9 finds it.
  abbrev to_v8 : ℕ → List (Text × V) → List (Text × V)
  to_v8 version obj = below js version 8 (migrate_v7_to_v8 js) (
      below js version 7 (migrate_v6_to_v7 js) (
        below js version 6 (migrate_v5_to_v6 js) (
          below js version 5 (migrate_v4_to_v5 js) (
            below js version 4 (migrate_v3_to_v4 js) (
              below js version 3 (migrate_v2_to_v3 js)
                (below js version 2 (migrate_v1_to_v2 js) obj))))))

  to_v8-Same : (version : ℕ) → Same (to_v8 version)
  unfolding migrate_v1_to_v2 migrate_v2_to_v3 migrate_v3_to_v4 migrate_v4_to_v5 migrate_v5_to_v6
      migrate_v6_to_v7 migrate_v7_to_v8
  to_v8-Same version obj =
      below-Same version 8 (migrate_v7_to_v8 js) (λ o. switch-default _ ∙ versioned-Same 8 o) _
      ∙ below-Same version 7 (migrate_v6_to_v7 js)
          (λ o. switch-or_insert _ _ _ refl ∙ switch-or_insert _ _ _ refl ∙ versioned-Same 7 o) _
      ∙ below-Same version 6 (migrate_v5_to_v6 js)
          (λ o. switch-or_insert _ _ _ refl ∙ versioned-Same 6 o) _
      ∙ below-Same version 5 (migrate_v4_to_v5 js)
          (λ o. switch-or_insert _ _ _ refl ∙ switch-or_insert _ _ _ refl ∙ versioned-Same 5 o) _
      ∙ below-Same version 4 (migrate_v3_to_v4 js)
          (λ o. switch-or_insert _ _ _ refl ∙ versioned-Same 4 o) _
      ∙ below-Same version 3 (migrate_v2_to_v3 js)
          (λ o. switch-or_insert _ _ _ refl ∙ versioned-Same 3 o) _
      ∙ below-Same version 2 (migrate_v1_to_v2 js) (λ o. versioned-Same 2 o) obj

  abbrev mode_value : Bool → V
  mode_value content =
      if content then js.of_str (codes "full_local") else js.of_str (codes "redacted")

  v8_to_v9_mode :
      (obj : List (Text × V))
      → get (codes "debugTraceMode") (migrate_v8_to_v9 js obj)
        ≡ some (mode_value (trace_include_content js obj))
  unfolding migrate_v8_to_v9
  v8_to_v9_mode obj =
      get-remove (codes "traceIncludeContent") (codes "debugTraceMode") _ refl
      ∙ get-or_insert _ (codes "debugTraceMode") _ _ _
          (get-insert_same (codes "debugTraceMode") _ _)
      ∙ ap (λ b. some (mode_value b)) (versioned-Same 9 obj)

  v9_to_v10_mode :
      (obj : List (Text × V)) (x : V)
      → get (codes "debugTraceMode") obj ≡ some x
      → get (codes "debugTraceMode") (migrate_v9_to_v10 js obj) ≡ some x
  unfolding migrate_v9_to_v10
  v9_to_v10_mode obj x e = get-or_insert _ (codes "debugTraceMode") _ x _ (
      get-or_insert _ (codes "debugTraceMode") _ x _ (
        get-or_insert _ (codes "debugTraceMode") _ x _ (
          get-or_insert _ (codes "debugTraceMode") _ x _ (
            get-or_insert _ (codes "debugTraceMode") _ x _ (
              get-or_insert _ (codes "debugTraceMode") _ x _ (
                get-or_insert _ (codes "debugTraceMode") _ x _ (
                  get-or_insert _ (codes "debugTraceMode") _ x _ (
                    get-insert_other (codes "schemaVersion") (codes "debugTraceMode") _ obj refl
                    ∙ e))))))))

-- In settings older than version 9 the trace mode after the migrations is `full_local` if the
-- switch for traces with content was on, and `redacted` if it was off or missing; serde_json reads
-- a truth value back as it is.
pub migrated_trace_mode :
    {V : Type 0} (js : Json V)
    → ((b : Bool) → js.as_bool (js.of_bool b) ≡ some b)
    → (version : ℕ) (obj : List (Text × V)) → version < 9
    → get (codes "debugTraceMode") (migrate_object js version obj)
      ≡ some (
          if trace_include_content js obj
          then js.of_str (codes "full_local")
          else js.of_str (codes "redacted"))
unfolding migrate_object
migrated_trace_mode js reads_back version obj older =
    rw (lt→ltb version 9 older, lt→ltb version 10 (omega arith))
      (v9_to_v10_mode js reads_back _ _ (
        v8_to_v9_mode js reads_back (to_v8 js reads_back version obj)
        ∙ ap (λ b. some (mode_value js reads_back b)) (to_v8-Same js reads_back version obj)))
