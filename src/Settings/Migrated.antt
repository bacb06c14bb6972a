-- ===== src/Settings/Migrated.antt =====
-- What the migrations of src-tauri/src/settings.rs keep, add and change.
use replyline.Prelude.{
  Bool, Bool-cases, List, Option, Option-cases, Text, [], ap, arith, codes, false, if◌then◌else◌,
  inl, inr, ltb, lt→ltb, none, refl, some, sym, text_eq, text_eq_iff, text_eq_refl, true, ℕ, ◌<◌,
  ◌||◌, ◌∙◌, ◌∷◌, ◌≡◌, ◌≢◌, ◌⊎◌,
}
use replyline.Settings.Migration.{
  Json, below, get, insert, migrate_object, migrate_v1_to_v2, migrate_v2_to_v3, migrate_v3_to_v4,
  migrate_v4_to_v5, migrate_v5_to_v6, migrate_v6_to_v7, migrate_v7_to_v8, migrate_v8_to_v9,
  migrate_v9_to_v10, or_insert, remove,
}

none≢found : {V : Type 0} {x : V} → ◌≢◌ {A = Option V} none (some x)
none≢found h = cc

module _ {V : Type 0} where
  pub get-insert_same :
      (key : Text) (value : V) (obj : List (Text × V)) → get key (insert key value obj) ≡ some value
  unfolding get insert
  get-insert_same key value [] = rw (text_eq_refl key)
  get-insert_same key value ((k, v) ∷ obj) = elim (Bool-cases (text_eq k key)) [
    | inl here ↦ rw here (rw (text_eq_refl key))
    | inr apart ↦ rw apart (rw apart (get-insert_same key value obj))
  ]

  pub get-insert_other :
      (key other : Text) (value : V) (obj : List (Text × V))
      → text_eq key other ≡ false
      → get other (insert key value obj) ≡ get other obj
  unfolding get insert
  get-insert_other key other value [] h = rw h
  get-insert_other key other value ((k, v) ∷ obj) h =
      ground (arith, get-insert_other key other value obj h, text_eq_iff k key)

  pub or_insert-cases :
      (key : Text) (value : V) (obj : List (Text × V))
      → ((get key obj ≡ none) × (or_insert key value obj ≡ insert key value obj))
        ⊎ (or_insert key value obj ≡ obj)
  unfolding or_insert
  or_insert-cases key value obj =
      let pick : Option V → List (Text × V) =
        λ o. if (elim o [ none ↦ false | some v ↦ true ]) then obj else insert key value obj in
      elim (Option-cases (get key obj)) [
        | inl absent ↦ inl (absent, ap pick absent)
        | inr (v, present) ↦ inr (ap pick present)
      ]

  pub get-or_insert :
      (key other : Text) (value x : V) (obj : List (Text × V))
      → get other obj ≡ some x
      → get other (or_insert key value obj) ≡ some x
  get-or_insert key other value x obj e = elim (or_insert-cases key value obj) [
    | inr same ↦ rw same e
    | inl (absent, inserted) ↦ rw inserted (elim (Bool-cases (text_eq key other)) [
      | inl equal ↦
          absurd
            (none≢found (sym absent ∙ ap (λ k. get k obj) ((text_eq_iff key other).0 equal) ∙ e))
      | inr apart ↦ get-insert_other key other value obj apart ∙ e
    ])
  ]

  pub get-remove :
      (key other : Text) (obj : List (Text × V))
      → text_eq key other ≡ false
      → get other (remove key obj) ≡ get other obj
  unfolding get remove
  get-remove key other [] h = refl
  get-remove key other ((k, v) ∷ obj) h =
      ground (arith, get-remove key other obj h, text_eq_iff k key)

-- The keys that the migrations set anew or remove.
abbrev pub is_rewritten : Text → Bool
is_rewritten key =
    text_eq (codes "schemaVersion") key
    || text_eq (codes "debugTraceMode") key
    || text_eq (codes "traceIncludeContent") key

module _ {V : Type 0} (json : Json V) (key : Text) (x : V) (kept : is_rewritten key ≡ false) where
  abbrev Has : List (Text × V) → Type 0
  Has obj = get key obj ≡ some x

  not_version : text_eq (codes "schemaVersion") key ≡ false
  not_version = ground arith

  not_mode : text_eq (codes "debugTraceMode") key ≡ false
  not_mode = ground arith

  not_content : text_eq (codes "traceIncludeContent") key ≡ false
  not_content = ground arith

  versioned :
      (n : ℕ) (obj : List (Text × V))
      → Has obj
      → Has (insert (codes "schemaVersion") (json.of_num n) obj)
  versioned n obj e =
      get-insert_other (codes "schemaVersion") key (json.of_num n) obj not_version ∙ e

  below-Has :
      (version limit : ℕ) (migrate : List (Text × V) → List (Text × V)) (obj : List (Text × V))
      → ((o : List (Text × V)) → Has o → Has (migrate o))
      → Has obj
      → Has (below json version limit migrate obj)
  below-Has version limit migrate obj keeps e = elim (Bool-cases (ltb version limit)) [
    | inl older ↦ rw older (keeps obj e)
    | inr newer ↦ rw newer e
  ]

  added : (k : Text) (v : V) (obj : List (Text × V)) → Has obj → Has (or_insert k v obj)
  added k v obj e = get-or_insert k key v x obj e

  v8_to_v9-Has : (obj : List (Text × V)) → Has obj → Has (migrate_v8_to_v9 json obj)
  unfolding migrate_v8_to_v9
  v8_to_v9-Has obj e =
      get-remove (codes "traceIncludeContent") key _ not_content
      ∙ get-or_insert _ key _ x _
          (get-insert_other (codes "debugTraceMode") key _ _ not_mode ∙ versioned 9 obj e)

  migrate_object-Has :
      (version : ℕ) (obj : List (Text × V)) → Has obj → Has (migrate_object json version obj)
  unfolding migrate_object migrate_v1_to_v2 migrate_v2_to_v3 migrate_v3_to_v4 migrate_v4_to_v5
      migrate_v5_to_v6 migrate_v6_to_v7 migrate_v7_to_v8 migrate_v9_to_v10
  migrate_object-Has version obj e =
      below-Has version 10 (migrate_v9_to_v10 json) _
        (λ o f. added _ _ _ (
          added _ _ _ (
            added _ _ _ (
              added _ _ _
                (added _ _ _ (added _ _ _ (added _ _ _ (added _ _ _ (versioned 10 o f)))))))))
        (below-Has version 9 (migrate_v8_to_v9 json) _ v8_to_v9-Has (
          below-Has version 8 (migrate_v7_to_v8 json) _ (λ o f. added _ _ _ (versioned 8 o f))
            (below-Has version 7 (migrate_v6_to_v7 json) _
              (λ o f. added _ _ _ (added _ _ _ (versioned 7 o f)))
              (below-Has version 6 (migrate_v5_to_v6 json) _ (λ o f. added _ _ _ (versioned 6 o f))
                (below-Has version 5 (migrate_v4_to_v5 json) _
                  (λ o f. added _ _ _ (added _ _ _ (versioned 5 o f)))
                  (below-Has version 4 (migrate_v3_to_v4 json) _
                    (λ o f. added _ _ _ (versioned 4 o f))
                    (below-Has version 3 (migrate_v2_to_v3 json) _
                      (λ o f. added _ _ _ (versioned 3 o f))
                      (below-Has version 2 (migrate_v1_to_v2 json) obj (λ o f. versioned 2 o f)
                        e))))))))

newest :
    {V : Type 0} (json : Json V) (version : ℕ) (obj : List (Text × V))
    → version < 10
    → get (codes "schemaVersion") (migrate_object json version obj) ≡ some (json.of_num 10)
unfolding migrate_object migrate_v9_to_v10
newest json version obj older = rw (lt→ltb version 10 older) (
    get-or_insert _ (codes "schemaVersion") _ (json.of_num 10) _ (
      get-or_insert _ (codes "schemaVersion") _ (json.of_num 10) _ (
        get-or_insert _ (codes "schemaVersion") _ (json.of_num 10) _ (
          get-or_insert _ (codes "schemaVersion") _ (json.of_num 10) _ (
            get-or_insert _ (codes "schemaVersion") _ (json.of_num 10) _ (
              get-or_insert _ (codes "schemaVersion") _ (json.of_num 10) _ (
                get-or_insert _ (codes "schemaVersion") _ (json.of_num 10) _ (
                  get-or_insert _ (codes "schemaVersion") _ (json.of_num 10) _
                    (get-insert_same (codes "schemaVersion") (json.of_num 10) _)))))))))

-- The migrations bring settings of an older version to version 10. Whatever a key held before, it
-- holds after, for all keys but the version and the two of the debug trace.
pub migrate_object_keeps :
    {V : Type 0} (json : Json V) (version : ℕ) (obj : List (Text × V))
    → version < 10
    → (get (codes "schemaVersion") (migrate_object json version obj) ≡ some (json.of_num 10))
      × ((key : Text) (x : V)
          → is_rewritten key ≡ false
          → get key obj ≡ some x
          → get key (migrate_object json version obj) ≡ some x)
migrate_object_keeps json version obj older = (
  newest json version obj older,
  λ key x kept e. migrate_object-Has json key x kept version obj e,
)
