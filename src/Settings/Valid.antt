-- ===== src/Settings/Valid.antt =====
-- Which settings `load` and `save` of src-tauri/src/settings.rs let through, and what they leave on
-- the disk.
use replyline.Prelude.{
  Bool-cases, Option, Option-cases, Result, Result-cases, Text, err, false, inl, inr, is_ok, join,
  ok, refl, some, subst, trim, true, ◌≡◌, ◌≢◌,
}
use replyline.FsAtomic.{Disk, FilePath}
use replyline.Settings.{
  IpAddr, AppSettings, SettingsError, Url, default_settings, is_reserved_hotkey,
  sanitize_bilingual_settings, sanitize_loaded_hotkey, split, to_ascii_lowercase, validate,
}
use replyline.Settings.Migration.{ensure_required_fields, migrate_settings}
use replyline.Settings.Files.{Env, Loaded, accept, decode, fall_back, load, load_at, valid?}

pub default-valid :
    (parse_url : Text → Option Url) (parse_ip : Text → Option IpAddr)
    → validate parse_url parse_ip default_settings ≡ ok tt
unfolding validate is_reserved_hotkey split to_ascii_lowercase join trim
default-valid parse_url parse_ip = refl

ok_inj : {a b : AppSettings} → ◌≡◌ {A = Result AppSettings SettingsError} (ok a) (ok b) → a ≡ b
ok_inj e = cc

err≢settings :
    {e : SettingsError} {s : AppSettings}
    → ◌≢◌ {A = Result AppSettings SettingsError} (err e) (ok s)
err≢settings h = cc

module _ {B V : Type 0} (env : Env B V) where
  -- The result is settings that pass the checks, and these alone.
  abbrev pub AllValid : Result AppSettings SettingsError → Type 0
  AllValid r = (settings : AppSettings) → r ≡ ok settings → valid? env settings ≡ ok tt

  fall_back-AllValid : (path : FilePath) (disk : Disk B) → AllValid (fall_back env path disk).1
  fall_back-AllValid path disk settings e =
      subst (λ s. valid? env s ≡ ok tt) (ok_inj e) (default-valid env.parse_url env.parse_ip)

  accept-AllValid :
      (path : FilePath) (decoded : AppSettings) (disk : Disk B)
      → AllValid (accept env path decoded disk).1
  unfolding accept
  accept-AllValid path decoded disk settings e =
      let normalized = sanitize_bilingual_settings (sanitize_loaded_hotkey decoded).0 in
      elim (Result-cases (valid? env normalized)) [
        | inl (x, f) ↦ fall_back-AllValid path disk settings (rw (f, accept) at e)
        | inr (x, f) ↦ subst (λ s. valid? env s ≡ ok tt) (ok_inj (rw (f, accept) at e)) f
      ]

  decode-AllValid :
      (path : FilePath) (migrated : V) (disk : Disk B) → AllValid (decode env path migrated disk).1
  unfolding decode
  decode-AllValid path migrated disk settings e =
      elim (Result-cases (ensure_required_fields env.json migrated)) [
        | inl (x, f) ↦ fall_back-AllValid path disk settings (rw (f, decode) at e)
        | inr (_, f) ↦ elim (Option-cases (env.from_value migrated)) [
          | inl g ↦ fall_back-AllValid path disk settings (rw (f, g, decode) at e)
          | inr (decoded, g) ↦ accept-AllValid path decoded disk settings (rw (f, g, decode) at e)
        ]
      ]

  load_at-AllValid : (path : FilePath) (disk : Disk B) → AllValid (load_at env path disk).1
  unfolding load_at
  load_at-AllValid path disk settings e = elim (Option-cases (disk path)) [
    | inl f ↦
        subst (λ s. valid? env s ≡ ok tt) (ok_inj (rw (f, load_at) at e))
          (default-valid env.parse_url env.parse_ip)
    | inr (raw, f) ↦ elim (Bool-cases env.read_fails) [
      | inl fails ↦ absurd (err≢settings (rw (f, fails, load_at) at e))
      | inr reads ↦ elim (Option-cases (env.from_slice raw)) [
        | inl g ↦ fall_back-AllValid path disk settings (rw (f, reads, g, load_at) at e)
        | inr (value, g) ↦
            decode-AllValid path (migrate_settings env.json value) disk settings
              (rw (f, reads, g, load_at) at e)
      ]
    ]
  ]

  load-AllValid : (disk : Disk B) → AllValid (load env disk).1
  unfolding load
  load-AllValid disk settings e = elim (Option-cases env.settings_path) [
    | inl f ↦ absurd (err≢settings (rw (f, load) at e))
    | inr (path, f) ↦ load_at-AllValid path disk settings (rw (f, load) at e)
  ]

  accept-is_ok :
      (path : FilePath) (decoded : AppSettings) (disk : Disk B)
      → is_ok (accept env path decoded disk).1 ≡ true
  unfolding accept
  accept-is_ok path decoded disk =
      elim (Result-cases
        (valid? env (sanitize_bilingual_settings (sanitize_loaded_hotkey decoded).0))) [
          | inl (x, f) ↦ rw (f, accept)
          | inr (_, f) ↦ rw (f, accept)
        ]

  decode-is_ok :
      (path : FilePath) (migrated : V) (disk : Disk B)
      → is_ok (decode env path migrated disk).1 ≡ true
  unfolding decode
  decode-is_ok path migrated disk = elim (Result-cases (ensure_required_fields env.json migrated)) [
    | inl (x, f) ↦ rw (f, decode)
    | inr (_, f) ↦ elim (Option-cases (env.from_value migrated)) [
      | inl g ↦ rw (f, g, decode)
      | inr (decoded, g) ↦ rw (f, g, decode) (accept-is_ok path decoded disk)
    ]
  ]

  load-is_ok :
      (disk : Disk B) (path : FilePath)
      → env.settings_path ≡ some path
      → env.read_fails ≡ false
      → is_ok (load env disk).1 ≡ true
  unfolding load load_at
  load-is_ok disk path known reads = elim (Option-cases (disk path)) [
    | inl f ↦ rw (known, load) (rw (f, load_at))
    | inr (raw, f) ↦ elim (Option-cases (env.from_slice raw)) [
      | inl g ↦ rw (known, load) (rw (f, reads, g, load_at))
      | inr (value, g) ↦
          rw (known, load)
            (rw (f, reads, g, load_at) (decode-is_ok path (migrate_settings env.json value) disk))
    ]
  ]

  -- Whatever is stored, what `load` returns passes the checks. It returns settings if the directory
  -- is known and the file can be read.
  pub load-valid :
      (disk : Disk B)
      → AllValid (load env disk).1
        × ((path : FilePath)
            → env.settings_path ≡ some path
            → env.read_fails ≡ false
            → is_ok (load env disk).1 ≡ true)
  load-valid disk = (load-AllValid disk, load-is_ok disk)

  -- What a save leaves once the settings are normalized.
  abbrev Saves : AppSettings → Disk B → Loaded env → Type 0
  Saves normalized disk (after, r) =
      ((saved : AppSettings)
        → r ≡ ok saved
        → (valid? env saved ≡ ok tt)
          × (normalized ≡ saved)
          × ((path : FilePath) × ((bytes : B) × (env.settings_path ≡ some path)
                × (env.to_vec_pretty saved ≡ some bytes)
                × (after path ≡ some bytes))))
      × (is_ok r ≡ false → env.faults.remove_file ≡ false → after ≡ disk)
