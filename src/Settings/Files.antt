-- ===== src/Settings/Files.antt =====
-- Loading and saving settings on the disk: `load` and `save` of src-tauri/src/settings.rs.
-- `Env` is what a call finds: the directory of the settings, which calls of the system fail, and
-- serde_json's parser, decoder and printer. The log is left out.
use replyline.Prelude.{
  Bool, Option, Result, Text, codes, err, if◌then◌else◌, is_empty, none, not, ok, some, trim, ◌++◌,
}
use replyline.FsAtomic.{
  Disk, Faults, FilePath, IoErrorKind, rename, with_file_name, write_json_atomically,
}
use replyline.FsAtomic.Atomic.{start}
use replyline.Settings.{
  IpAddr, AppSettings, SettingsError, Url, default_settings, io_error, sanitize_bilingual_settings,
  sanitize_loaded_hotkey, validate,
}
use replyline.Settings.Migration.{Json, ensure_required_fields, migrate_settings}

pub record Env (B V : Type 0) : Type 0 where
  pub settings_path : Option FilePath
  pub read_fails : Bool
  pub quarantine_fails : Bool
  pub ts : Text
  pub faults : Faults B
  pub empty : B
  pub json : Json V
  pub from_slice : B → Option V
  pub from_value : V → Option AppSettings
  pub to_vec_pretty : AppSettings → Option B
  pub parse_url : Text → Option Url
  pub parse_ip : Text → Option IpAddr

module _ {B V : Type 0} (env : Env B V) where
  abbrev pub Loaded : Type 0
  Loaded = Disk B × Result AppSettings SettingsError

  abbrev pub valid? : AppSettings → Result (Unit {0}) SettingsError
  valid? settings = validate env.parse_url env.parse_ip settings

  unfoldable pub quarantine_corrupt : FilePath → Disk B → Disk B
  quarantine_corrupt path disk =
      if env.quarantine_fails
      then disk
      else rename path (with_file_name path (codes "settings.json.corrupt." ++ env.ts)) disk

  -- The file is put aside, and the defaults stand in.
  abbrev pub fall_back : FilePath → Disk B → Loaded
  fall_back path disk = (quarantine_corrupt path disk, ok default_settings)

  unfoldable pub write_settings :
      FilePath → AppSettings → Disk B → Disk B × Result (Unit {0}) IoErrorKind
  write_settings path settings disk =
      let (w, r) =
        write_json_atomically env.to_vec_pretty env.faults env.empty path settings (start disk) in
      (w.disk, r)

  -- The hotkey that was replaced is stored; an error is only logged.
  unfoldable pub persist_hotkey : FilePath → AppSettings → Bool → Disk B → Disk B
  persist_hotkey path settings hotkey_migrated disk =
      if hotkey_migrated then (write_settings path settings disk).0 else disk

  -- From the decoded settings on.
  unfoldable pub accept : FilePath → AppSettings → Disk B → Loaded
  accept path decoded disk =
      let (renewed, hotkey_migrated) = sanitize_loaded_hotkey decoded in
      let settings = sanitize_bilingual_settings renewed in
      elim (valid? settings) [
        | ok _ ↦ (persist_hotkey path settings hotkey_migrated disk, ok settings)
        | err _ ↦ fall_back path disk
      ]

  unfoldable pub decode : FilePath → V → Disk B → Loaded
  decode path migrated disk = elim (ensure_required_fields env.json migrated) [
    | err _ ↦ fall_back path disk
    | ok _ ↦ elim (env.from_value migrated) [
      | none ↦ fall_back path disk
      | some decoded ↦ accept path decoded disk
    ]
  ]

  unfoldable pub load_at : FilePath → Disk B → Loaded
  load_at path disk = elim (disk path) [
    | none ↦ (disk, ok default_settings)
    | some raw ↦ if env.read_fails then (disk, err io_error) else elim (env.from_slice raw) [
      | none ↦ fall_back path disk
      | some value ↦ decode path (migrate_settings env.json value) disk
    ]
  ]

  unfoldable pub load : Disk B → Loaded
  load disk = elim env.settings_path [ none ↦ (disk, err io_error) | some path ↦ load_at path disk ]

  -- The stored route, for settings that have none.
  abbrev pub with_route : AppSettings → AppSettings → AppSettings
  with_route existing settings = record settings {
    llm_base_url = existing.llm_base_url;
    llm_model =
        if is_empty (trim settings.llm_model) then existing.llm_model else settings.llm_model;
  }

  unfoldable pub preserve_existing_llm_route_if_accidentally_cleared :
      AppSettings → Disk B → Disk B × AppSettings
  preserve_existing_llm_route_if_accidentally_cleared settings disk =
      let (after, loaded) = load disk in
      if not (is_empty (trim settings.llm_base_url)) then (disk, settings) else elim loaded [
        | err _ ↦ (after, settings)
        | ok existing ↦
            if is_empty (trim existing.llm_base_url)
            then (after, settings)
            else (after, with_route existing settings)
      ]

  -- From the checks on.
  unfoldable pub save_normalized : AppSettings → Disk B → Loaded
  save_normalized normalized disk = elim (valid? normalized) [
    | err e ↦ (disk, err e)
    | ok _ ↦ elim env.settings_path [
      | none ↦ (disk, err io_error)
      | some path ↦
          let (after, written) = write_settings path normalized disk in
          elim written [ err _ ↦ (after, err io_error) | ok _ ↦ (after, ok normalized) ]
    ]
  ]

  unfoldable pub save : AppSettings → Disk B → Loaded
  save settings disk =
      let (after, routed) = preserve_existing_llm_route_if_accidentally_cleared settings disk in
      save_normalized (sanitize_bilingual_settings routed) after
