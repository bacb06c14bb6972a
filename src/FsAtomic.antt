-- ===== src/FsAtomic.antt =====
-- Atomic replacement of a file: src-tauri/src/fs_atomic.rs.
-- A disk says for each path which contents it holds. What the operating system may refuse is given
-- by `Faults`; a refused `write_all` leaves what it had written so far. Every path that the
-- program writes has a parent and a file name. What is written to a file is `unsynced` until
-- `sync_all`, and a renamed file stays so: a crash may leave anything in it. Each system call adds
-- the moment before it to the history, so that the history shows what a crash could leave; a crash
-- that undoes the last changes of names leaves an earlier moment.
pub mod Temp
pub mod Atomic
pub mod Tests
use replyline.Prelude.{
  Bool, List, Option, Result, Text, codes, err, false, if◌then◌else◌, is_ok, none, ok, some, suc,
  text_eq, true, zero, ℕ, ◌&&◌, ◌++◌, ◌+◌, ◌==◌, ◌∷◌,
}
use replyline.Prelude.Decimal.{display}

pub record FilePath : Type 0 where
  pub parent : Text
  pub file_name : Text

abbrev pub path_eq : FilePath → FilePath → Bool
path_eq p q = text_eq p.parent q.parent && text_eq p.file_name q.file_name

abbrev pub with_file_name : FilePath → Text → FilePath
with_file_name p name = record p { file_name = name }

pub data IoErrorKind : Type 0 where
  already_exists invalid_data other : IoErrorKind

abbrev pub Disk : Type 0 → Type 0
Disk B = FilePath → Option B

-- The files, and of which the contents may not have reached the device.
pub record Moment (B : Type 0) : Type 0 where
  pub disk : Disk B
  pub unsynced : FilePath → Bool

pub record World (B : Type 0) : Type 0 where
  pub disk : Disk B
  pub unsynced : FilePath → Bool
  pub history : List (Moment B)

pub record Faults (B : Type 0) : Type 0 where
  pub create_dir_all : Bool
  pub open_file : Bool
  pub write_all : Option B
  pub sync_all : Bool
  pub replace : Bool
  pub remove_file : Bool

-- The candidate for a suffix: `format!("{file_name}.tmp")` or `format!("{file_name}.{suffix}.tmp")`.
unfoldable pub temp_candidate : FilePath → ℕ → FilePath
temp_candidate path suffix =
    if suffix == 0
    then with_file_name path (path.file_name ++ codes ".tmp")
    else with_file_name path (path.file_name ++ (codes "." ++ (display suffix ++ codes ".tmp")))

abbrev pub temp_suffixes : ℕ
temp_suffixes = 64

unfoldable pub note : FilePath → Bool → (FilePath → Bool) → FilePath → Bool
note p b unsynced q = if path_eq p q then b else unsynced q

module _ {B : Type 0} where
  unfoldable pub put : FilePath → Option B → Disk B → Disk B
  put p contents disk q = if path_eq p q then contents else disk q

  abbrev pub exists : Disk B → FilePath → Bool
  exists disk p = elim (disk p) [ none ↦ false | some contents ↦ true ]

  abbrev pub rename : FilePath → FilePath → Disk B → Disk B
  rename source destination disk = put source none (put destination (disk source) disk)

  abbrev pub moment : World B → Moment B
  moment w = record { disk = w.disk; unsynced = w.unsynced }

  -- The contents of one file change, and are synced or not.
  abbrev pub change : FilePath → Option B → Bool → World B → World B
  change p contents pending w = record {
    disk = put p contents w.disk;
    unsynced = note p pending w.unsynced;
    history = moment w ∷ w.history;
  }

  abbrev pub sync : FilePath → World B → World B
  sync p w = record {
    disk = w.disk;
    unsynced = note p false w.unsynced;
    history = moment w ∷ w.history;
  }

  abbrev pub rename_file : FilePath → FilePath → World B → World B
  rename_file source destination w = record {
    disk = rename source destination w.disk;
    unsynced = note source false (note destination (w.unsynced source) w.unsynced);
    history = moment w ∷ w.history;
  }

  -- The loop over the suffixes, `left` of which are still to be tried.
  unfoldable pub reserve_from : ℕ → ℕ → Disk B → FilePath → Result FilePath IoErrorKind
  reserve_from zero suffix disk path = err already_exists
  reserve_from (suc left) suffix disk path =
      let rest = reserve_from left (suffix + 1) disk path in
      if exists disk (temp_candidate path suffix) then rest else ok (temp_candidate path suffix)

  unfoldable pub reserve_temp_path : Disk B → FilePath → Result FilePath IoErrorKind
  reserve_temp_path disk path = reserve_from temp_suffixes 0 disk path

  -- The closure `write_result`; `empty` is the contents of a file just created.
  unfoldable pub write_through :
      Faults B → B → FilePath → FilePath → B → World B → World B × Result (Unit {0}) IoErrorKind
  write_through faults empty temp path payload w =
      if exists w.disk temp
      then (w, err already_exists)
      else if faults.open_file
      then (w, err other)
      else let opened = change temp (some empty) true w in
        let written = change temp (some payload) true opened in
        elim faults.write_all [
          | some partial ↦ (change temp (some partial) true opened, err other)
          | none ↦
              if faults.sync_all
              then (written, err other)
              else let synced = sync temp written in
                if faults.replace
                then (synced, err other)
                else (rename_file temp path synced, ok tt)
        ]

  -- `let _ = fs::remove_file(&temp_path)`.
  unfoldable pub remove_file : Faults B → FilePath → World B → World B
  remove_file faults temp w = if faults.remove_file then w else change temp none false w

  unfoldable pub write_bytes_atomically :
      Faults B → B → FilePath → B → World B → World B × Result (Unit {0}) IoErrorKind
  write_bytes_atomically faults empty path payload w =
      if faults.create_dir_all then (w, err other) else elim (reserve_temp_path w.disk path) [
        | err e ↦ (w, err e)
        | ok temp ↦
            let (w', write_result) = write_through faults empty temp path payload w in
            (if is_ok write_result then w' else remove_file faults temp w', write_result)
      ]

  -- `to_vec_pretty` is serde_json's printer, a parameter.
  unfoldable pub write_json_atomically :
      {T : Type 0}
      → (T → Option B)
      → Faults B
      → B
      → FilePath
      → T
      → World B
      → World B × Result (Unit {0}) IoErrorKind
  write_json_atomically to_vec_pretty faults empty path payload w = elim (to_vec_pretty payload) [
    | none ↦ (w, err invalid_data)
    | some bytes ↦ write_bytes_atomically faults empty path bytes w
  ]
