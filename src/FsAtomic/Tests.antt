-- ===== src/FsAtomic/Tests.antt =====
-- Writes on a small disk, and each theorem at an input that meets its hypotheses.
use replyline.Prelude.{All, arith, codes, false, if◌then◌else◌, none, ok, refl, some, ℕ, ◌≡◌}
use replyline.FsAtomic.{
  Disk, Faults, FilePath, path_eq, put, reserve_from, reserve_temp_path, temp_candidate,
  write_bytes_atomically, write_through,
}
use replyline.FsAtomic.Atomic.{
  IsLeft, OldOrNew, crash_atomic, moments, start, write_completes, write_effect,
}

abbrev settings_path : FilePath
settings_path = record { parent = codes "/app"; file_name = codes "settings.json" }

abbrev before : Disk ℕ
before p = if path_eq p settings_path then some 1 else none

abbrev no_faults : Faults ℕ
no_faults = record {
  create_dir_all = false;
  open_file = false;
  write_all = none;
  sync_all = false;
  replace = false;
  remove_file = false;
}

abbrev full_disk : Faults ℕ
full_disk = record no_faults { write_all = some 5 }

replaces_existing_file :
    (write_bytes_atomically no_faults 0 settings_path 2 (start before)).0.disk settings_path
    ≡ some 2
unfolding write_bytes_atomically reserve_temp_path reserve_from temp_candidate write_through put
replaces_existing_file = refl

crash_atomic_example :
    All
      (λ m. IsLeft before m → OldOrNew settings_path before 2 before)
      (moments (write_bytes_atomically full_disk 0 settings_path 2 (start before)).0)
crash_atomic_example = crash_atomic full_disk 0 settings_path 2 before before

write_effect_example :
    (write_bytes_atomically full_disk 0 settings_path 2 (start before)).0.disk ≡ before
unfolding write_bytes_atomically reserve_temp_path reserve_from temp_candidate write_through
write_effect_example = (write_effect full_disk 0 settings_path 2 before).1 refl refl

write_completes_example :
    (write_bytes_atomically no_faults 0 settings_path 2 (start before)).1 ≡ ok tt
unfolding temp_candidate
write_completes_example =
    (write_completes no_faults 0 settings_path 2 before 0 refl refl refl refl refl (omega arith)
      refl).0
