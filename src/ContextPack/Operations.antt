-- ===== src/ContextPack/Operations.antt =====
-- Each operation of src-tauri/src/context_pack.rs that changes the store: the store that a later
-- read sees, the value returned, and the disk left alone on every error.
use replyline.ContextPack.Files.{PackEnv, PackError, StoreFormat}
use replyline.Prelude.{List, Result, false, is_ok, ok, true, ◌≡◌}
use replyline.FsAtomic.{Disk}
use replyline.ContextPack.Validation.{ContextPackDto}
use replyline.ContextPack.Persistence.{RoundTrips, Stores}

module _ {B : Type 0} (format : StoreFormat B) (round_trips : RoundTrips format)
    (env : PackEnv B) where
  -- A call that returns `ok` returns this value, and a later read sees this store. A call that
  -- returns an error, if the removal of a temporary file does not fail too, changes nothing.
  abbrev pub Effect :
      {A : Type 0} → List ContextPackDto → A → Disk B → Disk B × Result A PackError → Type 0
  Effect packs value disk outcome =
      (is_ok outcome.1 ≡ true
        → (outcome.1 ≡ ok value)
          × Stores format env.config_dir outcome.0 (record { packs = packs }))
      × (is_ok outcome.1 ≡ false → env.faults.remove_file ≡ false → outcome.0 ≡ disk)
