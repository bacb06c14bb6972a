-- ===== src/FsAtomic/Atomic.antt =====
-- What `write_bytes_atomically` of src-tauri/src/fs_atomic.rs leaves on the disk.
use mathlib.Core.Path.{fun_ext}
use replyline.Prelude.{
  Bool, ◌∙◌, All, Bool-cases, List, Option, Option-cases, Result, Result-cases, [], arith, err,
  false, if◌then◌else◌, inl, inr, is_ok, none, ok, refl, some, subst, true, ℕ, ◌+◌, ◌<◌, ◌∷◌, ◌≡◌,
  ◌⊎◌,
}
use replyline.FsAtomic.{
  Moment, moment, note, sync, rename_file, Disk, Faults, FilePath, IoErrorKind, World,
  already_exists, change, exists, other, path_eq, put, remove_file, rename, reserve_temp_path,
  temp_candidate, temp_suffixes, write_bytes_atomically, write_json_atomically, write_through,
}
use replyline.FsAtomic.Temp.{path_eq_iff, reserve_from_free, reserve_from_total}

ok_unit : {r : Result (Unit {0}) IoErrorKind} → is_ok r ≡ true → r ≡ ok tt
ok_unit {r} h = ground arith

note_self : (p : FilePath) (b : Bool) (unsynced : FilePath → Bool) → note p b unsynced p ≡ b
unfolding note
note_self p b unsynced = rw ((path_eq_iff p p).1 refl)

note_other :
    (p q : FilePath) (b : Bool) (unsynced : FilePath → Bool)
    → path_eq p q ≡ false
    → note p b unsynced q ≡ unsynced q
unfolding note
note_other p q b unsynced h = rw h

module _ {B : Type 0} where
  pub put_self : (p : FilePath) (c : Option B) (disk : Disk B) → put p c disk p ≡ c
  unfolding put
  put_self p c disk = rw ((path_eq_iff p p).1 refl)

  put_other :
      (p q : FilePath) (c : Option B) (disk : Disk B)
      → path_eq p q ≡ false
      → put p c disk q ≡ disk q
  unfolding put
  put_other p q c disk h = rw h

  -- Two writes to one path; the later stands.
  put_twice :
      (p : FilePath) (c d : Option B) (disk : Disk B) → put p d (put p c disk) ≡ put p d disk
  unfolding put
  put_twice p c d disk = fun_ext (λ q. ground arith)

  put_same : (p : FilePath) (disk : Disk B) → put p (disk p) disk ≡ disk
  unfolding put
  put_same p disk = fun_ext (λ q. ground (arith, path_eq_iff p q))

  -- What is there has reached the device.
  abbrev pub start : Disk B → World B
  start disk = record { disk = disk; unsynced = λ p. false; history = [] }

  -- The moments at which a crash may come, the newest first.
  abbrev pub moments : World B → List (Moment B)
  moments w = moment w ∷ w.history

  -- A crash leaves what was synced, and anything in the other files.
  abbrev pub IsLeft : Disk B → Moment B → Type 0
  IsLeft left m = (p : FilePath) → m.unsynced p ≡ false → left p ≡ m.disk p

  -- The target holds what it held before, or the whole payload.
  abbrev pub OldOrNew : FilePath → Disk B → B → Disk B → Type 0
  OldOrNew path before payload disk = (disk path ≡ before path) ⊎ (disk path ≡ some payload)

  -- And the device has it.
  abbrev Safe : FilePath → Disk B → B → Moment B → Type 0
  Safe path before payload m = OldOrNew path before payload m.disk × (m.unsynced path ≡ false)

module _ {B : Type 0} (faults : Faults B) (empty : B) (path temp : FilePath) (payload : B)
    (w : World B) where
  -- The outcomes of the closure, one for each call that can fail and one for success.
  write_through_cases {ℓ} :
      (P : World B × Result (Unit {0}) IoErrorKind → Type ℓ)
      → let opened = change temp (some empty) true w in
        let written = change temp (some payload) true opened in
        let synced = sync temp written in
        ((e : IoErrorKind) → P (w, err e))
        → ((partial : B) → P (change temp (some partial) true opened, err other))
        → P (written, err other)
        → P (synced, err other)
        → (exists w.disk temp ≡ false → P (rename_file temp path synced, ok tt))
        → P (write_through faults empty temp path payload w)
  unfolding write_through
  write_through_cases P refused partly unsaved unplaced done =
      elim (Bool-cases (exists w.disk temp)) [
        | inl taken ↦ rw taken (refused already_exists)
        | inr free ↦ elim (Bool-cases faults.open_file) [
          | inl fails ↦ rw (free, fails) (refused other)
          | inr opens ↦ elim (Option-cases faults.write_all) [
            | inr (partial, e) ↦ rw (free, opens, e, write_through) (partly partial)
            | inl e ↦ elim (Bool-cases faults.sync_all) [
              | inl fails ↦ rw (free, opens, e, fails, write_through) unsaved
              | inr synced ↦ elim (Bool-cases faults.replace) [
                | inl fails ↦ rw (free, opens, e, synced, fails, write_through) unplaced
                | inr replaced ↦ rw (free, opens, e, synced, replaced, write_through) (done free)
              ]
            ]
          ]
        ]
      ]

module _ {B : Type 0} (faults : Faults B) (empty : B) (path : FilePath) (payload : B)
    (disk : Disk B) where
  result : World B × Result (Unit {0}) IoErrorKind
  result = write_bytes_atomically faults empty path payload (start disk)

  -- The call fails before it changes anything, or it is the closure and, if that fails, the removal.
  write_bytes_cases {ℓ} :
      (P : World B × Result (Unit {0}) IoErrorKind → Type ℓ)
      → ((e : IoErrorKind) → P (start disk, err e))
      → ((temp : FilePath)
          → path_eq path temp ≡ false
          → disk temp ≡ none
          → let (w', r) = write_through faults empty temp path payload (start disk) in
            P (if is_ok r then w' else remove_file faults temp w', r))
      → P (write_bytes_atomically faults empty path payload (start disk))
  unfolding write_bytes_atomically reserve_temp_path
  write_bytes_cases P early attempted = elim (Bool-cases faults.create_dir_all) [
    | inl fails ↦ rw fails (early other)
    | inr made ↦ elim (Result-cases (reserve_temp_path disk path)) [
      | inl (e, q) ↦ rw (made, q, write_bytes_atomically) (early e)
      | inr (temp, q) ↦
          let (ne, free) = reserve_from_free disk path temp_suffixes 0 temp q in
          rw (made, q, write_bytes_atomically) (attempted temp ne free)
    ]
  ]

  module _ (temp : FilePath) (ne : path_eq path temp ≡ false) where
    ne' : path_eq temp path ≡ false
    ne' = ground (arith, path_eq_iff path temp, path_eq_iff temp path)

    temp_step :
        (c : Option B) (pending : Bool) (w : World B)
        → Safe path disk payload (moment w)
        → Safe path disk payload (moment (change temp c pending w))
    temp_step c pending w h = (
      rw (put_other temp path c w.disk ne') h.0,
      note_other temp path pending w.unsynced ne' ∙ h.1,
    )

    sync_step :
        (w : World B)
        → Safe path disk payload (moment w)
        → Safe path disk payload (moment (sync temp w))
    sync_step w h = (h.0, note_other temp path false w.unsynced ne' ∙ h.1)

    -- The rename is the only change of the target, to a file that has been synced.
    rename_step :
        (w : World B)
        → w.disk temp ≡ some payload
        → w.unsynced temp ≡ false
        → Safe path disk payload (moment (rename_file temp path w))
    rename_step w full synced = (
      inr (
          put_other temp path none (put path (w.disk temp) w.disk) ne'
          ∙ put_self path (w.disk temp) w.disk
          ∙ full),
      note_other temp path false (note path (w.unsynced temp) w.unsynced) ne'
          ∙ note_self path (w.unsynced temp) w.unsynced
          ∙ synced,
    )

    remove_step :
        (w : World B)
        → All (Safe path disk payload) (moments w)
        → All (Safe path disk payload) (moments (remove_file faults temp w))
    unfolding remove_file
    remove_step w h = elim (Bool-cases faults.remove_file) [
      | inl fails ↦ rw fails h
      | inr removes ↦ rw removes (temp_step none false w h.0, h)
    ]

    module _ (free : disk temp ≡ none) where
      blank : put temp none disk ≡ disk
      unfolding put
      blank = fun_ext (λ q. ground (arith, path_eq_iff temp q))

      -- Removing the temporary file undoes the writes to it.
      remove_undoes :
          (c : Option B) (unsynced : FilePath → Bool) (past : List (Moment B))
          → faults.remove_file ≡ false
          → (remove_file faults temp
              (record { disk = put temp c disk; unsynced = unsynced; history = past })).disk
            ≡ disk
      unfolding remove_file
      remove_undoes c unsynced past removes = rw (removes, put_twice temp c none disk) blank

      rename_done :
          rename temp path (put temp (some payload) (put temp (some empty) disk))
          ≡ put path (some payload) disk
      unfolding put
      rename_done = fun_ext (λ q.
          ground (arith, path_eq_iff temp q, path_eq_iff path q, path_eq_iff temp temp, ne, free))

  module _ (temp : FilePath) (ne : path_eq path temp ≡ false) where
    begun : Safe path disk payload (moment (start disk))
    begun = (inl refl, refl)

    opened_past :
        All (Safe path disk payload) (moments (change temp (some empty) true (start disk)))
    opened_past = (temp_step temp ne (some empty) true (start disk) begun, (begun, tt))

    -- The moments up to the writing of some contents.
    written_past :
        (contents : B)
        → All (Safe path disk payload) (
            moments (change temp (some contents) true (change temp (some empty) true (start disk))))
    written_past contents =
        let opened = change temp (some empty) true (start disk) in
        (temp_step temp ne (some contents) true opened opened_past.0, opened_past)

    synced_past :
        let opened = change temp (some empty) true (start disk) in
        All (Safe path disk payload) (moments (sync temp (change temp (some payload) true opened)))
    synced_past =
        let opened = change temp (some empty) true (start disk) in
        let written = change temp (some payload) true opened in
        let past = written_past payload in (sync_step temp ne written past.0, past)

  moments-Safe :
      All
        (Safe path disk payload)
        (moments (write_bytes_atomically faults empty path payload (start disk)).0)
  moments-Safe =
      write_bytes_cases (λ r. All (Safe path disk payload) (moments r.0))
        (λ e. ((inl refl, refl), tt))
        λ temp ne free.
          write_through_cases faults empty path temp payload (start disk)
            (λ (w, r).
              All (Safe path disk payload)
                (moments (if is_ok r then w else remove_file faults temp w)))
            (λ e. remove_step temp ne (start disk) (begun temp ne, tt))
            (λ partial. remove_step temp ne _ (written_past temp ne partial))
            (remove_step temp ne _ (written_past temp ne payload))
            (remove_step temp ne _ (synced_past temp ne))
            (λ _. (
              rename_step temp ne
                  (sync temp
                    (change temp (some payload) true (change temp (some empty) true (start disk))))
                  (put_self temp (some payload) _) (note_self temp false _),
              synced_past temp ne,
            ))

  Safe-OldOrNew :
      (left : Disk B) (m : Moment B)
      → Safe path disk payload m
      → IsLeft left m
      → OldOrNew path disk payload left
  Safe-OldOrNew left m (inl old, synced) is_left = inl (is_left path synced ∙ old)
  Safe-OldOrNew left m (inr new, synced) is_left = inr (is_left path synced ∙ new)

  All-IsLeft :
      (left : Disk B) (ms : List (Moment B))
      → All (Safe path disk payload) ms
      → All (λ m. IsLeft left m → OldOrNew path disk payload left) ms
  All-IsLeft left [] h = tt
  All-IsLeft left (m ∷ ms) (safe, safes) = (Safe-OldOrNew left m safe, All-IsLeft left ms safes)

  -- At each moment of the call, whichever calls of the system fail, a crash that leaves what has been
  -- synced and anything in the files that have not leaves at the target what it held before or the
  -- whole payload, if what was there before the call has reached the device.
  pub crash_atomic :
      (left : Disk B)
      → All
          (λ m. IsLeft left m → OldOrNew path disk payload left)
          (moments (write_bytes_atomically faults empty path payload (start disk)).0)
  crash_atomic left =
      All-IsLeft left (moments (write_bytes_atomically faults empty path payload (start disk)).0)
        moments-Safe

  undone :
      (temp : FilePath) (ne : path_eq path temp ≡ false) (free : disk temp ≡ none) (contents : B)
      (unsynced : FilePath → Bool) (past : List (Moment B))
      → faults.remove_file ≡ false
      → (remove_file faults temp (record {
        disk = put temp (some contents) (put temp (some empty) disk);
        unsynced = unsynced;
        history = past;
      })).disk
        ≡ disk
  undone temp ne free contents unsynced past removes =
      rw (put_twice temp (some empty) (some contents) disk)
        (remove_undoes temp ne free (some contents) _ _ removes)

  -- A call that returns `ok` leaves the payload at the target and every other file as it was. One
  -- that returns an error, if the removal of its temporary file is not refused too, leaves the
  -- whole disk as it was.
  pub write_effect :
      let (w, r) = write_bytes_atomically faults empty path payload (start disk) in
      (r ≡ ok tt → w.disk ≡ put path (some payload) disk)
      × (is_ok r ≡ false → faults.remove_file ≡ false → w.disk ≡ disk)
  write_effect =
      write_bytes_cases
        (λ (w, r).
          (r ≡ ok tt → w.disk ≡ put path (some payload) disk)
          × (is_ok r ≡ false → faults.remove_file ≡ false → w.disk ≡ disk))
        (λ e. (λ h. cc, λ _ _. refl))
        λ temp ne free.
          write_through_cases faults empty path temp payload (start disk)
            (λ (w, r).
              (r ≡ ok tt
                → (if is_ok r then w else remove_file faults temp w).disk
                  ≡ put path (some payload) disk)
              × (is_ok r ≡ false
                  → faults.remove_file ≡ false
                  → (if is_ok r then w else remove_file faults temp w).disk ≡ disk))
            (λ e. (
              λ h. cc,
              λ _ removes.
                  subst
                    (λ d.
                      (remove_file faults temp
                        (record { disk = d; unsynced = λ p. false; history = [] })).disk
                      ≡ disk)
                    (blank temp ne free) (remove_undoes temp ne free none _ [] removes),
            ))
            (λ partial. (λ h. cc, λ _ removes. undone temp ne free partial _ _ removes))
            (λ h. cc, λ _ removes. undone temp ne free payload _ _ removes)
            (λ h. cc, λ _ removes. undone temp ne free payload _ _ removes)
            (λ _. (λ _. rename_done temp ne free, λ h. cc))

  -- When the system refuses nothing and one of the 64 temporary names is free, the write succeeds.
  pub write_completes :
      (k : ℕ)
      → faults.create_dir_all ≡ false
      → faults.open_file ≡ false
      → faults.write_all ≡ none
      → faults.sync_all ≡ false
      → faults.replace ≡ false
      → k < temp_suffixes
      → disk (temp_candidate path k) ≡ none
      → let (w, r) = write_bytes_atomically faults empty path payload (start disk) in
        (r ≡ ok tt) × (w.disk ≡ put path (some payload) disk)
  unfolding write_bytes_atomically reserve_temp_path write_through
  write_completes k makes opens writes syncs replaces few free =
      let absent : exists disk (temp_candidate path (0 + k)) ≡ false =
        subst (λ j. exists disk (temp_candidate path j) ≡ false) {x = k} (omega arith)
          (rw (free, exists)) in
      let (temp, reserved) = reserve_from_total disk path temp_suffixes 0 k few absent in
      let (ne, unused) = reserve_from_free disk path temp_suffixes 0 temp reserved in
      let done : (write_bytes_atomically faults empty path payload (start disk)).1 ≡ ok tt =
        let q : reserve_temp_path disk path ≡ ok temp = reserved in
        let none_there : exists disk temp ≡ false = rw (unused, exists) in
        rw (makes, q, write_bytes_atomically)
          (rw (none_there, opens, writes, write_through) (rw (syncs, replaces))) in
      (done, write_effect.0 done)

-- The same of `write_json_atomically`, whose payload is what the printer makes of the value.
pub write_json_effect :
    {B T : Type 0} (to_vec_pretty : T → Option B) (faults : Faults B) (empty : B) (path : FilePath)
    (value : T) (disk : Disk B)
    → let (w, r) = write_json_atomically to_vec_pretty faults empty path value (start disk) in
      (is_ok r ≡ true
        → (bytes : B) × (to_vec_pretty value ≡ some bytes) × (w.disk ≡ put path (some bytes) disk))
      × (is_ok r ≡ false → faults.remove_file ≡ false → w.disk ≡ disk)
unfolding write_json_atomically
write_json_effect to_vec_pretty faults empty path value disk =
    elim (Option-cases (to_vec_pretty value)) [
      | inl e ↦ rw (e, write_json_atomically) (λ h. cc, λ _ _. refl)
      | inr (bytes, e) ↦
          let (changed, same) = write_effect faults empty path bytes disk in
          rw (e, write_json_atomically) (λ h. (bytes, refl, changed (ok_unit h)), same)
    ]
