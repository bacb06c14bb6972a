-- ===== src/Reports/Saved.antt =====
-- Saving a report in src-tauri/src/interview_report.rs.
use replyline.Prelude.{
  Bool, Option, Result, Result-cases, [], ap, err, false, if◌then◌else◌, inl, inr, is_ok, map_err,
  none, ok, refl, some, subst, sym, text_eq_refl, true, ◌++◌, ◌∙◌, ◌∷◌, ◌≡◌,
}
use replyline.FsAtomic.{Disk, FilePath, other, put, write_json_atomically}
use replyline.FsAtomic.Atomic.{start, write_json_effect}
use replyline.Reports.{InterviewReportDto, ReportsStore}
use replyline.Reports.Files.{
  ReportEnv, ReportError, ReportFormat, Step, decoded, load_store, read_store, reports_path,
  save_report, store_name, write_error, write_store,
}

pub Step-cases {ℓ} :
    {B A C : Type 0} (P : Disk B × Result C ReportError → Type ℓ)
    (m : Disk B × Result A ReportError) (k : A → Step B C)
    → ((d : Disk B) (a : A) → m ≡ (d, ok a) → P (k a d))
    → ((d : Disk B) (e : ReportError) → m ≡ (d, err e) → P (d, err e))
    → P (elim m.1 [ ok a ↦ k a m.0 | err e ↦ (m.0, err e) ])
Step-cases P (d, ok a) k h f = h d a refl
Step-cases P (d, err e) k h f = f d e refl

pub Step-ok :
    {B A C : Type 0} (m : Disk B × Result A ReportError) (k : A → Step B C) {d : Disk B} {a : A}
    → m ≡ (d, ok a)
    → ◌≡◌ {A = Disk B × Result C ReportError}
        (elim m.1 [ ok a ↦ k a m.0 | err e ↦ (m.0, err e) ])
        (k a d)
Step-ok m k e = ap (λ x. elim x.1 [ ok a ↦ k a x.0 | err e ↦ (x.0, err e) ]) e

store-eq : {a b : ReportsStore} → some a ≡ some b → a ≡ b
store-eq e = cc

module _ {B : Type 0} (format : ReportFormat B) (env : ReportEnv B) where
  abbrev store_path : Result FilePath ReportError
  store_path = reports_path env.data_dir store_name

  load_store-disk :
      (disk d : Disk B) {r : Result ReportsStore ReportError}
      → load_store format env disk ≡ (d, r)
      → d ≡ disk
  unfolding load_store
  load_store-disk disk d e = elim (Result-cases store_path) [
    | inl (error, f) ↦ sym (ap (λ x. x.0) (rw (f, load_store) at e))
    | inr (path, f) ↦ sym (ap (λ x. x.0) (rw (f, load_store) at e))
  ]

  load_after :
      (path : FilePath) (disk : Disk B) (bytes : B) (store : ReportsStore)
      → store_path ≡ ok path
      → disk path ≡ some bytes
      → decoded env.read_fails (format.from_slice bytes) ≡ ok store
      → load_store format env disk ≡ (disk, ok store)
  unfolding load_store
  load_after path disk bytes store found there parsed =
      rw (found, load_store) (ap (λ r. (disk, r)) (rw (there, read_store) parsed))

  is_ok-map_err : {A E F : Type 0} (f : E → F) (r : Result A E) → is_ok (map_err f r) ≡ is_ok r
  is_ok-map_err f (ok a) = refl
  is_ok-map_err f (err e) = refl

  write_store_effect :
      (path : FilePath) (store : ReportsStore) (disk : Disk B)
      → let (d, r) = write_store format env path store disk in
        (is_ok r ≡ true
          → (bytes : B) × (format.to_vec_pretty store ≡ some bytes)
            × (d ≡ put path (some bytes) disk))
        × (is_ok r ≡ false → env.faults.remove_file ≡ false → d ≡ disk)
  unfolding write_store
  write_store_effect path store disk =
      let (w, r) =
        write_json_atomically format.to_vec_pretty env.faults format.empty path store
          (start disk) in
      let (changed, same) =
        write_json_effect format.to_vec_pretty env.faults format.empty path store disk in
      (
        λ h. changed (sym (is_ok-map_err write_error r) ∙ h),
        λ h removes. same (sym (is_ok-map_err write_error r) ∙ h) removes,
      )

  decoded-ok :
      (fails : Bool) (parsed : Option ReportsStore) {store : ReportsStore}
      → fails ≡ false
      → parsed ≡ some store
      → decoded fails parsed ≡ ok store
  decoded-ok true parsed h e = cc
  decoded-ok false none h e = cc
  decoded-ok false (some s) h e = ap (λ x. ok x) (store-eq e)

  put-same :
      (path : FilePath) (bytes : B) (disk : Disk B) → put path (some bytes) disk path ≡ some bytes
  unfolding put
  put-same path bytes disk = rw (text_eq_refl path.parent, text_eq_refl path.file_name)

  module _ (reads : env.read_fails ≡ false)
      (reads_back : (store : ReportsStore) (bytes : B)
        → format.to_vec_pretty store ≡ some bytes
        → format.from_slice bytes ≡ some store)
      (report : InterviewReportDto) where
    -- The report is appended to the reports that were there, or nothing has changed.
    abbrev pub Appended : Disk B → Disk B × Result (Unit {0}) ReportError → Type 0
    Appended disk (d, r) =
        (is_ok r ≡ true
          → (old : ReportsStore) × (load_store format env disk ≡ (disk, ok old))
            × (load_store format env d ≡ (d, ok (record { reports = old.reports ++ report ∷ [] }))))
        × (is_ok r ≡ false → env.faults.remove_file ≡ false → d ≡ disk)

    failed-Appended : (disk : Disk B) (e : ReportError) → Appended disk (disk, err e)
    failed-Appended disk e = (λ h. cc, λ _ _. refl)

    written-Appended :
        (disk : Disk B) (old : ReportsStore) (path : FilePath)
        → load_store format env disk ≡ (disk, ok old)
        → store_path ≡ ok path
        → Appended disk
            (write_store format env path (record { reports = old.reports ++ report ∷ [] }) disk)
    written-Appended disk old path loaded found =
        let store : ReportsStore = record { reports = old.reports ++ report ∷ [] } in
        let (d, r) = write_store format env path store disk in
        let (changed, same) = write_store_effect path store disk in
        (
          λ h.
              let (bytes, printed, there) = changed h in
              (
                old,
                loaded,
                load_after path d bytes store found
                    (ap (λ x. x path) there ∙ put-same path bytes disk)
                    (decoded-ok env.read_fails _ reads (reads_back store bytes printed)),
              ),
          same,
        )

    pub save_report-Appended : (disk : Disk B) → Appended disk (save_report format env report disk)
    unfolding save_report
    save_report-Appended disk =
        Step-cases (Appended disk) (load_store format env disk) _
          (λ d old loaded.
            let same = load_store-disk disk d loaded in
            Step-cases (Appended disk) (d, store_path) _
              (λ d1 path found.
                Step-cases (Appended disk)
                  (d1, if env.create_fails then err (write_error other) else ok tt) _
                  (λ d2 _ made.
                    subst
                      (λ x. Appended disk (
                        write_store format env path
                          (record { reports = old.reports ++ report ∷ [] }) x))
                      (sym same ∙ ap (λ x. x.0) found ∙ ap (λ x. x.0) made)
                      (written-Appended disk old path (loaded ∙ ap (λ x. (x, ok old)) same)
                        (ap (λ x. x.1) found)))
                  (λ d2 e made.
                    subst (λ x. Appended disk (x, err e))
                      (sym same ∙ ap (λ x. x.0) found ∙ ap (λ x. x.0) made)
                      (failed-Appended disk e)))
              (λ d1 e found.
                subst (λ x. Appended disk (x, err e)) (sym same ∙ ap (λ x. x.0) found)
                  (failed-Appended disk e)))
          (λ d e loaded.
            subst (λ x. Appended disk (x, err e)) (sym (load_store-disk disk d loaded))
              (failed-Appended disk e))
