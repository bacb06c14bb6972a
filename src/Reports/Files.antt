-- ===== src/Reports/Files.antt =====
-- The store of reports on the disk.
use replyline.Prelude.{
  Bool, Option, Result, String, Text, [], codes, err, false, if◌then◌else◌, last?, leb, length, ltb,
  map_err, none, not, ok, retain, some, true, ℕ, ◌*◌, ◌++◌, ◌+◌, ◌-◌, ◌∷◌,
}
use replyline.Prelude.Unicode.{Unicode}
use replyline.FsAtomic.{
  Disk, Faults, FilePath, IoErrorKind, exists, other, put, write_bytes_atomically,
  write_json_atomically,
}
use replyline.FsAtomic.Atomic.{start}
use replyline.ContextPack.Validation.{ContextPackDto}
use replyline.ContextPack.Files.{PackEnv, PackError, StoreFormat, get_active_context_pack}
use replyline.Capture.{InterviewSessionState}
use replyline.Reports.{
  InterviewReportDto, InterviewReportRetentionPolicy, ReportsStore, RetentionPurgeResult,
  ended_session, keep_for_days, keep_until_manual_clear,
}
use replyline.Reports.Score.{build_report}
use replyline.Reports.Markdown.{to_markdown, to_redacted_markdown}

pub data ReportError : Type 0 where
  local_data_dir_unavailable : ReportError
  unreadable : ReportError
  invalid_store : ReportError
  write_error : IoErrorKind → ReportError
  remove_error : ReportError

-- serde_json on the store, the bytes of a text and the contents of an empty file.
pub record ReportFormat (B : Type 0) : Type 0 where
  pub from_slice : B → Option ReportsStore
  pub to_vec_pretty : ReportsStore → Option B
  pub as_bytes : Text → B
  pub empty : B

-- What a call finds outside: the data directory, the calls of the system that fail, what the reading
-- of the context packs finds, and the clock. `ended_ms` reads RFC 3339 into milliseconds.
pub record ReportEnv (B : Type 0) : Type 0 where
  pub data_dir : Option Text
  pub read_fails : Bool
  pub remove_fails : Bool
  pub create_fails : Bool
  pub faults : Faults B
  pub pack_format : StoreFormat B
  pub pack_env : PackEnv B
  pub now : Text
  pub ended_ms : Text → Option ℕ

-- `get_active_context_pack().ok().flatten().is_some()`.
abbrev pub has_pack : Result (Option ContextPackDto) PackError → Bool
has_pack (ok (some pack)) = true
has_pack (ok none) = false
has_pack (err e) = false

abbrev pub Step : Type 0 → Type 0 → Type 0
Step B A = Disk B → Disk B × Result A ReportError

-- The `?` operator: an error ends the operation, with the disk as it is.
infixl 5 ◌>>=◌
abbrev pub ◌>>=◌ : {B A C : Type 0} → Step B A → (A → Step B C) → Step B C
◌>>=◌ m f disk = let (disk', r) = m disk in elim r [ ok a ↦ f a disk' | err e ↦ (disk', err e) ]

abbrev pub of_result : {B A : Type 0} → Result A ReportError → Step B A
of_result r disk = (disk, r)

abbrev pub return : {B A : Type 0} → A → Step B A
return a disk = (disk, ok a)

abbrev reports_folder : Text → Text
reports_folder base = base ++ codes "/com.replyline.app/reports"

unfoldable pub reports_path : Option Text → Text → Result FilePath ReportError
reports_path none file_name = err local_data_dir_unavailable
reports_path (some base) file_name =
    ok (record { parent = reports_folder base; file_name = file_name })

abbrev written : FilePath → Result (Unit {0}) IoErrorKind → Result (Option FilePath) ReportError
written path (ok _) = ok (some path)
written path (err e) = err (write_error e)

abbrev pub store_name : Text
store_name = codes "interview-reports.json"

-- `fs::read`, and then serde_json.
abbrev pub decoded : Bool → Option ReportsStore → Result ReportsStore ReportError
decoded true parsed = err unreadable
decoded false none = err invalid_store
decoded false (some store) = ok store

module _ {B : Type 0} (format : ReportFormat B) (env : ReportEnv B) where
  unfoldable pub read_store : FilePath → Step B ReportsStore
  read_store path disk = (
    disk,
    elim (disk path) [
      | none ↦ ok (record { reports = [] })
      | some raw ↦ decoded env.read_fails (format.from_slice raw)
    ],
  )

  unfoldable pub load_store : Step B ReportsStore
  unfolding reports_path read_store
  load_store = do path ← of_result (reports_path env.data_dir store_name); read_store path

  unfoldable pub write_store : FilePath → ReportsStore → Step B (Unit {0})
  unfolding write_json_atomically
  write_store path store disk =
      let (w, r) =
        write_json_atomically format.to_vec_pretty env.faults format.empty path store
          (start disk) in
      (w.disk, map_err write_error r)

  unfoldable pub save_report : InterviewReportDto → Step B (Unit {0})
  unfolding load_store write_store reports_path
  save_report report = do
    store ← load_store
    path ← of_result (reports_path env.data_dir store_name)
    _ ← of_result (if env.create_fails then err (write_error other) else ok tt)
    write_store path (record { reports = store.reports ++ report ∷ [] })

  -- The session afterwards, and the report, from where the packs have been read. An error comes before
  -- the session is touched and leaves it as it was.
  unfoldable pub end_active :
      Unicode
      → InterviewSessionState
      → Bool
      → Step B (InterviewSessionState × Option InterviewReportDto)
  unfolding save_report build_report
  end_active u state has_active_context_pack = do
    let report = build_report u has_active_context_pack env.now state
    _ ← save_report report
    return (ended_session, some report)

  unfoldable pub end_session :
      Unicode → InterviewSessionState → Step B (InterviewSessionState × Option InterviewReportDto)
  unfolding end_active get_active_context_pack
  end_session u state disk =
      let (disk', active) = get_active_context_pack env.pack_format env.pack_env disk in
      if not state.active
      then (disk, ok (state, none))
      else end_active u state (has_pack active) disk'

  unfoldable pub get_latest_report : Step B (Option InterviewReportDto)
  unfolding load_store
  get_latest_report = do store ← load_store; return (last? store.reports)

  unfoldable pub clear_reports : Step B (Unit {0})
  unfolding reports_path
  clear_reports = of_result (reports_path env.data_dir store_name) >>= λ path disk.
      if exists disk path
      then if env.remove_fails then (disk, err remove_error) else (put path none disk, ok tt)
      else (disk, ok tt)

  -- The export by one of the two printers, under its file name.
  unfoldable pub export_latest : String → (InterviewReportDto → Text) → Step B (Option FilePath)
  unfolding get_latest_report reports_path write_bytes_atomically
  export_latest prefix print = get_latest_report >>= λ latest. elim latest [
    | none ↦ return none
    | some report ↦
        of_result (reports_path env.data_dir (codes prefix ++ report.session_id ++ codes ".md"))
        >>= λ path disk.
            let (w, r) =
              write_bytes_atomically env.faults format.empty path (format.as_bytes (print report))
                (start disk) in
            (w.disk, written path r)
  ]

  unfoldable pub export_latest_report_markdown : Step B (Option FilePath)
  unfolding export_latest to_markdown
  export_latest_report_markdown = export_latest "interview-report-full-" to_markdown

  unfoldable pub export_latest_report_redacted_markdown : Step B (Option FilePath)
  unfolding export_latest to_redacted_markdown
  export_latest_report_redacted_markdown =
      export_latest "interview-report-redacted-" to_redacted_markdown

  -- A report whose end cannot be read is kept. Days are of 86,400,000 milliseconds.
  unfoldable pub is_kept : ℕ → InterviewReportRetentionPolicy → InterviewReportDto → Bool
  is_kept now_ms keep_until_manual_clear report = true
  is_kept now_ms (keep_for_days days) report = elim (env.ended_ms report.ended_at) [
    | none ↦ true
    | some value ↦ leb now_ms (value + days * 86_400_000)
  ]

  unfoldable pub enforce_retention :
      ℕ → InterviewReportRetentionPolicy → Step B RetentionPurgeResult
  unfolding load_store is_kept write_store reports_path
  enforce_retention now_ms policy = do
    store ← load_store
    let kept = retain (is_kept now_ms policy) store.reports
    let removed : ℕ = length store.reports - length kept
    let result : RetentionPurgeResult = record {
      removed_reports = removed;
      remaining_reports = length kept;
    }
    path ← of_result (reports_path env.data_dir store_name)
    if ltb 0 removed
        then (write_store path (record { reports = kept }) >>= λ _. return result)
        else return result
