-- ===== src/Reports/Kept.antt =====
-- What the end of a session leaves on the disk.
use replyline.Prelude.{
  Bool, List, Option, Result, [], ap, arith, false, if◌then◌else◌, is_ok, last?, last?-append, min,
  none, not, ok, refl, some, subst, true, ℕ, ◌++◌, ◌/◌, ◌∙◌, ◌∷◌, ◌≡◌, ◌≤◌,
}
use replyline.Prelude.Unicode.{Unicode}
use replyline.FsAtomic.{Disk}
use replyline.ContextPack.Validation.{ContextPackDto}
use replyline.ContextPack.Files.{PackError, get_active_context_pack}
use replyline.Capture.{InterviewQuestionReportDto, InterviewSessionState}
use replyline.Reports.{InterviewReportDto, InterviewReportScoresDto, ReportsStore, ended_session}
use replyline.Reports.Score.{build_report, score}
use replyline.Reports.Files.{
  ReportEnv, ReportError, ReportFormat, end_active, end_session, get_latest_report, has_pack,
  load_store, return, save_report,
}
use replyline.Reports.Saved.{Appended, Step-cases, Step-ok, save_report-Appended}

average-le : (sum len : ℕ) → min (sum / len) 100 ≤ 100
average-le sum len = omega arith

-- No score exceeds 100.
abbrev pub IsScored : InterviewReportScoresDto → Type 0
IsScored scores = (scores.clarity ≤ 100) × (scores.relevance ≤ 100) × (scores.accuracy ≤ 100)

score-IsScored :
    (u : Unicode) (questions : List InterviewQuestionReportDto) (active_pack : Bool)
    → IsScored (score u questions active_pack)
unfolding score
score-IsScored u [] true = omega arith
score-IsScored u [] false = omega arith
score-IsScored u (q ∷ questions) active_pack = (average-le _ _, average-le _ _, average-le _ _)

-- The two sides of `if !test { return x }; y`.
unless-cases {ℓ κ} :
    {A : Type ℓ} (P Q R : A → Type κ) (test : Bool) (x y : A)
    → P x
    → Q y × R y
    → let v = if not test then x else y in
      (test ≡ false → P v) × (test ≡ true → Q v) × (test ≡ true → R v)
unless-cases P Q R true x y p (q, r) = (λ h. cc, λ _. q, λ _. r)
unless-cases P Q R false x y p (q, r) = (λ _. p, λ h. cc, λ h. cc)

module _ {B : Type 0} (format : ReportFormat B) (env : ReportEnv B) (reads : env.read_fails ≡ false)
    (reads_back : (store : ReportsStore) (bytes : B)
      → format.to_vec_pretty store ≡ some bytes
      → format.from_slice bytes ≡ some store)
    (u : Unicode) (state : InterviewSessionState) (disk : Disk B) where
  -- What the reading of the packs leaves and gives.
  abbrev pub seen : Disk B × Result (Option ContextPackDto) PackError
  seen = get_active_context_pack env.pack_format env.pack_env disk

  abbrev pub built : InterviewReportDto
  built = build_report u (has_pack seen.1) env.now state

  -- The report was appended, the session is cleared, and the report is the latest.
  pub record IsEnded (d : Disk B)
      (r : Result (InterviewSessionState × Option InterviewReportDto) ReportError) : Type 0 where
    pub answered : r ≡ ok (ended_session, some built)
    pub old : ReportsStore
    pub before : load_store format env seen.0 ≡ (seen.0, ok old)
    pub after : load_store format env d ≡ (d, ok (record { reports = old.reports ++ built ∷ [] }))
    pub latest : get_latest_report format env d ≡ (d, ok (some built))
    pub scored : IsScored built.scores

  latest-of :
      (d : Disk B) (old : ReportsStore)
      → load_store format env d ≡ (d, ok (record { reports = old.reports ++ built ∷ [] }))
      → get_latest_report format env d ≡ (d, ok (some built))
  unfolding get_latest_report
  latest-of d old e =
      Step-ok (load_store format env d) (λ store. return (last? store.reports)) e
      ∙ ap (λ x. (d, ok x)) (last?-append old.reports built)

  abbrev Claim :
      Disk B × Result (InterviewSessionState × Option InterviewReportDto) ReportError → Type 0
  Claim (d, r) =
      (is_ok r ≡ true → IsEnded d r)
      × (is_ok r ≡ false → env.faults.remove_file ≡ false → d ≡ seen.0)

  end_active-Claim : Claim (end_active format env u state (has_pack seen.1) seen.0)
  unfolding end_active
  end_active-Claim =
      let kept = save_report-Appended format env reads reads_back built seen.0 in
      Step-cases Claim (save_report format env built seen.0) _
        (λ d done saved.
          let appended = subst (Appended format env reads reads_back built seen.0) saved kept in
          let (old, before, after) = appended.0 refl in
          (
            λ _. record {
              answered = refl;
              old = old;
              before = before;
              after = after;
              latest = latest-of d old after;
              scored = score-IsScored u state.questions (has_pack seen.1);
            },
            λ h. cc,
          ))
        (λ d e saved.
          let appended = subst (Appended format env reads reads_back built seen.0) saved kept in
          (λ h. cc, appended.1))

  -- A session that is not active ends without a report and changes nothing. For an active one, if the
  -- file of reports can be read and is read back as it was printed, either the report is appended to
  -- those that were there, the session is cleared, the report is the latest one and its scores are at
  -- most 100, or there is an error and, if a temporary file can be removed, the disk is as the reading
  -- of the context packs left it.
  pub end_session_effect :
      let (d, r) = end_session format env u state disk in
      (state.active ≡ false → (d ≡ disk) × (r ≡ ok (state, none)))
      × (state.active ≡ true → is_ok r ≡ true → IsEnded d r)
      × (state.active ≡ true → is_ok r ≡ false → env.faults.remove_file ≡ false → d ≡ seen.0)
  unfolding end_session
  end_session_effect =
      unless-cases (λ (d, r). (d ≡ disk) × (r ≡ ok (state, none)))
        (λ (d, r). is_ok r ≡ true → IsEnded d r)
        (λ (d, r). is_ok r ≡ false → env.faults.remove_file ≡ false → d ≡ seen.0) state.active _ _
        (refl, refl) end_active-Claim
