-- ===== src/Reports.antt =====
-- The reports of interview sessions: src-tauri/src/interview_report.rs. Score, Files and Markdown hold
-- the definitions, Saved and Kept what the end of a session leaves.
pub mod Score
pub mod Files
pub mod Markdown
pub mod Saved
pub mod Kept
mod Tests
use replyline.Prelude.{List, Text, [], codes, false, if◌then◌else◌, true, ℕ, ◌++◌, ◌==◌}
use replyline.Prelude.Decimal.{display}
use replyline.Capture.{InterviewQuestionReportDto, InterviewSessionState}

pub record InterviewReportScoresDto : Type 0 where
  pub clarity : ℕ
  pub relevance : ℕ
  pub accuracy : ℕ

pub record InterviewReportFeedbackDto : Type 0 where
  pub strengths : List Text
  pub improvements : List Text
  pub missing_examples : List Text

pub record InterviewReportDto : Type 0 where
  pub session_id : Text
  pub started_at : Text
  pub ended_at : Text
  pub language : Text
  pub questions : List InterviewQuestionReportDto
  pub full_transcript : Text
  pub scores : InterviewReportScoresDto
  pub feedback : InterviewReportFeedbackDto

pub record ReportsStore : Type 0 where
  pub reports : List InterviewReportDto

pub data InterviewReportRetentionPolicy : Type 0 where
  keep_until_manual_clear : InterviewReportRetentionPolicy
  keep_for_days : ℕ → InterviewReportRetentionPolicy

pub record RetentionPurgeResult : Type 0 where
  pub removed_reports : ℕ
  pub remaining_reports : ℕ

unfoldable pub retention_policy_from_days : ℕ → InterviewReportRetentionPolicy
retention_policy_from_days days = if days == 0 then keep_until_manual_clear else keep_for_days days

-- The clock in milliseconds, and in RFC 3339.
unfoldable pub start_session : ℕ → Text → Text → InterviewSessionState → InterviewSessionState
unfolding display
start_session timestamp_millis now language state = record {
  active = true;
  session_id = codes "is-" ++ display timestamp_millis;
  started_at = now;
  language = language;
  questions = [];
}

-- What the end of a session leaves of it.
abbrev pub ended_session : InterviewSessionState
ended_session = record {
  active = false;
  session_id = [];
  started_at = [];
  language = [];
  questions = [];
}
