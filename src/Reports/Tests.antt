-- ===== src/Reports/Tests.antt =====
-- A session with a question, its report, and how long a report is kept.
use replyline.Prelude.{
  Option, Text, [], ap, codes, false, if◌then◌else◌, none, refl, some, sym, text_eq, true, ℕ, ◌∷◌,
  ◌≡◌,
}
use replyline.Prelude.Unicode.{basic}
use replyline.FsAtomic.{
  Disk, Faults, FilePath, put, reserve_from, reserve_temp_path, temp_candidate,
  write_bytes_atomically, write_through,
}
use replyline.ContextPack.Files.{context_packs_path, load_store, load_store_at_path}
use replyline.Capture.{InterviewQuestionReportDto, InterviewSessionState}
use replyline.Reports.{InterviewReportDto, ReportsStore, retention_policy_from_days}
use replyline.Reports.Score.{score}
use replyline.Reports.Files.{ReportEnv, ReportFormat, end_session, is_kept}
use replyline.Reports.Kept.{IsEnded, end_session_effect}

-- The contents of a file: a store as it is printed, or a text.
data Contents : Type 0 where
  store_file : ReportsStore → Contents
  text_file : Text → Contents

parsed : Contents → Option ReportsStore
parsed (store_file store) = some store
parsed (text_file text) = none

abbrev format : ReportFormat Contents
format = record {
  from_slice = parsed;
  to_vec_pretty = λ store. some (store_file store);
  as_bytes = text_file;
  empty = text_file [];
}

abbrev milliseconds : Text → Option ℕ
milliseconds text = if text_eq text (codes "day 3") then some 259_200_000 else none

abbrev no_faults : Faults Contents
no_faults = record {
  create_dir_all = false;
  open_file = false;
  write_all = none;
  sync_all = false;
  replace = false;
  remove_file = false;
}

abbrev env : ReportEnv Contents
env = record {
  data_dir = some (codes "C:/data");
  read_fails = false;
  remove_fails = false;
  create_fails = false;
  faults = no_faults;
  pack_format = record {
    from_slice = λ bytes. none;
    to_vec_pretty = λ store. none;
    empty = text_file [];
  };
  pack_env = record {
    config_dir = some (codes "C:/config");
    now = codes "day 3";
    ts = codes "3";
    read_fails = false;
    quarantine_fails = false;
    faults = no_faults;
  };
  now = codes "day 3";
  ended_ms = milliseconds;
}

abbrev question_1 : InterviewQuestionReportDto
question_1 = record {
  timestamp = codes "t1";
  raw_transcript = codes "Tell me about ownership";
  clean_question = codes "Tell me about ownership";
  question_type = codes "Behavioral";
  answer_main = codes "I took ownership. 3 teams agreed.";
  hints = [];
  signals = [];
}

abbrev session : InterviewSessionState
session = record {
  active = true;
  session_id = codes "is-7";
  started_at = codes "t0";
  language = codes "en";
  questions = question_1 ∷ [];
}

abbrev old_report : InterviewReportDto
old_report = record {
  session_id = codes "is-1";
  started_at = codes "a";
  ended_at = codes "unknown";
  language = codes "en";
  questions = [];
  full_transcript = [];
  scores = record { clarity = 0; relevance = 0; accuracy = 10 };
  feedback = record { strengths = []; improvements = []; missing_examples = [] };
}

abbrev reports_file : FilePath
reports_file = record {
  parent = codes "C:/data/com.replyline.app/reports";
  file_name = codes "interview-reports.json";
}

abbrev one_report : Disk Contents
one_report = put reports_file (some (store_file (record { reports = old_report ∷ [] }))) (λ _. none)

-- An answer of six words with a full stop, one of the two words of the question, and a number that
-- the transcript does not have.
scores_one_question :
    score basic (question_1 ∷ []) true ≡ record { clarity = 61; relevance = 45; accuracy = 60 }
unfolding score
scores_one_question = refl

scores_no_question : score basic [] false ≡ record { clarity = 0; relevance = 0; accuracy = 10 }
unfolding score
scores_no_question = refl

-- A report is kept to the last millisecond of its days, and when its end cannot be read.
keeps_to_the_end :
    let days = retention_policy_from_days 30 in
    let report = record old_report { ended_at = codes "day 3" } in
    (is_kept format env 2_851_200_000 days report ≡ true)
    × (is_kept format env 2_851_200_001 days report ≡ false)
    × (is_kept format env 2_851_200_001 days old_report ≡ true)
    × (is_kept format env 2_851_200_001 (retention_policy_from_days 0) report ≡ true)
unfolding is_kept retention_policy_from_days
keeps_to_the_end = (refl, refl, refl, refl)

abbrev as_store : Option Contents → Option ReportsStore
as_store none = none
as_store (some bytes) = parsed bytes

reads_back :
    (store : ReportsStore) (bytes : Contents)
    → format.to_vec_pretty store ≡ some bytes
    → format.from_slice bytes ≡ some store
unfolding parsed
reads_back store bytes e = ap as_store (sym e)

end_session_effect_example :
    IsEnded format env refl reads_back basic session one_report
      (end_session format env basic session one_report).0
      (end_session format env basic session one_report).1
unfolding end_session put parsed write_bytes_atomically reserve_temp_path reserve_from
    temp_candidate write_through context_packs_path load_store load_store_at_path
end_session_effect_example =
    (end_session_effect format env refl reads_back basic session one_report).1 refl refl
