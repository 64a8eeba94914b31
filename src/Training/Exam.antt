-- ===== src/Training/Exam.antt =====
-- Examinations: server/src/modules/training/exam.service.ts. `now` is `new Date()`, and
-- `to_lower` is `toLowerCase` on strings.
pub mod Taken
pub mod Attempts
pub mod Completes
pub mod Score
use noidear.Base.{
  ℕ, ◌+◌, String, Bool, true, false, not, ◌&&◌, ◌||◌, Option, none, some, List, [], ◌∷◌, ◌++◌, ◌==◌,
  is_some, any, find_first, find_many, get_or, length, leb, count, if◌then◌else◌, str_eq,
  update_many, ◌-◌, map,
}
use noidear.Base.Action.{
  Action, Result, ok, err, bad_request, not_found, pure, gets, throw_if, or_throw, modify, ◌>>=◌,
  ◌>>◌,
}
use noidear.Training.{
  Db, TrainingProject, LearningRecord, TrainingQuestion, ExamRecord, Answers, TodoTask, completed,
  get_project_by_id, update_project, training_attend, todo_of, in_project, record_of, includes,
}

abbrev pub answer_of : ℕ → Answers → Option String
answer_of id [] = none
answer_of id ((k, a) ∷ rest) = if k == id then some a else answer_of id rest

abbrev pub learning_record_is : ℕ → LearningRecord → Bool
learning_record_is k r = r.id == k

unfoldable pub get_learning_record : ℕ → ℕ → Action Db LearningRecord
get_learning_record project_id user_id = do
  found ← gets (λ s. find_first (record_of project_id user_id) s.learning_records)
  or_throw found (not_found "学习记录不存在")

-- The checks with which `startExam` and `submitExam` begin; they differ in texts.
unfoldable pub check_exam : String → String → ℕ → ℕ → Action Db (TrainingProject × LearningRecord)
check_exam no_trainee has_passed project_id user_id = do
  project ← get_project_by_id project_id
  throw_if (not (includes user_id project.trainees)) (bad_request no_trainee)
  learning_record ← get_learning_record project_id user_id
  throw_if (leb project.max_attempts learning_record.attempts) (bad_request "已达到最大考试次数")
  throw_if learning_record.passed (bad_request has_passed)
  pure (project, learning_record)

abbrev pub questions_of : ℕ → Db → List TrainingQuestion
questions_of project_id s = find_many (λ q. q.project_id == project_id) s.questions

pub record StartedExam : Type 0 where
  pub remaining_attempts : ℕ
  pub question_ids : List ℕ

abbrev pub add_exam_record : (ℕ → ExamRecord) → Action Db (Unit {0})
add_exam_record fresh s = (
  ok tt,
  record s { exam_records = s.exam_records ++ fresh s.next_id ∷ []; next_id = s.next_id + 1 },
)

abbrev pub graded : ℕ → ℕ → Bool → LearningRecord → LearningRecord → LearningRecord
graded now score passed old r = record r {
  attempts = old.attempts + 1;
  exam_score = score;
  passed = passed;
  completed_at = if passed then some now else none;
}

abbrev pub grade_record : ℕ → ℕ → Bool → LearningRecord → Db → Db
grade_record now score passed old s = record s {
  learning_records =
      update_many (learning_record_is old.id) (graded now score passed old) s.learning_records;
}

unfoldable pub complete_todo_task : ℕ → ℕ → ℕ → Db → Db
complete_todo_task now project_id user_id s = record s {
  todos =
      update_many
        (λ t. todo_of training_attend project_id t && t.user_id == user_id && t.is_pending)
        (λ t. record t { is_pending = false; completed_at = some now }) s.todos;
}

-- Has the trainee passed, or no attempt left?
abbrev pub is_done : TrainingProject → LearningRecord → Bool
is_done project r = r.passed || leb project.max_attempts r.attempts

abbrev pub all_done : TrainingProject → List LearningRecord → Bool
all_done project rs = not (any (λ r. in_project project.id r && not (is_done project r)) rs)

-- `checkAndGenerateArchive`: the status that the project had is not looked at.
abbrev pub complete_if_done : ℕ → Option TrainingProject → Db → Db
complete_if_done now none s = s
complete_if_done now (some project) s =
    if all_done project s.learning_records
    then update_project project.id (λ p. record p { status = completed; completed_at = some now }) s
    else s

unfoldable pub check_and_generate_archive : ℕ → ℕ → Db → Db
check_and_generate_archive now project_id s =
    complete_if_done now (find_first (λ p. p.id == project_id) s.projects) s

pub record ExamResult : Type 0 where
  pub score : ℕ
  pub total_points : ℕ
  pub passed : Bool
  pub attempts : ℕ

module _ (to_lower : String → String) where
  -- An empty answer is no answer.
  abbrev pub is_right : TrainingQuestion → Option String → Bool
  is_right question none = false
  is_right question (some answer) =
      not (str_eq answer "") && str_eq (to_lower answer) (to_lower question.correct_answer)

  -- The loop of `calculateScore`, from what the questions before have given
  unfoldable pub calculate : ℕ → ℕ → List TrainingQuestion → Answers → ℕ × ℕ
  calculate score total_points [] answers = (score, total_points)
  calculate score total_points (q ∷ qs) answers =
      calculate (if is_right q (answer_of q.id answers) then score + q.points else score)
        (total_points + q.points) qs answers

  unfoldable pub calculate_score : List TrainingQuestion → Answers → ℕ × ℕ
  calculate_score questions answers = calculate 0 0 questions answers

  -- What `submitExam` writes, in its order
  unfoldable pub record_exam :
      ℕ → ℕ → Answers → ℕ → TrainingProject → LearningRecord → Action Db ExamResult
  record_exam now project_id answers user_id project learning_record = do
    questions ← gets (questions_of project_id)
    let marks = calculate_score questions answers
    let passed = leb project.passing_score marks.0
    add_exam_record (λ id. record {
      id = id;
      learning_record_id = learning_record.id;
      answers = answers;
      score = marks.0;
      submitted_at = now;
    })
    modify (grade_record now marks.0 passed learning_record)
    modify (λ s. if passed then complete_todo_task now project_id user_id s else s)
    modify (check_and_generate_archive now project_id)
    pure (record {
      score = marks.0;
      total_points = marks.1;
      passed = passed;
      attempts = learning_record.attempts + 1;
    })

  unfoldable pub submit_exam : ℕ → ℕ → Answers → ℕ → Action Db ExamResult
  submit_exam now project_id answers user_id = do
    checked ← check_exam "只有学员可以提交考试" "您已通过考试，无需重新提交" project_id user_id
    record_exam now project_id answers user_id checked.0 checked.1

unfoldable pub start_exam : ℕ → ℕ → Action Db StartedExam
start_exam project_id user_id = do
  checked ← check_exam "只有学员可以参加考试" "您已通过考试，无需重新参加" project_id user_id
  questions ← gets (questions_of project_id)
  throw_if (length questions == 0) (bad_request "该培训项目尚未添加考试题目")
  pure (record {
    remaining_attempts = checked.0.max_attempts - checked.1.attempts;
    question_ids = map (λ q. q.id) questions;
  })
