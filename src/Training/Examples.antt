-- ===== src/Training/Examples.antt =====
-- A year of training on a concrete database: one plan, a project of two trainees with one question,
-- and their exams.
use noidear.Base.{
  if◌then◌else◌, ℕ, String, ◌≡◌, ◌≤◌, refl, true, false, none, some, List, [], ◌∷◌, arith, count,
  find_first, update_many, any, ◌+◌, find_many, ap,
}
use noidear.Base.Action.{ok}
use noidear.Training.{
  Db, TrainingProject, LearningRecord, Answers, draft, record_of, project_is,
  create_learning_records_for_trainees, create_todos, has_repeat, missing_users, repeats_todo,
  get_project_by_id, new_records, get_plan_by_id, completed,
}
use noidear.Training.Enrolled.{IsEnrolled}
use noidear.Training.Projects.{CreateProjectDto, create_project, new_project}
use noidear.Training.Exam.{
  submit_exam, ExamResult, learning_record_is, check_exam, calculate_score, record_exam,
  get_learning_record, calculate, complete_todo_task, check_and_generate_archive,
}
use noidear.Training.Exam.Attempts.{Submission, run_exams, run_exams-IsBounded}
use noidear.Training.Exam.Completes.{everyone_done, submit_exam-completes}
use noidear.Training.Exam.Score.{calculate_score-Marks, Marks}
use noidear.Training.Lifecycle.{Steps, here, next, creates, submits, Steps-IsEnrolled}

-- On the answers of these examples, `toLowerCase` changes nothing.
abbrev same : String → String
same t = t

abbrev office : Db
office = record {
  plans =
      record {
        id = 1;
        year = 2026;
        title = "2026";
        status = draft;
        approval_instance_id = none;
        created_by = 3;
      }
      ∷ [];
  projects = [];
  learning_records = [];
  questions = record { id = 4; project_id = 10; correct_answer = "a"; points = 100 } ∷ [];
  exam_records = [];
  todos = [];
  documents = [];
  next_id = 10;
}

abbrev hygiene : CreateProjectDto
hygiene = record {
  plan_id = 1;
  title = "卫生";
  trainer_id = 3;
  trainees = 5 ∷ 6 ∷ [];
  scheduled_date = none;
  document_ids = [];
  passing_score = none;
  max_attempts = some 2;
}

abbrev project : TrainingProject
project = new_project hygiene 10

abbrev begun : Db
begun = (create_project hygiene office).1

office-IsEnrolled : IsEnrolled office
unfolding find_first count
office-IsEnrolled = record {
  enrolled = λ k u p found. absurd (ground (arith, found));
  project_key = λ k. omega arith;
  fresh = refl;
  fresh_records = refl;
}

begins : create_project hygiene office ≡ (ok project, begun)
unfolding create_project create_learning_records_for_trainees create_todos has_repeat missing_users
    repeats_todo new_records get_plan_by_id find_first find_many any
begins = refl

abbrev right : Answers
right = (4, "a") ∷ []

abbrev one_passed : Db
one_passed = (submit_exam same 20 10 right 5 begun).1

abbrev result : ExamResult
result = record { score = 100; total_points = 100; passed = true; attempts = 1 }

passes : submit_exam same 20 10 right 5 begun ≡ (ok result, one_passed)
unfolding submit_exam check_exam record_exam get_learning_record get_project_by_id calculate_score
    calculate complete_todo_task check_and_generate_archive create_project
    create_learning_records_for_trainees create_todos has_repeat missing_users repeats_todo
    new_records get_plan_by_id find_first find_many any update_many
passes = refl

begun-Steps : Steps same office begun
begun-Steps = next office begun here (creates hygiene office begun project begins)

Steps-IsEnrolled_example : IsEnrolled one_passed
Steps-IsEnrolled_example =
    Steps-IsEnrolled same office one_passed office-IsEnrolled
      (next begun one_passed begun-Steps (submits 20 10 right 5 begun one_passed result passes))

abbrev user_5 : LearningRecord
user_5 = record {
  id = 11;
  project_id = 10;
  user_id = 5;
  exam_score = 0;
  attempts = 0;
  passed = false;
  completed_at = none;
}

begun_rows :
    (find_first (project_is 10) begun.projects ≡ some project)
    × (find_first (record_of 10 5) begun.learning_records ≡ some user_5)
    × ((j : ℕ) → count (learning_record_is j) begun.learning_records ≤ 1)
unfolding create_project create_learning_records_for_trainees create_todos has_repeat missing_users
    repeats_todo new_records get_plan_by_id find_first find_many any count
begun_rows = (refl, refl, λ j. ground arith)

abbrev sitting : List Submission
sitting =
    record { now = 20; project_id = 10; answers = []; user_id = 5 }
    ∷ record { now = 21; project_id = 10; answers = right; user_id = 6 }
    ∷ record { now = 22; project_id = 10; answers = []; user_id = 5 }
    ∷ record { now = 23; project_id = 10; answers = right; user_id = 5 }
    ∷ []

run_exams-IsBounded_example :
    (r : LearningRecord) × (find_first
        (record_of 10 5)
        (run_exams same 10 5 sitting begun).1.learning_records
      ≡ some r)
    × (r.attempts ≡ 0 + (run_exams same 10 5 sitting begun).0)
    × (r.attempts ≤ 2)
    × (◌≡◌ {A = _} false true → (run_exams same 10 5 sitting begun).0 ≡ 0)
run_exams-IsBounded_example =
    run_exams-IsBounded same 10 5 sitting project user_5 begun begun_rows.0 begun_rows.1
      begun_rows.2 (omega arith)

submit_exam-completes_example :
    find_first (project_is 10) one_passed.projects
    ≡ some (
        if everyone_done 10 project one_passed.learning_records
        then record project { status = completed; completed_at = some 20 }
        else project)
submit_exam-completes_example =
    submit_exam-completes same 20 10 right 5 begun project result
      (Steps-IsEnrolled same office begun office-IsEnrolled begun-Steps) begun_rows.0
      (ap (λ r. r.0) passes)

calculate_score-Marks_example :
    let marks = calculate_score same office.questions right in
    Marks same right office.questions marks.0 marks.1 × (marks.0 ≤ marks.1)
calculate_score-Marks_example = calculate_score-Marks same right office.questions
