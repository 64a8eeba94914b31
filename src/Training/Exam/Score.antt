-- ===== src/Training/Exam/Score.antt =====
-- The marks of an exam: `calculateScore` of exam.service.ts against rules for marking.
use noidear.Base.{
  ℕ, ◌+◌, false, if◌then◌else◌, String, Option, some, none, List, [], ◌∷◌, ◌==◌, ◌≡◌, ◌≢◌, ◌⊎◌, inl,
  inr, arith, ◌≤◌, ◌∙◌, sym, subst, str_eq, eq_iff, Bool-cases, Option-cases, ==→eq,
}
use noidear.Training.{TrainingQuestion, Answers}
use noidear.Training.Exam.{calculate, calculate_score, is_right, answer_of}

-- The answers give a question, by its id, the first answer under the id, or none.
pub data Gives : Answers → ℕ → Option String → Type 0 where
  never : (id : ℕ) → Gives [] id none
  first : (id : ℕ) (a : String) (rest : Answers) → Gives ((id, a) ∷ rest) id (some a)
  later :
      (k : ℕ) (a : String) (rest : Answers) (id : ℕ) (o : Option String)
      → k ≢ id
      → Gives rest id o
      → Gives ((k, a) ∷ rest) id o

-- Which points an answer earns.
pub data Marked (to_lower : String → String) (answers : Answers) (q : TrainingQuestion)
    : ℕ → Type 0 where
  right :
      (a : String)
      → Gives answers q.id (some a)
      → a ≢ ""
      → to_lower a ≡ to_lower q.correct_answer
      → Marked to_lower answers q q.points
  wrong :
      (a : String)
      → Gives answers q.id (some a)
      → (a ≡ "") ⊎ (to_lower a ≢ to_lower q.correct_answer)
      → Marked to_lower answers q 0
  unanswered : Gives answers q.id none → Marked to_lower answers q 0

-- The score and the total of some questions
pub data Marks (to_lower : String → String) (answers : Answers)
    : List TrainingQuestion → ℕ → ℕ → Type 0 where
  no_questions : Marks to_lower answers [] 0 0
  next_question :
      (q : TrainingQuestion) (qs : List TrainingQuestion) (points score total : ℕ)
      → Marked to_lower answers q points
      → Marks to_lower answers qs score total
      → Marks to_lower answers (q ∷ qs) (points + score) (q.points + total)

answer_of-Gives : (id : ℕ) (answers : Answers) → Gives answers id (answer_of id answers)
answer_of-Gives id [] = never id
answer_of-Gives id ((k, a) ∷ rest) = elim (Bool-cases (k == id)) [
  | inl e ↦
      rw e (subst (λ j. Gives ((j, a) ∷ rest) id (some a)) (sym (==→eq k id e)) (first id a rest))
  | inr e ↦ rw e (
      later k a rest id (answer_of id rest) (λ same. ground (arith, e, same))
        (answer_of-Gives id rest))
]

differ : (s t : String) → str_eq s t ≡ false → s ≢ t
differ s t e same = absurd (cc (e, (eq_iff s t).1 same))

module _ (to_lower : String → String) (answers : Answers) where
  -- What one round of the loop adds
  is_right-Marked :
      (q : TrainingQuestion) (score : ℕ)
      → (points : ℕ) × Marked to_lower answers q points
        × ((if is_right to_lower q (answer_of q.id answers) then score + q.points else score)
            ≡ score + points)
        × (points ≤ q.points)
  is_right-Marked q score =
      let given = answer_of-Gives q.id answers in
      elim (Option-cases (answer_of q.id answers)) [
        | inl e ↦
            (0, unanswered (subst (Gives answers q.id) e given), rw e (omega arith), omega arith)
        | inr (a, e) ↦
            let own = subst (Gives answers q.id) e given in
            elim (Bool-cases (str_eq a "")) [
              | inl f ↦
                  (0, wrong a own (inl ((eq_iff a "").0 f)), rw e (ground (arith, f)), omega arith)
              | inr f ↦ elim (Bool-cases (str_eq (to_lower a) (to_lower q.correct_answer))) [
                | inl g ↦ (
                  q.points,
                  right a own (differ a "" f)
                      ((eq_iff (to_lower a) (to_lower q.correct_answer)).0 g),
                  rw e (ground (arith, f, g)),
                  omega arith,
                )
                | inr g ↦ (
                  0,
                  wrong a own (inr (differ (to_lower a) (to_lower q.correct_answer) g)),
                  rw e (ground (arith, f, g)),
                  omega arith,
                )
              ]
            ]
      ]

  calculate-Marks :
      (score total : ℕ) (qs : List TrainingQuestion)
      → (s t : ℕ) × (calculate to_lower score total qs answers ≡ (score + s, total + t))
        × Marks to_lower answers qs s t
        × (s ≤ t)
  unfolding calculate
  calculate-Marks score total [] = (0, 0, ground arith, no_questions, omega arith)
  calculate-Marks score total (q ∷ qs) =
      let (points, marked, adds, most) = is_right-Marked q score in
      let now = if is_right to_lower q (answer_of q.id answers) then score + q.points else score in
      let (s, t, eq, marks, le) = calculate-Marks now (total + q.points) qs in
      (
        points + s,
        q.points + t,
        eq ∙ ground (arith, adds),
        next_question q qs points s t marked marks,
        omega (arith, most, le),
      )

  -- The score is the sum of what the questions earn, the total the sum of the points of all, and
  -- the score is no more than the total. A question earns its points when the first answer under
  -- its id is not empty and is, after `toLowerCase`, the correct answer after `toLowerCase`, and
  -- nothing when it is empty or another text, or when there is no answer; for any `toLowerCase`.
  pub calculate_score-Marks :
      (qs : List TrainingQuestion)
      → let marks = calculate_score to_lower qs answers in
        Marks to_lower answers qs marks.0 marks.1 × (marks.0 ≤ marks.1)
  unfolding calculate_score
  calculate_score-Marks qs =
      let (s, t, eq, marks, le) = calculate-Marks 0 0 qs in
      let same : calculate_score to_lower qs answers ≡ (s, t) = eq ∙ ground arith in
      subst (λ m. Marks to_lower answers qs m.0 m.1 × (m.0 ≤ m.1)) (sym same) (marks, le)
