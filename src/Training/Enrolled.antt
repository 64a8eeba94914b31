-- ===== src/Training/Enrolled.antt =====
-- The learning records of a project are those of its trainees: what the statements do to it.
pub mod Trainees
pub mod Changes
use noidear.Base.{
  ℕ, ◌+◌, Bool, true, false, not, ◌&&◌, ◌||◌, Option, none, some, List, [], ◌∷◌, ◌++◌, ◌==◌, any,
  find_first, find_many, count, ◌≡◌, refl, arith, update_many, inl, inr, Bool-cases, Option-cases,
  ap, sym, ◌∙◌, leb, suc, ◌≤◌, ◌<◌, subst, find_first-update_many, find_first-none,
  update_many-none, count-append, count-le, count-update_many, length, if◌then◌else◌, ==→eq,
  find_first-updated, if-true, if-false, find_first-count, find_first-holds,
}
use noidear.Base.Action.{ok, Result-cases}
use noidear.Training.{
  Db, TrainingProject, LearningRecord, TodoTask, includes, record_of, in_project, project_is,
  new_records, missing_users, create_learning_records_for_trainees, create_todos, has_repeat,
}
use noidear.Training.Members.{
  any-append, any-new_records, includes-missing_users, find_first-update_other, fresh_mono,
}

-- A user has a learning record in a project exactly if he is one of its trainees; keys are unique,
-- and no row has the next id.
pub record IsEnrolled (s : Db) : Type 0 where
  pub enrolled :
      (k u : ℕ) (p : TrainingProject)
      → find_first (project_is k) s.projects ≡ some p
      → any (record_of k u) s.learning_records ≡ includes u p.trainees
  pub project_key : (k : ℕ) → count (project_is k) s.projects ≤ 1
  pub fresh : count (λ p. leb s.next_id p.id) s.projects ≡ 0
  pub fresh_records : count (λ r. leb s.next_id r.project_id) s.learning_records ≡ 0

-- Statements that leave projects, records and the next id alone.
pub record SameMembers (s t : Db) : Type 0 where
  pub projects_eq : t.projects ≡ s.projects
  pub records_eq : t.learning_records ≡ s.learning_records
  pub next_eq : t.next_id ≡ s.next_id

pub IsEnrolled-same : (s t : Db) → SameMembers s t → IsEnrolled s → IsEnrolled t
IsEnrolled-same s t same h = record {
  enrolled = λ k u p found.
      ap (any (record_of k u)) same.records_eq
      ∙ h.enrolled k u p (ap (find_first (project_is k)) (sym same.projects_eq) ∙ found);
  project_key =
      λ k. subst (λ ps. count (project_is k) ps ≤ 1) (sym same.projects_eq) (h.project_key k);
  fresh = rw (same.projects_eq, same.next_eq) h.fresh;
  fresh_records = rw (same.records_eq, same.next_eq) h.fresh_records;
}

pub create_todos-same : (tasks : List TodoTask) (s : Db) → SameMembers s (create_todos tasks s).1
unfolding create_todos
create_todos-same tasks s = record {
  projects_eq = ground arith;
  records_eq = ground arith;
  next_eq = ground arith;
}

-- What `createLearningRecordsForTrainees` adds, when it returns.
pub record Added (j : ℕ) (us : List ℕ) (s t : Db) : Type 0 where
  pub projects_eq : t.projects ≡ s.projects
  pub next_le : s.next_id ≤ t.next_id
  pub members :
      (k u : ℕ)
      → any (record_of k u) t.learning_records
        ≡ (any (record_of k u) s.learning_records || (j == k && includes u us))
  pub fresh_kept :
      j < s.next_id
      → count (λ r. leb s.next_id r.project_id) s.learning_records ≡ 0
      → count (λ r. leb t.next_id r.project_id) t.learning_records ≡ 0

count-new_records :
    (m n j : ℕ) (us : List ℕ) → j < m → count (λ r. leb m r.project_id) (new_records n j us) ≡ 0
unfolding new_records count
count-new_records m n j [] h = refl
count-new_records m n j (u ∷ us) h = ground (arith, count-new_records m (suc n) j us h)

added_members :
    (j k u n : ℕ) (rs : List LearningRecord) (us : List ℕ)
    → any (record_of k u) (rs ++ new_records n j (missing_users j rs us))
      ≡ (any (record_of k u) rs || (j == k && includes u us))
added_members j k u n rs us = any-append (record_of k u) rs _ ∙ elim (Bool-cases (j == k)) [
  | inl e ↦
      let same : j ≡ k = ==→eq j k e in
      rw same (
        ground (
          arith,
          any-new_records u k n k (missing_users k rs us),
          includes-missing_users u k rs us,
        ))
  | inr e ↦ ground (arith, any-new_records u k n j (missing_users j rs us))
]

added_fresh :
    (j m n : ℕ) (rs : List LearningRecord) (us : List ℕ)
    → j < m
    → m ≤ n
    → count (λ r. leb m r.project_id) rs ≡ 0
    → count (λ r. leb n r.project_id) (rs ++ new_records m j us) ≡ 0
added_fresh j m n rs us below le h =
    let olds =
      count-le (λ (r : LearningRecord). leb n r.project_id) (λ r. leb m r.project_id) rs
        (λ r e. ground arith) in
    rw count-append (omega (arith, olds, count-new_records n m j us (omega arith)))

pub create_records-Added :
    (j : ℕ) (us : List ℕ) (s : Db)
    → (create_learning_records_for_trainees j us s).0 ≡ ok tt
    → Added j us s (create_learning_records_for_trainees j us s).1
unfolding create_learning_records_for_trainees
create_records-Added j us s h =
    elim (Bool-cases (has_repeat (missing_users j s.learning_records us))) [
      | inl e ↦ absurd (ground arith)
      | inr e ↦ rw e (record {
        projects_eq = refl;
        next_le = omega arith;
        members = λ k u. added_members j k u s.next_id s.learning_records us;
        fresh_kept =
            λ below old. added_fresh j s.next_id _ s.learning_records _ below (omega arith) old;
      })
    ]

other_key : (id k j : ℕ) → (id == k) ≡ false → (j == id) ≡ true → (j == k) ≡ false
other_key id k j e h = ground arith

-- A project's list is replaced and its records follow.
pub enroll :
    (id : ℕ) (p : TrainingProject) (f : TrainingProject → TrainingProject) (s t : Db)
    → IsEnrolled s
    → find_first (project_is id) s.projects ≡ some p
    → ((x : TrainingProject) → (f x).id ≡ x.id)
    → t.projects ≡ update_many (project_is id) f s.projects
    → s.next_id ≤ t.next_id
    → ((k u : ℕ)
        → any (record_of k u) t.learning_records
          ≡ (if id == k then includes u (f p).trainees else any (record_of k u) s.learning_records))
    → count (λ r. leb t.next_id r.project_id) t.learning_records ≡ 0
    → IsEnrolled t
enroll id p f s t h found keeps moved le members fresh = record {
  enrolled = λ k u q q_found. elim (Bool-cases (id == k)) [
    | inl e ↦
        let same : id ≡ k = ==→eq id k e in
        let now : find_first (project_is id) t.projects ≡ some (f p) =
          ap (find_first (project_is id)) moved
          ∙ find_first-updated (project_is id) f s.projects p (λ x. ap (λ j. j == id) (keeps x))
              found in
        let eq : some q ≡ some (f p) =
          sym (subst (λ j. find_first (project_is j) t.projects ≡ some q) (sym same) q_found)
          ∙ now in
        let q_eq : q ≡ f p = cc eq in
        members k u
        ∙ if-true (id == k) _ _ e
        ∙ ap (λ (x : TrainingProject). includes u x.trainees) (sym q_eq)
    | inr e ↦
        let old : find_first (project_is k) s.projects ≡ some q =
          sym (
            find_first-update_other (project_is k) (project_is id) f s.projects
              (λ x. ap (λ j. j == k) (keeps x)) (λ x hx. other_key id k x.id e hx))
          ∙ ap (find_first (project_is k)) (sym moved)
          ∙ q_found in
        members k u ∙ if-false (id == k) _ _ e ∙ h.enrolled k u q old
  ];
  project_key = λ k.
      subst (λ ps. count (project_is k) ps ≤ 1) (sym moved)
        (rw
          (count-update_many (project_is k) (project_is id) f s.projects
            (λ x. ap (λ j. j == k) (keeps x)))
          (h.project_key k));
  fresh =
      subst (λ ps. count (λ (x : TrainingProject). leb t.next_id x.id) ps ≡ 0) (sym moved)
        (rw
          (count-update_many (λ x. leb t.next_id x.id) (project_is id) f s.projects
            (λ x. ap (leb t.next_id) (keeps x)))
          (omega (
            arith,
            count-le (λ (x : TrainingProject). leb t.next_id x.id) (λ x. leb s.next_id x.id)
                s.projects (λ x e. ground arith),
          )));
  fresh_records = fresh;
}

-- A project's row changes, but neither its list nor anybody's record in a project.
pub enroll_same :
    (id : ℕ) (p : TrainingProject) (f : TrainingProject → TrainingProject) (s t : Db)
    → IsEnrolled s
    → find_first (project_is id) s.projects ≡ some p
    → ((x : TrainingProject) → ((f x).id ≡ x.id) × ((f x).trainees ≡ x.trainees))
    → t.projects ≡ update_many (project_is id) f s.projects
    → s.next_id ≤ t.next_id
    → ((k u : ℕ) → any (record_of k u) t.learning_records ≡ any (record_of k u) s.learning_records)
    → count (λ r. leb t.next_id r.project_id) t.learning_records ≡ 0
    → IsEnrolled t
enroll_same id p f s t h found keeps moved le members fresh =
    enroll id p f s t h found (λ x. (keeps x).0) moved le
      (λ k u. elim (Bool-cases (id == k)) [
        | inl e ↦
            let same : id ≡ k = ==→eq id k e in
            members k u
            ∙ h.enrolled k u p
                (subst (λ j. find_first (project_is j) s.projects ≡ some p) same found)
            ∙ ap (includes u) (sym (keeps p).1)
            ∙ sym (if-true (id == k) _ _ e)
        | inr e ↦ members k u ∙ sym (if-false (id == k) _ _ e)
      ])
      fresh

-- The stale records of a project go, and the missing ones come.
pub synced :
    (id : ℕ) (p : TrainingProject) (f : TrainingProject → TrainingProject) (us ts : List ℕ)
    (s m t : Db)
    → IsEnrolled s
    → find_first (project_is id) s.projects ≡ some p
    → ((x : TrainingProject) → ((f x).id ≡ x.id) × ((f x).trainees ≡ ts))
    → m.projects ≡ update_many (project_is id) f s.projects
    → m.next_id ≡ s.next_id
    → ((k u : ℕ)
        → (any (record_of k u) m.learning_records || (id == k && includes u us))
          ≡ (if id == k then includes u ts else any (record_of k u) s.learning_records))
    → count (λ r. leb s.next_id r.project_id) m.learning_records ≡ 0
    → id < s.next_id
    → Added id us m t
    → IsEnrolled t
synced id p f us ts s m t h found keeps moved next members fresh below added =
    enroll id p f s t h found (λ x. (keeps x).0) (added.projects_eq ∙ moved)
      (omega (arith, added.next_le))
      (λ k u.
        added.members k u
        ∙ members k u
        ∙ ap
            (λ (xs : List ℕ).
              if id == k then includes u xs else any (record_of k u) s.learning_records)
            (sym (keeps p).1))
      (added.fresh_kept (omega arith) (rw next fresh))

-- A project that is found has an id below the next one.
pub found_below :
    (id : ℕ) (p : TrainingProject) (s : Db)
    → IsEnrolled s
    → find_first (project_is id) s.projects ≡ some p
    → id < s.next_id
found_below id p s h found = elim (Bool-cases (leb s.next_id id)) [
  | inl e ↦
      let one =
        find_first-count (project_is id) (λ (x : TrainingProject). leb s.next_id x.id) s.projects p
          found
          (subst (λ j. leb s.next_id j ≡ true)
            (sym (==→eq p.id id (find_first-holds (project_is id) s.projects p found))) e) in
      absurd (omega (arith, h.fresh, one))
  | inr e ↦ ground arith
]

-- The records change, but nobody's being in a project.
pub records_changed :
    (s t : Db)
    → IsEnrolled s
    → t.projects ≡ s.projects
    → s.next_id ≤ t.next_id
    → ((k u : ℕ) → any (record_of k u) t.learning_records ≡ any (record_of k u) s.learning_records)
    → count (λ r. leb t.next_id r.project_id) t.learning_records ≡ 0
    → IsEnrolled t
records_changed s t h same le members fresh = record {
  enrolled = λ k u p found.
      members k u ∙ h.enrolled k u p (ap (find_first (project_is k)) (sym same) ∙ found);
  project_key = λ k. subst (λ ps. count (project_is k) ps ≤ 1) (sym same) (h.project_key k);
  fresh =
      subst (λ ps. count (λ (x : TrainingProject). leb t.next_id x.id) ps ≡ 0) (sym same)
        (fresh_mono (λ (x : TrainingProject). x.id) s.next_id t.next_id s.projects le h.fresh);
  fresh_records = fresh;
}
