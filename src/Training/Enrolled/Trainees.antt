-- ===== src/Training/Enrolled/Trainees.antt =====
-- The operations on projects keep the learning records those of the trainees.
use noidear.Base.{
  ℕ, Bool, not, ◌&&◌, ◌||◌, some, List, [], ◌∷◌, ◌++◌, ◌==◌, any, find_first, find_many, count, ◌≡◌,
  refl, arith, update_many, inl, inr, Bool-cases, Option-cases, sym, ◌∙◌, leb, subst, if◌then◌else◌,
  dedup, ==→eq,
}
use noidear.Base.Action.{ok}
use noidear.Training.{
  Db, TrainingProject, includes, record_of, project_is, create_learning_records_for_trainees,
  update_project, get_project_by_id, ProjectStatus,
}
use noidear.Training.Members.{any-append, any-find_many, includes-dedup}
use noidear.Training.Enrolled.{
  IsEnrolled, SameMembers, IsEnrolled-same, create_todos-same, create_records-Added, enroll,
  enroll_same, synced, found_below,
}
use noidear.Training.Projects.{
  add_trainees, remove_trainee, update_project_status, create_todo_tasks_for_new_trainees,
  finished_at,
}

abbrev joined : List ℕ → TrainingProject → List ℕ
joined us p = dedup [] (p.trainees ++ us)

add_trainees_run :
    (id : ℕ) (us : List ℕ) (s : Db)
    → (add_trainees id us s).0 ≡ ok tt
    → (p : TrainingProject) × (find_first (project_is id) s.projects ≡ some p)
      × ((create_learning_records_for_trainees id us
            (update_project id (λ x. record x { trainees = joined us p }) s)).0
          ≡ ok tt)
      × SameMembers
          (create_learning_records_for_trainees id us
            (update_project id (λ x. record x { trainees = joined us p }) s)).1
          (add_trainees id us s).1
unfolding add_trainees get_project_by_id
add_trainees_run id us s h = elim (Option-cases (find_first (project_is id) s.projects)) [
  | inl e ↦ absurd (ground arith)
  | inr (p, e) ↦
      let m =
        create_learning_records_for_trainees id us
          (update_project id (λ x. record x { trainees = joined us p }) s) in
      let after : (add_trainees id us s).1 ≡ (create_todo_tasks_for_new_trainees p us m.1).1 =
        ground arith in
      (p, e, ground arith, subst (SameMembers m.1) (sym after) (create_todos-same _ m.1))
]

joined_members :
    (id k u : ℕ) (us : List ℕ) (p : TrainingProject) (s : Db)
    → IsEnrolled s
    → find_first (project_is id) s.projects ≡ some p
    → (any (record_of k u) s.learning_records || (id == k && includes u us))
      ≡ (if id == k then includes u (joined us p) else any (record_of k u) s.learning_records)
unfolding any
joined_members id k u us p s h found = elim (Bool-cases (id == k)) [
  | inl e ↦
      let same : id ≡ k = ==→eq id k e in
      let old =
        h.enrolled k u p (subst (λ j. find_first (project_is j) s.projects ≡ some p) same found) in
      ground
        (arith, old, includes-dedup u [] (p.trainees ++ us), any-append (λ x. x == u) p.trainees us)
  | inr e ↦ ground arith
]

pub add_trainees-IsEnrolled :
    (id : ℕ) (us : List ℕ) (s : Db)
    → IsEnrolled s
    → (add_trainees id us s).0 ≡ ok tt
    → IsEnrolled (add_trainees id us s).1
add_trainees-IsEnrolled id us s h e =
    let (p, found, ran, same) = add_trainees_run id us s e in
    let m : Db = update_project id (λ x. record x { trainees = joined us p }) s in
    let added = create_records-Added id us m ran in
    IsEnrolled-same _ _ same (
      synced id p (λ x. record x { trainees = joined us p }) us (joined us p) s m _ h found
        (λ x. (refl, refl)) refl refl (λ k u. joined_members id k u us p s h found) h.fresh_records
        (found_below id p s h found) added)

pub update_project_status-IsEnrolled :
    (now id : ℕ) (status : ProjectStatus) (s : Db)
    → IsEnrolled s
    → (update_project_status now id status s).0 ≡ ok tt
    → IsEnrolled (update_project_status now id status s).1
unfolding update_project_status get_project_by_id
update_project_status-IsEnrolled now id status s h e =
    elim (Option-cases (find_first (project_is id) s.projects)) [
      | inl f ↦ absurd (ground arith)
      | inr (p, f) ↦
          let after : (update_project_status now id status s).1
              ≡ update_project id
                  (λ x. record x {
                    status = status;
                    completed_at = finished_at status now x.completed_at;
                  })
                  s =
            ground arith in
          rw after (
            enroll_same id p _ s _ h f (λ x. (refl, refl)) refl (omega arith) (λ k u. refl)
              h.fresh_records)
    ]

removed_members :
    (id user k u : ℕ) (p : TrainingProject) (s : Db)
    → IsEnrolled s
    → find_first (project_is id) s.projects ≡ some p
    → any (record_of k u) (find_many (λ r. not (record_of id user r)) s.learning_records) ≡ (
        if id == k
        then includes u (find_many (λ t. not (t == user)) p.trainees)
        else any (record_of k u) s.learning_records)
removed_members id user k u p s h found =
    any-find_many (record_of k u) (λ r. not (record_of id user r)) (not (id == k && user == u))
      s.learning_records (λ r. ground arith)
    ∙ elim (Bool-cases (id == k)) [
      | inl e ↦
          let same : id ≡ k = ==→eq id k e in
          let old =
            h.enrolled k u p
              (subst (λ j. find_first (project_is j) s.projects ≡ some p) same found) in
          ground (
            arith,
            old,
            any-find_many (λ x. x == u) (λ t. not (t == user)) (not (user == u)) p.trainees
                (λ t. ground arith),
          )
      | inr e ↦ ground arith
    ]

pub count-find_many :
    {A : Type 0} (p q : A → Bool) (xs : List A) → count p xs ≡ 0 → count p (find_many q xs) ≡ 0
unfolding count find_many
count-find_many p q [] h = refl
count-find_many p q (x ∷ xs) h = ground (arith, count-find_many p q xs)

pub remove_trainee-IsEnrolled :
    (id user : ℕ) (s : Db)
    → IsEnrolled s
    → (remove_trainee id user s).0 ≡ ok tt
    → IsEnrolled (remove_trainee id user s).1
unfolding remove_trainee get_project_by_id
remove_trainee-IsEnrolled id user s h e =
    elim (Option-cases (find_first (project_is id) s.projects)) [
      | inl f ↦ absurd (ground arith)
      | inr (p, f) ↦
          let ts = find_many (λ t. not (t == user)) p.trainees in
          let t : Db = record s {
            projects = update_many (project_is id) (λ x. record x { trainees = ts }) s.projects;
            learning_records = find_many (λ r. not (record_of id user r)) s.learning_records;
          } in
          let same : SameMembers t (remove_trainee id user s).1 = record {
            projects_eq = ground arith;
            records_eq = ground arith;
            next_eq = ground arith;
          } in
          IsEnrolled-same _ _ same (
            enroll id p (λ x. record x { trainees = ts }) s t h f (λ x. refl) refl (omega arith)
              (λ k u. removed_members id user k u p s h f)
              (count-find_many (λ r. leb s.next_id r.project_id) _ s.learning_records
                h.fresh_records))
    ]
