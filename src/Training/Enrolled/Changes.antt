-- ===== src/Training/Enrolled/Changes.antt =====
-- Creating, changing and deleting a project keeps the learning records those of the trainees.
use noidear.Base.{
  ℕ, ◌+◌, true, not, ◌&&◌, ◌||◌, Option, none, some, List, [], ◌∷◌, ◌++◌, ◌==◌, any, find_first,
  find_many, ◌≡◌, refl, arith, inl, inr, Bool-cases, Option-cases, ap, sym, ◌∙◌, leb, subst,
  if◌then◌else◌, get_or, ==→eq, find_first-append, key_added, fresh_added,
}
use noidear.Base.Action.{ok}
use noidear.Training.{
  Db, TrainingProject, LearningRecord, includes, record_of, in_project, project_is,
  create_learning_records_for_trainees, update_project, get_project_by_id, get_plan_by_id,
}
use noidear.Training.Members.{
  any-find_many, any-none, find_first-append_none, find_first-removed, find_first-kept,
  count-find_many-le, fresh_mono,
}
use noidear.Training.Enrolled.{
  IsEnrolled, SameMembers, IsEnrolled-same, create_todos-same, create_records-Added, enroll_same,
  synced, found_below,
}
use noidear.Training.Enrolled.Trainees.{count-find_many}
use noidear.Training.Projects.{
  change_project, UpdateProjectDto, changed, sync_if_given, sync_learning_records, delete_project,
  create_project, CreateProjectDto, new_project, add_project, validate_documents, check_documents,
  create_todo_tasks_for_project, is_stale,
}

validate_documents-state : (ids : List ℕ) (s : Db) → (validate_documents ids s).1 ≡ s
unfolding validate_documents
validate_documents-state ids s = ground arith

check_documents-state : (ids : Option (List ℕ)) (s : Db) → (check_documents ids s).1 ≡ s
check_documents-state none s = refl
check_documents-state (some []) s = refl
check_documents-state (some (x ∷ xs)) s = validate_documents-state (x ∷ xs) s

-- A change that returns has updated the row, and then the records if trainees were given.
change_project_run :
    (id : ℕ) (dto : UpdateProjectDto) (s : Db)
    → (change_project id dto s).0 ≡ ok tt
    → (p : TrainingProject) × (find_first (project_is id) s.projects ≡ some p)
      × ((sync_if_given id dto.trainees (update_project id (changed dto) s)).0 ≡ ok tt)
      × ((change_project id dto s).1
          ≡ (sync_if_given id dto.trainees (update_project id (changed dto) s)).1)
unfolding change_project get_project_by_id
change_project_run id dto s h = elim (Option-cases (find_first (project_is id) s.projects)) [
  | inl e ↦ absurd (ground arith)
  | inr (p, e) ↦ (
    p,
    e,
    ground (arith, check_documents-state dto.document_ids s),
    ground (arith, check_documents-state dto.document_ids s),
  )
]

stale_row :
    (id k u : ℕ) (ts : List ℕ) (r : LearningRecord)
    → (not (is_stale id ts r) && record_of k u r)
      ≡ (not (id == k && not (includes u ts)) && record_of k u r)
stale_row id k u ts r = elim (Bool-cases (r.user_id == u)) [
  | inl e ↦ let same : r.user_id ≡ u = ==→eq r.user_id u e in rw same (ground arith)
  | inr e ↦ ground arith
]

stale_members :
    (id k u : ℕ) (ts : List ℕ) (s : Db)
    → (any (record_of k u) (find_many (λ r. not (is_stale id ts r)) s.learning_records)
        || (id == k && includes u ts))
      ≡ (if id == k then includes u ts else any (record_of k u) s.learning_records)
stale_members id k u ts s =
    let kept =
      any-find_many (record_of k u) (λ r. not (is_stale id ts r))
        (not (id == k && not (includes u ts))) s.learning_records (λ r. stale_row id k u ts r) in
    ground (arith, kept)

sync-IsEnrolled :
    (id : ℕ) (p : TrainingProject) (f : TrainingProject → TrainingProject) (given : Option (List ℕ))
    (s : Db)
    → IsEnrolled s
    → find_first (project_is id) s.projects ≡ some p
    → ((x : TrainingProject) → ((f x).id ≡ x.id) × ((f x).trainees ≡ get_or given x.trainees))
    → (sync_if_given id given (update_project id f s)).0 ≡ ok tt
    → IsEnrolled (sync_if_given id given (update_project id f s)).1
unfolding sync_learning_records
sync-IsEnrolled id p f none s h found keeps e =
    enroll_same id p f s _ h found keeps refl (omega arith) (λ k u. refl) h.fresh_records
sync-IsEnrolled id p f (some ts) s h found keeps e =
    let u : Db = update_project id f s in
    let m : Db = record u {
      learning_records = find_many (λ r. not (is_stale id ts r)) s.learning_records;
    } in
    synced id p f ts ts s m _ h found keeps refl refl (λ k v. stale_members id k v ts s)
      (count-find_many (λ r. leb s.next_id r.project_id) _ s.learning_records h.fresh_records)
      (found_below id p s h found) (create_records-Added id ts m e)

pub change_project-IsEnrolled :
    (id : ℕ) (dto : UpdateProjectDto) (s : Db)
    → IsEnrolled s
    → (change_project id dto s).0 ≡ ok tt
    → IsEnrolled (change_project id dto s).1
change_project-IsEnrolled id dto s h e =
    let (p, found, ran, after) = change_project_run id dto s e in
    rw after (sync-IsEnrolled id p (changed dto) dto.trainees s h found (λ x. (refl, refl)) ran)

delete_project_run :
    (id : ℕ) (s : Db)
    → (delete_project id s).0 ≡ ok tt
    → SameMembers
        (record s {
          learning_records = find_many (λ r. not (in_project id r)) s.learning_records;
          projects = find_many (λ p. not (project_is id p)) s.projects;
        })
        (delete_project id s).1
unfolding delete_project get_project_by_id
delete_project_run id s h = elim (Option-cases (find_first (project_is id) s.projects)) [
  | inl e ↦ absurd (ground arith)
  | inr (p, e) ↦ record {
    projects_eq = ground arith;
    records_eq = ground arith;
    next_eq = ground arith;
  }
]

pub delete_project-IsEnrolled :
    (id : ℕ) (s : Db)
    → IsEnrolled s
    → (delete_project id s).0 ≡ ok tt
    → IsEnrolled (delete_project id s).1
delete_project-IsEnrolled id s h e = IsEnrolled-same _ _ (delete_project_run id s e) (record {
  enrolled = λ k u q found. elim (Bool-cases (k == id)) [
    | inl same ↦
        let eq : k ≡ id = ==→eq k id same in
        let gone : some q ≡ none =
          sym (
            subst
              (λ j.
                find_first (project_is j) (find_many (λ p. not (project_is id p)) s.projects)
                ≡ some q)
              eq found)
          ∙ find_first-removed (project_is id) s.projects in
        absurd (ground (arith, gone))
    | inr other ↦
        let old =
          sym (
            find_first-kept (project_is k) (λ p. not (project_is id p)) s.projects
              (λ p hp. ground arith))
          ∙ found in
        any-find_many (record_of k u) (λ r. not (in_project id r)) true s.learning_records
          (λ r. ground arith)
        ∙ ground (arith, h.enrolled k u q old)
  ];
  project_key = λ k. omega (
    arith,
    count-find_many-le (project_is k) (λ p. not (project_is id p)) s.projects,
    h.project_key k,
  );
  fresh = count-find_many (λ p. leb s.next_id p.id) _ s.projects h.fresh;
  fresh_records =
      count-find_many (λ r. leb s.next_id r.project_id) _ s.learning_records h.fresh_records;
})

created : CreateProjectDto → Db → Db
created dto s = (add_project (new_project dto) s).1

-- A creation that returns has added the row, then the records, then to-dos.
create_project_run :
    (dto : CreateProjectDto) (s : Db) (p : TrainingProject)
    → (create_project dto s).0 ≡ ok p
    → ((create_learning_records_for_trainees s.next_id dto.trainees (created dto s)).0 ≡ ok tt)
      × SameMembers
          (create_learning_records_for_trainees s.next_id dto.trainees (created dto s)).1
          (create_project dto s).1
unfolding create_project created get_plan_by_id
create_project_run dto s p h =
    let m = create_learning_records_for_trainees s.next_id dto.trainees (created dto s) in
    let after : (create_project dto s).1
        ≡ (create_todo_tasks_for_project (new_project dto s.next_id) m.1).1 =
      ground (arith, validate_documents-state dto.document_ids s) in
    (
      ground (arith, validate_documents-state dto.document_ids s),
      subst (SameMembers m.1) (sym after) (create_todos-same _ m.1),
    )

found_new :
    (k n : ℕ) (dto : CreateProjectDto) (q : TrainingProject)
    → find_first (project_is k) (new_project dto n ∷ []) ≡ some q
    → ((n == k) ≡ true) × (q ≡ new_project dto n)
unfolding find_first
found_new k n dto q h = (ground arith, ground arith)

pub create_project-IsEnrolled :
    (dto : CreateProjectDto) (s : Db) (p : TrainingProject)
    → IsEnrolled s
    → (create_project dto s).0 ≡ ok p
    → IsEnrolled (create_project dto s).1
unfolding created
create_project-IsEnrolled dto s p h e =
    let (ran, same) = create_project_run dto s p e in
    let row = new_project dto s.next_id in
    let added = create_records-Added s.next_id dto.trainees (created dto s) ran in
    IsEnrolled-same _ _ same (record {
      enrolled = λ k u q found.
          let there : find_first (project_is k) (s.projects ++ row ∷ []) ≡ some q =
            ap (find_first (project_is k)) (sym added.projects_eq) ∙ found in
          added.members k u ∙ elim (Option-cases (find_first (project_is k) s.projects)) [
            | inl missing ↦
                let (is_new, row_eq) =
                  found_new k s.next_id dto q
                    (sym (find_first-append_none (project_is k) s.projects _ missing) ∙ there) in
                let no_old =
                  any-none (record_of k u) (λ r. leb s.next_id r.project_id) s.learning_records
                    (λ r hr. ground (arith, is_new)) h.fresh_records in
                ground (arith, no_old, is_new, row_eq)
            | inr (old, was) ↦
                let eq : some old ≡ some q =
                  sym (find_first-append (project_is k) s.projects (row ∷ []) old was) ∙ there in
                ground (arith, eq, found_below k old s h was, h.enrolled k u old was)
          ];
      project_key = λ k.
          rw added.projects_eq
            (key_added (λ x. x.id) s.next_id k row s.projects refl h.fresh (h.project_key k));
      fresh = rw added.projects_eq (
          fresh_mono (λ x. x.id) (s.next_id + 1) _ (s.projects ++ row ∷ []) added.next_le
            (fresh_added (λ x. x.id) s.next_id row s.projects refl h.fresh));
      fresh_records = added.fresh_kept (omega arith) (
          fresh_mono (λ r. r.project_id) s.next_id (s.next_id + 1) s.learning_records (omega arith)
            h.fresh_records);
    })
