-- ===== src/Warehouse/Requisition/Lifecycle.antt =====
-- The life of a requisition: whatever is done to the requisitions by requisition.service.ts, in
-- whatever order, their status agrees with what is recorded of them.
use noidear.Base.{
  key_added, fresh_added, ◌==◌, ==_refl, find_first-count, ℕ, ◌+◌, ◌≡◌, ◌≤◌, refl, String, Bool,
  false, not, ◌&&◌, Option, none, some, List, [], ◌∷◌, ◌++◌, is_some, find_first, update_many,
  count, count-append, count-update_many, count-update_found, leb, arith, inl, inr, Option-cases,
  Bool-cases, ap, sym, subst, any,
}
use noidear.Base.Action.{Result-cases, ok, Action}
use noidear.Approval.Types.{Approvals, StartApprovalInput}
use noidear.Warehouse.Requisition.Complete.{complete-ok, complete_atomic}
use noidear.Warehouse.Store.{
  Store, Requisition, DocumentStatus, draft, pending, approved, rejected, completed, requisition_is,
  on_approvals,
}
use noidear.Warehouse.Requisition.{
  CreateRequisitionDto, Decision, accept, refuse, decided, find_one, validate_equipment_link,
  track_requisition, link_approval, create, submit, approve, complete, new_requisition,
  track_approval, has_no, lacks_batch,
}

-- One call of the service, which returns or throws.
pub data Step {A : Type 0} (engine : Option (Approvals A)) : Store A → Store A → Type 0 where
  creates :
      (requisition_no : String) (dto : CreateRequisitionDto) (s : Store A)
      → Step engine s (create requisition_no dto s).1
  submits : (now id : ℕ) (s : Store A) → Step engine s (submit engine now id s).1
  approves :
      (now id approver_id : ℕ) (d : Decision) (s : Store A)
      → Step engine s (approve now id approver_id d s).1
  completes :
      (now id operator_id : ℕ) (s : Store A) → Step engine s (complete now id operator_id s).1

pub data Steps {A : Type 0} (engine : Option (Approvals A)) : Store A → Store A → Type 0 where
  stay : (s : Store A) → Steps engine s s
  next : (s t u : Store A) → Step engine s t → Steps engine t u → Steps engine s u

-- What is recorded of a requisition agrees with its status: it was submitted unless it is a draft, it has an
-- approver once it is approved, rejected or completed, and a completion time exactly if it is completed.
abbrev pub agrees : Requisition → Bool
agrees r =
    by_status r.status (is_some r.submitted_at) (is_some r.approved_by) (is_some r.completed_at)
  where
    by_status : DocumentStatus → Bool → Bool → Bool → Bool
    by_status draft submitted decided done = not submitted && not decided && not done
    by_status pending submitted decided done = submitted && not decided && not done
    by_status approved submitted decided done = submitted && decided && not done
    by_status rejected submitted decided done = submitted && decided && not done
    by_status completed submitted decided done = submitted && decided && done

abbrev pub disagrees : Requisition → Bool
disagrees r = not (agrees r)

-- The keys of the requisitions are unique, new ids are fresh, and every requisition agrees with its status.
pub record IsLively {A : Type 0} (s : Store A) : Type 0 where
  pub key : (k : ℕ) → count (requisition_is k) s.requisitions ≤ 1
  pub fresh : count (λ r. leb s.next_id r.id) s.requisitions ≡ 0
  pub agree : count disagrees s.requisitions ≡ 0

submitted_agrees :
    (now : ℕ) (r : Requisition)
    → r.status ≡ draft
    → disagrees r ≡ false
    → disagrees (record r { status = pending; submitted_at = some now }) ≡ false
submitted_agrees now r h e = ground arith

decided_agrees :
    (now by : ℕ) (d : Decision) (r : Requisition)
    → r.status ≡ pending
    → disagrees r ≡ false
    → disagrees (record r { status = decided d; approved_at = some now; approved_by = some by })
      ≡ false
decided_agrees now by accept r h e = ground arith
decided_agrees now by refuse r h e = ground arith

completed_agrees :
    (now : ℕ) (r : Requisition)
    → r.status ≡ approved
    → disagrees r ≡ false
    → disagrees (record r { status = completed; completed_at = some now }) ≡ false
completed_agrees now r h e = ground arith

added_agrees :
    (r : Requisition) (rs : List Requisition)
    → disagrees r ≡ false
    → count disagrees rs ≡ 0
    → count disagrees (rs ++ r ∷ []) ≡ 0
unfolding count
added_agrees r rs e h = rw (count-append, e) (omega (arith, h))

module _ {A : Type 0} where
  row_agrees :
      (s : Store A) (id : ℕ) (row : Requisition)
      → find_first (requisition_is id) s.requisitions ≡ some row
      → IsLively s
      → disagrees row ≡ false
  row_agrees s id row found h = elim (Bool-cases (disagrees row)) [
    | inl e ↦ absurd (
        omega (
          arith,
          find_first-count (requisition_is id) disagrees s.requisitions row found e,
          h.agree,
        ))
    | inr e ↦ e
  ]

  -- The update of a requisition that was found keeps the invariant if the new row agrees.
  update-IsLively :
      (s t : Store A) (id : ℕ) (row : Requisition) (f : Requisition → Requisition)
      → find_first (requisition_is id) s.requisitions ≡ some row
      → ((r : Requisition) → (f r).id ≡ r.id)
      → disagrees (f row) ≡ false
      → t.requisitions ≡ update_many (requisition_is row.id) f s.requisitions
      → t.next_id ≡ s.next_id
      → IsLively s
      → IsLively t
  update-IsLively s t id row f found same good rows later h = record {
    key = λ k.
        subst (λ rs. count (requisition_is k) rs ≤ 1) (sym rows)
          (rw
            (count-update_many (requisition_is k) (requisition_is row.id) f s.requisitions
              (λ r. ap (λ i. i == k) (same r)))
            (h.key k));
    fresh =
        subst (λ rs. count (λ r. leb t.next_id r.id) rs ≡ 0) (sym rows)
          (rw
            (
              later,
              count-update_many (λ r. leb s.next_id r.id) (requisition_is row.id) f s.requisitions
                  (λ r. ap (λ i. leb s.next_id i) (same r)),
            )
            h.fresh);
    agree =
        subst (λ rs. count disagrees rs ≡ 0) (sym rows)
          (count-update_found disagrees (requisition_is id) (requisition_is row.id) f s.requisitions
            row found (==_refl row.id) (h.key row.id) good h.agree);
  }

  -- A state with the same requisitions and the same next id.
  same-IsLively :
      (s t : Store A)
      → t.requisitions ≡ s.requisitions
      → t.next_id ≡ s.next_id
      → IsLively s
      → IsLively t
  same-IsLively s t rows later h = record {
    key = λ k. rw rows (h.key k);
    fresh = rw (rows, later) h.fresh;
    agree = rw rows h.agree;
  }

  find_one-reads : (id : ℕ) (s : Store A) → (find_one id s).1 ≡ s
  unfolding find_one
  find_one-reads id s = ground arith

  approve-IsLively :
      (now id approver_id : ℕ) (d : Decision) (s : Store A)
      → IsLively s
      → IsLively (approve now id approver_id d s).1
  unfolding approve find_one
  approve-IsLively now id approver_id d s h =
      elim (Option-cases (find_first (requisition_is id) s.requisitions)) [
        | inl missing ↦ subst IsLively (ground (arith, missing)) h
        | inr row ↦ elim (Result-cases (approve now id approver_id d s).0) [
          | inl done ↦
              let found = row.1 in
              let ran = done.1 in
              update-IsLively s (approve now id approver_id d s).1 id row.0
                (λ r. record r {
                  status = decided d;
                  approved_at = some now;
                  approved_by = some approver_id;
                })
                found (λ r. refl)
                (decided_agrees now approver_id d row.0 (ground (arith, found, ran))
                  (row_agrees s id row.0 found h))
                (ground (arith, found, ran)) (ground (arith, found, ran)) h
          | inr failed ↦
              let found = row.1 in
              let ran = failed.1 in subst IsLively (ground (arith, found, ran)) h
        ]
      ]

  complete-IsLively :
      (now id operator_id : ℕ) (s : Store A)
      → IsLively s
      → IsLively (complete now id operator_id s).1
  complete-IsLively now id operator_id s h = elim (Result-cases (complete now id operator_id s).0) [
    | inl done ↦
        let c = complete-ok now id operator_id s done.0 done.1 in
        update-IsLively s (complete now id operator_id s).1 id c.row
          (λ r. record r { status = completed; completed_at = some now }) c.found (λ r. refl)
          (completed_agrees now c.row c.was_approved (row_agrees s id c.row c.found h))
          (ap (λ (t : Store A). t.requisitions) c.after) (ap (λ (t : Store A). t.next_id) c.after) h
    | inr failed ↦ subst IsLively (sym (complete_atomic now id operator_id s failed.0 failed.1)) h
  ]

  add-IsLively :
      (s t : Store A) (r : Requisition)
      → r.id ≡ s.next_id
      → disagrees r ≡ false
      → t.requisitions ≡ s.requisitions ++ r ∷ []
      → t.next_id ≡ s.next_id + 1
      → IsLively s
      → IsLively t
  add-IsLively s t r same good rows later h = record {
    key = λ k.
        rw rows (
          key_added (λ (x : Requisition). x.id) s.next_id k r s.requisitions same h.fresh
            (h.key k));
    fresh =
        rw (rows, later)
          (fresh_added (λ (x : Requisition). x.id) s.next_id r s.requisitions same h.fresh);
    agree = rw rows (added_agrees r s.requisitions good h.agree);
  }

  create-IsLively :
      (requisition_no : String) (dto : CreateRequisitionDto) (s : Store A)
      → IsLively s
      → IsLively (create requisition_no dto s).1
  unfolding create validate_equipment_link
  create-IsLively requisition_no dto s h = elim (Result-cases (create requisition_no dto s).0) [
    | inl done ↦
        let ran = done.1 in
        elim (Bool-cases (any (has_no requisition_no) s.requisitions)) [
          | inl taken ↦ absurd (ground (arith, ran, taken))
          | inr free ↦ elim (Bool-cases (any (lacks_batch s.stock.batches) dto.items)) [
            | inl lacks ↦ absurd (ground (arith, ran, free, lacks))
            | inr stocked ↦
                add-IsLively s (create requisition_no dto s).1
                  (new_requisition s.next_id requisition_no dto) refl refl
                  (ground (arith, ran, free, stocked)) (ground (arith, ran, free, stocked)) h
          ]
        ]
    | inr failed ↦ let ran = failed.1 in subst IsLively (ground (arith, ran)) h
  ]

  -- An update of other columns keeps the invariant.
  relabel-IsLively :
      (s t : Store A) (p : Requisition → Bool) (f : Requisition → Requisition)
      → ((r : Requisition) → (f r).id ≡ r.id)
      → ((r : Requisition) → disagrees (f r) ≡ disagrees r)
      → t.requisitions ≡ update_many p f s.requisitions
      → t.next_id ≡ s.next_id
      → IsLively s
      → IsLively t
  relabel-IsLively s t p f same good rows later h = record {
    key = λ k.
        rw
          (
            rows,
            count-update_many (requisition_is k) p f s.requisitions
                (λ r. ap (λ i. i == k) (same r)),
          )
          (h.key k);
    fresh =
        rw
          (
            rows,
            later,
            count-update_many (λ r. leb s.next_id r.id) p f s.requisitions
                (λ r. ap (λ i. leb s.next_id i) (same r)),
          )
          h.fresh;
    agree = rw (rows, count-update_many disagrees p f s.requisitions good) h.agree;
  }

  track-IsLively :
      (engine : Option (Approvals A)) (input : StartApprovalInput)
      (link : ℕ → Action (Store A) (Unit {0})) (s : Store A)
      → ((k : ℕ) (t : Store A) → IsLively t → IsLively (link k t).1)
      → IsLively s
      → IsLively (track_approval engine input link s).1
  track-IsLively none input link s keep h = h
  track-IsLively (some engine) input link s keep h =
      elim (Result-cases (engine.start input s.approvals).0) [
        | inl started ↦
            let ran = started.1 in
            let t = (on_approvals (engine.start input) s).1 in
            subst IsLively (ground (arith, ran)) (keep started.0 t (same-IsLively s t refl refl h))
        | inr failed ↦
            let ran = failed.1 in
            let t = (on_approvals (engine.start input) s).1 in
            subst IsLively (ground (arith, ran)) (same-IsLively s t refl refl h)
      ]

  track_requisition-ok :
      (engine : Option (Approvals A)) (id : ℕ) (req : Requisition) (s : Store A)
      → (track_requisition engine id req s).0 ≡ ok tt
  unfolding track_requisition
  track_requisition-ok none id req s = refl
  track_requisition-ok (some engine) id req s = refl

  track_requisition-IsLively :
      (engine : Option (Approvals A)) (id : ℕ) (req : Requisition) (s : Store A)
      → IsLively s
      → IsLively (track_requisition engine id req s).1
  unfolding track_requisition
  track_requisition-IsLively engine id req s h =
      track-IsLively engine _ (link_approval req) s
        (λ k t g.
          relabel-IsLively t (link_approval req k t).1 (requisition_is req.id)
            (λ r. record r { approval_instance_id = some k }) (λ r. refl) (λ r. refl) refl refl g)
        h

  abbrev submitted : ℕ → Requisition → Store A → Store A
  submitted now req s = record s {
    requisitions =
        update_many (requisition_is req.id)
          (λ r. record r { status = pending; submitted_at = some now }) s.requisitions;
  }

  submit-IsLively :
      (engine : Option (Approvals A)) (now id : ℕ) (s : Store A)
      → IsLively s
      → IsLively (submit engine now id s).1
  unfolding submit find_one
  submit-IsLively engine now id s h =
      elim (Option-cases (find_first (requisition_is id) s.requisitions)) [
        | inl missing ↦ subst IsLively (ground (arith, missing)) h
        | inr row ↦
            let found = row.1 in
            let t = submitted now row.0 s in
            let tracked = track_requisition-ok engine id row.0 t in
            elim (Result-cases (submit engine now id s).0) [
              | inl done ↦
                  let ran = done.1 in
                  let was_draft : row.0.status ≡ draft = ground (arith, found, ran) in
                  let sent =
                    update-IsLively s t id row.0
                      (λ r. record r { status = pending; submitted_at = some now }) found
                      (λ r. refl)
                      (submitted_agrees now row.0 was_draft (row_agrees s id row.0 found h)) refl
                      refl h in
                  let after : (submit engine now id s).1 ≡ (track_requisition engine id row.0 t).1 =
                    ground (arith, found, ran, tracked) in
                  subst IsLively (sym after) (track_requisition-IsLively engine id row.0 t sent)
              | inr failed ↦
                  let ran = failed.1 in subst IsLively (ground (arith, found, ran, tracked)) h
            ]
      ]

  Step-IsLively :
      (engine : Option (Approvals A)) (s t : Store A) → Step engine s t → IsLively s → IsLively t
  Step-IsLively engine s t (creates requisition_no dto _) h = create-IsLively requisition_no dto s h
  Step-IsLively engine s t (submits now id _) h = submit-IsLively engine now id s h
  Step-IsLively engine s t (approves now id approver_id d _) h =
      approve-IsLively now id approver_id d s h
  Step-IsLively engine s t (completes now id operator_id _) h =
      complete-IsLively now id operator_id s h

  -- Whatever calls of the requisition service are made (create, submit, approve, complete), in
  -- whatever order, with whatever approval engine, and whether they return or throw, they keep
  -- this, when it held at first: the keys of the requisitions are unique, new ids are fresh, and
  -- every requisition agrees with its status. That is, it has a submission time unless it is a
  -- draft, an approver exactly if it is approved, rejected or completed, and a completion time
  -- exactly if it is completed.
  pub Steps-IsLively :
      (engine : Option (Approvals A)) (s t : Store A) → Steps engine s t → IsLively s → IsLively t
  Steps-IsLively engine s t (stay _) h = h
  Steps-IsLively engine s t (next _ u _ first rest) h =
      Steps-IsLively engine u t rest (Step-IsLively engine s u first h)
