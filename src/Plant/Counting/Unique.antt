-- ===== src/Plant/Counting/Unique.antt =====
-- A shift is counted once: the stocktakes of staging-area.service.ts.
use noidear.Base.{
  ℕ, ◌≡◌, ◌≤◌, String, true, List, [], ◌∷◌, ◌++◌, find_first, find_first-none, count, count-le,
  count-append, arith, inl, inr, Option-cases, sym, subst, Bool-cases,
}
use noidear.Base.Int.{ℤ}
use noidear.Base.Action.{
  ok, err, Keeps, for_each-Keeps, transaction-Keeps, Result-cases, Error, for_each,
}
use noidear.Plant.{Plant, Stocktake, StocktakeKind}
use noidear.Plant.Counting.{
  StocktakeDto, AreaStocktakeDto, is_repeat, is_kind, new_stocktake, book_quantity, confirm,
  confirm_stocktake, confirm_area_stocktake, is_empty_list, round, item_dto,
}

-- No two stocktakes are of the same area, batch, kind, day and shift.
pub record IsUnique (s : Plant) : Type 0 where
  pub once : (dto : StocktakeDto) → count (is_repeat dto) s.stocktakes ≤ 1

book_quantity-reads :
    (dto : StocktakeDto) (kind : StocktakeKind) (s : Plant) → (book_quantity dto kind s).1 ≡ s
unfolding book_quantity
book_quantity-reads dto kind s = ground arith

is_kind_swap :
    (a b c : StocktakeKind) → is_kind a b ≡ true → is_kind a c ≡ true → is_kind b c ≡ true
is_kind_swap a b c h k = ground arith

-- What repeats a count that repeats the first one repeats the first one.
repeats :
    (d dto : StocktakeDto) (now n : ℕ) (book : ℤ) (x : Stocktake)
    → is_repeat d (new_stocktake now dto book n) ≡ true
    → is_repeat d x ≡ true
    → is_repeat dto x ≡ true
repeats d dto now n book x h k = ground (arith, is_kind_swap d.kind dto.kind x.kind)

added_once :
    (dto d : StocktakeDto) (now n : ℕ) (book : ℤ) (ts : List Stocktake)
    → count (is_repeat dto) ts ≡ 0
    → count (is_repeat d) ts ≤ 1
    → count (is_repeat d) (ts ++ new_stocktake now dto book n ∷ []) ≤ 1
unfolding count
added_once dto d now n book ts free h =
    elim (Bool-cases (is_repeat d (new_stocktake now dto book n))) [
      | inl e ↦
          let below =
            count-le (is_repeat d) (is_repeat dto) ts (λ x. repeats d dto now n book x e) in
          rw (count-append (is_repeat d) ts (new_stocktake now dto book n ∷ []), e)
            (omega (arith, below, free))
      | inr e ↦
          rw (count-append (is_repeat d) ts (new_stocktake now dto book n ∷ []), e)
            (omega (arith, h))
    ]

confirm-adds :
    (message : String) (now : ℕ) (dto : StocktakeDto) (s : Plant)
    → (confirm message now dto s).0 ≡ ok tt
    → (book : ℤ) × (count (is_repeat dto) s.stocktakes ≡ 0)
      × ((confirm message now dto s).1.stocktakes
          ≡ s.stocktakes ++ new_stocktake now dto book s.next_id ∷ [])
unfolding confirm
confirm-adds message now dto s h = elim (Option-cases (find_first (is_repeat dto) s.stocktakes)) [
  | inl free ↦ elim (Result-cases (book_quantity dto dto.kind s).0) [
    | inl book ↦
        let reads = book_quantity-reads dto dto.kind s in
        let row = book.1 in
        (
          book.0,
          find_first-none (is_repeat dto) s.stocktakes free,
          ground (arith, row, reads, free),
        )
    | inr failed ↦ let row = failed.1 in absurd (ground (arith, row, free))
  ]
  | inr taken ↦ let row = taken.1 in absurd (ground (arith, row))
]

confirm-IsUnique :
    (message : String) (now : ℕ) (dto : StocktakeDto) → Keeps IsUnique (confirm message now dto)
confirm-IsUnique message now dto s a h e =
    let (book, free, rows) = confirm-adds message now dto s e in
    record {
      once = λ d.
          subst (λ ts. count (is_repeat d) ts ≤ 1) (sym rows)
            (added_once dto d now s.next_id book s.stocktakes free (h.once d));
    }

confirm-fails :
    (message : String) (now : ℕ) (dto : StocktakeDto) (s : Plant) (x : Error)
    → (confirm message now dto s).0 ≡ err x
    → (confirm message now dto s).1 ≡ s
unfolding confirm
confirm-fails message now dto s x h = ground (arith, book_quantity-reads dto dto.kind s)

-- A count of a whole area keeps the stocktakes unique by area, batch, kind, day and shift, when
-- they were, whether it returns or throws: no batch is counted twice in a shift, also not by two
-- items of one call.
pub confirm_area_stocktake-IsUnique :
    (now : ℕ) (dto : AreaStocktakeDto) (s : Plant)
    → IsUnique s
    → IsUnique (confirm_area_stocktake now dto s).1
unfolding confirm_area_stocktake
confirm_area_stocktake-IsUnique now dto s h = elim (Bool-cases (is_empty_list dto.items)) [
  | inl e ↦ rw e h
  | inr e ↦ rw e (
      transaction-Keeps IsUnique (for_each (round now dto) dto.items)
        (for_each-Keeps IsUnique (round now dto)
          (λ item. confirm-IsUnique _ now (item_dto dto item)) dto.items)
        s h)
]

-- A count of one batch keeps the stocktakes unique.
pub confirm_stocktake-IsUnique :
    (now : ℕ) (dto : StocktakeDto) (s : Plant)
    → IsUnique s
    → IsUnique (confirm_stocktake now dto s).1
unfolding confirm_stocktake
confirm_stocktake-IsUnique now dto s h =
    elim (Result-cases (confirm "该班次该物料批次已完成盘点，请勿重复提交" now dto s).0) [
      | inl done ↦ confirm-IsUnique _ now dto s done.0 h done.1
      | inr failed ↦ subst IsUnique (sym (confirm-fails _ now dto s failed.0 failed.1)) h
    ]
