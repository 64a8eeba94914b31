-- ===== src/Plant/Counting.antt =====
-- The stocktakes of server/src/modules/warehouse/staging-area.service.ts. `now` is the time that
-- the code reads from the clock. The tolerance 0.0001 is 100 millionths.
pub mod Unique
use noidear.Base.{
  ℕ, ◌+◌, ◌≡◌, refl, String, Bool, true, false, not, ◌&&◌, ◌||◌, ltb, leb, Option, none, some, List,
  [], ◌∷◌, ◌++◌, ◌==◌, is_some, is_some_of, get_or, find_first, if◌then◌else◌, arith, ap, sym, ◌∙◌,
  ==_refl,
}
use noidear.Base.Int.{ℤ, pos, ◌-ℤ◌, abs}
use noidear.Base.Action.{
  Action, Result, ok, err, Error, bad_request, pure, gets, throw, throw_if, or_throw, modify,
  transaction, for_each, ◌>>=◌, ◌>>◌,
}
use noidear.Warehouse.Model.{Stock}
use noidear.Plant.{
  Plant, Stocktake, StocktakeKind, shift_start, shift_end, handover, StocktakeStatus, draft,
  confirmed, exception,
}
use noidear.Plant.Staging.{in_area}

pub record StocktakeDto : Type 0 where
  pub area_id : ℕ
  pub batch_id : ℕ
  pub kind : StocktakeKind
  pub work_date : ℕ
  pub shift_type_id : ℕ
  pub actual_quantity : ℤ
  pub team_id : Option ℕ
  pub note : Option String
  pub operator_id : Option ℕ

abbrev pub is_kind : StocktakeKind → StocktakeKind → Bool
is_kind shift_start shift_start = true
is_kind shift_end shift_end = true
is_kind handover handover = true
is_kind _ _ = false

abbrev pub is_settled : StocktakeStatus → Bool
is_settled draft = false
is_settled _ = true

-- A settled count at the end of a shift, on or before the day.
abbrev pub is_prior_end : StocktakeDto → Stocktake → Bool
is_prior_end dto t =
    t.area_id == dto.area_id
    && t.batch_id == dto.batch_id
    && is_kind shift_end t.kind
    && is_settled t.status
    && leb t.work_date dto.work_date

-- `orderBy: [{ work_date: 'desc' }, { createdAt: 'desc' }]`
abbrev pub is_later : Stocktake → Stocktake → Bool
is_later t u =
    ltb u.work_date t.work_date || t.work_date == u.work_date && leb u.created_at t.created_at

abbrev later_of : Stocktake → Option Stocktake → Stocktake
later_of t none = t
later_of t (some u) = if is_later t u then t else u

unfoldable pub latest_end : StocktakeDto → List Stocktake → Option Stocktake
latest_end dto [] = none
latest_end dto (t ∷ ts) =
    let rest = latest_end dto ts in if is_prior_end dto t then some (later_of t rest) else rest

abbrev quantity_of : Option Stock → Option ℤ
quantity_of none = none
quantity_of (some r) = some r.quantity

abbrev pub stock_quantity : StocktakeDto → Plant → Option ℤ
stock_quantity dto s = quantity_of (find_first (in_area dto.batch_id dto.area_id) s.stock.staging)

abbrev pub start_quantity : StocktakeDto → Option Stocktake → Plant → ℤ
start_quantity dto (some t) s = t.actual_quantity
start_quantity dto none s = get_or (stock_quantity dto s) (pos 0)

-- The quantity that a count is compared with.
unfoldable pub book_quantity : StocktakeDto → StocktakeKind → Action Plant ℤ
book_quantity dto shift_start = gets (λ s. start_quantity dto (latest_end dto s.stocktakes) s)
book_quantity dto shift_end = do
  quantity ← gets (stock_quantity dto)
  or_throw quantity (bad_request "配料区没有该原辅料批次库存")
book_quantity dto handover = do
  quantity ← gets (stock_quantity dto)
  or_throw quantity (bad_request "配料区没有该原辅料批次库存")

-- The count that a new one would repeat.
abbrev pub is_repeat : StocktakeDto → Stocktake → Bool
is_repeat dto t =
    t.area_id == dto.area_id
    && t.batch_id == dto.batch_id
    && is_kind dto.kind t.kind
    && t.work_date == dto.work_date
    && t.shift_type_id == dto.shift_type_id

abbrev pub status_of : ℤ → StocktakeStatus
status_of difference = if ltb (abs difference) 100 then confirmed else exception

abbrev pub new_stocktake : ℕ → StocktakeDto → ℤ → ℕ → Stocktake
new_stocktake now dto book id = record {
  id = id;
  area_id = dto.area_id;
  batch_id = dto.batch_id;
  kind = dto.kind;
  status = status_of (dto.actual_quantity -ℤ book);
  book_quantity = book;
  actual_quantity = dto.actual_quantity;
  difference = dto.actual_quantity -ℤ book;
  work_date = dto.work_date;
  shift_type_id = dto.shift_type_id;
  team_id = dto.team_id;
  operator_id = dto.operator_id;
  confirmed_at = now;
  created_at = now;
  note = dto.note;
}

abbrev add_stocktake : ℕ → StocktakeDto → ℤ → Plant → Plant
add_stocktake now dto book s = record s {
  stocktakes = s.stocktakes ++ new_stocktake now dto book s.next_id ∷ [];
  next_id = s.next_id + 1;
}

-- `confirmStocktake`, and one round of the loop of `confirmAreaStocktake`, which is the same but
-- for the text of the exception.
unfoldable pub confirm : String → ℕ → StocktakeDto → Action Plant (Unit {0})
confirm message now dto = do
  existing ← gets (λ s. find_first (is_repeat dto) s.stocktakes)
  throw_if (is_some existing) (bad_request message)
  book ← book_quantity dto dto.kind
  modify (add_stocktake now dto book)

unfoldable pub confirm_stocktake : ℕ → StocktakeDto → Action Plant (Unit {0})
confirm_stocktake now dto = confirm "该班次该物料批次已完成盘点，请勿重复提交" now dto

pub record AreaStocktakeItem : Type 0 where
  pub batch_id : ℕ
  pub actual_quantity : ℤ
  pub note : Option String

pub record AreaStocktakeDto : Type 0 where
  pub area_id : ℕ
  pub work_date : ℕ
  pub shift_type_id : ℕ
  pub kind : StocktakeKind
  pub team_id : Option ℕ
  pub operator_id : Option ℕ
  pub items : List AreaStocktakeItem

abbrev pub item_dto : AreaStocktakeDto → AreaStocktakeItem → StocktakeDto
item_dto dto item = record {
  area_id = dto.area_id;
  batch_id = item.batch_id;
  kind = dto.kind;
  work_date = dto.work_date;
  shift_type_id = dto.shift_type_id;
  actual_quantity = item.actual_quantity;
  team_id = dto.team_id;
  note = item.note;
  operator_id = dto.operator_id;
}

abbrev pub is_empty_list : List AreaStocktakeItem → Bool
is_empty_list [] = true
is_empty_list (_ ∷ _) = false

abbrev pub round : ℕ → AreaStocktakeDto → AreaStocktakeItem → Action Plant (Unit {0})
round now dto item = confirm "该批次在该班次已完成盘点，请勿重复提交" now (item_dto dto item)

unfoldable pub confirm_area_stocktake : ℕ → AreaStocktakeDto → Action Plant (Unit {0})
confirm_area_stocktake now dto = do
  throw_if (is_empty_list dto.items) (bad_request "盘点明细不能为空")
  transaction (for_each (round now dto) dto.items)
