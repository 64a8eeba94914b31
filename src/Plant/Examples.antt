-- ===== src/Plant/Examples.antt =====
-- The workshop on a concrete database: one batch in the warehouse, staged in a mixing area and in a
-- zone, and a recipe of one line.
use noidear.Base.{
  ℕ, ◌≡◌, refl, true, false, none, some, [], ◌∷◌, arith, count, find_first, update_many, any, dedup,
  sum_by, ◌≤◌,
}
use noidear.Base.Int.{pos, ◌+ℤ◌, ◌-ℤ◌, ◌≤ℤ◌, ltb_ℤ}
use noidear.Base.Action.{ok, for_each}
use noidear.Access.{in_progress}
use noidear.Warehouse.Model.{Db, Batch, normal, Usage, Stock, IsKeyed, stock_is, is_text}
use noidear.Warehouse.Measures.{hand, staged, used}
use noidear.Warehouse.Effect.{no_change, Changes}
use noidear.Warehouse.Statements.{by_hand}
use noidear.Plant.{shift_start, Plant, Transfer}
use noidear.Plant.Usage.{CreateUsageDto, usage_is}
use noidear.Plant.Usage.Books.{create-Changes, direct_use}
use noidear.Plant.Usage.Undo.{remove-Changes, undo_use}
use noidear.Plant.Staging.{TransferDto, transfer_zone, write_transfer, move_stock}
use noidear.Plant.Staging.Places.{Place, counted, held}
use noidear.Plant.Staging.Moves.{transfer_zone-Changes}
use noidear.Plant.Recommend.{recommend, Covers, recommend-Covers, recommend-short, AllTaken}
use noidear.Plant.Counting.{AreaStocktakeDto, confirm_area_stocktake}
use noidear.Plant.Counting.Unique.{IsUnique, confirm_area_stocktake-IsUnique}
use noidear.Warehouse.Slips.{update_batch}
use noidear.Plant.MixingChecks.{check_shift, check_link, check_plan_item, CreateExecutionDto}
use noidear.Plant.Mixing.{
  add_execution, execute_line, consume_stock, add_line, create_from_mixing_line,
  generate_execution_no, create_execution, create_attempts, do_create_execution,
}
use noidear.Plant.Mixing.Conserves.{mixed, bridged, create_execution-conserves}
use noidear.Plant.Usage as usage
use noidear.Plant.Usage.BatchMaterialUsage as linked

abbrev batch_one : Batch
batch_one = record {
  id = 1;
  batch_number = "B-1";
  material_id = 4;
  supplier_id = none;
  quantity = pos 70;
  status = normal;
  expiry_date = none;
  created_at = 0;
  deleted_at = none;
}

abbrev in_mixing : Stock
in_mixing = record {
  id = 1;
  batch_id = 1;
  area_id = some 6;
  location = some "配料一";
  quantity = pos 30;
  created_at = 1;
}

abbrev in_zone : Stock
in_zone = record {
  id = 2;
  batch_id = 1;
  area_id = none;
  location = some "筛粉间";
  quantity = pos 8;
  created_at = 2;
}

abbrev stock : Db
stock = record {
  batches = batch_one ∷ [];
  staging = in_mixing ∷ in_zone ∷ [];
  stock_records = [];
  movements = [];
  usages = [];
  suppliers = [];
  next_id = 3;
}

abbrev plant : Plant
plant = record {
  stock = stock;
  users = [];
  production_batches =
      record {
        id = 11;
        product_id = 21;
        recipe_id = some 31;
        status = in_progress;
        plan_item_id = none;
        leader_id = none;
      }
      ∷ [];
  recipes = record { id = 31; product_id = 21; is_active = true } ∷ [];
  recipe_lines =
      record {
        id = 41;
        recipe_id = 31;
        material_id = 4;
        area_id = none;
        area_name_snapshot = none;
        qty_per_batch = pos 5;
      }
      ∷ [];
  plan_items = [];
  shift_types = [];
  areas = [];
  stocktakes = [];
  executions = [];
  execution_lines = [];
  transfers = [];
  staging_records = [];
  next_id = 50;
}

stock-IsKeyed : IsKeyed stock
unfolding count
stock-IsKeyed = record {
  batch_key = λ k. ground arith;
  stock_key = λ k. ground arith;
  fresh = refl;
}

abbrev transfer : TransferDto
transfer = record { stock_id = 2; to_zone = "称油间"; quantity = pos 3; operator_id = 9; note = none }

abbrev transferred : Plant
transferred = (transfer_zone 5 transfer plant).1

abbrev transfer_row : Transfer
transfer_row = record {
  stock_id = 2;
  batch_id = 1;
  from_zone = some "筛粉间";
  to_zone = "称油间";
  quantity = pos 3;
  operator_id = 9;
  note = none;
}

transfer_runs : (transfer_zone 5 transfer plant).0 ≡ ok transfer_row
unfolding transfer_zone any find_first write_transfer move_stock
transfer_runs = refl

transfer_zone-Changes_example :
    (source : Stock) × (find_first (stock_is 2) stock.staging ≡ some source)
    × (pos 1 ≤ℤ pos 3)
    × (pos 3 ≤ℤ source.quantity)
    × (is_text "称油间" source.location ≡ false)
    × ((place : Place)
        → held place transferred.stock
          ≡ held place stock
            +ℤ (pos 0 -ℤ counted place source.batch_id source.location (pos 3))
            +ℤ counted place source.batch_id (some "称油间") (pos 3))
    × ((k : ℕ) → Changes k no_change stock transferred.stock)
transfer_zone-Changes_example =
    transfer_zone-Changes 5 transfer plant transfer_row stock-IsKeyed transfer_runs

recommend-Covers_example : Covers (pos 35) stock.staging (recommend (pos 35) stock.staging)
unfolding count
recommend-Covers_example = recommend-Covers (pos 35) stock.staging (omega arith) refl

short_runs : ltb_ℤ (pos 0) (recommend (pos 40) stock.staging).shortage ≡ true
unfolding recommend ◌-ℤ◌
short_runs = refl

recommend-short_example : AllTaken stock.staging (recommend (pos 40) stock.staging).recommendations
recommend-short_example = recommend-short (pos 40) stock.staging short_runs

plant-IsUnique : IsUnique plant
unfolding count
plant-IsUnique = record { once = λ dto. omega arith }

abbrev area_count : AreaStocktakeDto
area_count = record {
  area_id = 6;
  work_date = 1;
  shift_type_id = 2;
  kind = shift_start;
  team_id = none;
  operator_id = none;
  items = record { batch_id = 1; actual_quantity = pos 30; note = none } ∷ [];
}

confirm_area_stocktake-IsUnique_example : IsUnique (confirm_area_stocktake 9 area_count plant).1
confirm_area_stocktake-IsUnique_example =
    confirm_area_stocktake-IsUnique 9 area_count plant plant-IsUnique

abbrev mixing : CreateExecutionDto
mixing = record {
  recipe_id = 31;
  product_id = 21;
  area_id = 6;
  shift_type_id = none;
  work_date = 86_400_000;
  actual_weight = pos 5;
  production_batch_id = some 11;
  lines =
      record {
        recipe_line_id = 41;
        material_batch_id = 1;
        actual_quantity = pos 5;
        manual_override = false;
        override_reason = none;
      }
      ∷ [];
}

abbrev mixing_done : Plant
mixing_done = (create_execution 7 mixing none plant).1

mixing_runs :
    ((create_execution 7 mixing none plant).0 ≡ ok 50)
    × (staged 1 mixing_done.stock ≡ pos 33)
    × (used 1 mixing_done.stock ≡ pos 5)
    × (hand 1 mixing_done.stock ≡ pos 70)
unfolding create_execution create_attempts do_create_execution dedup any find_first check_shift
    check_link check_plan_item add_execution for_each execute_line consume_stock count add_line
    staged hand used sum_by create_from_mixing_line update_many generate_execution_no ◌+ℤ◌ ◌-ℤ◌
mixing_runs = (refl, refl, refl, refl)

create_execution-conserves_example :
    (staged 1 mixing_done.stock +ℤ mixed 1 mixing_done ≡ staged 1 stock +ℤ mixed 1 plant)
    × (hand 1 mixing_done.stock ≡ hand 1 stock)
    × (used 1 mixing_done.stock +ℤ bridged (some 11) (mixed 1 plant)
        ≡ used 1 stock +ℤ bridged (some 11) (mixed 1 mixing_done))
create_execution-conserves_example =
    create_execution-conserves 1 7 mixing none plant 50 stock-IsKeyed mixing_runs.0

abbrev direct : CreateUsageDto
direct = record {
  production_batch_id = 11;
  material_batch_id = 1;
  recipe_line_id = 41;
  quantity = pos 5;
}

direct_runs :
    (usage.create direct none plant).0
    ≡ ok (
        usage.new_usage direct
          (record {
            id = 41;
            recipe_id = 31;
            material_id = 4;
            area_id = none;
            area_name_snapshot = none;
            qty_per_batch = pos 5;
          })
          50)
unfolding usage.create usage.check_ownership usage.check_usage find_first usage.write_usage
    update_batch count
direct_runs = refl

create-Changes_example :
    Changes 1 (direct_use 1 1 (pos 5)) stock (usage.create direct none plant).1.stock
create-Changes_example =
    create-Changes 1 direct none plant
      (usage.new_usage direct
        (record {
          id = 41;
          recipe_id = 31;
          material_id = 4;
          area_id = none;
          area_name_snapshot = none;
          qty_per_batch = pos 5;
        })
        50)
      stock-IsKeyed direct_runs

abbrev used_directly : Plant
used_directly = (usage.create direct none plant).1

abbrev use_row : Usage
use_row = record {
  id = 50;
  production_batch_id = 11;
  material_batch_id = 1;
  recipe_line_id = some 41;
  area_id = none;
  area_name_snapshot = none;
  quantity = pos 5;
  execution_line_id = none;
}

use_found : find_first (usage_is 50) used_directly.stock.usages ≡ some use_row
unfolding usage.create usage.check_ownership usage.check_usage find_first usage.write_usage
    update_batch count
use_found = refl

one_use : count (usage_is 50) used_directly.stock.usages ≤ 1
unfolding usage.create usage.check_ownership usage.check_usage find_first usage.write_usage
    update_batch count
one_use = omega arith

remove_runs : (usage.remove 50 used_directly).0 ≡ ok tt
unfolding usage.create usage.check_ownership usage.check_usage find_first usage.write_usage
    update_batch count usage.remove update_many
remove_runs = refl

remove-Changes_example :
    (use_row.execution_line_id ≡ none)
    × Changes 1 (undo_use 1 1 (pos 5)) used_directly.stock (usage.remove 50 used_directly).1.stock
remove-Changes_example =
    remove-Changes 1 50 used_directly use_row create-Changes_example.keyed one_use use_found
      remove_runs

abbrev linked_plant : Plant
linked_plant = (linked.create direct none plant).1

none_linked : count (usage_is 50) stock.usages ≡ 0
unfolding count
none_linked = refl

link_runs : (linked.create direct none plant).0 ≡ ok use_row
unfolding linked.create usage.check_ownership linked.check_rows find_first
link_runs = refl

unlink_runs : (usage.remove 50 linked_plant).0 ≡ ok tt
unfolding linked.create usage.check_ownership linked.check_rows find_first update_batch count
    usage.remove update_many
unlink_runs = refl

remove-create-Changes_example :
    Changes 1 (by_hand (pos 5)) stock (usage.remove 50 linked_plant).1.stock
remove-create-Changes_example =
    linked.remove-create-Changes 1 direct none plant use_row stock-IsKeyed none_linked link_runs
      unlink_runs
