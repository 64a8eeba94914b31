-- ===== src/Approval/Metadata.antt =====
-- server/src/modules/unified-approval/approval-action-metadata.validator.ts: what an approver may
-- send along with a decision. An absent `metadata` is the empty one.
use Prim.Native.String.{◌++◌ as concat}
use noidear.Base.{String, Bool, Option, none, some, [], ◌∷◌, find_first, str_eq, if◌then◌else◌}
use noidear.Base.Action.{Result, ok, err, bad_request}
use noidear.Approval.Text.{trim, is_empty}
use noidear.Approval.Db.{Metadata, MetaValue, text_value, null_value, other_value}

-- The decision of an approver, `'APPROVED' | 'REJECTED'`.
pub data Decision : Type 0 where
  to_approve to_reject : Decision

abbrev decision_text : Decision → String
decision_text to_approve = "APPROVED"
decision_text to_reject = "REJECTED"

pub record ValidationContext : Type 0 where
  pub resource_type : String
  pub trigger_key : String
  pub step_key : String
  pub decision : Decision
  pub comment : String
  pub metadata : Metadata

abbrev has_key : String → String × MetaValue → Bool
has_key field entry = str_eq entry.0 field

abbrev value_of : Option (String × MetaValue) → MetaValue
value_of none = null_value
value_of (some entry) = entry.1

abbrev pub get_value : Metadata → String → MetaValue
get_value metadata field = value_of (find_first (has_key field) metadata)

abbrev keep_text : String → MetaValue → Result Metadata
keep_text field null_value = ok []
keep_text field other_value = err (bad_request "must be a string")
keep_text field (text_value t) = ok (if is_empty t then [] else (field, text_value t) ∷ [])

unfoldable pub optional_string_object : Metadata → String → Result Metadata
optional_string_object metadata field = keep_text field (get_value metadata field)

abbrev required_text : String → String → MetaValue → Result String
required_text fallback message value =
    let last : Result String =
      if is_empty (trim fallback) then err (bad_request message) else ok (trim fallback) in
    elim value [
      | text_value t ↦ if is_empty (trim t) then last else ok (trim t)
      | null_value ↦ last
      | other_value ↦ last
    ]

unfoldable pub require_string_with_fallback : Metadata → String → String → String → Result String
require_string_with_fallback metadata field fallback message =
    required_text fallback message (get_value metadata field)

abbrev reason_entry : Result String → Result Metadata
reason_entry (ok t) = ok (("rejectReason", text_value t) ∷ [])
reason_entry (err e) = err e

-- `Object.keys(metadata).length > 0` without a rule is refused.
abbrev no_rule : Metadata → Result Metadata
no_rule [] = ok []
no_rule (_ ∷ _) = err (bad_request "No approval action metadata rule registered")

abbrev pub rule_key : ValidationContext → String
rule_key c = concat c.resource_type (
    concat ":" (
      concat c.trigger_key
        (concat ":" (concat c.step_key (concat ":" (decision_text c.decision))))))

unfoldable pub validate : ValidationContext → Result Metadata
validate c =
    let key = rule_key c in
    if str_eq key "maintenance_record:submit:maintenance-record:APPROVED"
    then optional_string_object c.metadata "reviewerSignature"
    else if str_eq key "maintenance_record:submit:maintenance-record:REJECTED"
    then reason_entry (require_string_with_fallback c.metadata "rejectReason" c.comment "驳回原因不能为空")
    else if str_eq key "product_recall:submit:product-recall-review:APPROVED"
    then optional_string_object c.metadata "review_note"
    else if str_eq key "product_recall:submit:product-recall-review:REJECTED"
    then optional_string_object c.metadata "review_note"
    else if str_eq key "deviation_report:submit:deviation-submit:REJECTED"
    then optional_string_object c.metadata "rejectReason"
    else no_rule c.metadata
