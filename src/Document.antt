-- ===== src/Document.antt =====
-- References between documents: server/src/modules/document/services/document-reference.service.ts,
-- `createReference` and what it calls, with the tables of server/src/prisma/schema.prisma that it
-- uses. A snapshot, the labels and the kind of relation are left out: no code here reads them.
pub mod Search
pub mod Acyclic
pub mod Separates
pub mod Added
pub mod Creates
pub mod Decides
pub mod Depth
mod Examples
use noidear.Base.{
  ℕ, zero, suc, ◌+◌, String, Bool, true, false, not, ◌&&◌, Option, none, some, List, [], ◌∷◌, ◌++◌,
  ◌==◌, str_eq, leb, any, find_first, find_many, is_some_of, includes, length, if◌then◌else◌,
  get_or,
}
use noidear.Base.Action.{
  Action, ok, err, bad_request, not_found, internal, gets, or_throw, throw_if, ◌>>=◌, ◌>>◌, pure,
}

pub record Document : Type 0 where
  pub id : ℕ
  pub is_deleted : Bool

-- `document`, or one of the other texts
pub data TargetType : Type 0 where
  document : TargetType
  other : String → TargetType

pub record Reference : Type 0 where
  pub source_doc_id : ℕ
  pub target_doc_id : Option ℕ
  pub target_type : TargetType
  pub target_id : Option ℕ
  pub target_route : Option String
  pub section_id : Option ℕ

pub record Db : Type 0 where
  pub documents : List Document
  pub references : List Reference

pub record ReferenceDto : Type 0 where
  pub target_type : TargetType
  pub target_doc_id : Option ℕ
  pub target_id : Option ℕ
  pub target_route : Option String
  pub section_id : Option ℕ

abbrev pub is_document : TargetType → Bool
is_document document = true
is_document (other _) = false

abbrev pub is_live : ℕ → Document → Bool
is_live k d = d.id == k && not d.is_deleted

abbrev pub starts_at : ℕ → Reference → Bool
starts_at k r = r.source_doc_id == k

-- `findMany({ where: { sourceDocId } })`, the targets that are documents
unfoldable pub targets : ℕ → List Reference → List ℕ
targets k [] = []
targets k (r ∷ rs) =
    let rest = targets k rs in
    if starts_at k r then elim r.target_doc_id [ none ↦ rest | some t ↦ t ∷ rest ] else rest

-- How the `while` of `validateNoCircularReference` ends; `spent` is the fuel's, not the source's.
pub data Verdict : Type 0 where
  circular clear spent : Verdict

abbrev pub unvisited : List ℕ → List ℕ → List ℕ
unvisited visited ks = find_many (λ k. not (includes k visited)) ks

-- One round for each unit of fuel; the queue is a list, with its front first.
unfoldable pub search : List Reference → ℕ → ℕ → List ℕ → List ℕ → Verdict
search refs source fuel visited [] = clear
search refs source zero visited (current ∷ queue) = spent
search refs source (suc fuel) visited (current ∷ queue) = elim (includes current visited) [
  | true ↦ search refs source fuel visited queue
  | false ↦ elim (current == source) [
    | true ↦ circular
    | false ↦
        search refs source fuel (current ∷ visited)
          (queue ++ unvisited (current ∷ visited) (targets current refs))
  ]
]

-- Each reference is followed once at most, so a round for each and one for the target are enough.
abbrev pub find_circle : List Reference → ℕ → ℕ → Verdict
find_circle refs source target = search refs source (length refs + 1) [] (target ∷ [])

unfoldable pub validate_no_circular_reference : ℕ → ℕ → Action Db (Unit {0})
validate_no_circular_reference source target s = elim (find_circle s.references source target) [
  | circular ↦ (err (bad_request "检测到循环引用"), s)
  | clear ↦ (ok tt, s)
  | spent ↦ (err (internal "fuel"), s)
]

abbrev pub max_depth : ℕ
max_depth = 2

-- The loop of `calculateDepth` over the targets, with the calls on them as `depth`
unfoldable pub deepest : (ℕ → ℕ) → ℕ → List ℕ → ℕ
deepest depth d [] = d
deepest depth d (t ∷ ts) =
    let rest = deepest depth d ts in if leb (depth t) rest then rest else depth t

-- `left` is how far the depth is below the limit.
unfoldable pub calculate_depth : List Reference → ℕ → ℕ → ℕ → ℕ
calculate_depth refs zero id depth = depth
calculate_depth refs (suc left) id depth =
    deepest (λ t. calculate_depth refs left t (depth + 1)) depth (targets id refs)

unfoldable pub validate_depth_limit : ℕ → Action Db (Unit {0})
validate_depth_limit target s = (
  if leb max_depth (calculate_depth s.references max_depth target 0)
      then err (bad_request "引用深度超过限制")
      else ok tt,
  s,
)

abbrev pub new_reference : ℕ → ReferenceDto → Option ℕ → Reference
new_reference source dto target = record {
  source_doc_id = source;
  target_doc_id = target;
  target_type = dto.target_type;
  target_id = elim dto.target_id [ none ↦ dto.target_doc_id | some k ↦ some k ];
  target_route = dto.target_route;
  section_id = dto.section_id;
}

abbrev pub same_id : Option ℕ → Option ℕ → Bool
same_id none o = false
same_id (some k) o = is_some_of k o

abbrev pub same_text : Option String → Option String → Bool
same_text none o = false
same_text (some t) none = false
same_text (some t) (some u) = str_eq t u

abbrev pub same_type : TargetType → TargetType → Bool
same_type document document = true
same_type (other a) (other b) = str_eq a b
same_type _ _ = false

-- The unique index; a missing value equals none.
abbrev pub repeats : Reference → Reference → Bool
repeats a b =
    a.source_doc_id == b.source_doc_id
    && same_type a.target_type b.target_type
    && same_id a.target_id b.target_id
    && same_text a.target_route b.target_route
    && same_id a.section_id b.section_id

-- What the database refuses is thrown on as a bad request.
unfoldable pub insert_reference : Reference → Action Db Reference
insert_reference r s =
    if any (repeats r) s.references
    then (err (bad_request "创建文档引用失败"), s)
    else (ok r, record s { references = s.references ++ r ∷ [] })

unfoldable pub check_target : ℕ → ℕ → Action Db (Unit {0})
check_target source target = do
  found ← gets (λ s. find_first (is_live target) s.documents)
  or_throw found (not_found "目标文档不存在")
  throw_if (source == target) (bad_request "不能引用自身文档")
  validate_no_circular_reference source target
  validate_depth_limit target

abbrev pub lacks_target : ReferenceDto → Bool
lacks_target dto = elim dto.target_id [
  | some k ↦ false
  | none ↦ elim dto.target_route [ some t ↦ false | none ↦ true ]
]

unfoldable pub check_reference : ℕ → ReferenceDto → Action Db (Option ℕ)
check_reference source dto =
    if is_document dto.target_type
    then (do
      target ← or_throw dto.target_doc_id (bad_request "document target requires targetDocId")
      check_target source target
      pure (some target))
    else (do
      throw_if (lacks_target dto)
          (bad_request "non-document target requires targetId or targetRoute")
      pure none)

unfoldable pub create_reference : ℕ → ReferenceDto → Action Db Reference
create_reference source dto = do
  found ← gets (λ s. find_first (is_live source) s.documents)
  or_throw found (not_found "源文档不存在")
  target ← check_reference source dto
  insert_reference (new_reference source dto target)
