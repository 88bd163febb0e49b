-- ===== src/Scene/Proposals.antt =====
-- Scene proposals: `SceneProposalRepository` and the functions beside it
-- (backend/app/data/repositories/scene_proposals.py), and the classes of
-- backend/app/domain_models/compiler.py.
use mathlib.Core.List.{reverse}
use ai_writing.Common.{
  ℕ, ◌+◌, ◌*◌, ◌-◌, refl, Bool, true, false, ◌&&◌, ◌||◌, not, Option, none, some, List, [], ◌∷◌,
  ◌++◌, map, Str, codes, is_empty, leb, str_lt, ℤ, integer_eq, integer_lt, contains, ◌==◌, list_eq,
  nat_eq, if◌then◌else◌, Eq,
}
use ai_writing.Common.Results.{Result}
use ai_writing.Data.Errors.{Action, Error, value_error, raise}
use ai_writing.Data.Json.{Fields}
use ai_writing.Data.RecordId.{make_record_id}
use ai_writing.Canon.{strip}
use ai_writing.Review.{ReviewStatus, pending_review, accepted, superseded, review_status_eq}
use ai_writing.Review.Status
use ai_writing.Review.Status.{Reviewable}
use ai_writing.Sql.{select, update, rowcount, order_by}
use ai_writing.Scene.{SceneFields, sequence_text, validate}

pub data Operation : Type 0 where
  create_scene update_scene : Operation

unfoldable pub Operation-discrete : Discrete Operation
Operation-discrete = hlevel

instance abbrev pub operation_eq : Eq Operation
operation_eq = record { dec = Operation-discrete }

-- `SceneProposalCreate`
pub record ProposalCreate : Type 0 where
  pub operation : Operation
  pub source_record_id : Str
  pub source_record_revision_id : Str
  pub target_scene_id : Str
  pub expected_plan_version : ℕ
  pub changes : Fields
  pub sequence : ℤ
  pub chapter_id : Str
  pub chapter_hint : Str
  pub title : Str
  pub pov : Str
  pub goal : Str
  pub conflict : Str
  pub turning_point : Str
  pub outcome : Str
  pub required_canon_ids : Str
  pub required_canon_raw : Str
  pub forbidden_fact_refs : Str
  pub information_delta : Str
  pub character_state_delta : Str
  pub story_thread_actions : Str
  pub open_threads : Str
  pub source_ref : Str
  pub source_excerpt : Str
  pub warnings : List Str
  pub blocking_errors : List Str

pub record SceneProposal : Type 0 where
  pub id : Str
  pub project_id : Str
  pub create : ProposalCreate
  pub status : ReviewStatus
  pub applied_scene_id : Str
  pub created_at : Str
  pub reviewed_at : Str

-- `SET status = ?, reviewed_at = ?`
unfoldable pub set_review : ReviewStatus → Str → SceneProposal → SceneProposal
set_review s now p = record p { status = s; reviewed_at = now }

instance abbrev pub scene_proposal_reviewable : Reviewable SceneProposal
unfolding set_review
scene_proposal_reviewable = record {
  id = λ p. p.id;
  project_id = λ p. p.project_id;
  status = λ p. p.status;
  set_review = set_review;
  id-set_review = λ s now p. refl;
  project_id-set_review = λ s now p. refl;
  status-set_review = λ s now p. refl;
}

-- The parts that are not blank, stripped.
abbrev parts : List Str → List Str
parts [] = []
parts (s ∷ ss) = if is_empty (strip s) then parts ss else strip s ∷ parts ss

-- `"\n".join(parts)`
abbrev join_lines : List Str → Str
join_lines [] = []
join_lines (s ∷ []) = s
join_lines (s ∷ t ∷ ss) = s ++ 10 ∷ join_lines (t ∷ ss)

unfoldable pub merge_required_canon : ProposalCreate → Str
merge_required_canon p = join_lines (parts (p.required_canon_ids ∷ p.required_canon_raw ∷ []))

-- `s.split(":")`, the part in front being read in reverse.
unfoldable pub split_colon : Str → Str → List Str
split_colon part [] = reverse part ∷ []
split_colon part (c ∷ s) =
    let next = split_colon [] s in
    let rest = split_colon (c ∷ part) s in if c == b':' then reverse part ∷ next else rest

-- `int(s)` after the sign: digits, with single underscores between them. The flag says whether the
-- last character was a digit.
unfoldable pub digits : Bool → ℕ → Str → Option ℕ
digits true acc [] = some acc
digits false acc [] = none
digits last acc (c ∷ s) =
    let number = digits true (acc * 10 + (c - b'0')) s in
    let separated = digits false acc s in
    if leb b'0' c && leb c b'9' then number else if c == b'_' && last then separated else none

abbrev unsigned : Str → Option ℕ
unsigned [] = none
unsigned (c ∷ s) = if c == b'+' then digits false 0 s else digits false 0 (c ∷ s)

-- `step if 1 <= step <= 10`, or the default; a negative number is out of range too.
abbrev in_range : Option ℕ → ℕ
in_range none = 8
in_range (some n) = if leb 1 n && leb n 10 then n else 8

abbrev third_part : List Str → Option Str
third_part (a ∷ b ∷ c ∷ []) = if a == codes "snowflake_artifact" then some c else none
third_part _ = none

abbrev parsed_step : Option Str → ℕ
parsed_step none = 8
parsed_step (some s) = in_range (unsigned (strip s))

-- For ASCII digits.
unfoldable pub step_from_source_ref : Str → ℕ
unfolding split_colon digits
step_from_source_ref source_ref = parsed_step (third_part (split_colon [] source_ref))

-- The fields of the contract, before the class is constructed.
abbrev pub contract_fields : ProposalCreate → SceneFields
contract_fields p = record {
  chapter_id = p.chapter_id;
  sequence = p.sequence;
  title = p.title;
  pov = p.pov;
  goal = p.goal;
  conflict = p.conflict;
  turning_point = p.turning_point;
  outcome = p.outcome;
  required_canon = merge_required_canon p;
  forbidden_facts = p.forbidden_fact_refs;
  information_delta = p.information_delta;
  character_state_delta = p.character_state_delta;
  story_thread_actions = p.story_thread_actions;
  open_threads = p.open_threads;
  source_artifact_step = step_from_source_ref p.source_ref;
}

unfoldable pub scene_contract_input : ProposalCreate → Result Error SceneFields
scene_contract_input p = validate (contract_fields p)

-- `ORDER BY sequence, id`, also the key of the batch's `sorted`.
unfoldable pub in_sequence : SceneProposal → SceneProposal → Bool
in_sequence a b =
    integer_lt a.create.sequence b.create.sequence
    || (a.create.sequence == b.create.sequence && str_lt a.id b.id)

-- `status is None or status = ?`
abbrev pub has_status : Option ReviewStatus → SceneProposal → Bool
has_status none p = true
has_status (some s) p = p.status == s

unfoldable pub list_proposals : Str → Option ReviewStatus → List SceneProposal → List SceneProposal
list_proposals project_id status t =
    order_by in_sequence (select (λ p. p.project_id == project_id && has_status status p) t)

unfoldable pub get_proposal : Str → Str → List SceneProposal → Option SceneProposal
get_proposal project_id id t = Status.get project_id id t

unfoldable pub new_proposal : Str → ProposalCreate → Str → Str → SceneProposal
new_proposal project_id c id now = record {
  id = id;
  project_id = project_id;
  create = c;
  status = pending_review;
  applied_scene_id = [];
  created_at = now;
  reviewed_at = [];
}

-- The rows of a batch; each id is new among those of the rows and of the batch before it.
unfoldable pub new_batch : Str → List ProposalCreate → List Str → Str → List SceneProposal
new_batch project_id [] existing now = []
new_batch project_id (c ∷ cs) existing now =
    let id =
      make_record_id
        (project_id
          ++ codes "-scene-proposal-s"
          ++ sequence_text c.sequence
          ++ codes "-"
          ++ c.title)
        existing in
    new_proposal project_id c id now ∷ new_batch project_id cs (id ∷ existing) now

unfoldable pub create_batch :
    Str → List ProposalCreate → Str → List SceneProposal → List SceneProposal × List SceneProposal
create_batch project_id cs now t =
    let batch = new_batch project_id cs (map (λ (p : SceneProposal). p.id) t) now in
    (batch, t ++ batch)

-- `WHERE project_id = ? AND source_ref = ? AND status = 'pending_review'`, less the excepted ids.
abbrev pub is_stale : Str → Str → List Str → SceneProposal → Bool
is_stale project_id source_ref except p =
    p.project_id == project_id
    && p.create.source_ref == source_ref
    && p.status == pending_review
    && not (contains except p.id)

-- The ids that are read first are those of the rows that the UPDATE meets, since an id names one row.
unfoldable pub supersede_pending :
    Str → Str → List Str → Str → List SceneProposal → ℕ × List SceneProposal
supersede_pending project_id source_ref except now t =
    let stale =
      map (λ (p : SceneProposal). p.id) (select (is_stale project_id source_ref except) t) in
    (
      rowcount (λ p. contains stale p.id) t,
      update (λ p. contains stale p.id) (set_review superseded now) t,
    )

unfoldable pub update_status :
    Str → Str → ReviewStatus → Str → Action (List SceneProposal) (Option SceneProposal)
update_status =
    Status.update_status (codes "Scene proposal")
      (raise (value_error (codes "Scene proposal changed concurrently; retry.")))

-- `WHERE project_id = ? AND id = ? AND status = 'pending_review'`
abbrev pub is_pending : Str → Str → SceneProposal → Bool
is_pending project_id id p = p.project_id == project_id && p.id == id && p.status == pending_review

abbrev pub set_accepted : Str → Str → SceneProposal → SceneProposal
set_accepted scene_id now p = record p {
  status = accepted;
  reviewed_at = now;
  applied_scene_id = scene_id;
}

unfoldable pub mark_accepted : Str → Str → Str → Str → List SceneProposal → ℕ × List SceneProposal
mark_accepted project_id id scene_id now t = (
  rowcount (is_pending project_id id) t,
  update (is_pending project_id id) (set_accepted scene_id now) t,
)
