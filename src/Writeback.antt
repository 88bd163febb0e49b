-- ===== src/Writeback.antt =====
-- Write-back proposals: the classes of backend/app/domain_models/writeback.py and the write-back
-- statements of `ReviewRepository` (backend/app/data/repositories/review.py).
pub mod Apply
pub mod Flow
pub mod Accepted
pub mod Marks
pub mod Decisions
pub mod Gate
use ai_writing.Common.{
  ℕ, ◌≡◌, refl, Bool, ◌&&◌, not, Option, none, some, List, [], ◌∷◌, ◌++◌, map, Str, codes, str_lt,
  Eq, ◌==◌, list_eq, nat_eq, if◌then◌else◌,
}
use ai_writing.Common.Results.{Result, err}
use ai_writing.Data.Errors.{Action, value_error}
use ai_writing.Data.Json.{Fields}
use ai_writing.Data.RecordId.{make_record_id}
use ai_writing.Review.{ReviewStatus, pending_review, accepted, superseded, review_status_eq}
use ai_writing.Review.Status.{Reviewable, has_key, get, has_key_and_status, update_status}
use ai_writing.Sql.{select, update, rowcount, order_by}

-- `WritebackTarget`
pub data Target : Type 0 where
  canon_entity memory_record narrative_relation : Target
  story_thread story_thread_event story_thread_status : Target

unfoldable pub Target-discrete : Discrete Target
Target-discrete = hlevel

instance abbrev pub target_eq : Eq Target
target_eq = record { dec = Target-discrete }

unfoldable pub target_name : Target → Str
target_name canon_entity = codes "canon_entity"
target_name memory_record = codes "memory_record"
target_name narrative_relation = codes "narrative_relation"
target_name story_thread = codes "story_thread"
target_name story_thread_event = codes "story_thread_event"
target_name story_thread_status = codes "story_thread_status"

-- `WritebackAction`
pub data WritebackAction : Type 0 where
  create_action update_action : WritebackAction

unfoldable pub WritebackAction-discrete : Discrete WritebackAction
WritebackAction-discrete = hlevel

instance abbrev pub action_eq : Eq WritebackAction
action_eq = record { dec = WritebackAction-discrete }

-- `dict[str, dict[str, str]]`, in insertion order.
abbrev pub Changes : Type 0
Changes = List (Str × List (Str × Str))

-- `WritebackProposalCreate`
pub record ProposalCreate : Type 0 where
  pub target : Target
  pub action : WritebackAction
  pub title : Str
  pub rationale : Str
  pub payload : Fields
  pub source_ref : Str
  pub target_record_id : Str
  pub expected_version : Option ℕ
  pub changes : Changes

-- `WritebackProposal`
pub record WritebackProposal : Type 0 where
  pub id : Str
  pub project_id : Str
  pub proposal : ProposalCreate
  pub status : ReviewStatus
  pub created_at : Str
  pub reviewed_at : Str
  pub applied_record_id : Str

-- `SET status = ?, reviewed_at = ?`
abbrev pub set_review : ReviewStatus → Str → WritebackProposal → WritebackProposal
set_review s now p = record p { status = s; reviewed_at = now }

instance abbrev pub writeback_reviewable : Reviewable WritebackProposal
writeback_reviewable = record {
  id = λ p. p.id;
  project_id = λ p. p.project_id;
  status = λ p. p.status;
  set_review = set_review;
  id-set_review = λ s now p. refl;
  project_id-set_review = λ s now p. refl;
  status-set_review = λ s now p. refl;
}

-- `ORDER BY created_at DESC, id DESC`
unfoldable pub list_writebacks : Str → List WritebackProposal → List WritebackProposal
list_writebacks project_id t =
    order_by
      (λ a b.
        if a.created_at == b.created_at then str_lt b.id a.id else str_lt b.created_at a.created_at)
      (select (λ p. p.project_id == project_id) t)

unfoldable pub get_writeback : Str → Str → List WritebackProposal → Option WritebackProposal
get_writeback project_id id = get project_id id

-- The loop of `create_writeback_batch`: every new id is added to the ids that are taken.
unfoldable pub new_batch : Str → Str → List Str → List ProposalCreate → List WritebackProposal
new_batch project_id now existing [] = []
new_batch project_id now existing (p ∷ ps) =
    let created : WritebackProposal = record {
      id =
          make_record_id
            (project_id ++ codes "-writeback-" ++ target_name p.target ++ codes "-" ++ p.title)
            existing;
      project_id = project_id;
      proposal = p;
      status = pending_review;
      created_at = now;
      reviewed_at = [];
      applied_record_id = [];
    } in
    created ∷ new_batch project_id now (created.id ∷ existing) ps

unfoldable pub create_writeback_batch :
    Str
    → List ProposalCreate
    → Str
    → List WritebackProposal
    → List WritebackProposal × List WritebackProposal
create_writeback_batch project_id ps now t =
    let created = new_batch project_id now (map (λ (p : WritebackProposal). p.id) t) ps in
    (created, t ++ created)

-- The pending updates of one canon record, but one proposal.
abbrev pub is_sibling : Str → Str → Str → WritebackProposal → Bool
is_sibling project_id keep_id record_id p =
    p.project_id == project_id
    && not (p.id == keep_id)
    && p.status == pending_review
    && p.proposal.target == canon_entity
    && p.proposal.action == update_action
    && p.proposal.target_record_id == record_id

unfoldable pub supersede_pending_for_target :
    Str → Str → Str → Str → List WritebackProposal → ℕ × List WritebackProposal
supersede_pending_for_target project_id keep_id record_id now t =
    let p = is_sibling project_id keep_id record_id in
    (rowcount p t, update p (set_review superseded now) t)

unfoldable pub supersede_pending_for_source :
    Str → Str → Str → List WritebackProposal → ℕ × List WritebackProposal
supersede_pending_for_source project_id source_ref now t =
    let p : WritebackProposal → Bool = λ p.
      p.project_id == project_id
      && p.proposal.source_ref == source_ref
      && p.status == pending_review in
    (rowcount p t, update p (set_review superseded now) t)

-- `SET status = 'accepted', reviewed_at = ?, applied_record_id = ?`
abbrev pub set_accepted : Str → Str → WritebackProposal → WritebackProposal
set_accepted applied_id now p = record p {
  status = accepted;
  reviewed_at = now;
  applied_record_id = applied_id;
}

unfoldable pub mark_writeback_accepted :
    Str → Str → Str → Str → List WritebackProposal → ℕ × List WritebackProposal
mark_writeback_accepted project_id id applied_id now t =
    let p = has_key_and_status project_id id pending_review in
    (rowcount p t, update p (set_accepted applied_id now) t)

unfoldable pub update_writeback_status :
    Str → Str → ReviewStatus → Str → Action (List WritebackProposal) (Option WritebackProposal)
update_writeback_status =
    update_status (codes "Write-back proposal")
      (λ t. err (value_error (codes "Write-back proposal changed concurrently; retry.")))
