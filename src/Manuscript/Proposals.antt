-- ===== src/Manuscript/Proposals.antt =====
-- The proposals of `ManuscriptRepository` (backend/app/data/repositories/manuscript.py), which are
-- reviewed by way of the shared status write.
use ai_writing.Common.{
  refl, Bool, ◌&&◌, not, Option, List, [], ◌∷◌, ◌++◌, map, Str, codes, str_lt, ◌==◌, list_eq,
  nat_eq, if◌then◌else◌,
}
use ai_writing.Common.Results.{err}
use ai_writing.Data.Errors.{Action, value_error}
use ai_writing.Data.Json.{Fields}
use ai_writing.Data.RecordId.{make_record_id}
use ai_writing.Review.{ReviewStatus, pending_review, superseded, review_status_eq}
use ai_writing.Review.Status.{Reviewable, has_key, get, update_status}
use ai_writing.Sql.{select, update, order_by}
use ai_writing.Manuscript.{Proposal}

-- `SET status = ?, reviewed_at = ?`
abbrev pub set_review : ReviewStatus → Str → Proposal → Proposal
set_review s now p = record p { status = s; reviewed_at = now }

instance abbrev pub proposal_reviewable : Reviewable Proposal
proposal_reviewable = record {
  id = λ p. p.id;
  project_id = λ p. p.project_id;
  status = λ p. p.status;
  set_review = set_review;
  id-set_review = λ s now p. refl;
  project_id-set_review = λ s now p. refl;
  status-set_review = λ s now p. refl;
}

-- `ORDER BY created_at DESC, id DESC`
unfoldable pub list_proposals : Str → List Proposal → List Proposal
list_proposals project_id t =
    order_by
      (λ a b.
        if a.created_at == b.created_at then str_lt b.id a.id else str_lt b.created_at a.created_at)
      (select (λ p. p.project_id == project_id) t)

unfoldable pub get_proposal : Str → Str → List Proposal → Option Proposal
get_proposal project_id id = get project_id id

-- `ManuscriptProposalCreate`
pub record ProposalCreate : Type 0 where
  pub scene_id : Str
  pub source : Str
  pub title : Str
  pub content : Str
  pub context : Str
  pub checklist : List Str
  pub generation_review : Option Fields

unfoldable pub create_proposal :
    Str → ProposalCreate → Str → List Proposal → Proposal × List Proposal
create_proposal project_id proposal now t =
    let created : Proposal = record {
      id =
          make_record_id (project_id ++ codes "-proposal-" ++ proposal.title)
            (map (λ (p : Proposal). p.id) t);
      project_id = project_id;
      scene_id = proposal.scene_id;
      source = proposal.source;
      title = proposal.title;
      content = proposal.content;
      context = proposal.context;
      checklist = proposal.checklist;
      status = pending_review;
      created_at = now;
      reviewed_at = [];
      generation_review = proposal.generation_review;
    } in
    (created, t ++ created ∷ [])

-- The unconditional write of the accept flow.
unfoldable pub set_proposal_status : Str → Str → ReviewStatus → Str → List Proposal → List Proposal
set_proposal_status project_id id s now = update (has_key project_id id) (set_review s now)

-- The pending proposals of a scene, but one.
abbrev pub is_sibling : Str → Str → Str → Proposal → Bool
is_sibling project_id scene_id except_id p =
    p.project_id == project_id
    && p.scene_id == scene_id
    && not (p.id == except_id)
    && p.status == pending_review

unfoldable pub supersede_pending_for_scene : Str → Str → Str → Str → List Proposal → List Proposal
supersede_pending_for_scene project_id scene_id except_id now =
    update (is_sibling project_id scene_id except_id) (set_review superseded now)

unfoldable pub update_proposal_status :
    Str → Str → ReviewStatus → Str → Action (List Proposal) (Option Proposal)
update_proposal_status =
    update_status (codes "Manuscript proposal")
      (λ t. err (value_error (codes "Manuscript proposal changed concurrently; retry.")))
