-- ===== src/Manuscript.antt =====
-- The manuscript: chapters, reviewed proposals, the accepted scenes and their revisions
-- (backend/app/data/repositories/manuscript.py and the classes of
-- backend/app/domain_models/manuscript.py). A table is the list of its rows in rowid order, and `now`
-- is what `utc_now()` returns during the call. The arguments are values that the model classes have
-- accepted; foreign keys are left to the callers.
pub mod Chapters
pub mod Proposals
pub mod Scenes
pub mod Jobs
pub mod Flows
pub mod History
pub mod Committed
pub mod Edits
pub mod Saves
pub mod Versions
pub mod Pipeline
pub mod Acceptance
use ai_writing.Common.{ℕ, Bool, Option, List, Str, ◌&&◌, ◌==◌, list_eq, nat_eq}
use ai_writing.Data.Json.{Fields}
use ai_writing.Review.{ReviewStatus}
use ai_writing.Outbox.{Table}

-- `ManuscriptChapter`
pub record Chapter : Type 0 where
  pub id : Str
  pub project_id : Str
  pub sequence : ℕ
  pub title : Str
  pub summary : Str

-- `ManuscriptProposal`
pub record Proposal : Type 0 where
  pub id : Str
  pub project_id : Str
  pub scene_id : Str
  pub source : Str
  pub title : Str
  pub content : Str
  pub context : Str
  pub checklist : List Str
  pub status : ReviewStatus
  pub created_at : Str
  pub reviewed_at : Str
  pub generation_review : Option Fields

-- `ManuscriptScene`: the accepted prose of one scene contract.
pub record Scene : Type 0 where
  pub id : Str
  pub project_id : Str
  pub scene_id : Str
  pub proposal_id : Str
  pub title : Str
  pub content : Str
  pub version : ℕ
  pub accepted_at : Str

-- `ManuscriptRevision`
pub record Revision : Type 0 where
  pub id : Str
  pub project_id : Str
  pub scene_id : Str
  pub proposal_id : Str
  pub title : Str
  pub content : Str
  pub version : ℕ
  pub created_at : Str

-- The columns of `scene_contracts` that the manuscript reads or writes.
pub record Contract : Type 0 where
  pub id : Str
  pub project_id : Str
  pub sequence : ℕ
  pub plan_version : ℕ
  pub manuscript_plan_version : ℕ

-- The tables that a manuscript flow touches.
pub record Store : Type 0 where
  pub proposals : List Proposal
  pub scenes : List Scene
  pub revisions : List Revision
  pub contracts : List Contract
  pub jobs : Table
