-- ===== src/Snowflake/Artifacts.antt =====
-- `SnowflakeRepository` (backend/app/data/repositories/snowflake.py): the append-only revisions of
-- the steps, the heads that name the accepted ones, and the accepted texts.
pub mod Writes
pub mod Flow
pub mod Staleness
pub mod Acceptance
pub mod Decided
use ai_writing.Common.{
  ℕ, zero, suc, ◌+◌, Bool, true, false, ◌&&◌, ◌||◌, not, Option, none, some, List, [], ◌∷◌, ◌++◌,
  map, Str, codes, decimal, ltb, is_empty, contains, ◌==◌, list_eq, nat_eq, if◌then◌else◌, Eq,
}
use ai_writing.Common.Results.{Result, ok, err, ◌>>=◌, ◌>>◌}
use ai_writing.Data.Errors.{Error, value_error, lookup_error}
use ai_writing.Data.Json.{Fields}
use ai_writing.Sql.{select, select_one, update, rowcount, order_by, limit, offset}
use ai_writing.Snowflake.{Source, RevisionStatus, revision_status_eq, source_eq}
use ai_writing.Snowflake.Steps.{StepSpec, snowflake_step_specs, get_step_spec}
use ai_writing.Snowflake.Dependencies.{Heads, upstream_snapshot}

-- `SnowflakeHeadState`
pub data HeadState : Type 0 where
  missing approved stale skipped : HeadState

unfoldable pub HeadState-discrete : Discrete HeadState
HeadState-discrete = hlevel

instance abbrev pub head_state_eq : Eq HeadState
head_state_eq = record { dec = HeadState-discrete }

-- `SnowflakeArtifact`
pub record Artifact : Type 0 where
  pub project_id : Str
  pub step_number : ℕ
  pub artifact : Str
  pub content : Str

-- `SnowflakeArtifactRevisionCreate`
pub record ArtifactCreate : Type 0 where
  pub step_number : ℕ
  pub content : Str
  pub structured_payload : Fields
  pub schema_version : ℕ
  pub parent_revision_id : Str
  pub base_head_revision_id : Str
  pub source : Source

-- `SnowflakeArtifactRevision`
pub record ArtifactRevision : Type 0 where
  pub id : Str
  pub project_id : Str
  pub step_number : ℕ
  pub artifact_type : Str
  pub revision_no : ℕ
  pub source : Source
  pub status : RevisionStatus
  pub content : Str
  pub structured_payload : Fields
  pub schema_version : ℕ
  pub parent_revision_id : Str
  pub base_head_revision_id : Str
  pub upstream : Heads
  pub review_reason : Str
  pub created_at : Str
  pub reviewed_at : Str

-- `SnowflakeArtifactHead`
pub record ArtifactHead : Type 0 where
  pub project_id : Str
  pub step_number : ℕ
  pub accepted_revision_id : Str
  pub state : HeadState
  pub stale_reason : Str
  pub stale_trigger_revision_id : Str

pub record Snowflake : Type 0 where
  pub artifacts : List Artifact
  pub revisions : List ArtifactRevision
  pub heads : List ArtifactHead

-- `WHERE project_id = ? AND step_number = ?`
abbrev pub is_artifact : Str → ℕ → Artifact → Bool
is_artifact project_id step a = a.project_id == project_id && a.step_number == step

abbrev pub is_head : Str → ℕ → ArtifactHead → Bool
is_head project_id step h = h.project_id == project_id && h.step_number == step

abbrev pub is_of : Str → ℕ → ArtifactRevision → Bool
is_of project_id step r = r.project_id == project_id && r.step_number == step

-- `WHERE project_id = ? AND id = ?`
abbrev pub has_id : Str → Str → ArtifactRevision → Bool
has_id project_id id r = r.project_id == project_id && r.id == id

unfoldable pub list_by_project : Str → Snowflake → List Artifact
list_by_project project_id s =
    order_by (λ a b. ltb a.step_number b.step_number)
      (select (λ a. a.project_id == project_id) s.artifacts)

unfoldable pub get : Str → ℕ → Snowflake → Option Artifact
get project_id step s = select_one (is_artifact project_id step) s.artifacts

-- `ON CONFLICT(project_id, step_number) DO UPDATE`
unfoldable pub update_accepted_projection : Artifact → Snowflake → Snowflake
update_accepted_projection a s = record s {
  artifacts =
      if rowcount (is_artifact a.project_id a.step_number) s.artifacts == 0
      then s.artifacts ++ a ∷ []
      else update (is_artifact a.project_id a.step_number)
          (λ old. record old { artifact = a.artifact; content = a.content }) s.artifacts;
}

unfoldable pub accepted_head_ids : Str → Snowflake → Heads
accepted_head_ids project_id s =
    map (λ (h : ArtifactHead). (h.step_number, h.accepted_revision_id))
      (select (λ h. h.project_id == project_id && not (is_empty h.accepted_revision_id)) s.heads)

-- The head of a step that has no row.
abbrev pub missing_head : Str → ℕ → ArtifactHead
missing_head project_id step = record {
  project_id = project_id;
  step_number = step;
  accepted_revision_id = [];
  state = missing;
  stale_reason = [];
  stale_trigger_revision_id = [];
}

abbrev pub head_or : ArtifactHead → Option ArtifactHead → ArtifactHead
head_or h none = h
head_or h (some row) = row

unfoldable pub get_head : Str → ℕ → Snowflake → ArtifactHead
get_head project_id step s =
    head_or (missing_head project_id step) (select_one (is_head project_id step) s.heads)

unfoldable pub list_heads : Str → Snowflake → List ArtifactHead
list_heads project_id s =
    map (λ (x : StepSpec). get_head project_id x.number s) snowflake_step_specs

unfoldable pub get_revision : Str → Str → Snowflake → Option ArtifactRevision
get_revision project_id id s = select_one (has_id project_id id) s.revisions

unfoldable pub list_revisions : Str → ℕ → ℕ → ℕ → Snowflake → List ArtifactRevision × ℕ
list_revisions project_id step n skip s = (
  limit n (
      offset skip (
        order_by (λ a b. ltb b.revision_no a.revision_no)
          (select (is_of project_id step) s.revisions))),
  rowcount (is_of project_id step) s.revisions,
)

abbrev pub is_open : RevisionStatus → Bool
is_open status = contains (RevisionStatus.draft ∷ RevisionStatus.pending_review ∷ []) status

-- `pending_counts(project_id)[step]`, or 0 where the step has no such row.
unfoldable pub pending_count : Str → ℕ → Snowflake → ℕ
pending_count project_id step s =
    rowcount (λ r. is_of project_id step r && is_open r.status) s.revisions
