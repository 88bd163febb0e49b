-- ===== src/Snowflake/Artifacts/Flow.antt =====
-- `decide_snowflake_revision` (backend/app/data/transactions/snowflake.py): the acceptance of a
-- revision moves the head, the accepted text, the step of the project, the heads of the steps that it
-- feeds, and the outbox. `passes` says whether the validation of the payload has not failed.
use ai_writing.Common.{
  ℕ, Bool, ◌&&◌, ◌||◌, not, none, some, List, [], ◌++◌, Str, codes, decimal, ◌==◌, list_eq, nat_eq,
  if◌then◌else◌,
}
use ai_writing.Common.Results.{Result, ok, err, ◌>>=◌, ◌>>◌}
use ai_writing.Data.Errors.{
  Error, snowflake_revision_not_found, snowflake_revision_state, snowflake_head_conflict,
  snowflake_revision_validation,
}
use ai_writing.Data.Json.{string, number, Fields, end, field}
use ai_writing.Outbox
use ai_writing.Outbox.{JobType, llm_wiki_ingest, Table}
use ai_writing.Projects.{Project, advance_current_step}
use ai_writing.Snowflake.{RevisionStatus, revision_status_eq, Decision}
use ai_writing.Snowflake.Dependencies.{downstream_steps}
use ai_writing.Snowflake.Artifacts.{
  Artifact, ArtifactRevision, ArtifactHead, Snowflake, get_head, get_revision, is_open,
  update_accepted_projection,
}
use ai_writing.Snowflake.Artifacts.Writes.{set_revision_status, accept_revision, mark_stale}

-- The tables that a decision touches.
pub record Store : Type 0 where
  pub snowflake : Snowflake
  pub projects : List Project
  pub jobs : Table

-- The revision, the head, the affected steps and the id of the outbox job.
pub record Decided : Type 0 where
  pub revision : ArtifactRevision
  pub head : ArtifactHead
  pub affected : List ℕ
  pub job_id : Str

abbrev text : Str → Str → Fields → Fields
text key value rest = field key (string value) rest

-- `snowflake_index_payload` (backend/app/outbox/events.py)
unfoldable pub snowflake_index_payload : Artifact → Fields
snowflake_index_payload a =
    let is_draft : Bool = a.step_number == 10 in
    text (codes "project_id") a.project_id (
      text (codes "source_kind") (codes "snowflake_artifact") (
        text (codes "source_ref") (codes "snowflake:" ++ decimal a.step_number) (
          text (codes "title")
            (codes "Snowflake step " ++ decimal a.step_number ++ codes ": " ++ a.artifact)
            (text (codes "content") a.content (
              field (codes "snowflake_step") (number (decimal a.step_number)) (
                text (codes "artifact_type") a.artifact (
                  text (codes "knowledge_class")
                    (if is_draft then codes "observed" else codes "planned")
                    (text (codes "status") (if is_draft then codes "draft" else codes "approved")
                      end))))))))

abbrev pub projection_of : ArtifactRevision → Artifact
projection_of r = record {
  project_id = r.project_id;
  step_number = r.step_number;
  artifact = r.artifact_type;
  content = r.content;
}

abbrev pub job_key : ArtifactRevision → Str
job_key r = codes "llm_wiki_ingest:snowflake_revision:" ++ r.id

-- From `snowflake.accept_revision(accepted)` on.
unfoldable pub publish : ArtifactRevision → List ℕ → Str → Snowflake → Store → Decided × Store
publish r affected now snowflake s =
    let (head, s1) = accept_revision r snowflake in
    let s2 = update_accepted_projection (projection_of r) s1 in
    let reason = codes "Step " ++ decimal r.step_number ++ codes " accepted head changed." in
    let s3 : Snowflake = record s2 {
      heads = mark_stale r.project_id affected reason r.id s2.heads;
    } in
    let (job, jobs) =
      Outbox.insert r.project_id llm_wiki_ingest (codes "snowflake_artifact_revision") r.id
        (snowflake_index_payload (projection_of r)) (job_key r) now s.jobs in
    (
      record { revision = r; head = head; affected = affected; job_id = job },
      record {
        snowflake = s3;
        projects = (advance_current_step r.project_id r.step_number s.projects).1;
        jobs = jobs;
      },
    )

abbrev pub unchanged : ArtifactRevision → ArtifactHead → Store → Result Error (Decided × Store)
unchanged r head s = ok (record { revision = r; head = head; affected = []; job_id = [] }, s)

module _ (passes : ℕ → Str → Fields → Bool) where
  -- `decision == "accepted"` on an open revision.
  unfoldable pub accept_open : ArtifactRevision → Str → Str → Store → Result Error (Decided × Store)
  accept_open r reason now s = do
    if passes r.step_number r.content r.structured_payload
        then ok tt
        else err snowflake_revision_validation
    (accepted, snowflake) ←
        set_revision_status r.project_id r.id RevisionStatus.accepted reason now s.snowflake
    affected ← downstream_steps accepted.step_number
    ok (publish accepted affected now snowflake s)

  unfoldable pub reject_open :
      ArtifactRevision → ArtifactHead → Str → Str → Store → Result Error (Decided × Store)
  reject_open r head reason now s = do
    (rejected, snowflake) ←
        set_revision_status r.project_id r.id RevisionStatus.rejected reason now s.snowflake
    ok (
      record { revision = rejected; head = head; affected = []; job_id = [] },
      record s { snowflake = snowflake },
    )

  -- `decision == revision.status == "accepted" and …`
  abbrev pub is_replay : ArtifactRevision → ArtifactHead → Str → Bool
  is_replay r head expected =
      r.status == RevisionStatus.accepted
      && head.accepted_revision_id == r.id
      && (expected == r.base_head_revision_id || expected == r.id)

  abbrev pub conflicts : ArtifactRevision → ArtifactHead → Str → Bool
  conflicts r head expected =
      not (head.accepted_revision_id == expected) || not (r.base_head_revision_id == expected)

  unfoldable pub decide_found :
      Decision
      → ArtifactRevision
      → ArtifactHead
      → Str
      → Str
      → Str
      → Store
      → Result Error (Decided × Store)
  decide_found Decision.accepted r head expected reason now s =
      if is_replay r head expected
      then unchanged r head s
      else if conflicts r head expected
      then err snowflake_head_conflict
      else if r.status == RevisionStatus.accepted
      then unchanged r head s
      else if is_open r.status
      then accept_open r reason now s
      else err snowflake_revision_state
  decide_found Decision.rejected r head expected reason now s =
      if r.status == RevisionStatus.rejected
      then unchanged r head s
      else if is_open r.status
      then reject_open r head reason now s
      else err snowflake_revision_state

  unfoldable pub decide_snowflake_revision :
      Str → Str → Decision → Str → Str → Str → Store → Result Error (Decided × Store)
  decide_snowflake_revision project_id id decision expected reason now s =
      elim (get_revision project_id id s.snowflake) [
        | none ↦ err snowflake_revision_not_found
        | some r ↦
            decide_found decision r (get_head project_id r.step_number s.snowflake) expected reason
              now s
      ]
