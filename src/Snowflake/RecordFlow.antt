-- ===== src/Snowflake/RecordFlow.antt =====
-- `decide_snowflake_record_revision` (backend/app/data/transactions/snowflake.py): the decision on a
-- record, and the artifact revision that the accepted records of its step make. `passes` says whether
-- the validation of a record's payload has not failed, and `passes_context` that of the scene list with
-- the canon and the threads of the project.
pub mod Projected
pub mod Decided
use ai_writing.Common.{
  ℕ, Bool, true, ◌&&◌, ◌||◌, not, Option, none, some, List, [], ◌∷◌, ◌++◌, Str, codes, decimal, leb,
  length, ◌==◌, list_eq, nat_eq, if◌then◌else◌,
}
use ai_writing.Common.Results.{Result, ok, err, ◌>>=◌, ◌>>◌}
use ai_writing.Canon.{CanonEntity, list_entities}
use ai_writing.Data.Errors.{Error, lookup_error, validation_error, snowflake_revision_validation}
use ai_writing.Data.Json.{string, number, array, object, Items, nil, cons, Fields, end, field}
use ai_writing.Data.Json.Dump.{dump}
use ai_writing.Outbox
use ai_writing.Outbox.{llm_wiki_ingest}
use ai_writing.Projects.{advance_current_step}
use ai_writing.Sql.{select}
use ai_writing.Threads.{StoryThread, Threads, list_threads}
use ai_writing.Snowflake.{RevisionStatus, revision_status_eq, Decision, derived}
use ai_writing.Snowflake.Dependencies.{downstream_steps}
use ai_writing.Snowflake.Records
use ai_writing.Snowflake.Records.{RecordRevision, RecordHead, Records}
use ai_writing.Snowflake.Records.Reads.{list_accepted}
use ai_writing.Snowflake.Artifacts.{
  ArtifactCreate, ArtifactRevision, Snowflake, update_accepted_projection,
}
use ai_writing.Snowflake.Artifacts.Writes.{
  create_revision, set_revision_status, accept_revision, mark_stale,
}
use ai_writing.Snowflake.Artifacts.Flow
use ai_writing.Snowflake.Artifacts.Flow.{projection_of, snowflake_index_payload}

-- The tables of the artifacts, and those of the records and of their context.
pub record Store : Type 0 where
  pub base : Flow.Store
  pub records : Records
  pub canon : List CanonEntity
  pub threads : Threads

-- `{"record_id": …, "revision_id": …, "position": …, "payload": …}`
abbrev pub entry : RecordRevision → Fields
entry r = field (codes "record_id") (string r.record_id) (
    field (codes "revision_id") (string r.id) (
      field (codes "position") (number (decimal r.position))
        (field (codes "payload") (object r.payload) end)))

unfoldable pub entries : List RecordRevision → Items
entries [] = nil
entries (r ∷ rs) = cons (object (entry r)) (entries rs)

-- `snapshot`
abbrev pub snapshot : List RecordRevision → Fields
snapshot rs = field (codes "records") (array (entries rs)) end

-- The text begins and ends with a brace, so that the class of the revision has nothing to strip.
abbrev pub content_of : List RecordRevision → Str
content_of rs = dump 0 (object (snapshot rs))

abbrev pub projected : ℕ → List RecordRevision → ArtifactCreate
projected step rs = record {
  step_number = step;
  content = content_of rs;
  structured_payload = snapshot rs;
  schema_version = 1;
  parent_revision_id = [];
  base_head_revision_id = [];
  source = derived;
}

abbrev pub is_replay : RecordRevision → Str → RecordHead → Bool
is_replay r expected h =
    r.status == RevisionStatus.accepted
    && h.accepted_revision_id == r.id
    && (expected == r.base_revision_id || expected == r.id)

module _ (passes : ℕ → Fields → Bool)
    (passes_context : List RecordRevision → List CanonEntity → List StoryThread → Bool) where
  -- `for accepted_record in accepted_records`
  unfoldable pub check_records : List RecordRevision → Result Error (Unit {0})
  check_records [] = ok tt
  check_records (r ∷ rs) =
      let rest = check_records rs in
      if passes r.step_number r.payload then rest else err snowflake_revision_validation

  -- The accepted records of the other records of the scene list, and the candidate.
  abbrev pub scene_set : Str → RecordRevision → Records → List RecordRevision
  scene_set project_id r s =
      select (λ q. not (q.record_id == r.record_id)) (list_accepted project_id 8 s) ++ r ∷ []

  unfoldable pub check_candidate : Str → RecordRevision → Store → Result Error (Unit {0})
  check_candidate project_id r s =
      if not (passes r.step_number r.payload)
      then err snowflake_revision_validation
      else if not (r.step_number == 8)
      then ok tt
      else if passes_context (scene_set project_id r s.records) (list_entities project_id s.canon)
          (list_threads project_id s.threads)
      then ok tt
      else err snowflake_revision_validation

  -- The tables after the acceptance of the projection, from `accept_revision` on.
  unfoldable pub publish :
      Str → ArtifactRevision → RecordRevision → List ℕ → Str → Snowflake → Flow.Store → Flow.Store
  publish project_id projection r affected now snowflake s =
      let (head, s1) = accept_revision projection snowflake in
      let s2 = update_accepted_projection (projection_of projection) s1 in
      let reason =
        codes "Step " ++ decimal projection.step_number ++ codes " accepted record set changed." in
      let (job, jobs) =
        Outbox.insert project_id llm_wiki_ingest (codes "snowflake_record_snapshot") projection.id
          (snowflake_index_payload (projection_of projection))
          (codes "llm_wiki_ingest:snowflake_record_snapshot:" ++ projection.id) now s.jobs in
      record {
        snowflake = record s2 { heads = mark_stale project_id affected reason r.id s2.heads };
        projects = (advance_current_step project_id projection.step_number s.projects).1;
        jobs = jobs;
      }

  -- The projection of the accepted records of the step of `r`.
  unfoldable pub project :
      Str → RecordRevision → List RecordRevision → Str → Str → Flow.Store → Result Error Flow.Store
  project project_id r rs hex now s = do
    check_records rs
    if leb (length (content_of rs)) 200000 then ok tt else err validation_error
    (draft, s1) ←
        create_revision project_id (projected r.step_number rs) (some RevisionStatus.draft)
          (some derived) hex now s.snowflake
    (projection, s2) ←
        set_revision_status project_id draft.id RevisionStatus.accepted
          (codes "Derived from accepted record revision " ++ r.id ++ codes ".") now s1
    affected ← downstream_steps projection.step_number
    ok (publish project_id projection r affected now s2 s)

  -- From `records.decide` on.
  unfoldable pub decide_open :
      Str
      → Str
      → Decision
      → Str
      → Str
      → Str
      → Str
      → Store
      → Result Error ((RecordRevision × RecordHead) × Store)
  decide_open project_id id Decision.rejected expected reason hex now s = do
    (decided, records) ←
        Records.decide project_id id Decision.rejected expected reason now s.records
    ok (decided, record s { records = records })
  decide_open project_id id Decision.accepted expected reason hex now s = do
    (decided, records) ←
        Records.decide project_id id Decision.accepted expected reason now s.records
    let r = decided.0
    base ← project project_id r (list_accepted project_id r.step_number records) hex now s.base
    ok (decided, record s { base = base; records = records })

  -- The checks before `records.decide`.
  unfoldable pub decide_found :
      Str
      → RecordRevision
      → Option RecordHead
      → Decision
      → Str
      → Str
      → Str
      → Str
      → Store
      → Result Error ((RecordRevision × RecordHead) × Store)
  decide_found project_id r head Decision.rejected expected reason hex now s =
      decide_open project_id r.id Decision.rejected expected reason hex now s
  decide_found project_id r none Decision.accepted expected reason hex now s = do
    check_candidate project_id r s
    decide_open project_id r.id Decision.accepted expected reason hex now s
  decide_found project_id r (some h) Decision.accepted expected reason hex now s =
      if is_replay r expected h
      then ok ((r, h), s)
      else (check_candidate project_id r s
          >> decide_open project_id r.id Decision.accepted expected reason hex now s)

  unfoldable pub decide_snowflake_record_revision :
      Str
      → Str
      → Decision
      → Str
      → Str
      → Str
      → Str
      → Store
      → Result Error ((RecordRevision × RecordHead) × Store)
  decide_snowflake_record_revision project_id id decision expected reason hex now s =
      elim (Records.get_revision project_id id s.records) [
        | none ↦ err (lookup_error (codes "Snowflake record revision not found."))
        | some r ↦
            decide_found project_id r
              (Records.get_head project_id r.step_number r.record_id s.records) decision expected
              reason hex now s
      ]
