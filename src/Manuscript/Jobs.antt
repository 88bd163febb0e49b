-- ===== src/Manuscript/Jobs.antt =====
-- The jobs that follow a committed revision (backend/app/data/transactions/revision_jobs.py) and
-- their payloads (backend/app/outbox/events.py).
use ai_writing.Common.{
  ℕ, ◌-◌, ◌&&◌, Option, none, some, List, [], ◌++◌, Str, codes, decimal, is_empty, ltb, ◌==◌,
  list_eq, nat_eq, if◌then◌else◌,
}
use ai_writing.Data.Json.{Json, Fields, end, field, string, number, null}
use ai_writing.Sql.{select_one}
use ai_writing.Outbox.{
  Table, JobType, llm_wiki_ingest, consistency_analysis, writeback_analysis, clp_extraction, insert,
}
use ai_writing.Manuscript.{Revision, Contract, Store}
use ai_writing.Manuscript.Scenes.{previous_revision_id}

abbrev pub int_json : ℕ → Json
int_json n = number (decimal n)

abbrev pub or_null : Option ℕ → Json
or_null none = null
or_null (some n) = int_json n

-- `f"manuscript_revision:{id}"`
abbrev pub revision_ref : Str → Str
revision_ref id = codes "manuscript_revision:" ++ id

-- The `supersedes` of the payload: an id that is missing or empty gives an empty text.
abbrev pub supersedes : Option Str → Str
supersedes none = []
supersedes (some id) = if is_empty id then [] else revision_ref id

unfoldable pub manuscript_revision_index_payload : Revision → Option Str → Option ℕ → Fields
manuscript_revision_index_payload latest previous position =
    field (codes "project_id") (string latest.project_id) (
      field (codes "source_kind") (string (codes "manuscript_revision")) (
        field (codes "source_ref") (string (revision_ref latest.id)) (
          field (codes "title") (string latest.title) (
            field (codes "content") (string latest.content) (
              field (codes "snowflake_step") (int_json 10) (
                field (codes "artifact_type") (string (codes "manuscript")) (
                  field (codes "knowledge_class") (string (codes "observed")) (
                    field (codes "version") (int_json latest.version) (
                      field (codes "supersedes") (string (supersedes previous)) (
                        field (codes "scope") (string latest.scene_id)
                          (field (codes "story_position") (or_null position) end)))))))))))

-- The analysis payload with further fields after it.
abbrev pub analysis_fields : Revision → Fields → Fields
analysis_fields revision rest = field (codes "project_id") (string revision.project_id) (
    field (codes "revision_id") (string revision.id)
      (field (codes "source_ref") (string (revision_ref revision.id)) rest))

unfoldable pub manuscript_revision_analysis_payload : Revision → Fields
manuscript_revision_analysis_payload revision = analysis_fields revision end

-- `SceneRepository.get_sequence` (backend/app/data/repositories/scenes.py)
unfoldable pub get_sequence : Str → Str → List Contract → Option ℕ
get_sequence project_id scene_id t =
    elim (select_one (λ c. c.project_id == project_id && c.id == scene_id) t) [
      | none ↦ none
      | some c ↦ some c.sequence
    ]

abbrev pub index_key : Str → Str
index_key id = codes "llm_wiki_ingest:" ++ revision_ref id

abbrev pub consistency_key : Str → Str
consistency_key id = codes "consistency_analysis:" ++ revision_ref id

abbrev pub writeback_key : Str → Str
writeback_key id = codes "writeback_analysis:" ++ revision_ref id ++ codes ":local_writeback"

abbrev pub clp_key : Str → Str
clp_key id = codes "clp_extraction:" ++ revision_ref id

-- One `insert` for the revision.
abbrev pub enqueue : JobType → Fields → Str → Revision → Str → Table → Str × Table
enqueue job_type payload key revision now =
    insert revision.project_id job_type (codes "manuscript_revision") revision.id payload key now

unfoldable pub enqueue_manuscript_revision_index_job : Revision → Str → Store → Str × Table
enqueue_manuscript_revision_index_job revision now s =
    let previous =
      if ltb 1 revision.version
      then previous_revision_id revision.project_id revision.scene_id (revision.version - 1)
          s.revisions
      else none in
    let position = get_sequence revision.project_id revision.scene_id s.contracts in
    enqueue llm_wiki_ingest (manuscript_revision_index_payload revision previous position)
      (index_key revision.id) revision now s.jobs

unfoldable pub enqueue_manuscript_revision_analysis_jobs :
    Revision → Str → Table → (Str × Str) × Table
enqueue_manuscript_revision_analysis_jobs revision now t =
    let (consistency_id, t1) =
      enqueue consistency_analysis (manuscript_revision_analysis_payload revision)
        (consistency_key revision.id) revision now t in
    let (writeback_id, t2) =
      enqueue writeback_analysis
        (analysis_fields revision
          (field (codes "processor") (string (codes "local_writeback")) end))
        (writeback_key revision.id) revision now t1 in
    ((consistency_id, writeback_id), t2)

-- The ids of the four jobs are not used by any caller, and the store is all that is returned.
unfoldable pub enqueue_committed_revision_jobs : Revision → Str → Store → Store
enqueue_committed_revision_jobs revision now s =
    let (index_id, t1) = enqueue_manuscript_revision_index_job revision now s in
    let (ids, t2) = enqueue_manuscript_revision_analysis_jobs revision now t1 in
    let (clp_id, t3) =
      enqueue clp_extraction (manuscript_revision_analysis_payload revision) (clp_key revision.id)
        revision now t2 in
    record s { jobs = t3 }
