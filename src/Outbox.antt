-- ===== src/Outbox.antt =====
-- The outbox of side-effect jobs: the rows (backend/app/outbox/models.py) and the statements of
-- `OutboxRepository` (backend/app/data/repositories/outbox.py). The table is the list of its rows
-- in rowid order; `now` is what `utc_now()` returns during the call.
pub mod Queued
pub mod Transitions
pub mod Steps
pub mod Invariant
pub mod Keys
pub mod Claims
pub mod Idempotency
pub mod Service
use mathlib.Core.List.{reverse}
use ai_writing.Common.{
  ℕ, zero, suc, ◌+◌, ◌≡◌, Bool, true, false, ◌&&◌, ◌||◌, Option, none, some, List, [], ◌∷◌, ◌++◌,
  map, Str, codes, is_empty, str_lt, Eq, ◌==◌, list_eq, nat_eq, contains, if◌then◌else◌,
}
use ai_writing.Common.Results.{Result, ok, err}
use ai_writing.Data.Errors.{Action}
use ai_writing.Data.Json.{Fields}
use ai_writing.Data.RecordId.{make_record_id}
use ai_writing.Sql.{select, select_one, update, rowcount, order_by, limit}

pub data JobType : Type 0 where
  llm_wiki_ingest consistency_analysis writeback_analysis clp_extraction : JobType

unfoldable pub job_type_name : JobType → Str
job_type_name llm_wiki_ingest = codes "llm_wiki_ingest"
job_type_name consistency_analysis = codes "consistency_analysis"
job_type_name writeback_analysis = codes "writeback_analysis"
job_type_name clp_extraction = codes "clp_extraction"

pub data JobStatus : Type 0 where
  pending processing succeeded failed : JobStatus

unfoldable pub JobStatus-discrete : Discrete JobStatus
JobStatus-discrete = hlevel

instance abbrev pub job_status_eq : Eq JobStatus
job_status_eq = record { dec = JobStatus-discrete }

pub data Mode : Type 0 where
  local_rules local_cognition index external_clp not_configured unavailable : Mode

pub data Outcome : Type 0 where
  completed limited not_executed outcome_failed : Outcome

-- `AnalysisExecution`; `semantic_review` is always False.
pub record AnalysisExecution : Type 0 where
  pub mode : Mode
  pub processor : Str
  pub outcome : Outcome
  pub source_ref : Str
  pub limitations : Str

-- `OutboxJob`, with the column `idempotency_key`, which the model class leaves out.
pub record OutboxJob : Type 0 where
  pub id : Str
  pub project_id : Str
  pub job_type : JobType
  pub aggregate_type : Str
  pub aggregate_id : Str
  pub payload : Fields
  pub idempotency_key : Str
  pub execution : Option AnalysisExecution
  pub status : JobStatus
  pub attempt_count : ℕ
  pub last_error : Str
  pub created_at : Str
  pub completed_at : Str
  pub processing_started_at : Str

abbrev pub Table : Type 0
Table = List OutboxJob

abbrev pub job_id : OutboxJob → Str
job_id r = r.id

abbrev pub has_idempotency_key : Str → OutboxJob → Bool
has_idempotency_key key r = r.idempotency_key == key

-- `WHERE project_id = ? AND id = ?`
abbrev pub has_key : Str → Str → OutboxJob → Bool
has_key project_id id r = r.project_id == project_id && r.id == id

-- `WHERE project_id = ? AND id = ? AND status = ?`
abbrev pub has_key_and_status : Str → Str → JobStatus → OutboxJob → Bool
has_key_and_status project_id id s r = has_key project_id id r && r.status == s

unfoldable pub new_job : Str → Str → JobType → Str → Str → Fields → Str → Str → OutboxJob
new_job id project_id job_type aggregate_type aggregate_id payload key now = record {
  id = id;
  project_id = project_id;
  job_type = job_type;
  aggregate_type = aggregate_type;
  aggregate_id = aggregate_id;
  payload = payload;
  idempotency_key = key;
  execution = none;
  status = pending;
  attempt_count = 0;
  last_error = [];
  created_at = now;
  completed_at = [];
  processing_started_at = [];
}

-- The id of a new row, from the ids of all rows.
unfoldable pub new_job_id : JobType → Str → Table → Str
new_job_id job_type aggregate_id t =
    make_record_id (codes "outbox-" ++ job_type_name job_type ++ codes "-" ++ aggregate_id)
      (map job_id t)

-- `insert`: a second job with the same idempotency key is not inserted.
unfoldable pub insert : Str → JobType → Str → Str → Fields → Str → Str → Table → Str × Table
insert project_id job_type aggregate_type aggregate_id payload key now t =
    elim (select_one (has_idempotency_key key) t) [
      | some existing ↦ (existing.id, t)
      | none ↦
          let id = new_job_id job_type aggregate_id t in
          (id, t ++ new_job id project_id job_type aggregate_type aggregate_id payload key now ∷ [])
    ]

unfoldable pub get : Str → Str → Table → Option OutboxJob
get project_id id = select_one (has_key project_id id)

-- An optional filter of `list_jobs`.
abbrev pub matches {ℓ} : {A : Type ℓ} ⦃e : Eq A⦄ → Option A → A → Bool
matches none a = true
matches (some b) a = a == b

-- `ORDER BY created_at DESC, rowid DESC LIMIT ?`
unfoldable pub list_jobs : Str → Option JobStatus → ℕ → Option Str → Table → List OutboxJob
list_jobs project_id job_status n aggregate_type t = limit n (
    order_by (λ a b. str_lt b.created_at a.created_at)
      (reverse (
        select
          (λ r.
            r.project_id == project_id
            && matches job_status r.status
            && matches aggregate_type r.aggregate_type)
          t)))

unfoldable pub distinct : List Str → List Str
distinct [] = []
distinct (x ∷ xs) = let rest = distinct xs in if contains rest x then rest else x ∷ rest

-- `SELECT DISTINCT project_id … WHERE status = 'pending' ORDER BY project_id`
unfoldable pub pending_project_ids : Table → List Str
pending_project_ids t =
    order_by str_lt (distinct (map (λ r. r.project_id) (select (λ r. r.status == pending) t)))

-- A compare-and-set: the UPDATE, and the row if the UPDATE has met one.
unfoldable pub compare_and_set :
    Str → Str → JobStatus → (OutboxJob → OutboxJob) → Table → Option OutboxJob × Table
compare_and_set project_id id expected set t =
    let p = has_key_and_status project_id id expected in
    let t' = update p set t in if rowcount p t == 0 then (none, t) else (get project_id id t', t')

unfoldable pub claimed : Str → OutboxJob → OutboxJob
claimed now r = record r {
  status = processing;
  attempt_count = r.attempt_count + 1;
  processing_started_at = now;
  completed_at = [];
  last_error = [];
}

unfoldable pub claim : Str → Str → Str → Table → Option OutboxJob × Table
claim project_id id now = compare_and_set project_id id pending (claimed now)

unfoldable pub finished : Bool → Option Str → Option AnalysisExecution → Str → OutboxJob → OutboxJob
finished done error execution now r = record r {
  status = if done then succeeded else failed;
  execution = execution;
  last_error = elim error [ none ↦ [] | some e ↦ e ];
  completed_at = now;
  processing_started_at = [];
}

unfoldable pub complete :
    Str
    → Str
    → Bool
    → Option Str
    → Option AnalysisExecution
    → Str
    → Table
    → Option OutboxJob × Table
complete project_id id done error execution now =
    compare_and_set project_id id processing (finished done error execution now)

unfoldable pub requeued : OutboxJob → OutboxJob
requeued r = record r {
  status = pending;
  execution = none;
  last_error = [];
  completed_at = [];
  processing_started_at = [];
}

unfoldable pub reset_failed : Str → Str → Table → Option OutboxJob × Table
reset_failed project_id id = compare_and_set project_id id failed requeued

-- A lease stamp that is missing or lies before the cutoff.
unfoldable pub is_stale : Str → OutboxJob → Bool
is_stale cutoff r =
    r.status == processing
    && (is_empty r.processing_started_at || str_lt r.processing_started_at cutoff)

unfoldable pub released : OutboxJob → OutboxJob
released r = record r { status = pending; processing_started_at = [] }

-- The body of the loop of `recover_stale`: `if cursor.rowcount == 1`, the job is reported.
unfoldable pub recover_one : OutboxJob → Table → List OutboxJob × Table
recover_one row t =
    let p = has_key_and_status row.project_id row.id processing in
    let t' = update p released t in
    if rowcount p t == 1
    then (elim (get row.project_id row.id t') [ none ↦ [] | some job ↦ job ∷ [] ], t')
    else ([], t')

unfoldable pub recover_each : List OutboxJob → Table → List OutboxJob × Table
recover_each [] t = ([], t)
recover_each (row ∷ rows) t =
    let (first, t1) = recover_one row t in
    let (rest, t2) = recover_each rows t1 in (first ++ rest, t2)

unfoldable pub recover_stale : Str → Table → List OutboxJob × Table
recover_stale cutoff t = recover_each (select (is_stale cutoff) t) t
