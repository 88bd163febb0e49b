-- ===== src/Outbox/Invariant.antt =====
-- What holds of every row of the outbox, whatever the dispatchers do and in whatever order.
use ai_writing.Common.{
  ◌<◌, ◌≡◌, inl, inr, Bool, false, Option, none, some, is_empty, List, [], ◌∷◌, Str, ◌==◌, list_eq,
  nat_eq, arith, Bool-cases, All, All-append,
}
use ai_writing.Data.Json.{Fields}
use ai_writing.Sql.{select, rowcount}
use ai_writing.Sql.Laws.{All-update}
use ai_writing.Outbox.{
  OutboxJob, JobType, JobStatus, AnalysisExecution, pending, processing, succeeded, failed,
  job_status_eq, Table, has_key_and_status, new_job, new_job_id, compare_and_set, claimed, claim,
  finished, complete, requeued, reset_failed, is_stale, released, recover_one, recover_each,
  recover_stale,
}
use ai_writing.Outbox.Transitions.{recover_one-table}
use ai_writing.Outbox.Steps.{Step, enqueue, take, finish, retry, recover, insert_cases}

-- The stamps, the error, the evidence and the count of a row agree with its status.
pub record IsConsistent (r : OutboxJob) : Type 0 where
  pub waiting :
      r.status ≡ pending
      → (r.processing_started_at ≡ [])
        × (r.completed_at ≡ [])
        × (r.last_error ≡ [])
        × (r.execution ≡ none)
  pub running :
      r.status ≡ processing
      → (0 < r.attempt_count)
        × (is_empty r.processing_started_at ≡ false)
        × (r.completed_at ≡ [])
        × (r.last_error ≡ [])
        × (r.execution ≡ none)
  pub done :
      r.status ≡ succeeded
      → (0 < r.attempt_count)
        × (r.processing_started_at ≡ [])
        × (is_empty r.completed_at ≡ false)
        × (r.last_error ≡ [])
  pub raised :
      r.status ≡ failed
      → (0 < r.attempt_count)
        × (r.processing_started_at ≡ [])
        × (is_empty r.completed_at ≡ false)
        × (is_empty r.last_error ≡ false)

-- `error or ""`
abbrev error_text : Option Str → Str
error_text none = []
error_text (some e) = e

-- The arguments of a statement as the service gives them: a time is a text, and a completion comes
-- with an error exactly where the handler has raised.
abbrev pub IsCalled : {t u : Table} → Step t u → Type 0
IsCalled (enqueue project_id job_type aggregate_type aggregate_id payload key now) = Unit {0}
IsCalled (take project_id id now) = is_empty now ≡ false
IsCalled (finish project_id id done error execution now) =
    (is_empty now ≡ false) × (is_empty (error_text error) ≡ done)
IsCalled (retry project_id id) = Unit {0}
IsCalled (recover cutoff) = Unit {0}

-- The tables reached by statements that the service makes.
pub data History (s : Table) : Table → Type 0 where
  start : History s s
  more : {t u : Table} → History s t → (step : Step t u) → IsCalled step → History s u

claimed-IsConsistent :
    (now : Str)
    → is_empty now ≡ false
    → (r : OutboxJob) → IsConsistent r
    → r.status ≡ pending
    → IsConsistent (claimed now r)
unfolding claimed
claimed-IsConsistent now stamp r h s = ground arith

finished-IsConsistent :
    (done : Bool) (error : Option Str) (execution : Option AnalysisExecution) (now : Str)
    → is_empty now ≡ false
    → is_empty (error_text error) ≡ done
    → (r : OutboxJob) → IsConsistent r
    → r.status ≡ processing
    → IsConsistent (finished done error execution now r)
unfolding finished
finished-IsConsistent done error execution now stamp told r h s = ground arith

requeued-IsConsistent :
    (r : OutboxJob) → IsConsistent r → r.status ≡ failed → IsConsistent (requeued r)
unfolding requeued
requeued-IsConsistent r h s = ground arith

released-IsConsistent :
    (r : OutboxJob) → IsConsistent r → r.status ≡ processing → IsConsistent (released r)
unfolding released
released-IsConsistent r h s = ground arith

new_job-IsConsistent :
    (id project_id : Str) (job_type : JobType) (aggregate_type aggregate_id : Str)
    (payload : Fields) (key now : Str)
    → IsConsistent (new_job id project_id job_type aggregate_type aggregate_id payload key now)
unfolding new_job
new_job-IsConsistent id project_id job_type aggregate_type aggregate_id payload key now =
    ground arith

-- A compare-and-set keeps what its SET clause keeps on the rows of the expected status.
module _ {κ} (P : OutboxJob → Type κ) where
  compare_and_set-All :
      (project_id id : Str) (expected : JobStatus) (set : OutboxJob → OutboxJob) (t : Table)
      → ((r : OutboxJob) → P r → r.status ≡ expected → P (set r))
      → All P t
      → All P (compare_and_set project_id id expected set t).1
  unfolding compare_and_set
  compare_and_set-All project_id id expected set t keeps h =
      let p = has_key_and_status project_id id expected in
      elim (Bool-cases (rowcount p t == 0)) [
        | inl e ↦ rw e h
        | inr e ↦ rw e (All-update P p set t (λ r k q. keeps r k (ground arith)) h)
      ]

  recover_each-All :
      (rows : List OutboxJob) (t : Table)
      → ((r : OutboxJob) → P r → r.status ≡ processing → P (released r))
      → All P t
      → All P (recover_each rows t).1
  unfolding recover_each
  recover_each-All [] t keeps h = h
  recover_each-All (row ∷ rows) t keeps h =
      let p = has_key_and_status row.project_id row.id processing in
      recover_each-All rows (recover_one row t).1 keeps (
        rw (recover_one-table row t)
          (All-update P p released t (λ r k q. keeps r k (ground arith)) h))

-- Every statement keeps the rows consistent.
Step-IsConsistent :
    {t u : Table} (step : Step t u) → IsCalled step → All IsConsistent t → All IsConsistent u
unfolding claim complete reset_failed recover_stale
Step-IsConsistent (enqueue {t = t} project_id job_type aggregate_type aggregate_id payload key now)
      c h =
    elim (insert_cases project_id job_type aggregate_type aggregate_id payload key now t) [
      | inl (e, found, same) ↦ rw same h
      | inr (fresh, grown) ↦ rw grown (
          All-append IsConsistent t _ h (
            new_job-IsConsistent (new_job_id job_type aggregate_id t) project_id job_type
                aggregate_type aggregate_id payload key now,
            tt,
          ))
    ]
Step-IsConsistent (take {t = t} project_id id now) c h =
    compare_and_set-All IsConsistent project_id id pending (claimed now) t
      (claimed-IsConsistent now c) h
Step-IsConsistent (finish {t = t} project_id id done error execution now) c h =
    compare_and_set-All IsConsistent project_id id processing (finished done error execution now) t
      (finished-IsConsistent done error execution now (c.0) (c.1)) h
Step-IsConsistent (retry {t = t} project_id id) c h =
    compare_and_set-All IsConsistent project_id id failed requeued t requeued-IsConsistent h
Step-IsConsistent (recover {t = t} cutoff) c h =
    recover_each-All IsConsistent (select (is_stale cutoff) t) t released-IsConsistent h

-- The following holds of all rows of every table that statements lead to from a table where it
-- holds, if each statement has a nonempty time and a completion has an error exactly where the
-- handler has raised: a pending row has no stamp, no error and no evidence; a processing row has a
-- positive attempt count and a lease stamp, and no completion time, no error and no evidence; a
-- succeeded row has a positive count and a completion time, and no lease stamp and no error; a
-- failed row has a positive count, a completion time and an error, and no lease stamp.
pub History-IsConsistent : {s t : Table} → All IsConsistent s → History s t → All IsConsistent t
History-IsConsistent h start = h
History-IsConsistent h (more r step c) = Step-IsConsistent step c (History-IsConsistent h r)
