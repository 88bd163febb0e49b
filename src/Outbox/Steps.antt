-- ===== src/Outbox/Steps.antt =====
-- The statements on the outbox as steps, for every order in which dispatchers, requests and
-- recovery sweeps make them.
use ai_writing.Common.{
  ◌≡◌, ◌⊎◌, inl, inr, Bool, Option, none, some, [], ◌∷◌, ◌++◌, Str, list_eq, nat_eq, Option-cases,
}
use ai_writing.Data.Json.{Fields}
use ai_writing.Sql.{select_one}
use ai_writing.Outbox.{
  OutboxJob, JobType, AnalysisExecution, job_status_eq, Table, has_idempotency_key, new_job,
  new_job_id, insert, claim, complete, reset_failed, recover_stale,
}

-- One statement of any dispatcher, request or recovery sweep on the table.
pub data Step : Table → Table → Type 0 where
  enqueue :
      {t : Table} (project_id : Str) (job_type : JobType) (aggregate_type aggregate_id : Str)
      (payload : Fields) (key now : Str)
      → Step t (insert project_id job_type aggregate_type aggregate_id payload key now t).1
  take : {t : Table} (project_id id now : Str) → Step t (claim project_id id now t).1
  finish :
      {t : Table} (project_id id : Str) (done : Bool) (error : Option Str)
      (execution : Option AnalysisExecution) (now : Str)
      → Step t (complete project_id id done error execution now t).1
  retry : {t : Table} (project_id id : Str) → Step t (reset_failed project_id id t).1
  recover : {t : Table} (cutoff : Str) → Step t (recover_stale cutoff t).1

pub data Reach (s : Table) : Table → Type 0 where
  here : Reach s s
  next : {t u : Table} → Reach s t → Step t u → Reach s u

module _ (project_id : Str) (job_type : JobType) (aggregate_type aggregate_id : Str)
    (payload : Fields) (key now : Str) (t : Table) where
  abbrev pub added : OutboxJob
  added =
      new_job (new_job_id job_type aggregate_id t) project_id job_type aggregate_type aggregate_id
        payload key now

  -- An insert adds nothing where the idempotency key is there, and else one pending row.
  pub insert_cases :
      ((e : OutboxJob) × (select_one (has_idempotency_key key) t ≡ some e)
        × (insert project_id job_type aggregate_type aggregate_id payload key now t ≡ (e.id, t)))
      ⊎ ((select_one (has_idempotency_key key) t ≡ none)
          × (insert project_id job_type aggregate_type aggregate_id payload key now t
              ≡ (new_job_id job_type aggregate_id t, t ++ added ∷ [])))
  unfolding insert
  insert_cases = elim (Option-cases (select_one (has_idempotency_key key) t)) [
    | inl fresh ↦ inr (fresh, rw (fresh, insert))
    | inr (e, found) ↦ inl (e, found, rw (found, insert))
  ]
