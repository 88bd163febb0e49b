-- ===== src/Outbox/Queued.antt =====
-- An insert into the outbox leaves a job under its idempotency key, and keeps the others
-- (backend/app/data/repositories/outbox.py).
use ai_writing.Common.{◌≡◌, true, some, Str, inl, inr, ==_refl, list_eq, nat_eq, Option-cases}
use ai_writing.Data.Json.{Fields}
use ai_writing.Sql.{select_one}
use ai_writing.Sql.Laws.{select_one-append_old, select_one-append_new}
use ai_writing.Outbox.{Table, OutboxJob, JobType, has_idempotency_key, insert, new_job, new_job_id}

-- A job with the idempotency key is in the table.
abbrev pub IsQueued : Table → Str → Type 0
IsQueued t key = (j : OutboxJob) × (select_one (has_idempotency_key key) t ≡ some j)

module _ (p : Str) (ty : JobType) (at ai : Str) (payload : Fields) (key now : Str) (t : Table) where
  pub insert-IsQueued : IsQueued (insert p ty at ai payload key now t).1 key
  unfolding insert new_job
  insert-IsQueued = elim (Option-cases (select_one (has_idempotency_key key) t)) [
    | inr (j, e) ↦ rw (e, insert) (j, e)
    | inl e ↦
        rw (e, insert)
          (
            new_job (new_job_id ty ai t) p ty at ai payload key now,
            select_one-append_new (has_idempotency_key key) t _ e (fresh_key (new_job_id ty ai t)),
          )
  ]
    where
      fresh_key :
          (id : Str) → has_idempotency_key key (new_job id p ty at ai payload key now) ≡ true
      fresh_key id = ==_refl key

  pub insert_keeps :
      (other : Str) → IsQueued t other → IsQueued (insert p ty at ai payload key now t).1 other
  unfolding insert
  insert_keeps other (j, h) = elim (Option-cases (select_one (has_idempotency_key key) t)) [
    | inr (i, e) ↦ rw (e, insert) (j, h)
    | inl e ↦ rw (e, insert) (j, select_one-append_old (has_idempotency_key other) t _ h)
  ]
