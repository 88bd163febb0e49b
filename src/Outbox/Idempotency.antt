-- ===== src/Outbox/Idempotency.antt =====
-- A job that is enqueued twice under one idempotency key is one row.
use mathlib.Core.Option.{some-injective}
use ai_writing.Common.{
  ◌≡◌, refl, ◌∙◌, sym, ap, inl, inr, Bool, some, List, [], ◌∷◌, Str, ◌==◌, list_eq, nat_eq, arith,
  Bool-cases,
}
use ai_writing.Data.Json.{Fields}
use ai_writing.Sql.{select, select_one, update, rowcount}
use ai_writing.Sql.Laws.{updated, select_one-append, select_one-update}
use ai_writing.Outbox.{
  OutboxJob, JobType, JobStatus, pending, processing, failed, job_status_eq, Table, job_id,
  has_key_and_status, has_idempotency_key, new_job, insert, compare_and_set, claimed, claim,
  finished, complete, requeued, reset_failed, is_stale, released, recover_one, recover_each,
  recover_stale,
}
use ai_writing.Outbox.Transitions.{recover_one-table}
use ai_writing.Outbox.Steps.{
  Step, enqueue, take, finish, retry, recover, Reach, here, next, added, insert_cases,
}

-- A SET clause that writes neither the id nor the idempotency key.
abbrev KeepsJob : (OutboxJob → OutboxJob) → Type 0
KeepsJob set = (r : OutboxJob) → ((set r).idempotency_key ≡ r.idempotency_key) × ((set r).id ≡ r.id)

-- The row that holds an idempotency key, by its id.
abbrev pub Holds : Str → Str → Table → Type 0
Holds key id t = (e : OutboxJob) × (select_one (has_idempotency_key key) t ≡ some e) × (e.id ≡ id)

update-Holds :
    (key id : Str) (p : OutboxJob → Bool) (set : OutboxJob → OutboxJob) (t : Table)
    → KeepsJob set
    → Holds key id t
    → Holds key id (update p set t)
update-Holds key id p set t keeps (e, found, same) = (
  updated p set e,
  select_one-update (has_idempotency_key key) p set t (λ r. rw ((keeps r).0)) ∙ rw found,
  ground (arith, keeps e, same),
)

compare_and_set-Holds :
    (key id : Str) (project_id job : Str) (expected : JobStatus) (set : OutboxJob → OutboxJob)
    (t : Table)
    → KeepsJob set
    → Holds key id t
    → Holds key id (compare_and_set project_id job expected set t).1
unfolding compare_and_set
compare_and_set-Holds key id project_id job expected set t keeps h =
    let q = has_key_and_status project_id job expected in
    elim (Bool-cases (rowcount q t == 0)) [
      | inl e ↦ rw e h
      | inr e ↦ rw e (update-Holds key id q set t keeps h)
    ]

recover_each-Holds :
    (key id : Str) (rows : List OutboxJob) (t : Table)
    → Holds key id t
    → Holds key id (recover_each rows t).1
unfolding recover_each released
recover_each-Holds key id [] t h = h
recover_each-Holds key id (row ∷ rows) t h = recover_each-Holds key id rows (recover_one row t).1 (
    rw (recover_one-table row t) (
      update-Holds key id (has_key_and_status row.project_id row.id processing) released t
        (λ r. (refl, refl)) h))

insert-Holds :
    (key id : Str) (project_id : Str) (job_type : JobType) (aggregate_type aggregate_id : Str)
    (payload : Fields) (key' now : Str) (t : Table)
    → Holds key id t
    → Holds key id (insert project_id job_type aggregate_type aggregate_id payload key' now t).1
insert-Holds key id project_id job_type aggregate_type aggregate_id payload key' now t
      (e, found, same) =
    elim (insert_cases project_id job_type aggregate_type aggregate_id payload key' now t) [
      | inl (old, there, kept) ↦ rw kept (e, found, same)
      | inr (fresh, more) ↦
          rw more (e, rw (select_one-append (has_idempotency_key key) t _, found) refl, same)
    ]

Step-Holds : (key id : Str) {t u : Table} → Step t u → Holds key id t → Holds key id u
unfolding claim complete reset_failed recover_stale claimed finished requeued
Step-Holds key id (enqueue {t = t} project_id job_type aggregate_type aggregate_id payload key' now)
      h =
    insert-Holds key id project_id job_type aggregate_type aggregate_id payload key' now t h
Step-Holds key id (take {t = t} project_id job now) h =
    compare_and_set-Holds key id project_id job pending (claimed now) t (λ r. (refl, refl)) h
Step-Holds key id (finish {t = t} project_id job done error execution now) h =
    compare_and_set-Holds key id project_id job processing (finished done error execution now) t
      (λ r. (refl, refl)) h
Step-Holds key id (retry {t = t} project_id job) h =
    compare_and_set-Holds key id project_id job failed requeued t (λ r. (refl, refl)) h
Step-Holds key id (recover {t = t} cutoff) h =
    recover_each-Holds key id (select (is_stale cutoff) t) t h

Reach-Holds : (key id : Str) {t u : Table} → Reach t u → Holds key id t → Holds key id u
Reach-Holds key id here h = h
Reach-Holds key id (next way st) h = Step-Holds key id st (Reach-Holds key id way h)

insert-Holds_own :
    (project_id : Str) (job_type : JobType) (aggregate_type aggregate_id : Str) (payload : Fields)
    (key now : Str) (t : Table)
    → Holds key
        (insert project_id job_type aggregate_type aggregate_id payload key now t).0
        (insert project_id job_type aggregate_type aggregate_id payload key now t).1
unfolding select_one new_job
insert-Holds_own project_id job_type aggregate_type aggregate_id payload key now t =
    elim (insert_cases project_id job_type aggregate_type aggregate_id payload key now t) [
      | inl (e, found, same) ↦ rw same (e, found, refl)
      | inr (fresh, more) ↦ rw more (
        added project_id job_type aggregate_type aggregate_id payload key now t,
        rw (select_one-append (has_idempotency_key key) t _, fresh) (ground arith),
        refl,
      )
    ]

-- In every table reached after an insert, an insert under the same idempotency key returns the id
-- of the first insert and changes nothing.
pub insert_once :
    (project_id : Str) (job_type : JobType) (aggregate_type aggregate_id : Str) (payload : Fields)
    (key now : Str) (t : Table) (project_id' : Str) (job_type' : JobType)
    (aggregate_type' aggregate_id' : Str) (payload' : Fields) (later : Str) {u : Table}
    → Reach (insert project_id job_type aggregate_type aggregate_id payload key now t).1 u
    → insert project_id' job_type' aggregate_type' aggregate_id' payload' key later u
      ≡ ((insert project_id job_type aggregate_type aggregate_id payload key now t).0, u)
insert_once project_id job_type aggregate_type aggregate_id payload key now t project_id' job_type'
      aggregate_type' aggregate_id' payload' later {u = u} way =
    let (e, found, same) =
      Reach-Holds key _ way
        (insert-Holds_own project_id job_type aggregate_type aggregate_id payload key now t) in
    elim (insert_cases project_id' job_type' aggregate_type' aggregate_id' payload' key later u) [
      | inl (old, there, kept) ↦
          kept ∙ ap (λ i. (i, u)) (ap job_id (some-injective old e (sym there ∙ found)) ∙ same)
      | inr (fresh, more) ↦ absurd (cc)
    ]
