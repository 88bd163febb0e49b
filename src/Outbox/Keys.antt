-- ===== src/Outbox/Keys.antt =====
-- The keys of the outbox: ids and idempotency keys stay unique.
use ai_writing.Common.{
  ◌+◌, ◌≤◌, ◌≡◌, refl, inl, inr, false, List, [], ◌∷◌, map, Str, ◌==◌, list_eq, nat_eq, contains,
  arith, Bool-cases,
}
use ai_writing.Data.Json.{Fields}
use ai_writing.Data.RecordId.Fresh.{make_record_id_fresh}
use ai_writing.Sql.{select, rowcount}
use ai_writing.Sql.Laws.{rowcount-append, rowcount-update}
use ai_writing.Outbox.{
  OutboxJob, JobType, JobStatus, pending, processing, failed, job_status_eq, Table, job_id, has_key,
  has_key_and_status, new_job, new_job_id, insert, compare_and_set, claimed, claim, finished,
  complete, requeued, reset_failed, is_stale, released, recover_one, recover_each, recover_stale,
}
use ai_writing.Outbox.Transitions.{
  IsKeyed, KeepsKey, recover_one-table, has_key-set, claimed-KeepsKey, finished-KeepsKey,
  requeued-KeepsKey, released-KeepsKey,
}
use ai_writing.Outbox.Steps.{
  Step, enqueue, take, finish, retry, recover, Reach, here, next, added, insert_cases,
}

-- An id that is none of the rows' ids has no row.
rowcount_of_fresh :
    (project_id id : Str) (t : Table)
    → contains (map job_id t) id ≡ false
    → rowcount (has_key project_id id) t ≡ 0
unfolding rowcount
rowcount_of_fresh project_id id [] h = refl
rowcount_of_fresh project_id id (r ∷ t) h = ground (arith, rowcount_of_fresh project_id id t)

new_job_id_fresh :
    (job_type : JobType) (aggregate_id : Str) (t : Table)
    → contains (map job_id t) (new_job_id job_type aggregate_id t) ≡ false
unfolding new_job_id
new_job_id_fresh job_type aggregate_id t = make_record_id_fresh _ (map job_id t)

-- A row whose id is new leaves the keys unique.
keyed_with :
    (project_id id : Str) (t : Table) (new : OutboxJob)
    → rowcount (has_key project_id id) t ≤ 1
    → (id ≡ new.id → rowcount (has_key project_id id) t ≡ 0)
    → rowcount (has_key project_id id) t + rowcount (has_key project_id id) (new ∷ []) ≤ 1
unfolding rowcount
keyed_with project_id id t new h fresh = elim (Bool-cases (has_key project_id id new)) [
  | inr e ↦ rw e (omega arith)
  | inl e ↦ rw e (omega (arith, fresh (ground arith)))
]

insert-IsKeyed :
    (project_id : Str) (job_type : JobType) (aggregate_type aggregate_id : Str) (payload : Fields)
    (key now : Str) (t : Table)
    → IsKeyed t
    → IsKeyed (insert project_id job_type aggregate_type aggregate_id payload key now t).1
unfolding new_job
insert-IsKeyed project_id job_type aggregate_type aggregate_id payload key now t h =
    elim (insert_cases project_id job_type aggregate_type aggregate_id payload key now t) [
      | inl (e, found, same) ↦ rw same h
      | inr (fresh, more) ↦ rw more (λ p i.
          let new = added project_id job_type aggregate_type aggregate_id payload key now t in
          let id = new_job_id job_type aggregate_id t in
          rw (rowcount-append (has_key p i) t (new ∷ [])) (
            keyed_with p i t new (h p i)
              (λ e. rowcount_of_fresh p i t (rw e (new_job_id_fresh job_type aggregate_id t)))))
    ]

pub compare_and_set-IsKeyed :
    (project_id id : Str) (expected : JobStatus) (set : OutboxJob → OutboxJob) (t : Table)
    → KeepsKey set
    → IsKeyed t
    → IsKeyed (compare_and_set project_id id expected set t).1
unfolding compare_and_set
compare_and_set-IsKeyed project_id id expected set t keeps h =
    let q = has_key_and_status project_id id expected in
    elim (Bool-cases (rowcount q t == 0)) [
      | inl e ↦ rw e h
      | inr e ↦ rw e (λ p i.
          rw (rowcount-update (has_key p i) q set t (λ r. has_key-set p i set r keeps)) (h p i))
    ]

recover_each-IsKeyed :
    (rows : List OutboxJob) (t : Table) → IsKeyed t → IsKeyed (recover_each rows t).1
unfolding recover_each
recover_each-IsKeyed [] t h = h
recover_each-IsKeyed (row ∷ rows) t h = recover_each-IsKeyed rows (recover_one row t).1 (
    rw (recover_one-table row t) (λ p i.
      rw
        (rowcount-update (has_key p i) (has_key_and_status row.project_id row.id processing)
          released t (λ r. has_key-set p i released r released-KeepsKey))
        (h p i)))

Step-IsKeyed : {t u : Table} → Step t u → IsKeyed t → IsKeyed u
unfolding claim complete reset_failed recover_stale
Step-IsKeyed (enqueue {t = t} project_id job_type aggregate_type aggregate_id payload key now) h =
    insert-IsKeyed project_id job_type aggregate_type aggregate_id payload key now t h
Step-IsKeyed (take {t = t} project_id id now) h =
    compare_and_set-IsKeyed project_id id pending (claimed now) t (claimed-KeepsKey now) h
Step-IsKeyed (finish {t = t} project_id id done error execution now) h =
    compare_and_set-IsKeyed project_id id processing (finished done error execution now) t
      (finished-KeepsKey done error execution now) h
Step-IsKeyed (retry {t = t} project_id id) h =
    compare_and_set-IsKeyed project_id id failed requeued t requeued-KeepsKey h
Step-IsKeyed (recover {t = t} cutoff) h = recover_each-IsKeyed (select (is_stale cutoff) t) t h

-- If no two rows share a project and an id, none do in any table reached from there.
pub Reach-IsKeyed : {s t : Table} → IsKeyed s → Reach s t → IsKeyed t
Reach-IsKeyed h here = h
Reach-IsKeyed h (next r st) = Step-IsKeyed st (Reach-IsKeyed h r)
