-- ===== src/Outbox/Claims.antt =====
-- Who may run a job: claims, final states, and what becomes of a job that is enqueued twice.
use ai_writing.Common.{
  ◌≡◌, ◌∙◌, sym, ◌≢◌, inl, inr, Option, none, some, List, [], ◌∷◌, Str, list_eq, nat_eq, arith,
}
use ai_writing.Data.Json.{Fields}
use ai_writing.Sql.{select}
use ai_writing.Sql.Laws.{select_one-append}
use ai_writing.Outbox.{
  OutboxJob, JobType, JobStatus, pending, processing, succeeded, failed, job_status_eq, Table, get,
  has_key, has_key_and_status, insert, compare_and_set, claimed, claim, finished, complete,
  requeued, reset_failed, is_stale, released, recover_one, recover_each, recover_stale,
}
use ai_writing.Outbox.Transitions.{
  IsKeyed, KeepsKey, recover_one-table, claimed-KeepsKey, finished-KeepsKey, requeued-KeepsKey,
  released-KeepsKey, get-update, get-compare_and_set, compare_and_set_hit, compare_and_set_miss,
  get_sound,
}
use ai_writing.Outbox.Steps.{
  Step, enqueue, take, finish, retry, recover, Reach, here, next, insert_cases,
}
use ai_writing.Outbox.Keys.{compare_and_set-IsKeyed}

claimed_not_pending :
    (now : Str) (r s : OutboxJob)
    → ◌≡◌ {A = Option OutboxJob} (some (claimed now r)) (some s)
    → s.status ≢ pending
unfolding claimed
claimed_not_pending now r s e p = ground (arith, e)

-- Where keys are unique, a claim of a pending job returns the claimed row, leaves it in the table,
-- and any later claim of the job returns none and changes nothing.
pub claim_once :
    (project_id id now later : Str) (t : Table) {r : OutboxJob}
    → IsKeyed t
    → get project_id id t ≡ some r
    → r.status ≡ pending
    → ((claim project_id id now t).0 ≡ some (claimed now r))
      × (get project_id id (claim project_id id now t).1 ≡ some (claimed now r))
      × (claim project_id id later (claim project_id id now t).1
          ≡ (none, (claim project_id id now t).1))
unfolding claim
claim_once project_id id now later t {r = r} keyed found waiting =
    let taken : get project_id id (compare_and_set project_id id pending (claimed now) t).1
        ≡ some (claimed now r) =
      ground (
        arith,
        found,
        get_sound project_id id t found,
        get-compare_and_set project_id id pending (claimed now) t (claimed-KeepsKey now) project_id
            id,
      ) in
    (
      compare_and_set_hit project_id id pending (claimed now) t (claimed-KeepsKey now) found
          waiting,
      taken,
      compare_and_set_miss project_id id pending (claimed later) _ (claimed-KeepsKey later)
          (compare_and_set-IsKeyed project_id id pending (claimed now) t (claimed-KeepsKey now)
            keyed)
          (λ s e. claimed_not_pending now r s (sym taken ∙ e)),
    )

-- A statement that finds another status on the row leaves the row alone.
compare_and_set_skips :
    (project_id id p' id' : Str) (expected : JobStatus) (set : OutboxJob → OutboxJob) (t : Table)
    {r : OutboxJob}
    → KeepsKey set
    → get p' id' t ≡ some r
    → r.status ≢ expected
    → get p' id' (compare_and_set project_id id expected set t).1 ≡ some r
compare_and_set_skips project_id id p' id' expected set t {r = r} keeps found other =
    ground (arith, found, get-compare_and_set project_id id expected set t keeps p' id')

recover_each_skips :
    (rows : List OutboxJob) (p' id' : Str) (t : Table) {r : OutboxJob}
    → get p' id' t ≡ some r
    → r.status ≢ processing
    → get p' id' (recover_each rows t).1 ≡ some r
unfolding recover_each
recover_each_skips [] p' id' t found other = found
recover_each_skips (row ∷ rows) p' id' t {r = r} found other =
    recover_each_skips rows p' id' (recover_one row t).1
      (rw (recover_one-table row t) (
        ground (
          arith,
          found,
          get-update p' id' (has_key_and_status row.project_id row.id processing) released t
              released-KeepsKey,
        )))
      other

get-insert :
    (project_id : Str) (job_type : JobType) (aggregate_type aggregate_id : Str) (payload : Fields)
    (key now : Str) (t : Table) (p' id' : Str) {r : OutboxJob}
    → get p' id' t ≡ some r
    → get p' id' (insert project_id job_type aggregate_type aggregate_id payload key now t).1
      ≡ some r
unfolding get
get-insert project_id job_type aggregate_type aggregate_id payload key now t p' id' h =
    elim (insert_cases project_id job_type aggregate_type aggregate_id payload key now t) [
      | inl (e, found, same) ↦ rw same h
      | inr (fresh, more) ↦ rw more (rw (select_one-append (has_key p' id') t _, h))
    ]

Step_final :
    (p' id' : Str) {t u : Table} {r : OutboxJob}
    → Step t u
    → get p' id' t ≡ some r
    → r.status ≡ succeeded
    → get p' id' u ≡ some r
unfolding claim complete reset_failed recover_stale
Step_final p' id' (enqueue {t = t} project_id job_type aggregate_type aggregate_id payload key now)
      h s =
    get-insert project_id job_type aggregate_type aggregate_id payload key now t p' id' h
Step_final p' id' (take {t = t} project_id id now) h s =
    compare_and_set_skips project_id id p' id' pending (claimed now) t (claimed-KeepsKey now) h
      (ground arith)
Step_final p' id' (finish {t = t} project_id id done error execution now) h s =
    compare_and_set_skips project_id id p' id' processing (finished done error execution now) t
      (finished-KeepsKey done error execution now) h (ground arith)
Step_final p' id' (retry {t = t} project_id id) h s =
    compare_and_set_skips project_id id p' id' failed requeued t requeued-KeepsKey h (ground arith)
Step_final p' id' (recover {t = t} cutoff) h s =
    recover_each_skips (select (is_stale cutoff) t) p' id' t h (ground arith)

-- A job that has succeeded keeps its row in every table reached from there.
pub succeeded_final :
    (project_id id : Str) {t u : Table} {r : OutboxJob}
    → get project_id id t ≡ some r
    → r.status ≡ succeeded
    → Reach t u
    → get project_id id u ≡ some r
succeeded_final project_id id h s here = h
succeeded_final project_id id h s (next way st) =
    Step_final project_id id st (succeeded_final project_id id h s way) s
