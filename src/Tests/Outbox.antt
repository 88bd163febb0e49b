-- ===== src/Tests/Outbox.antt =====
-- One job of the outbox, from its insert to its end.
use mathlib.Core.Path.{subst}
use ai_writing.Common.{
  ◌≤◌, ◌≡◌, refl, sym, ◌≢◌, Bool, true, false, Option, none, some, [], ◌∷◌, codes, arith, length,
  All, list_dec, list_eq, nat_eq,
}
use ai_writing.Data.Json.{end}
use ai_writing.Data.RecordId.{make_record_id}
use ai_writing.Data.RecordId.Fresh.{make_record_id_fresh}
use ai_writing.Common.{contains}
use ai_writing.Sql.{rowcount, select_one}
use ai_writing.Outbox.{
  Table, OutboxJob, consistency_analysis, clp_extraction, pending, succeeded, get, insert, claim,
  claimed,
}
use ai_writing.Outbox.Transitions.{IsKeyed}
use ai_writing.Outbox.Steps.{here, next, take}
use ai_writing.Outbox.Invariant.{IsConsistent, start, more, History-IsConsistent}
use ai_writing.Outbox.Keys.{Reach-IsKeyed}
use ai_writing.Outbox.Claims.{claim_once, succeeded_final}
use ai_writing.Outbox.Idempotency.{insert_once}
use ai_writing.Outbox.Service.{
  Services, State, Failure, disabled, call_handler, run_locked, process_pending,
}
use ai_writing.Outbox.Service.Runs.{IsRun, run_locked_lem, process_pending_bound}

abbrev job : OutboxJob
job = record {
  id = codes "j1";
  project_id = codes "p";
  job_type = consistency_analysis;
  aggregate_type = codes "manuscript_revision";
  aggregate_id = codes "r1";
  payload = end;
  idempotency_key = codes "k1";
  execution = none;
  status = pending;
  attempt_count = 0;
  last_error = [];
  created_at = codes "t0";
  completed_at = [];
  processing_started_at = [];
}

abbrev jobs : Table
jobs = job ∷ []

abbrev done_job : OutboxJob
done_job = record job { status = succeeded; attempt_count = 1 }

jobs-IsKeyed : IsKeyed jobs
unfolding rowcount
jobs-IsKeyed p i = ground arith

done-IsKeyed : IsKeyed (done_job ∷ [])
unfolding rowcount
done-IsKeyed p i = ground arith

jobs_found : get (codes "p") (codes "j1") jobs ≡ some job
unfolding get select_one list_dec native.Mathlib.Decide.ℕ_discrete
jobs_found = refl

done_found : get (codes "p") (codes "j1") (done_job ∷ []) ≡ some done_job
unfolding get select_one list_dec native.Mathlib.Decide.ℕ_discrete
done_found = refl

done_only :
    (r : OutboxJob) → get (codes "p") (codes "j1") (done_job ∷ []) ≡ some r → r.status ≢ pending
done_only r e = ground (arith, done_found)

jobs-IsConsistent : All IsConsistent jobs
jobs-IsConsistent = (
  record {
    waiting = λ e. (refl, refl, refl, refl);
    running = λ e. absurd (cc);
    done = λ e. absurd (cc);
    raised = λ e. absurd (cc);
  },
  tt,
)

-- A service without compiler whose one handler raises in every second run.
if_failed : Table → Bool → Option Failure × State Bool
if_failed t true = (
  some (record { type_name = codes "OSError"; message = [] }),
  record { jobs = t; world = false },
)
if_failed t false = (none, record { jobs = t; world = true })

abbrev services : Services Bool
services = record {
  handlers = λ ty. some (λ payload st. if_failed st.jobs st.world);
  compiler = disabled;
  wiki_name = codes "local";
  utc_now = λ w. codes "t1";
  seconds_ago = λ n w. codes "t0";
}

if_failed-jobs : (t : Table) (w : Bool) → (if_failed t w).1.jobs ≡ t
unfolding if_failed
if_failed-jobs t true = refl
if_failed-jobs t false = refl

services_keep :
    (c : OutboxJob) (before : State Bool)
    → IsKeyed before.jobs
    → IsKeyed (call_handler services c before).1.jobs
unfolding call_handler
services_keep c before keyed = subst IsKeyed (sym (if_failed-jobs before.jobs before.world)) keyed

claim_once_example :
    ((claim (codes "p") (codes "j1") (codes "t1") jobs).0 ≡ some (claimed (codes "t1") job))
    × (get (codes "p") (codes "j1") (claim (codes "p") (codes "j1") (codes "t1") jobs).1
        ≡ some (claimed (codes "t1") job))
    × (claim
          (codes "p")
          (codes "j1")
          (codes "t2")
          (claim (codes "p") (codes "j1") (codes "t1") jobs).1
        ≡ (none, (claim (codes "p") (codes "j1") (codes "t1") jobs).1))
claim_once_example =
    claim_once (codes "p") (codes "j1") (codes "t1") (codes "t2") jobs jobs-IsKeyed jobs_found refl

succeeded_final_example :
    get (codes "p") (codes "j1") (claim (codes "p") (codes "j1") (codes "t1") (done_job ∷ [])).1
    ≡ some done_job
succeeded_final_example =
    succeeded_final (codes "p") (codes "j1") done_found refl
      (next here (take (codes "p") (codes "j1") (codes "t1")))

insert_once_example :
    insert
      (codes "p")
      clp_extraction
      (codes "a")
      (codes "r2")
      end
      (codes "k2")
      (codes "t2")
      (claim
        (codes "p")
        (codes "j1")
        (codes "t1")
        (insert
          (codes "p")
          clp_extraction
          (codes "a")
          (codes "r2")
          end
          (codes "k2")
          (codes "t0")
          jobs).1).1
    ≡ (
      (insert
          (codes "p")
          clp_extraction
          (codes "a")
          (codes "r2")
          end
          (codes "k2")
          (codes "t0")
          jobs).0,
      (claim
          (codes "p")
          (codes "j1")
          (codes "t1")
          (insert
            (codes "p")
            clp_extraction
            (codes "a")
            (codes "r2")
            end
            (codes "k2")
            (codes "t0")
            jobs).1).1,
    )
insert_once_example =
    insert_once (codes "p") clp_extraction (codes "a") (codes "r2") end (codes "k2") (codes "t0")
      jobs (codes "p") clp_extraction (codes "a") (codes "r2") end (codes "t2")
      (next here (take (codes "p") (codes "j1") (codes "t1")))

run_locked_lem_example :
    IsRun services job
      (record { jobs = jobs; world = true })
      (run_locked services job (record { jobs = jobs; world = true }))
run_locked_lem_example =
    run_locked_lem services services_keep job job (record { jobs = jobs; world = true })
      jobs-IsKeyed jobs_found refl

process_pending_bound_example :
    length (process_pending services (codes "p") (record { jobs = jobs; world = true })).0 ≤ 100
process_pending_bound_example =
    process_pending_bound services (codes "p") (record { jobs = jobs; world = true })

History-IsConsistent_example : All IsConsistent (claim (codes "p") (codes "j1") (codes "t1") jobs).1
History-IsConsistent_example =
    History-IsConsistent jobs-IsConsistent
      (more start (take (codes "p") (codes "j1") (codes "t1")) refl)

Reach-IsKeyed_example : IsKeyed (claim (codes "p") (codes "j1") (codes "t1") jobs).1
Reach-IsKeyed_example =
    Reach-IsKeyed jobs-IsKeyed (next here (take (codes "p") (codes "j1") (codes "t1")))

make_record_id_fresh_example :
    contains
      (codes "a-b" ∷ codes "a-b-2" ∷ [])
      (make_record_id (codes "A b") (codes "a-b" ∷ codes "a-b-2" ∷ []))
    ≡ false
make_record_id_fresh_example = make_record_id_fresh (codes "A b") (codes "a-b" ∷ codes "a-b-2" ∷ [])
