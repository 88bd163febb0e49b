-- ===== src/Outbox/Service/Runs.antt =====
-- One run of a job by the service: what becomes of its row, and when its handler is called.
use ai_writing.Common.{
  ◌≤◌, ◌≡◌, refl, ap, ap₂, ◌∙◌, ◌≢◌, ◌==◌, ◌⊎◌, inl, inr, ◌+◌, Option-cases, Bool-cases, Bool, true,
  false, Option, none, some, List, [], ◌∷◌, ◌++◌, Str, codes, nat_eq, list_eq, arith, length,
}
use ai_writing.Data.Json.{Fields}
use ai_writing.Sql.Laws.{length-limit}
use ai_writing.Outbox.{
  OutboxJob, AnalysisExecution, pending, processing, succeeded, failed, job_type_name,
  job_status_eq, Table, get, claim, claimed, complete, finished, list_jobs,
}
use ai_writing.Outbox.Transitions.{
  IsKeyed, claimed-KeepsKey, finished-KeepsKey, compare_and_set_hit, compare_and_set_miss,
  get-compare_and_set, get_sound,
}
use ai_writing.Outbox.Claims.{claim_once}
use ai_writing.Outbox.Keys.{Reach-IsKeyed}
use ai_writing.Outbox.Steps.{here, next, take}
use ai_writing.Outbox.Service.{
  Services, State, Failure, call_handler, complete_run, run_claimed, run_locked, run_each,
  process_pending, default_list_limit, execution_evidence, or_job,
}

length-list_jobs :
    (project_id : Str) (t : Table)
    → length (list_jobs project_id (some pending) default_list_limit none t) ≤ 100
unfolding list_jobs
length-list_jobs project_id t = length-limit 100 _

claim_miss :
    (project_id id now : Str) (t : Table)
    → IsKeyed t
    → ((r : OutboxJob) → get project_id id t ≡ some r → r.status ≢ pending)
    → claim project_id id now t ≡ (none, t)
unfolding claim
claim_miss project_id id now t keyed taken =
    compare_and_set_miss project_id id pending (claimed now) t (claimed-KeepsKey now) keyed taken

module _ {W : Type 0} (s : Services W) where
  -- Where keys are unique and the row of a job, if there is one, is not pending, a run of the job
  -- returns it and changes nothing.
  pub run_locked_skips :
      (job : OutboxJob) (st : State W)
      → IsKeyed st.jobs
      → ((r : OutboxJob) → get job.project_id job.id st.jobs ≡ some r → r.status ≢ pending)
      → run_locked s job st ≡ (job, st)
  unfolding run_locked
  run_locked_skips job st keyed taken =
      ground (arith, claim_miss job.project_id job.id (s.utc_now st.world) st.jobs keyed taken)

  -- How the handler of the claimed row `c` has gone from the state `st`.
  pub data Ran (c : OutboxJob) (st : State W) : Option Failure → State W → Type 0 where
    called :
        (handler : Fields → State W → Option Failure × State W) {failure : Option Failure}
        {ended : State W}
        → s.handlers c.job_type ≡ some handler
        → handler c.payload st ≡ (failure, ended)
        → Ran c st failure ended
    unregistered :
        s.handlers c.job_type ≡ none
        → Ran c st
            (some (record {
              type_name = codes "ValueError";
              message =
                  codes "No handler registered for job type '"
                  ++ job_type_name c.job_type
                  ++ codes "'.";
            }))
            st

  -- The row `q` at the end of a run of the claimed row `c`.
  abbrev pub ended_row : OutboxJob → Option Failure → Str → OutboxJob → OutboxJob
  ended_row c none now q = record q {
    status = succeeded;
    execution = some (execution_evidence s.compiler s.wiki_name c false);
    last_error = [];
    completed_at = now;
    processing_started_at = [];
  }
  ended_row c (some f) now q = record q {
    status = failed;
    execution = some (execution_evidence s.compiler s.wiki_name c true);
    last_error = f.type_name ++ codes ": " ++ f.message;
    completed_at = now;
    processing_started_at = [];
  }

  -- The run of the pending row `r` from the state `st`, which returns `x`.
  pub record IsRun (r : OutboxJob) (st : State W) (x : OutboxJob × State W) : Type 0 where
    pub claimed_row : OutboxJob
    pub before : State W
    pub failure : Option Failure
    pub ended : State W
    pub is_claimed : claimed_row ≡ record r {
      status = processing;
      attempt_count = r.attempt_count + 1;
      processing_started_at = s.utc_now st.world;
      completed_at = [];
      last_error = [];
    }
    pub taken : get r.project_id r.id before.jobs ≡ some claimed_row
    pub same_world : before.world ≡ st.world
    pub ran : Ran claimed_row before failure ended
    pub result :
        ((q : OutboxJob) × (get r.project_id r.id ended.jobs ≡ some q)
          × (q.status ≡ processing)
          × (x.0 ≡ ended_row claimed_row failure (s.utc_now ended.world) q)
          × (get r.project_id r.id x.1.jobs
              ≡ some (ended_row claimed_row failure (s.utc_now ended.world) q))
          × (x.1.world ≡ ended.world))
        ⊎ (((q : OutboxJob) → get r.project_id r.id ended.jobs ≡ some q → q.status ≢ processing)
            × (x ≡ (claimed_row, ended)))

  call_handler-Ran :
      (c : OutboxJob) (st : State W) → Ran c st (call_handler s c st).0 (call_handler s c st).1
  unfolding call_handler
  call_handler-Ran c st = elim (Option-cases (s.handlers c.job_type)) [
    | inl e ↦ rw (e, call_handler) (unregistered e)
    | inr (h, e) ↦ rw (e, call_handler) (called h e refl)
  ]

  complete_hit :
      (project_id id : Str) (done : Bool) (error : Option Str)
      (execution : Option AnalysisExecution) (now : Str) (t : Table) {q : OutboxJob}
      → get project_id id t ≡ some q
      → q.status ≡ processing
      → ((complete project_id id done error execution now t).0
          ≡ some (finished done error execution now q))
        × (get project_id id (complete project_id id done error execution now t).1
            ≡ some (finished done error execution now q))
  unfolding complete
  complete_hit project_id id done error execution now t found running =
      let set = finished done error execution now in
      let keeps = finished-KeepsKey done error execution now in
      (
        compare_and_set_hit project_id id processing set t keeps found running,
        ground (
          arith,
          found,
          get_sound project_id id t found,
          get-compare_and_set project_id id processing set t keeps project_id id,
        ),
      )

  complete_run_hit :
      (c q : OutboxJob) (failure : Option Failure) (w : W) (t : Table)
      → get c.project_id c.id t ≡ some q
      → q.status ≡ processing
      → ((complete_run s c failure w t).0 ≡ some (ended_row c failure (s.utc_now w) q))
        × (get c.project_id c.id (complete_run s c failure w t).1
            ≡ some (ended_row c failure (s.utc_now w) q))
  unfolding complete_run finished
  complete_run_hit c q none w t found running =
      complete_hit c.project_id c.id true none _ (s.utc_now w) t found running
  complete_run_hit c q (some f) w t found running =
      complete_hit c.project_id c.id false _ _ (s.utc_now w) t found running

  complete_run_miss :
      (c : OutboxJob) (failure : Option Failure) (w : W) (t : Table)
      → IsKeyed t
      → ((q : OutboxJob) → get c.project_id c.id t ≡ some q → q.status ≢ processing)
      → complete_run s c failure w t ≡ (none, t)
  unfolding complete_run complete
  complete_run_miss c none w t keyed other =
      compare_and_set_miss c.project_id c.id processing (finished true none _ (s.utc_now w)) t
        (finished-KeepsKey true none _ (s.utc_now w)) keyed other
  complete_run_miss c (some f) w t keyed other =
      compare_and_set_miss c.project_id c.id processing (finished false _ _ (s.utc_now w)) t
        (finished-KeepsKey false _ _ (s.utc_now w)) keyed other

  -- What the completion makes of the state that the handler has ended with.
  run_claimed_result :
      (c : OutboxJob) (st : State W)
      → IsKeyed (call_handler s c st).1.jobs
      → let (failure, ended) = call_handler s c st in
        let x = run_claimed s c st in
        ((q : OutboxJob) × (get c.project_id c.id ended.jobs ≡ some q)
          × (q.status ≡ processing)
          × (x.0 ≡ ended_row c failure (s.utc_now ended.world) q)
          × (get c.project_id c.id x.1.jobs ≡ some (ended_row c failure (s.utc_now ended.world) q))
          × (x.1.world ≡ ended.world))
        ⊎ (((q : OutboxJob) → get c.project_id c.id ended.jobs ≡ some q → q.status ≢ processing)
            × (x ≡ (c, ended)))
  unfolding run_claimed
  run_claimed_result c st keyed =
      let (failure, ended) = call_handler s c st in
      let over : ((q : OutboxJob)
            → get c.project_id c.id ended.jobs ≡ some q
            → q.status ≢ processing)
          → run_claimed s c st ≡ (c, ended) =
        λ other.
          ap (λ (y : Option OutboxJob × Table). (or_job (y.0) c, record ended { jobs = y.1 }))
            (complete_run_miss c failure ended.world ended.jobs keyed other) in
      elim (Option-cases (get c.project_id c.id ended.jobs)) [
        | inl e ↦
            let gone : (q : OutboxJob)
                → get c.project_id c.id ended.jobs ≡ some q
                → q.status ≢ processing =
              λ q h. ground (arith, e, h) in
            inr (gone, over gone)
        | inr (q, e) ↦ elim (Bool-cases (q.status == processing)) [
          | inl p ↦
              let (done, kept) =
                complete_run_hit c q failure ended.world ended.jobs e (ground arith) in
              inl (q, e, ground arith, ap (λ o. or_job o c) done, kept, refl)
          | inr p ↦
              let other : (q' : OutboxJob)
                  → get c.project_id c.id ended.jobs ≡ some q'
                  → q'.status ≢ processing =
                λ q' h. ground (arith, p, e, h) in
              inr (other, over other)
        ]
      ]

  -- The row of the job goes to the handler as the claim has left it.
  run_locked_taken :
      (job : OutboxJob) (st : State W) {c : OutboxJob}
      → (claim job.project_id job.id (s.utc_now st.world) st.jobs).0 ≡ some c
      → run_locked s job st
        ≡ run_claimed s c (record {
          jobs = (claim job.project_id job.id (s.utc_now st.world) st.jobs).1;
          world = st.world;
        })
  unfolding run_locked run_claimed
  run_locked_taken job st e = rw (e, run_locked)

  -- Where the row of a job is pending, keys are unique and the handlers keep them so, a run of the
  -- job claims the row (processing, one attempt more, a lease stamp, no completion time and no
  -- error) and gives the payload of the claimed row to the handler that is registered for its
  -- type, in the state after the claim, or fails with a ValueError where none is registered; if
  -- the row is still processing in the state that the handler has ended with, the run returns and
  -- leaves the row as succeeded without an error or as failed with the type and the message of the
  -- exception, with the evidence, a completion time and no lease stamp; else it returns the
  -- claimed row and leaves that state; what lies outside the table is as the handler left it.
  pub run_locked_lem :
      (keeps : (c : OutboxJob) (before : State W)
        → IsKeyed before.jobs
        → IsKeyed (call_handler s c before).1.jobs)
      (job r : OutboxJob) (st : State W)
      → IsKeyed st.jobs
      → get job.project_id job.id st.jobs ≡ some r
      → r.status ≡ pending
      → IsRun r st (run_locked s job st)
  unfolding claimed
  run_locked_lem keeps job r st keyed found waiting =
      let now = s.utc_now st.world in
      let (won, kept, lost) =
        claim_once job.project_id job.id now now st.jobs keyed found waiting in
      let c = claimed now r in
      let before : State W = record {
        jobs = (claim job.project_id job.id now st.jobs).1;
        world = st.world;
      } in
      let key = get_sound job.project_id job.id st.jobs found in
      let still = Reach-IsKeyed keyed (next here (take job.project_id job.id now)) in
      record {
        claimed_row = c;
        before = before;
        failure = (call_handler s c before).0;
        ended = (call_handler s c before).1;
        is_claimed = refl;
        taken = ap₂ (λ (p i : Str). get p i before.jobs) key.0 key.1 ∙ kept;
        same_world = refl;
        ran = call_handler-Ran c before;
        result =
            rw (run_locked_taken job st won) (run_claimed_result c before (keeps c before still));
      }

  length-run_each :
      (jobs : List OutboxJob) (st : State W) → length (run_each s jobs st).0 ≡ length jobs
  unfolding run_each
  length-run_each [] st = refl
  length-run_each (job ∷ rest) st = omega (arith, length-run_each rest (run_locked s job st).1)

  -- One call of process_pending returns at most 100 jobs.
  pub process_pending_bound :
      (project_id : Str) (st : State W) → length (process_pending s project_id st).0 ≤ 100
  unfolding process_pending
  process_pending_bound project_id st =
      rw (length-run_each (list_jobs project_id (some pending) default_list_limit none st.jobs) st)
        (length-list_jobs project_id st.jobs)
