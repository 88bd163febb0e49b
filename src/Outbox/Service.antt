-- ===== src/Outbox/Service.antt =====
-- `OutboxService` (backend/app/outbox/service.py), `execution_evidence` (outbox/capabilities.py) and
-- one sweep of the dispatcher (outbox/dispatcher.py). `W` is everything outside the table: what the
-- handlers read and write, and the clock. A handler runs between the transaction that claims its
-- job and the one that completes it.
pub mod Runs
use ai_writing.Common.{
  ℕ, ◌≡◌, Bool, true, false, not, Option, none, some, List, [], ◌∷◌, ◌++◌, Str, codes, ◌==◌,
  is_empty, if◌then◌else◌, list_eq, nat_eq,
}
use ai_writing.Common.Results.{Result, ok, err}
use ai_writing.Data.Errors.{Error, value_error}
use ai_writing.Data.Json.{Fields, Json, string, get as get_field}
use ai_writing.Outbox.{
  OutboxJob, JobType, llm_wiki_ingest, consistency_analysis, writeback_analysis, clp_extraction,
  job_type_name, AnalysisExecution, local_rules, local_cognition, index, external_clp,
  not_configured, unavailable, completed, limited, not_executed, outcome_failed, pending, failed,
  job_status_eq, Table, get, list_jobs, pending_project_ids, claim, complete, reset_failed,
  recover_stale,
}

-- An exception of a handler: `type(exc).__name__` and `str(exc)`.
pub record Failure : Type 0 where
  pub type_name : Str
  pub message : Str

-- The compiler that the service holds, as far as `isinstance` tells.
pub data Compiler : Type 0 where
  disabled : Compiler
  unavailable_compiler : Str → Compiler
  available : Str → Compiler

pub record State (W : Type 0) : Type 0 where
  pub jobs : Table
  pub world : W

-- What the service is built with. A handler maps the state to the one at its end, with what it and
-- the other connections have done in between: it may enqueue jobs, and the lease of its own job may be
-- recovered. The handlers, the clock and the arithmetic on time stamps are not part of this file's
-- code.
pub record Services (W : Type 0) : Type 0 where
  pub handlers : JobType → Option (Fields → State W → Option Failure × State W)
  pub compiler : Compiler
  pub wiki_name : Str
  pub utc_now : W → Str
  pub seconds_ago : ℕ → W → Str

abbrev pub compiler_version : Compiler → Str
compiler_version disabled = codes "disabled"
compiler_version (unavailable_compiler v) = v
compiler_version (available v) = v

-- `str(payload.get("source_ref") or f"{aggregate_type}:{aggregate_id}")`; the payloads that
-- outbox/events.py builds hold a text under this key or none.
unfoldable pub evidence_source : OutboxJob → Str
evidence_source job =
    let default = job.aggregate_type ++ codes ":" ++ job.aggregate_id in
    elim (get_field (codes "source_ref") job.payload) [
      | some (string s) ↦ if is_empty s then default else s
      | _ ↦ default
    ]

unfoldable pub clp_evidence : Compiler → Str → AnalysisExecution
clp_evidence disabled source = record {
  mode = not_configured;
  processor = codes "disabled";
  outcome = not_executed;
  source_ref = source;
  limitations = codes "CLP 未配置，未执行抽取。";
}
clp_evidence (unavailable_compiler v) source = record {
  mode = unavailable;
  processor = v;
  outcome = completed;
  source_ref = source;
  limitations = codes "CLP 配置不可用；正文已保存，可修复配置并重试。";
}
clp_evidence (available v) source = record {
  mode = external_clp;
  processor = v;
  outcome = completed;
  source_ref = source;
  limitations = codes "外部 CLP 仅提供有来源的候选，须人工审核；不是完整语义审稿或模型效果认证。";
}

unfoldable pub attempt_evidence : Compiler → Str → JobType → Str → AnalysisExecution
attempt_evidence compiler wiki consistency_analysis source = record {
  mode = local_rules;
  processor = codes "local_consistency";
  outcome = limited;
  source_ref = source;
  limitations = codes "仅本地文本规则；零问题不代表完整语义无矛盾。未执行模型语义审稿。";
}
attempt_evidence compiler wiki writeback_analysis source = record {
  mode = local_cognition;
  processor = codes "local_writeback";
  outcome = limited;
  source_ref = source;
  limitations = codes "本地 cognition 生成待审核候选；未自动调用 Provider，不直接写入 Canon。";
}
attempt_evidence compiler wiki clp_extraction source = clp_evidence compiler source
attempt_evidence compiler wiki llm_wiki_ingest source = record {
  mode = index;
  processor = wiki;
  outcome = completed;
  source_ref = source;
  limitations = codes "仅 Wiki 索引，不是正文正确性检查。";
}

unfoldable pub execution_evidence : Compiler → Str → OutboxJob → Bool → AnalysisExecution
execution_evidence compiler wiki job has_failed =
    let result = attempt_evidence compiler wiki job.job_type (evidence_source job) in
    if has_failed then record result { outcome = outcome_failed } else result

abbrev pub default_list_limit : ℕ
default_list_limit = 100

-- `a or b`
abbrev pub or_job : Option OutboxJob → OutboxJob → OutboxJob
or_job none b = b
or_job (some a) b = a

module _ {W : Type 0} (s : Services W) where
  -- The `try` of `_run_locked`: `none` is a handler that has returned.
  unfoldable pub call_handler : OutboxJob → State W → Option Failure × State W
  call_handler job st = elim (s.handlers job.job_type) [
    | none ↦ (
      some (record {
        type_name = codes "ValueError";
        message =
            codes "No handler registered for job type '"
            ++ job_type_name job.job_type
            ++ codes "'.";
      }),
      st,
    )
    | some handler ↦ handler job.payload st
  ]

  -- The two calls of `complete_outbox_job`.
  unfoldable pub complete_run : OutboxJob → Option Failure → W → Table → Option OutboxJob × Table
  complete_run job none w =
      complete job.project_id job.id true none
        (some (execution_evidence s.compiler s.wiki_name job false)) (s.utc_now w)
  complete_run job (some f) w =
      complete job.project_id job.id false (some (f.type_name ++ codes ": " ++ f.message))
        (some (execution_evidence s.compiler s.wiki_name job true)) (s.utc_now w)

  unfoldable pub run_claimed : OutboxJob → State W → OutboxJob × State W
  run_claimed job st =
      let (failure, ended) = call_handler job st in
      let (done, t) = complete_run job failure ended.world ended.jobs in
      (or_job done job, record ended { jobs = t })

  unfoldable pub run_locked : OutboxJob → State W → OutboxJob × State W
  run_locked job st =
      let (got, t) = claim job.project_id job.id (s.utc_now st.world) st.jobs in
      elim got [
        | none ↦ (job, record st { jobs = t })
        | some c ↦ run_claimed c (record st { jobs = t })
      ]

  unfoldable pub run_each : List OutboxJob → State W → List OutboxJob × State W
  run_each [] st = ([], st)
  run_each (job ∷ rest) st =
      let (done, st1) = run_locked job st in
      let (more, st2) = run_each rest st1 in (done ∷ more, st2)

  unfoldable pub process_pending : Str → State W → List OutboxJob × State W
  process_pending project_id st =
      run_each (list_jobs project_id (some pending) default_list_limit none st.jobs) st

  unfoldable pub process_job : Str → Str → State W → Option OutboxJob × State W
  process_job project_id job_id st = elim (get project_id job_id st.jobs) [
    | none ↦ (none, st)
    | some job ↦
        if not (job.status == pending)
        then (some job, st)
        else let (done, st') = run_locked job st in (some done, st')
  ]

  -- `retry`; its ValueErrors leave the state as it was.
  unfoldable pub retry : Str → Str → State W → Result Error (Option OutboxJob × State W)
  retry project_id job_id st = elim (get project_id job_id st.jobs) [
    | none ↦ ok (none, st)
    | some job ↦
        if not (job.status == failed)
        then err (value_error (codes "Only failed outbox jobs can be retried."))
        else let (reset, t) = reset_failed project_id job_id st.jobs in
          elim reset [
            | none ↦ err (value_error (codes "Another request already retried this job."))
            | some r ↦ ok (some r, record st { jobs = t })
          ]
  ]

  unfoldable pub process_projects : List Str → State W → List OutboxJob × State W
  process_projects [] st = ([], st)
  process_projects (p ∷ ps) st =
      let (done, st1) = process_pending p st in
      let (more, st2) = process_projects ps st1 in (done ++ more, st2)

  unfoldable pub resume_pending_jobs : State W → List OutboxJob × State W
  resume_pending_jobs st = process_projects (pending_project_ids st.jobs) st

  unfoldable pub recover_stale_processing_jobs : ℕ → State W → List OutboxJob × State W
  recover_stale_processing_jobs lease_seconds st =
      let (jobs, t) = recover_stale (s.seconds_ago lease_seconds st.world) st.jobs in
      (jobs, record st { jobs = t })

  unfoldable pub recover_interrupted_jobs : ℕ → State W → List OutboxJob × State W
  recover_interrupted_jobs lease_seconds st =
      let (recovered, st1) = recover_stale_processing_jobs lease_seconds st in
      let (resumed, st2) = resume_pending_jobs st1 in (recovered ++ resumed, st2)

  -- `OutboxDispatcher._sweep`
  unfoldable pub sweep : ℕ → State W → List OutboxJob × State W
  sweep lease_seconds st = resume_pending_jobs (recover_stale_processing_jobs lease_seconds st).1
