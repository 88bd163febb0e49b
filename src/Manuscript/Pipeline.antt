-- ===== src/Manuscript/Pipeline.antt =====
-- Every committed revision is queued for all four jobs
-- (backend/app/data/transactions/revision_jobs.py).
use mathlib.Core.Path.{subst}
use ai_writing.Common.{◌≡◌, [], ◌∷◌, Str, list_eq, nat_eq, All}
use ai_writing.Common.Results.{ok, >>=-eq-ok, ok_injective}
use ai_writing.Outbox.Queued.{IsQueued, insert-IsQueued, insert_keeps}
use ai_writing.Manuscript.{Revision, Store}
use ai_writing.Manuscript.Scenes.{insert_revision}
use ai_writing.Manuscript.Jobs.{
  index_key, consistency_key, writeback_key, clp_key, enqueue_manuscript_revision_index_job,
  enqueue_manuscript_revision_analysis_jobs, enqueue_committed_revision_jobs,
}
use ai_writing.Manuscript.Flows.{file_revision}

enqueue_committed_revision_jobs-IsQueued :
    (r : Revision) (now : Str) (s : Store)
    → All
        (IsQueued (enqueue_committed_revision_jobs r now s).jobs)
        (index_key r.id ∷ consistency_key r.id ∷ writeback_key r.id ∷ clp_key r.id ∷ [])
unfolding enqueue_committed_revision_jobs enqueue_manuscript_revision_index_job
    enqueue_manuscript_revision_analysis_jobs
enqueue_committed_revision_jobs-IsQueued r now s = (
  insert_keeps _ _ _ _ _ _ _ _ (index_key r.id) (
      insert_keeps _ _ _ _ _ _ _ _ (index_key r.id)
        (insert_keeps _ _ _ _ _ _ _ _ (index_key r.id) (insert-IsQueued _ _ _ _ _ _ _ _))),
  (
    insert_keeps _ _ _ _ _ _ _ _ (consistency_key r.id)
        (insert_keeps _ _ _ _ _ _ _ _ (consistency_key r.id) (insert-IsQueued _ _ _ _ _ _ _ _)),
    (
      insert_keeps _ _ _ _ _ _ _ _ (writeback_key r.id) (insert-IsQueued _ _ _ _ _ _ _ _),
      (insert-IsQueued _ _ _ _ _ _ _ _, tt),
    ),
  ),
)

-- When a revision is filed without an error, the outbox holds a job for each of its four
-- idempotency keys.
pub file_revision-IsQueued :
    (r : Revision) (now : Str) (s : Store) {s' : Store}
    → file_revision r now s ≡ ok s'
    → All
        (IsQueued s'.jobs)
        (index_key r.id ∷ consistency_key r.id ∷ writeback_key r.id ∷ clp_key r.id ∷ [])
unfolding file_revision
file_revision-IsQueued r now s h =
    let (filed, inserted, e) = >>=-eq-ok (insert_revision r s) _ h in
    subst
      (λ (u : Store).
        All (IsQueued u.jobs)
          (index_key r.id ∷ consistency_key r.id ∷ writeback_key r.id ∷ clp_key r.id ∷ []))
      (ok_injective e) (enqueue_committed_revision_jobs-IsQueued r now filed)
