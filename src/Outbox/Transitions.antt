-- ===== src/Outbox/Transitions.antt =====
-- What each compare-and-set does to the row of its key and to every other row.
use mathlib.Core.Option
use ai_writing.Common.{
  ◌≤◌, ◌≡◌, refl, ◌∙◌, ◌≢◌, ◌⊎◌, inl, inr, Bool, true, false, Option, none, some, Str, ◌==◌,
  list_eq, nat_eq, arith, Bool-cases, Option-cases,
}
use ai_writing.Sql.{select_one, update, rowcount}
use ai_writing.Sql.Laws.{
  updated, keep, select_one-update, select_one_sound, select_one-and, rowcount_pos, rowcount_zero,
}
use ai_writing.Outbox.{
  OutboxJob, JobStatus, processing, Table, has_key, has_key_and_status, get, compare_and_set,
  recover_one, released, claimed, finished, requeued, AnalysisExecution, job_status_eq,
}

-- `id` is a primary key, so each key names one row at most.
abbrev pub IsKeyed : Table → Type 0
IsKeyed t = (project_id id : Str) → rowcount (has_key project_id id) t ≤ 1

-- A SET clause that writes no column of the key.
abbrev pub KeepsKey : (OutboxJob → OutboxJob) → Type 0
KeepsKey set = (r : OutboxJob) → ((set r).project_id ≡ r.project_id) × ((set r).id ≡ r.id)

-- No SET clause of the repository writes the id or the project.
pub claimed-KeepsKey : (now : Str) → KeepsKey (claimed now)
unfolding claimed
claimed-KeepsKey now r = (refl, refl)

pub finished-KeepsKey :
    (done : Bool) (error : Option Str) (execution : Option AnalysisExecution) (now : Str)
    → KeepsKey (finished done error execution now)
unfolding finished
finished-KeepsKey done error execution now r = (refl, refl)

pub requeued-KeepsKey : KeepsKey requeued
unfolding requeued
requeued-KeepsKey r = (refl, refl)

pub released-KeepsKey : KeepsKey released
unfolding released
released-KeepsKey r = (refl, refl)

pub has_key-set :
    (project_id id : Str) (set : OutboxJob → OutboxJob) (r : OutboxJob)
    → KeepsKey set
    → has_key project_id id (set r) ≡ has_key project_id id r
has_key-set project_id id set r keeps = rw ((keeps r).0, (keeps r).1)

pub get_sound :
    (project_id id : Str) (t : Table) {r : OutboxJob}
    → get project_id id t ≡ some r
    → (r.project_id ≡ project_id) × (r.id ≡ id)
unfolding get
get_sound project_id id t {r = r} h = ground (arith, select_one_sound (has_key project_id id) t h)

pub get-update :
    (project_id id : Str) (p : OutboxJob → Bool) (set : OutboxJob → OutboxJob) (t : Table)
    → KeepsKey set
    → get project_id id (update p set t) ≡ Option.map (updated p set) (get project_id id t)
unfolding get
get-update project_id id p set t keeps =
    select_one-update (has_key project_id id) p set t (λ r. has_key-set project_id id set r keeps)

rowcount_of_get :
    (project_id id : Str) (p : OutboxJob → Bool) (t : Table) {r : OutboxJob}
    → get project_id id t ≡ some r
    → p r ≡ true
    → rowcount p t ≢ 0
unfolding get
rowcount_of_get project_id id p t h e = rowcount_pos p (has_key project_id id) t h e

module _ (project_id id : Str) (expected : JobStatus) (set : OutboxJob → OutboxJob) (t : Table)
    (keeps : KeepsKey set) where
  -- Every read after a compare-and-set finds the row that it found before, written where it has the
  -- key and the expected status.
  pub get-compare_and_set :
      (p' id' : Str)
      → get p' id' (compare_and_set project_id id expected set t).1
        ≡ Option.map (updated (has_key_and_status project_id id expected) set) (get p' id' t)
  unfolding compare_and_set
  get-compare_and_set p' id' =
      let p = has_key_and_status project_id id expected in
      elim (Option-cases (get p' id' t)) [
        | inl missing ↦ ground (arith, missing, get-update p' id' p set t keeps)
        | inr (r, found) ↦ ground (arith, found, get-update p' id' p set t keeps, hit p' id' found)
      ]
    where
      hit :
          (p' id' : Str) {r : OutboxJob}
          → get p' id' t ≡ some r
          → (has_key_and_status project_id id expected r ≡ false)
            ⊎ (rowcount (has_key_and_status project_id id expected) t ≢ 0)
      hit p' id' {r = r} found = elim (Bool-cases (has_key_and_status project_id id expected r)) [
        | inr e ↦ inl e
        | inl e ↦ inr (rowcount_of_get p' id' (has_key_and_status project_id id expected) t found e)
      ]

  -- Where the row has the expected status, it is written, and returned as written.
  pub compare_and_set_hit :
      {r : OutboxJob}
      → get project_id id t ≡ some r
      → r.status ≡ expected
      → (compare_and_set project_id id expected set t).0 ≡ some (set r)
  unfolding compare_and_set
  compare_and_set_hit {r = r} found same =
      let p = has_key_and_status project_id id expected in
      let here : p r ≡ true = ground (arith, get_sound project_id id t found) in
      ground (
        arith,
        found,
        here,
        rowcount_of_get project_id id p t found here,
        get-update project_id id p set t keeps,
      )

  -- Where no row has the key and the expected status, nothing is written.
  pub compare_and_set_miss :
      IsKeyed t
      → ((r : OutboxJob) → get project_id id t ≡ some r → r.status ≢ expected)
      → compare_and_set project_id id expected set t ≡ (none, t)
  unfolding compare_and_set get
  compare_and_set_miss keyed other =
      let p = has_key_and_status project_id id expected in
      let q : OutboxJob → Bool = λ r. r.status == expected in
      let none_left : select_one p t ≡ none =
        select_one-and (has_key project_id id) q t (keyed project_id id)
        ∙ nothing (get project_id id t) refl in
      ground (arith, rowcount_zero p t none_left)
    where
      nothing :
          (o : Option OutboxJob)
          → get project_id id t ≡ o
          → keep (λ r. r.status == expected) o ≡ none
      nothing none e = refl
      nothing (some r) e = ground (arith, other r e)

-- The sweep writes a row of the batch that is still being processed.
pub recover_one-table :
    (row : OutboxJob) (t : Table)
    → (recover_one row t).1
      ≡ update (has_key_and_status row.project_id row.id processing) released t
unfolding recover_one
recover_one-table row t = ground arith
