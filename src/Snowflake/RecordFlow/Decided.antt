-- ===== src/Snowflake/RecordFlow/Decided.antt =====
-- The acceptance of a record revision (`decide_snowflake_record_revision`,
-- backend/app/data/transactions/snowflake.py).
use mathlib.Core.Path.{subst}
use mathlib.Core.Option.{some-injective}
use ai_writing.Common.{
  ℕ, ◌≡◌, sym, ◌∙◌, Bool, true, false, some, List, map, Str, contains, list_eq, nat_eq, arith, inl,
  inr, Bool-cases, Option-cases,
}
use ai_writing.Common.Results.{ok, >>=-eq-ok, ok_injective}
use ai_writing.Canon.{CanonEntity}
use ai_writing.Data.Json.{Fields}
use ai_writing.Sql.Laws.{select_one_sound}
use ai_writing.Threads.{StoryThread}
use ai_writing.Snowflake.{revision_status_eq, Decision}
use ai_writing.Snowflake.Records
use ai_writing.Snowflake.Records.{RecordRevision, RecordHead}
use ai_writing.Snowflake.Records.Single.{decide-IsDecided}
use ai_writing.Snowflake.Records.Reads.{list_accepted}
use ai_writing.Snowflake.Artifacts.{ArtifactRevision}
use ai_writing.Snowflake.Artifacts.Writes
use ai_writing.Snowflake.Artifacts.Writes.{
  new_revision, create_revision, set_revision_status, approved_head, accept_revision,
}
use ai_writing.Snowflake.RecordFlow.Projected.{IsProjected, project-IsProjected}
use ai_writing.Snowflake.RecordFlow.{
  Store, check_candidate, project, is_replay, decide_open, decide_found,
  decide_snowflake_record_revision,
}

module _ (passes : ℕ → Fields → Bool)
    (passes_context : List RecordRevision → List CanonEntity → List StoryThread → Bool) where
  module _ (project_id id expected reason hex now : Str) (s : Store)
      (fresh : (step : ℕ)
        → contains
            (map (λ (r : ArtifactRevision). r.id) s.base.snowflake.revisions)
            (Writes.new_id project_id step hex)
          ≡ false)
      {r : RecordRevision} {x : (RecordRevision × RecordHead) × Store}
      (there : Records.get_revision project_id id s.records ≡ some r)
      (open_r : Records.is_open r.status ≡ true)
      (done : decide_snowflake_record_revision passes passes_context project_id id Decision.accepted
          expected reason hex now s
        ≡ ok x) where
    decided_open :
        decide_open passes passes_context project_id r.id Decision.accepted expected reason hex now
          s
        ≡ ok x
    unfolding decide_snowflake_record_revision decide_found
    decided_open =
        let found = rw (there, decide_snowflake_record_revision) at done in
        elim (Option-cases (Records.get_head project_id r.step_number r.record_id s.records)) [
          | inl e ↦
              (>>=-eq-ok (check_candidate passes passes_context project_id r s) _
                (rw (e, decide_found) at found)).2
          | inr (h, e) ↦ elim (Bool-cases (is_replay r expected h)) [
            | inl replay ↦ ground arith
            | inr new ↦
                (>>=-eq-ok (check_candidate passes passes_context project_id r s) _
                  (rw new at (rw (e, decide_found) at found))).2
          ]
        ]

    -- Where an open record revision is accepted without an error and the name of the new artifact
    -- revision is new, the returned revision and head are the ones that are read afterwards, every
    -- accepted record of the step passes its validation, and the head of the step names an
    -- accepted artifact revision whose payload and text are those records in order; the heads of
    -- exactly the steps that the step feeds are marked stale but for missing heads of the first
    -- nine steps, every other head is read as before, and the job of the new artifact is queued.
    pub decide_record_lem :
        IsProjected passes passes_context project_id
          (x.0.0)
          (list_accepted project_id x.0.0.step_number x.1.records)
          s.base
          x.1.base
        × (Records.get_revision r.project_id r.id x.1.records ≡ some (x.0.0))
        × (Records.get_head r.project_id r.step_number r.record_id x.1.records ≡ some (x.0.1))
    unfolding decide_open Records.get_revision
    decide_record_lem =
        let (y, decided, h1) =
          >>=-eq-ok (Records.decide project_id r.id Decision.accepted expected reason now s.records)
            _ decided_open in
        let (base, made, h2) =
          >>=-eq-ok
            (project passes passes_context project_id (y.0.0)
              (list_accepted project_id y.0.0.step_number (y.1)) hex now s.base)
            _ h1 in
        let (r', found, owner, same_id, w) =
          decide-IsDecided project_id r.id Decision.accepted expected reason now s.records
            decided in
        let key = select_one_sound (Records.has_id project_id id) s.records.revisions there in
        let there' : Records.get_revision project_id r.id s.records ≡ some r =
          ground (arith, key, there) in
        let same : r' ≡ r = some-injective r' r (sym found ∙ there') in
        let rows =
          subst
            (λ (v : RecordRevision).
              (Records.get_revision v.project_id v.id y.1 ≡ some (y.0.0))
              × (Records.get_head v.project_id v.step_number v.record_id y.1 ≡ some (y.0.1)))
            same (w.row, w.head) in
        subst
          (λ (x : (RecordRevision × RecordHead) × Store).
            IsProjected passes passes_context project_id (x.0.0)
              (list_accepted project_id x.0.0.step_number x.1.records) s.base x.1.base
            × (Records.get_revision r.project_id r.id x.1.records ≡ some (x.0.0))
            × (Records.get_head r.project_id r.step_number r.record_id x.1.records ≡ some (x.0.1)))
          (ok_injective h2)
          (
            project-IsProjected passes passes_context project_id (y.0.0)
                (list_accepted project_id y.0.0.step_number (y.1)) hex now s.base
                (fresh y.0.0.step_number) made,
            rows.0,
            rows.1,
          )
