-- ===== src/Snowflake/RecordFlow/Projected.antt =====
-- The accepted records of a step are the accepted artifact of the step
-- (`decide_snowflake_record_revision`, backend/app/data/transactions/snowflake.py).
use mathlib.Core.Path.{subst}
use ai_writing.Common.{
  ℕ, ◌≡◌, ◌≢◌, refl, sym, ap, ◌∙◌, Bool, true, false, some, List, [], ◌∷◌, ◌++◌, map, Str, codes,
  decimal, leb, length, contains, ◌==◌, list_eq, nat_eq, if◌then◌else◌, arith, inl, inr, Bool-cases,
  All,
}
use ai_writing.Common.Results.{Result, ok, ◌>>=◌, err, >>=-eq-ok, ok_injective, err-ne-ok}
use ai_writing.Canon.{CanonEntity}
use ai_writing.Data.Errors.{Error, validation_error, value_error}
use ai_writing.Data.Json.{Fields}
use ai_writing.Outbox.Queued.{IsQueued, insert-IsQueued}
use ai_writing.Sql.Laws.{select_one-append_new, select_one_zero, rowcount_absent, rowcount-le}
use ai_writing.Threads.{StoryThread}
use ai_writing.Snowflake.{RevisionStatus, revision_status_eq, derived}
use ai_writing.Snowflake.Steps.{StepSpec, get_step_spec}
use ai_writing.Snowflake.Dependencies.{Heads, downstream_steps, upstream_snapshot}
use ai_writing.Snowflake.Dependencies.Closure.{
  Feeds, downstream_steps_apart, downstream_steps-Feeds,
}
use ai_writing.Snowflake.Records.{RecordRevision}
use ai_writing.Snowflake.Artifacts.{
  ArtifactRevision, Snowflake, has_id, get_head, get_revision, accepted_head_ids,
  update_accepted_projection,
}
use ai_writing.Snowflake.Artifacts.Writes
use ai_writing.Snowflake.Artifacts.Writes.{
  new_revision, create_revision, set_revision_status, approved_head, accept_revision,
}
use ai_writing.Snowflake.Artifacts.Acceptance.{
  accepted_revision, reviewed, set_revision_status_lem, get_revision-supersede, get_head-accepted,
}
use ai_writing.Snowflake.Artifacts.Flow
use ai_writing.Snowflake.Artifacts.Staleness.{marked}
use ai_writing.Snowflake.RecordFlow.{
  snapshot, content_of, projected, check_records, publish, project,
}

-- What the later heads are marked with.
abbrev pub stale_reason : ℕ → Str
stale_reason step = codes "Step " ++ decimal step ++ codes " accepted record set changed."

module _ (passes : ℕ → Fields → Bool)
    (passes_context : List RecordRevision → List CanonEntity → List StoryThread → Bool) where
  -- The records `rs` are the accepted artifact of the step of `q`, made from the tables `s`.
  pub record IsProjected (project_id : Str) (q : RecordRevision) (rs : List RecordRevision)
      (s s' : Flow.Store) : Type 0 where
    pub projection : ArtifactRevision
    pub passed : All (λ (r : RecordRevision). passes r.step_number r.payload ≡ true) rs
    pub payload : projection.structured_payload ≡ snapshot rs
    pub content : projection.content ≡ content_of rs
    pub status : projection.status ≡ RevisionStatus.accepted
    pub is_read : get_revision project_id projection.id s'.snowflake ≡ some projection
    pub head : get_head project_id q.step_number s'.snowflake ≡ approved_head projection
    pub later :
        (t : ℕ)
        → Feeds q.step_number t
        → get_head project_id t s'.snowflake
          ≡ marked (stale_reason q.step_number) q.id t (get_head project_id t s.snowflake)
    pub others :
        (t : ℕ)
        → t ≢ q.step_number
        → (Feeds q.step_number t → ⊥)
        → get_head project_id t s'.snowflake ≡ get_head project_id t s.snowflake
    pub queued :
        IsQueued s'.jobs (codes "llm_wiki_ingest:snowflake_record_snapshot:" ++ projection.id)

  check_records_lem :
      (rs : List RecordRevision)
      → check_records passes passes_context rs ≡ ok tt
      → All (λ (r : RecordRevision). passes r.step_number r.payload ≡ true) rs
  unfolding check_records
  check_records_lem [] h = tt
  check_records_lem (r ∷ rs) h = elim (Bool-cases (passes r.step_number r.payload)) [
    | inl e ↦ (e, check_records_lem rs (rw e at h))
    | inr e ↦ absurd (err-ne-ok (rw e at h))
  ]

  module _ (project_id : Str) (q : RecordRevision) (rs : List RecordRevision) (hex now : Str)
      (s : Flow.Store)
      (fresh : contains
          (map (λ (r : ArtifactRevision). r.id) s.snowflake.revisions)
          (Writes.new_id project_id q.step_number hex)
        ≡ false) where
    -- A row that is added under the new id is read back.
    get_draft :
        (r : ArtifactRevision)
        → r.project_id ≡ project_id
        → r.id ≡ Writes.new_id project_id q.step_number hex
        → get_revision r.project_id r.id
            (record (s.snowflake) { revisions = s.snowflake.revisions ++ r ∷ [] })
          ≡ some r
    unfolding get_revision
    get_draft r p i =
        select_one-append_new (has_id r.project_id r.id) s.snowflake.revisions r
          (select_one_zero (has_id r.project_id r.id) s.snowflake.revisions (
            omega (
              arith,
              rowcount_absent (λ (a : ArtifactRevision). a.id) r.id s.snowflake.revisions
                  (ap (contains (map (λ (a : ArtifactRevision). a.id) s.snowflake.revisions)) i
                    ∙ fresh),
              rowcount-le (has_id r.project_id r.id) (λ (a : ArtifactRevision). a.id == r.id)
                  s.snowflake.revisions (λ a h. ground arith),
            )))
          (ground arith)

    -- The draft `d` of the records, once it is accepted.
    module _ (d : ArtifactRevision) (reason : Str) (affected : List ℕ)
        (there : get_revision d.project_id d.id
            (record (s.snowflake) { revisions = s.snowflake.revisions ++ d ∷ [] })
          ≡ some d) where
      abbrev with_draft : Snowflake
      with_draft = record (s.snowflake) { revisions = s.snowflake.revisions ++ d ∷ [] }

      abbrev out : Flow.Store
      out =
          publish passes passes_context d.project_id (accepted_revision d reason now) q affected now
            (reviewed d reason now with_draft there) s

      get_revision-publish :
          get_revision d.project_id d.id out.snowflake ≡ some (accepted_revision d reason now)
      unfolding publish accept_revision update_accepted_projection get_revision
      get_revision-publish = get_revision-supersede d reason now with_draft there _

      get_head-publish :
          (t : ℕ)
          → get_head d.project_id t out.snowflake ≡ (
              if contains affected t
              then marked (stale_reason d.step_number) q.id t (
                  if d.step_number == t
                  then approved_head (accepted_revision d reason now)
                  else get_head d.project_id t s.snowflake)
              else if d.step_number == t
              then approved_head (accepted_revision d reason now)
              else get_head d.project_id t s.snowflake)
      unfolding publish accept_revision update_accepted_projection get_head
      get_head-publish t =
          get_head-accepted (accepted_revision d reason now) affected (stale_reason d.step_number)
            q.id s.snowflake.heads t

      published_IsProjected :
          downstream_steps d.step_number ≡ ok affected
          → All (λ (r : RecordRevision). passes r.step_number r.payload ≡ true) rs
          → d.structured_payload ≡ snapshot rs
          → d.content ≡ content_of rs
          → IsProjected d.project_id (record q { step_number = d.step_number }) rs s out
      unfolding publish
      published_IsProjected down passed payload content =
          let apart = downstream_steps_apart d.step_number down in
          record {
            projection = accepted_revision d reason now;
            passed = passed;
            payload = payload;
            content = content;
            status = refl;
            is_read = get_revision-publish;
            head = get_head-publish d.step_number ∙ ground (arith, apart);
            later = λ t feeds.
                get_head-publish t
                ∙ ground (arith, apart, (downstream_steps-Feeds d.step_number down t).1 feeds);
            others = λ t ne not_fed. get_head-publish t ∙ elim (Bool-cases (contains affected t)) [
              | inl e ↦ absurd (not_fed ((downstream_steps-Feeds d.step_number down t).0 e))
              | inr e ↦ ground arith
            ];
            queued = insert-IsQueued _ _ _ _ _ _ _ _;
          }

    abbrev reason : Str
    reason = codes "Derived from accepted record revision " ++ q.id ++ codes "."

    abbrev draft_of : StepSpec → Heads → ArtifactRevision
    draft_of spec upstream =
        new_revision project_id (projected q.step_number rs) RevisionStatus.draft derived spec
          upstream hex now s.snowflake

    -- From the creation of the draft on.
    abbrev finish : ArtifactRevision × Snowflake → Result Error Flow.Store
    finish x = do
      (projection, s2) ←
          set_revision_status project_id x.0.id RevisionStatus.accepted reason now (x.1)
      affected ← downstream_steps projection.step_number
      ok (publish passes passes_context project_id projection q affected now s2 s)

    finish_lem :
        (spec : StepSpec) (upstream : Heads) {s' : Flow.Store}
        → All (λ (r : RecordRevision). passes r.step_number r.payload ≡ true) rs
        → finish (
          draft_of spec upstream,
          record (s.snowflake) { revisions = s.snowflake.revisions ++ draft_of spec upstream ∷ [] },
        )
          ≡ ok s'
        → IsProjected project_id q rs s s'
    finish_lem spec upstream {s'} passed h =
        let d = draft_of spec upstream in
        let there : get_revision d.project_id d.id
              (record (s.snowflake) { revisions = s.snowflake.revisions ++ d ∷ [] })
            ≡ some d =
          get_draft d refl refl in
        let next =
          rw
            (set_revision_status_lem d reason now
              (record (s.snowflake) { revisions = s.snowflake.revisions ++ d ∷ [] }) there)
            at h in
        let (affected, down, w) = >>=-eq-ok (downstream_steps d.step_number) _ next in
        subst (IsProjected project_id q rs s) (ok_injective w)
          (published_IsProjected d reason affected there down passed refl refl)

    create_revision-eq-ok :
        {x : ArtifactRevision × Snowflake}
        → create_revision project_id
            (projected q.step_number rs)
            (some RevisionStatus.draft)
            (some derived)
            hex
            now
            s.snowflake
          ≡ ok x
        → (spec : StepSpec) × (upstream : Heads) × ((
          draft_of spec upstream,
          record (s.snowflake) { revisions = s.snowflake.revisions ++ draft_of spec upstream ∷ [] },
        )
            ≡ x)
    unfolding create_revision
    create_revision-eq-ok h =
        let (spec, known, h1) = >>=-eq-ok (get_step_spec q.step_number) _ h in
        let (u, actual, h2) =
          >>=-eq-ok
            (if spec.virtual
              then err (value_error (codes "Snowflake step 10 is a virtual Manuscript milestone."))
              else ok tt)
            _ h1 in
        let (upstream, snapped, h3) =
          >>=-eq-ok (upstream_snapshot q.step_number (accepted_head_ids project_id s.snowflake)) _
            h2 in
        (spec, upstream, ok_injective h3)

    pub project-IsProjected :
        {s' : Flow.Store}
        → project passes passes_context project_id q rs hex now s ≡ ok s'
        → IsProjected project_id q rs s s'
    unfolding project
    project-IsProjected {s'} h =
        let (u, passed, h1) = >>=-eq-ok (check_records passes passes_context rs) _ h in
        let (v, short, h2) =
          >>=-eq-ok (if leb (length (content_of rs)) 200000 then ok tt else err validation_error) _
            h1 in
        let (x, made, h3) =
          >>=-eq-ok
            (create_revision project_id (projected q.step_number rs) (some RevisionStatus.draft)
              (some derived) hex now s.snowflake)
            _ h2 in
        let (spec, upstream, same) = create_revision-eq-ok made in
        finish_lem spec upstream (check_records_lem rs passed)
          (subst (λ (x : ArtifactRevision × Snowflake). finish x ≡ ok s') (sym same) h3)
