-- ===== src/Snowflake/Artifacts/Decided.antt =====
-- What the acceptance of a revision does to the heads, the revisions and the outbox.
use mathlib.Core.Path.{subst}
use ai_writing.Common.{
  ℕ, ◌≡◌, ◌≢◌, refl, ◌∙◌, Bool, true, some, List, [], ◌++◌, Str, codes, decimal, contains, ◌==◌,
  list_eq, nat_eq, if◌then◌else◌, arith, inl, inr, Bool-cases,
}
use ai_writing.Common.Results.{ok, >>=-eq-ok, ok_injective, err-ne-ok}
use ai_writing.Data.Json.{Fields}
use ai_writing.Outbox.Queued.{IsQueued, insert-IsQueued}
use ai_writing.Sql.Laws.{select_one_sound}
use ai_writing.Snowflake.{RevisionStatus, revision_status_eq, Decision}
use ai_writing.Snowflake.Dependencies.{downstream_steps}
use ai_writing.Snowflake.Dependencies.Closure.{
  Feeds, downstream_steps_apart, downstream_steps-Feeds,
}
use ai_writing.Snowflake.Artifacts.{
  ArtifactRevision, ArtifactHead, Snowflake, has_id, get_head, get_revision, is_open,
  update_accepted_projection,
}
use ai_writing.Snowflake.Artifacts.Writes.{approved_head, accept_revision}
use ai_writing.Snowflake.Artifacts.Flow.{
  Store, Decided, job_key, publish, accept_open, is_replay, conflicts, decide_found,
  decide_snowflake_revision,
}
use ai_writing.Snowflake.Artifacts.Acceptance.{
  accepted_revision, reviewed, set_revision_status_lem, get_revision-supersede, get_head-accepted,
}
use ai_writing.Snowflake.Artifacts.Staleness.{marked}

-- What `decide_snowflake_revision` marks the heads of the later steps with.
abbrev pub stale_reason_of : ArtifactRevision → Str
stale_reason_of r = codes "Step " ++ decimal r.step_number ++ codes " accepted head changed."

module _ (r : ArtifactRevision) (reason now : Str) (s : Snowflake)
    (there : get_revision r.project_id r.id s ≡ some r) where
  module _ (affected : List ℕ) (st : Store) where
    abbrev accepted : ArtifactRevision
    accepted = accepted_revision r reason now

    abbrev out : Decided × Store
    out = publish accepted affected now (reviewed r reason now s there) st

    get_revision-publish : get_revision r.project_id r.id (out.1.snowflake) ≡ some accepted
    unfolding publish accept_revision update_accepted_projection get_revision
    get_revision-publish = get_revision-supersede r reason now s there _

    get_head-publish :
        (t : ℕ)
        → get_head r.project_id t (out.1.snowflake) ≡ (
            if contains affected t
            then marked
                (stale_reason_of r)
                r.id
                t
                (if r.step_number == t then approved_head accepted else get_head r.project_id t s)
            else if r.step_number == t
            then approved_head accepted
            else get_head r.project_id t s)
    unfolding publish accept_revision update_accepted_projection get_head
    get_head-publish t = get_head-accepted accepted affected (stale_reason_of r) r.id s.heads t

-- What the acceptance of the open revision `r` has done.
pub record IsAccepted (passes : ℕ → Str → Fields → Bool) (r : ArtifactRevision)
    (expected reason now : Str) (s : Store) (d : Decided) (s' : Store) : Type 0 where
  pub base : r.base_head_revision_id ≡ expected
  pub head_before :
      (get_head r.project_id r.step_number s.snowflake).accepted_revision_id ≡ expected
  pub passed : passes r.step_number r.content r.structured_payload ≡ true
  pub returned : d.revision ≡ accepted_revision r reason now
  pub row : get_revision r.project_id r.id s'.snowflake ≡ some (accepted_revision r reason now)
  pub head :
      get_head r.project_id r.step_number s'.snowflake
      ≡ approved_head (accepted_revision r reason now)
  pub later :
      (t : ℕ)
      → Feeds r.step_number t
      → get_head r.project_id t s'.snowflake
        ≡ marked (stale_reason_of r) r.id t (get_head r.project_id t s.snowflake)
  pub others :
      (t : ℕ)
      → t ≢ r.step_number
      → (Feeds r.step_number t → ⊥)
      → get_head r.project_id t s'.snowflake ≡ get_head r.project_id t s.snowflake
  pub queued : IsQueued s'.jobs (job_key r)

module _ (passes : ℕ → Str → Fields → Bool) (r : ArtifactRevision) (expected reason now : Str)
    (s : Store) (there : get_revision r.project_id r.id s.snowflake ≡ some r)
    (base : r.base_head_revision_id ≡ expected)
    (head_before : (get_head r.project_id r.step_number s.snowflake).accepted_revision_id
      ≡ expected) where
  published_IsAccepted :
      (affected : List ℕ)
      → downstream_steps r.step_number ≡ ok affected
      → passes r.step_number r.content r.structured_payload ≡ true
      → let x =
          publish
            (accepted_revision r reason now)
            affected
            now
            (reviewed r reason now s.snowflake there)
            s in
        IsAccepted passes r expected reason now s (x.0) (x.1)
  unfolding publish
  published_IsAccepted affected down passed =
      let apart = downstream_steps_apart r.step_number down in
      let head = get_head-publish r reason now s.snowflake there affected s in
      record {
        base = base;
        head_before = head_before;
        passed = passed;
        returned = refl;
        row = get_revision-publish r reason now s.snowflake there affected s;
        head = head r.step_number ∙ ground (arith, apart);
        later = λ t feeds.
            head t ∙ ground (arith, apart, (downstream_steps-Feeds r.step_number down t).1 feeds);
        others = λ t ne not_fed. head t ∙ elim (Bool-cases (contains affected t)) [
          | inl e ↦ absurd (not_fed ((downstream_steps-Feeds r.step_number down t).0 e))
          | inr e ↦ ground arith
        ];
        queued = insert-IsQueued _ _ _ _ _ _ _ _;
      }

  accept_open_lem :
      {x : Decided × Store}
      → accept_open passes r reason now s ≡ ok x
      → IsAccepted passes r expected reason now s (x.0) (x.1)
  unfolding accept_open
  accept_open_lem done = elim (Bool-cases (passes r.step_number r.content r.structured_payload)) [
    | inr e ↦ absurd (err-ne-ok (rw e at done))
    | inl e ↦
        let next = rw (set_revision_status_lem r reason now s.snowflake there) at (rw e at done) in
        let (affected, down, w) = >>=-eq-ok (downstream_steps r.step_number) _ next in
        subst (λ (x : Decided × Store). IsAccepted passes r expected reason now s (x.0) (x.1))
          (ok_injective w) (published_IsAccepted affected down e)
  ]

-- An open revision is accepted only at the head that it was made from.
decide_found_open :
    (passes : ℕ → Str → Fields → Bool) (r : ArtifactRevision) (head : ArtifactHead)
    (expected reason now : Str) (s : Store) {x : Decided × Store}
    → is_open r.status ≡ true
    → decide_found passes Decision.accepted r head expected reason now s ≡ ok x
    → (head.accepted_revision_id ≡ expected)
      × (r.base_head_revision_id ≡ expected)
      × (accept_open passes r reason now s ≡ ok x)
unfolding decide_found
decide_found_open passes r head expected reason now s open_r done =
    elim (Bool-cases (is_replay passes r head expected)) [
      | inl e ↦ ground arith
      | inr e ↦ elim (Bool-cases (conflicts passes r head expected)) [
        | inl c ↦ absurd (err-ne-ok (rw c at (rw e at done)))
        | inr c ↦ elim (Bool-cases (r.status == RevisionStatus.accepted)) [
          | inl a ↦ ground arith
          | inr a ↦ (ground arith, ground arith, rw open_r at (rw a at (rw c at (rw e at done))))
        ]
      ]
    ]

module _ (passes : ℕ → Str → Fields → Bool) (project_id id expected reason now : Str) (s : Store)
    {r : ArtifactRevision} {x : Decided × Store}
    (there : get_revision project_id id s.snowflake ≡ some r) (is_open_r : is_open r.status ≡ true)
    (done : decide_snowflake_revision passes project_id id Decision.accepted expected reason now s
      ≡ ok x) where
  -- Where an open revision is accepted without an error, it was made from the expected head and
  -- has passed its validation, it is returned and read as accepted, the head of its step names it,
  -- the heads of exactly the steps that its step feeds, directly or through others, are marked
  -- stale but for missing heads of the first nine steps, every other head of the project is read
  -- as before, and the job of the accepted text is queued.
  pub decide_accepted_lem : IsAccepted passes r expected reason now s (x.0) (x.1)
  unfolding decide_snowflake_revision get_revision
  decide_accepted_lem =
      let key = select_one_sound (has_id project_id id) s.snowflake.revisions there in
      let there' : get_revision r.project_id r.id s.snowflake ≡ some r =
        ground (arith, key, there) in
      let (head_before, base, opened) =
        decide_found_open passes r (get_head project_id r.step_number s.snowflake) expected reason
          now s is_open_r (rw (there, decide_snowflake_revision) at done) in
      accept_open_lem passes r expected reason now s there' base (ground (arith, key, head_before))
        opened

  -- After the acceptance of an open revision, a further acceptance of it with the same expected
  -- head returns the accepted revision and its head, marks no step, queues no job and changes
  -- nothing.
  pub decide_accepted_again :
      (reason' now' : Str)
      → decide_snowflake_revision passes project_id id Decision.accepted expected reason' now' (x.1)
        ≡ ok (
          record {
            revision = accepted_revision r reason now;
            head = approved_head (accepted_revision r reason now);
            affected = [];
            job_id = [];
          },
          x.1,
        )
  unfolding decide_snowflake_revision decide_found get_revision
  decide_accepted_again reason' now' =
      let key = select_one_sound (has_id project_id id) s.snowflake.revisions there in
      let a = decide_accepted_lem in
      let row : get_revision project_id id (x.1.snowflake) ≡ some (accepted_revision r reason now) =
        ground (arith, key, a.row) in
      let head : get_head project_id r.step_number (x.1.snowflake)
          ≡ approved_head (accepted_revision r reason now) =
        ground (arith, key, a.head) in
      rw (row, decide_snowflake_revision) (rw head (ground (arith, a.base)))
