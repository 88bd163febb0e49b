-- ===== src/Narrative/Corrections.antt =====
-- What the correction of a fact reads, writes and records.
use mathlib.Core.Path.{subst}
use ai_writing.Common.{
  ℕ, ◌≤◌, ◌≡◌, ◌≢◌, refl, ap, ◌∙◌, Bool, some, List, [], ◌∷◌, ◌++◌, Str, ◌==◌, list_eq, nat_eq,
  option_eq, if◌then◌else◌, arith, inl, inr, Bool-cases, Option-cases, codes,
}
use ai_writing.Common.Results.{ok, err, >>=-eq-ok, ok_injective, err-ne-ok}
use ai_writing.Data.Errors.{state_conflict}
use ai_writing.Sql.{rowcount, select_one, update}
use ai_writing.Sql.Laws.{
  rowcount-append, select_one-update, select_one_sound, select_one_zero, select_one-append, or_else,
  select_one-append_new,
}
use ai_writing.Narrative.{
  StoryFact, FactFields, fact, Recorded, NarrativeRevision, Narrative, validate_fact, retracted,
  fact_status_eq,
}
use ai_writing.Narrative.Facts.{
  is_fact, get_fact, has_revision, new_revision, record_revision, derive_knowledge,
}
use ai_writing.Narrative.Facts.Reads.{list_knowledge_states}
use ai_writing.Narrative.Derived.{
  Derives, Derives-trans, derive_knowledge-Derives, withdraw-Derives,
}
use ai_writing.Narrative.Maintenance.{
  require_fact, check_version, withdraw, set_fact, corrected, correct_found, correct_fact,
}

-- A revision that can be read in `n` is read in `n'`.
abbrev pub KeepsHistory : Narrative → Narrative → Type 0
KeepsHistory n n' =
    (p : NarrativeRevision → Bool) (r : NarrativeRevision)
    → select_one p n.revisions ≡ some r
    → select_one p n'.revisions ≡ some r

select_one-grown :
    (p : NarrativeRevision → Bool) (t added : List NarrativeRevision) (r : NarrativeRevision)
    → select_one p t ≡ some r
    → select_one p (t ++ added) ≡ some r
select_one-grown p t added r h =
    select_one-append p t added ∙ ap (λ o. or_else o (select_one p added)) h

record_revision-KeepsHistory :
    (c : Recorded) (reason now : Str) (n : Narrative)
    → KeepsHistory n (record_revision c reason now n)
unfolding record_revision
record_revision-KeepsHistory c reason now n p r h =
    elim (Bool-cases (rowcount (has_revision c) n.revisions == 0)) [
      | inl e ↦ rw e (select_one-grown p n.revisions (new_revision c reason now n ∷ []) r h)
      | inr e ↦ rw e h
    ]

Derives-KeepsHistory : {n n' : Narrative} → Derives n n' → KeepsHistory n n'
Derives-KeepsHistory {n} d p r h = rw d.grown (select_one-grown p n.revisions d.added r h)

-- A record whose revision was not there has it afterwards.
record_revision_new :
    (c : Recorded) (reason now : Str) (n : Narrative)
    → rowcount (has_revision c) n.revisions ≡ 0
    → select_one (has_revision c) (record_revision c reason now n).revisions
      ≡ some (new_revision c reason now n)
unfolding record_revision native.Mathlib.Decide.ℕ_discrete
record_revision_new c reason now n h = rw h (
    select_one-append_new (has_revision c) n.revisions (new_revision c reason now n)
      (select_one_zero (has_revision c) n.revisions h) (ground arith))

-- Recording one version of a fact adds no revision of the next.
rowcount-record_revision :
    (f g : StoryFact) (reason now : Str) (n : Narrative)
    → g.version ≢ f.version
    → rowcount (has_revision (fact g)) n.revisions ≡ 0
    → rowcount (has_revision (fact g)) (record_revision (fact f) reason now n).revisions ≡ 0
unfolding record_revision rowcount
rowcount-record_revision f g reason now n ne h = ground (
  arith,
  rowcount-append (has_revision (fact g)) n.revisions (new_revision (fact f) reason now n ∷ []),
)

-- Once it has been recorded, a version has a revision.
record_revision_there :
    (c : Recorded) (reason now : Str) (n : Narrative)
    → rowcount (has_revision c) (record_revision c reason now n).revisions ≢ 0
unfolding record_revision rowcount
record_revision_there c reason now n h =
    ground (arith, rowcount-append (has_revision c) n.revisions (new_revision c reason now n ∷ []))

rowcount-le-record_revision :
    (p : NarrativeRevision → Bool) (c : Recorded) (reason now : Str) (n : Narrative)
    → rowcount p n.revisions ≤ rowcount p (record_revision c reason now n).revisions
unfolding record_revision
rowcount-le-record_revision p c reason now n =
    ground (arith, rowcount-append p n.revisions (new_revision c reason now n ∷ []))

pub facts-record_revision :
    (c : Recorded) (reason now : Str) (n : Narrative)
    → (record_revision c reason now n).facts ≡ n.facts
unfolding record_revision
facts-record_revision c reason now n = ground arith

-- What a correction of the fact `current` has done.
pub record IsCorrected (current : StoryFact) (r : StoryFact × Narrative) (n : Narrative)
    : Type 0 where
  pub read_back : get_fact current.project_id current.id r.1 ≡ some (r.0)
  pub keeps_history : KeepsHistory n r.1
  pub has_baseline : rowcount (has_revision (fact current)) r.1.revisions ≢ 0
  pub has_new :
      rowcount (has_revision (fact r.0)) n.revisions ≡ 0
      → (v : NarrativeRevision) × (select_one (has_revision (fact r.0)) r.1.revisions ≡ some v)
        × (v.recorded ≡ fact r.0)

module _ (current : StoryFact) (change : FactFields) (reason now : Str) (n : Narrative) where
  abbrev new : StoryFact
  new = corrected current change now

  abbrev n1 : Narrative
  n1 = record_revision (fact current) (codes "Original baseline") now n

  abbrev n2 : Narrative
  n2 = record n1 { facts = update (is_fact current.project_id current.id) (set_fact new) n1.facts }

  get_fact-update :
      get_fact current.project_id current.id n ≡ some current
      → get_fact current.project_id current.id n2 ≡ some new
  unfolding get_fact
  get_fact-update h = ground (
    arith,
    facts-record_revision (fact current) (codes "Original baseline") now n,
    select_one-update (is_fact current.project_id current.id)
        (is_fact current.project_id current.id) (set_fact new) n.facts (λ f. refl),
    select_one_sound (is_fact current.project_id current.id) n.facts h,
  )

  module _ (n4 : Narrative) (d : Derives n2 n4) where
    abbrev n5 : Narrative
    n5 = record_revision (fact new) reason now n4

    correct_IsCorrected :
        get_fact current.project_id current.id n ≡ some current → IsCorrected current (new, n5) n
    unfolding get_fact
    correct_IsCorrected h = record {
      read_back =
          ap (select_one (is_fact current.project_id current.id))
            (facts-record_revision (fact new) reason now n4 ∙ d.facts)
          ∙ get_fact-update h;
      keeps_history = λ p r e. record_revision-KeepsHistory (fact new) reason now n4 p r (
          Derives-KeepsHistory d p r
            (record_revision-KeepsHistory (fact current) (codes "Original baseline") now n p r e));
      has_baseline = λ e. record_revision_there (fact current) (codes "Original baseline") now n (
          omega (
            arith,
            rowcount-le-record_revision (has_revision (fact current)) (fact new) reason now n4,
            ap (rowcount (has_revision (fact current))) d.grown,
            rowcount-append (has_revision (fact current)) n2.revisions d.added,
          ));
      has_new = λ absent. (
        new_revision (fact new) reason now n4,
        record_revision_new (fact new) reason now n4 (
            omega (
              arith,
              d.apart new,
              ap (rowcount (has_revision (fact new))) d.grown,
              rowcount-append (has_revision (fact new)) n2.revisions d.added,
              rowcount-record_revision current new (codes "Original baseline") now n (ground arith)
                  absent,
            )),
        refl,
      );
    }

correct_found_lem :
    (current : StoryFact) (change : FactFields) (reason now : Str) (n : Narrative)
    {r : StoryFact × Narrative}
    → get_fact current.project_id current.id n ≡ some current
    → correct_found current change reason now n ≡ ok r
    → (r.0 ≡ corrected current change now) × IsCorrected current r n
unfolding correct_found
correct_found_lem current change reason now n {r} there h =
    let start = n2 current change reason now n in
    let states = list_knowledge_states current.project_id current.id start in
    let updated = corrected current change now in
    let (n3, w, rest) = >>=-eq-ok (withdraw updated reason now states start) _ h in
    let (n4, k, done) = >>=-eq-ok (derive_knowledge updated reason now n3) _ rest in
    let d : Derives start n4 =
      Derives-trans (withdraw-Derives updated reason now states start w)
        (derive_knowledge-Derives updated reason now n3 k) in
    subst (λ (r : StoryFact × Narrative). (r.0 ≡ updated) × IsCorrected current r n)
      (ok_injective done) (refl, correct_IsCorrected current change reason now n n4 d there)

module _ (project_id fact_id : Str) (change : FactFields) (expected : ℕ) (reason now : Str)
    (n : Narrative) {r : StoryFact × Narrative}
    (done : correct_fact project_id fact_id change expected reason now n ≡ ok r) where
  -- A correction of a fact that raises nothing has found the fact at the expected version and
  -- returns it at the next version with the fields of the correction; what is returned is read
  -- back, the revisions of the history are still read, a revision under the number of the version
  -- from before is among them, and the new version is read there under its number where that was
  -- free.
  pub correct_fact_lem :
      (current : StoryFact) × (get_fact project_id fact_id n ≡ some current)
      × (current.version ≡ expected)
      × (r.0 ≡ corrected current change now)
      × IsCorrected current r n
  unfolding correct_fact require_fact get_fact check_version
  correct_fact_lem = elim (Option-cases (get_fact project_id fact_id n)) [
    | inl missing ↦ absurd (err-ne-ok (rw missing at done))
    | inr (current, there) ↦
        let key = select_one_sound (is_fact project_id fact_id) n.facts there in
        let (u, checked, rest) =
          >>=-eq-ok (check_version current.version expected) _ (rw there at done) in
        let (v, valid, last) =
          >>=-eq-ok (if change.status == retracted then ok tt else validate_fact change) _ rest in
        let there' : get_fact current.project_id current.id n ≡ some current =
          ground (arith, key) in
        let (e, corrected) = correct_found_lem current change reason now n there' last in
        (current, there, ground arith, e, corrected)
  ]

  -- After a correction of a fact, any further correction of it that expects the version from
  -- before is refused as a conflict.
  pub correct_fact_once :
      (change' : FactFields) (reason' now' : Str)
      → correct_fact project_id fact_id change' expected reason' now' (r.1)
        ≡ err (state_conflict (codes "Narrative record changed; reload before correcting it"))
  unfolding correct_fact require_fact check_version get_fact
  correct_fact_once change' reason' now' =
      let (current, there, version, e, c) = correct_fact_lem in
      let key = select_one_sound (is_fact project_id fact_id) n.facts there in
      let back : get_fact project_id fact_id r.1 ≡ some (r.0) = ground (arith, key, c.read_back) in
      let later : r.0.version ≢ expected = ground arith in ground (arith, back, later)
