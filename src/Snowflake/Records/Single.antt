-- ===== src/Snowflake/Records/Single.antt =====
-- In every history of the records each record has one accepted revision at most.
use mathlib.Core.Path.{subst}
use mathlib.Core.Option.{some-injective}
use ai_writing.Common.{
  ◌≡◌, refl, sym, ap, ◌∙◌, Bool, true, ◌&&◌, Option, none, some, Str, ◌==◌, list_eq, nat_eq, arith,
  inl, inr, Bool-cases, Option-cases,
}
use ai_writing.Common.Results.{ok, ok_injective, err-ne-ok}
use ai_writing.Sql.{select_one, update}
use ai_writing.Sql.Laws.{select_one-update, select_one_sound, select_one-All}
use ai_writing.Snowflake.{RevisionStatus, revision_status_eq, Decision}
use ai_writing.Snowflake.Records.{
  RecordRevision, RecordHead, Records, has_id, is_head, get_revision, get_head, accepted_id, create,
  is_open, set_decision, set_accepted, write_decision, resolved, decide_found, decide,
}
use ai_writing.Snowflake.Records.Invariant.{
  IsSound, AreSound, Step, creation, decision, Reach, here, next, created-AreSound,
}
use ai_writing.Snowflake.Records.Decisions.{supersede_lem, accepted-AreSound, rejected-AreSound}

write_decision-AreSound :
    (s : Records) (r : RecordRevision) (d : Decision) (reason now : Str) {h' : RecordHead}
    → get_revision r.project_id r.id s ≡ some r
    → get_head r.project_id r.step_number r.record_id (
        write_decision r d
          (accepted_id (get_head r.project_id r.step_number r.record_id s))
          reason
          now
          s)
      ≡ some h'
    → AreSound s
    → AreSound (
        write_decision r d
          (accepted_id (get_head r.project_id r.step_number r.record_id s))
          reason
          now
          s)
unfolding write_decision get_revision get_head
write_decision-AreSound s r Decision.rejected reason now there headed v =
    rejected-AreSound s r _ reason now there refl v
write_decision-AreSound s r Decision.accepted reason now {h'} there headed v =
    let p = is_head r.project_id r.step_number r.record_id in
    elim (Option-cases (select_one p s.heads)) [
      | inl e ↦
          ground (arith, e, headed, select_one-update p p (set_accepted r.id) s.heads (λ x. refl))
      | inr (h, e) ↦
          rw
            (supersede_lem r.project_id (accepted_id (select_one p s.heads)) (
              update (has_id r.project_id r.id) (set_decision RevisionStatus.accepted reason now)
                s.revisions))
            (accepted-AreSound s r _ reason now there refl h e v)
    ]

-- A result of `resolved` comes with the head.
resolved-eq-ok :
    (o : Option RecordRevision) (h : Option RecordHead) (s : Records)
    {x : (RecordRevision × RecordHead) × Records}
    → resolved o h s ≡ ok x
    → (o ≡ some (x.0.0)) × (h ≡ some (x.0.1)) × (s ≡ x.1)
unfolding resolved
resolved-eq-ok (some r) (some h) s e =
    let p = ok_injective e in
    (
      ap (λ (y : (RecordRevision × RecordHead) × Records). some (y.0.0)) p,
      ap (λ (y : (RecordRevision × RecordHead) × Records). some (y.0.1)) p,
      ap (λ (y : (RecordRevision × RecordHead) × Records). y.1) p,
    )
resolved-eq-ok none h s e = absurd (err-ne-ok e)
resolved-eq-ok (some r) none s e = absurd (err-ne-ok e)

-- What a decision that does not raise has found and written.
pub record IsDecided (r : RecordRevision) (d : Decision) (expected reason now : Str) (s : Records)
    (x : (RecordRevision × RecordHead) × Records) : Type 0 where
  pub open_before : is_open r.status ≡ true
  pub head_before : accepted_id (get_head r.project_id r.step_number r.record_id s) ≡ expected
  pub base : r.base_revision_id ≡ expected
  pub tables :
      write_decision r d
        (accepted_id (get_head r.project_id r.step_number r.record_id s))
        reason
        now
        s
      ≡ x.1
  pub row : get_revision r.project_id r.id x.1 ≡ some (x.0.0)
  pub head : get_head r.project_id r.step_number r.record_id x.1 ≡ some (x.0.1)

decide_found_lem :
    (r : RecordRevision) (d : Decision) (expected reason now : Str) (s : Records)
    {x : (RecordRevision × RecordHead) × Records}
    → decide_found r d expected reason now s ≡ ok x
    → IsDecided r d expected reason now s x
unfolding decide_found
decide_found_lem r d expected reason now s {x} done =
    let actual = accepted_id (get_head r.project_id r.step_number r.record_id s) in
    elim (Bool-cases (is_open r.status)) [
      | inr e ↦ absurd (err-ne-ok (rw e at done))
      | inl e ↦ elim (Bool-cases (actual == expected && r.base_revision_id == expected)) [
        | inr c ↦ absurd (err-ne-ok (rw c at (rw e at done)))
        | inl c ↦
            let (row, head, tables) = resolved-eq-ok _ _ _ (rw c at (rw e at done)) in
            record {
              open_before = e;
              head_before = ground arith;
              base = ground arith;
              tables = tables;
              row = ap (get_revision r.project_id r.id) (sym tables) ∙ row;
              head = ap (get_head r.project_id r.step_number r.record_id) (sym tables) ∙ head;
            }
      ]
    ]

pub decide-IsDecided :
    (project_id id : Str) (d : Decision) (expected reason now : Str) (s : Records)
    {x : (RecordRevision × RecordHead) × Records}
    → decide project_id id d expected reason now s ≡ ok x
    → (r : RecordRevision) × (get_revision project_id id s ≡ some r)
      × (r.project_id ≡ project_id)
      × (r.id ≡ id)
      × IsDecided r d expected reason now s x
unfolding decide get_revision
decide-IsDecided project_id id d expected reason now s done =
    elim (Option-cases (select_one (has_id project_id id) s.revisions)) [
      | inl e ↦ absurd (err-ne-ok (rw (e, decide) at done))
      | inr (r, e) ↦
          let key = select_one_sound (has_id project_id id) s.revisions e in
          (
            r,
            e,
            ground (arith, key),
            ground (arith, key),
            decide_found_lem r d expected reason now s (rw (e, decide) at done),
          )
    ]

Step-AreSound : {s s' : Records} → Step s s' → AreSound s → AreSound s'
unfolding create
Step-AreSound {s} (creation project_id c status hex now r fresh done) v =
    let p : Bool =
      c.base_revision_id == accepted_id (get_head project_id c.step_number c.record_id s) in
    elim (Bool-cases p) [
      | inl e ↦
          subst (λ (x : Option RecordRevision × Records). AreSound (x.1))
            (ok_injective (rw e at done)) (created-AreSound s project_id c status hex now fresh v)
      | inr e ↦ absurd (err-ne-ok (rw e at done))
    ]
Step-AreSound {s} (decision project_id id d expected reason now x done) v =
    let (r, there, project, same, w) =
      decide-IsDecided project_id id d expected reason now s done in
    let there' : get_revision r.project_id r.id s ≡ some r = rw (project, same) there in
    subst AreSound w.tables (
      write_decision-AreSound s r d reason now there'
        (ap (get_head r.project_id r.step_number r.record_id) w.tables ∙ w.head) v)

pub Reach-AreSound : {s s' : Records} → AreSound s → Reach s s' → AreSound s'
Reach-AreSound v here = v
Reach-AreSound v (next reach step) = Step-AreSound step (Reach-AreSound v reach)

-- In every history of creations under new names and of decisions that starts from tables whose
-- accepted revisions are those that the heads name, two accepted revisions of one record of a
-- project are the same revision, and the head of the record names it.
pub Reach-single :
    {s s' : Records} (project_id i j : Str) {q r : RecordRevision}
    → AreSound s
    → Reach s s'
    → get_revision project_id i s' ≡ some q
    → get_revision project_id j s' ≡ some r
    → q.status ≡ RevisionStatus.accepted
    → r.status ≡ RevisionStatus.accepted
    → q.step_number ≡ r.step_number
    → q.record_id ≡ r.record_id
    → (q ≡ r) × (accepted_id (get_head project_id q.step_number q.record_id s') ≡ q.id)
unfolding get_revision get_head
Reach-single {s' = s'} project_id i j {q} {r} start reach hq hr aq ar step record_id =
    let all = Reach-AreSound start reach in
    let vq = select_one-All (IsSound s') (has_id project_id i) s'.revisions all hq in
    let vr = select_one-All (IsSound s') (has_id project_id j) s'.revisions all hr in
    let kq : q.project_id ≡ project_id =
      ground (arith, select_one_sound (has_id project_id i) s'.revisions hq) in
    let kr : r.project_id ≡ project_id =
      ground (arith, select_one_sound (has_id project_id j) s'.revisions hr) in
    let eq = vq.is_head aq in
    let er = vr.is_head ar in
    let same : q.id ≡ r.id =
      sym eq
      ∙ ap (λ p. accepted_id (select_one p s'.heads))
          (λ i. is_head ((kq ∙ sym kr) i) (step i) (record_id i))
      ∙ er in
    (
      some-injective q r (
          sym vq.read_back
          ∙ ap (λ p. select_one p s'.revisions) (λ i. has_id ((kq ∙ sym kr) i) (same i))
          ∙ vr.read_back),
      ap (λ p. accepted_id (select_one p s'.heads))
            (λ i. is_head ((sym kq) i) q.step_number q.record_id)
          ∙ eq,
    )
