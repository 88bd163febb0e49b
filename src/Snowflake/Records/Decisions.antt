-- ===== src/Snowflake/Records/Decisions.antt =====
-- A decision on a revision keeps the rows and the heads of the records in agreement.
use mathlib.Core.Path.{subst}
use mathlib.Core.Option
use mathlib.Core.Option.{some-injective}
use ai_writing.Common.{
  ◌≡◌, ◌⊎◌, refl, sym, ap, ◌∙◌, Bool, true, false, ◌&&◌, not, some, List, [], ◌∷◌, Str, is_empty,
  list_eq, nat_eq, arith, inl, inr, Bool-cases, Option-cases, All,
}
use ai_writing.Sql.{select_one, update}
use ai_writing.Sql.Laws.{updated, select_one-update, select_one_sound}
use ai_writing.Snowflake.{RevisionStatus, revision_status_eq}
use ai_writing.Snowflake.Records.{
  RecordRevision, RecordHead, Records, has_id, is_head, accepted_id, set_decision, has_id_accepted,
  set_superseded, supersede, set_accepted,
}
use ai_writing.Snowflake.Records.Invariant.{IsSound, AreSound}

-- A write that keeps the key of a row keeps the soundness of the rows that it leaves sound.
All-updated :
    (P Q : RecordRevision → Type 0) (p : RecordRevision → Bool)
    (f : RecordRevision → RecordRevision) (t : List RecordRevision)
    → ((q : RecordRevision) → Q q → P (updated p f q))
    → All Q t
    → All P (update p f t)
unfolding update
All-updated P Q p f [] keeps h = tt
All-updated P Q p f (q ∷ t) keeps h = (keeps q h.0, All-updated P Q p f t keeps h.1)

-- The rows that the write to the former accepted revision meets.
abbrev pub is_former : Str → Str → RecordRevision → Bool
is_former project_id actual q = not (is_empty actual) && has_id_accepted project_id actual q

update_nowhere :
    (p : RecordRevision → Bool) (f : RecordRevision → RecordRevision) (t : List RecordRevision)
    → ((q : RecordRevision) → p q ≡ false)
    → update p f t ≡ t
unfolding update
update_nowhere p f [] h = refl
update_nowhere p f (q ∷ t) h = ground (arith, h q, update_nowhere p f t h)

update_congr :
    (p q : RecordRevision → Bool) (f : RecordRevision → RecordRevision) (t : List RecordRevision)
    → ((r : RecordRevision) → p r ≡ q r)
    → update p f t ≡ update q f t
unfolding update
update_congr p q f [] h = refl
update_congr p q f (r ∷ t) h = ground (arith, h r, update_congr p q f t h)

pub supersede_lem :
    (project_id actual : Str) (t : List RecordRevision)
    → supersede project_id actual t ≡ update (is_former project_id actual) set_superseded t
unfolding supersede
supersede_lem project_id actual t = elim (Bool-cases (is_empty actual)) [
  | inl e ↦
      rw e (sym (update_nowhere (is_former project_id actual) set_superseded t (λ q. ground arith)))
  | inr e ↦ ground (
    arith,
    update_congr (has_id_accepted project_id actual) (is_former project_id actual) set_superseded t
        (λ q. ground arith),
  )
]

module _ (s : Records) (r : RecordRevision) (actual reason now : Str)
    (there : select_one (has_id r.project_id r.id) s.revisions ≡ some r)
    (head_is : accepted_id (select_one (is_head r.project_id r.step_number r.record_id) s.heads)
      ≡ actual) where
  abbrev pub p1 : RecordRevision → Bool
  p1 = has_id r.project_id r.id

  abbrev pub f1 : RevisionStatus → RecordRevision → RecordRevision
  f1 status = set_decision status reason now

  abbrev pub p2 : RecordRevision → Bool
  p2 = is_former r.project_id actual

  abbrev pub ph : RecordHead → Bool
  ph = is_head r.project_id r.step_number r.record_id

  abbrev pub rejected_tables : Records
  rejected_tables = record s { revisions = update p1 (f1 RevisionStatus.rejected) s.revisions }

  abbrev pub accepted_tables : Records
  accepted_tables = record {
    revisions = update p2 set_superseded (update p1 (f1 RevisionStatus.accepted) s.revisions);
    heads = update ph (set_accepted r.id) s.heads;
  }

  rejected-IsSound :
      (q : RecordRevision)
      → IsSound s q
      → IsSound rejected_tables (updated p1 (f1 RevisionStatus.rejected) q)
  rejected-IsSound q v = elim (Bool-cases (p1 q)) [
    | inl e ↦ rw e (record {
      read_back =
          select_one-update (has_id q.project_id q.id) p1 (f1 RevisionStatus.rejected) s.revisions
            (λ x. refl)
          ∙ rw v.read_back (rw e refl);
      named = v.named;
      is_head = λ a. absurd cc;
    })
    | inr e ↦ rw e (record {
      read_back =
          select_one-update (has_id q.project_id q.id) p1 (f1 RevisionStatus.rejected) s.revisions
            (λ x. refl)
          ∙ rw v.read_back (rw e refl);
      named = v.named;
      is_head = v.is_head;
    })
  ]

  abbrev SameRecord : RecordRevision → Type 0
  SameRecord q =
      (q.project_id ≡ r.project_id) × (q.step_number ≡ r.step_number) × (q.record_id ≡ r.record_id)

  -- The former accepted revision is superseded.
  superseded_former :
      (q : RecordRevision)
      → IsSound s q
      → q.status ≡ RevisionStatus.accepted
      → SameRecord q
      → p2 q ≡ true
  superseded_former q v a (project, step, record_id) =
      let named : q.id ≡ actual =
        sym (v.is_head a)
        ∙ ap (λ p. accepted_id (select_one p s.heads))
            (λ i. is_head (project i) (step i) (record_id i))
        ∙ head_is in
      ground (arith, v.named, named)

  abbrev q' : RecordRevision → RecordRevision
  q' q = updated p2 set_superseded (updated p1 (f1 RevisionStatus.accepted) q)

  accepted-read_back :
      (q : RecordRevision)
      → IsSound s q
      → select_one (has_id q.project_id q.id) accepted_tables.revisions ≡ some (q' q)
  accepted-read_back q v =
      select_one-update (has_id q.project_id q.id) p2 set_superseded _ (λ x. refl)
      ∙ ap (Option.map (updated p2 set_superseded)) (
          select_one-update (has_id q.project_id q.id) p1 (f1 RevisionStatus.accepted) s.revisions
            (λ x. refl)
          ∙ ap (Option.map (updated p1 (f1 RevisionStatus.accepted))) v.read_back)

  -- A row that is accepted after the decision was decided now, or was accepted and is of another
  -- record.
  still_accepted :
      (q : RecordRevision)
      → IsSound s q
      → (q' q).status ≡ RevisionStatus.accepted
      → (q ≡ r) ⊎ ((q.status ≡ RevisionStatus.accepted) × (SameRecord q → ⊥))
  still_accepted q v a = elim (Bool-cases (p1 q)) [
    | inl e ↦ inl (some-injective q r (sym v.read_back ∙ (ground (arith, there))))
    | inr e ↦
        let old : q.status ≡ RevisionStatus.accepted = ground arith in
        inr (old, λ same. ground (arith, superseded_former q v old same))
  ]

  keys :
      (q : RecordRevision)
      → ((q' q).id ≡ q.id)
        × ((q' q).project_id ≡ q.project_id)
        × ((q' q).step_number ≡ q.step_number)
        × ((q' q).record_id ≡ q.record_id)
  keys q = ground arith

  -- The head of another record is not written, and the head of this record names the revision.
  module _ (h : RecordHead)
      (headed : select_one (is_head r.project_id r.step_number r.record_id) s.heads ≡ some h) where
    head_here : select_one ph (update ph (set_accepted r.id) s.heads) ≡ some (set_accepted r.id h)
    head_here =
        select_one-update ph ph (set_accepted r.id) s.heads (λ x. refl)
        ∙ ground (arith, headed, select_one_sound ph s.heads headed)

    head_elsewhere :
        (q : RecordRevision)
        → (SameRecord q → ⊥)
        → select_one
            (is_head q.project_id q.step_number q.record_id)
            (update ph (set_accepted r.id) s.heads)
          ≡ select_one (is_head q.project_id q.step_number q.record_id) s.heads
    head_elsewhere q other =
        let pq = is_head q.project_id q.step_number q.record_id in
        select_one-update pq ph (set_accepted r.id) s.heads (λ x. refl)
        ∙ elim (Option-cases (select_one pq s.heads)) [
          | inl e ↦ rw e refl
          | inr (g, e) ↦ ground (arith, e, select_one_sound pq s.heads e, other)
        ]

    named_head :
        (q : RecordRevision)
        → IsSound s q
        → (q' q).status ≡ RevisionStatus.accepted
        → accepted_id (
            select_one
              (is_head q.project_id q.step_number q.record_id)
              (update ph (set_accepted r.id) s.heads))
          ≡ q.id
    named_head q v a = elim (still_accepted q v a) [
      | inl e ↦
          subst
            (λ (x : RecordRevision).
              accepted_id (
                select_one (is_head x.project_id x.step_number x.record_id)
                  (update ph (set_accepted r.id) s.heads))
              ≡ x.id)
            (sym e) (ap accepted_id head_here)
      | inr (old, other) ↦ ap accepted_id (head_elsewhere q other) ∙ v.is_head old
    ]

    accepted-IsSound : (q : RecordRevision) → IsSound s q → IsSound accepted_tables (q' q)
    accepted-IsSound q v =
        let (id, project, step, record_id) = keys q in
        record {
          read_back =
              ap (λ p. select_one p accepted_tables.revisions) (λ i. has_id (project i) (id i))
              ∙ accepted-read_back q v;
          named = ap is_empty id ∙ v.named;
          is_head = λ a.
              ap (λ p. accepted_id (select_one p accepted_tables.heads))
                (λ i. is_head (project i) (step i) (record_id i))
              ∙ named_head q v a
              ∙ sym id;
        }

    pub accepted-AreSound : AreSound s → AreSound accepted_tables
    accepted-AreSound v =
        All-updated (IsSound accepted_tables)
          (λ q. IsSound accepted_tables (updated p2 set_superseded q)) p2 set_superseded _
          (λ q h. h)
          (All-updated (λ q. IsSound accepted_tables (updated p2 set_superseded q)) (IsSound s) p1
            (f1 RevisionStatus.accepted) s.revisions accepted-IsSound v)

  pub rejected-AreSound : AreSound s → AreSound rejected_tables
  rejected-AreSound v =
      All-updated (IsSound rejected_tables) (IsSound s) p1 (f1 RevisionStatus.rejected) s.revisions
        rejected-IsSound v
