-- ===== src/Snowflake/Records/Invariant.antt =====
-- What every history of the records keeps: a row is read back under its key, and an accepted
-- revision is the one that the head of its record names.
use ai_writing.Common.{
  ◌≡◌, ◌≢◌, refl, ◌∙◌, Bool, false, Option, none, some, List, [], ◌∷◌, map, Str, is_empty, contains,
  ◌==◌, list_eq, nat_eq, arith, All, All-append, All-map,
}
use ai_writing.Common.Results.{ok}
use ai_writing.Sql.{select_one}
use ai_writing.Sql.Laws.{
  select_one-append, select_one-append_old, select_one-append_new, select_one_zero, rowcount_absent,
  rowcount-le,
}
use ai_writing.Snowflake.{RevisionStatus, revision_status_eq, Decision}
use ai_writing.Snowflake.Records.{
  RecordCreate, RecordRevision, RecordHead, Records, Opening, opened, first_state, has_id, is_head,
  accepted_id, new_id, new_record_revision, insert_head, created, create, decide,
}

-- The row is the one that its key reads, its id is a text, and where it is accepted the head of its
-- record names it.
pub record IsSound (s : Records) (r : RecordRevision) : Type 0 where
  pub read_back : select_one (has_id r.project_id r.id) s.revisions ≡ some r
  pub named : is_empty r.id ≡ false
  pub is_head :
      r.status ≡ RevisionStatus.accepted
      → accepted_id (select_one (is_head r.project_id r.step_number r.record_id) s.heads) ≡ r.id

abbrev pub AreSound : Records → Type 0
AreSound s = All (IsSound s) s.revisions

-- The calls that change the tables, where `uuid4` gives a text that no id has.
pub data Step (s : Records) (s' : Records) : Type 0 where
  creation :
      (project_id : Str) (c : RecordCreate) (status : Opening) (hex now : Str)
      (r : Option RecordRevision)
      → contains (map (λ (q : RecordRevision). q.id) s.revisions) (new_id hex) ≡ false
      → create project_id c status hex now s ≡ ok (r, s')
      → Step s s'
  decision :
      (project_id id : Str) (d : Decision) (expected reason now : Str)
      (r : RecordRevision × RecordHead)
      → decide project_id id d expected reason now s ≡ ok (r, s')
      → Step s s'

pub data Reach (s : Records) : Records → Type 0 where
  here : Reach s s
  next : {t u : Records} → Reach s t → Step t u → Reach s u

opened-ne-accepted : (status : Opening) → opened status ≢ RevisionStatus.accepted
opened-ne-accepted Opening.draft h = cc
opened-ne-accepted Opening.pending_review h = cc

-- A head that is added names no revision.
accepted_id-insert_head :
    (project_id : Str) (c : RecordCreate) (status : Opening) (p : RecordHead → Bool)
    (t : List RecordHead)
    → accepted_id (select_one p (insert_head project_id c status t)) ≡ accepted_id (select_one p t)
unfolding insert_head select_one
accepted_id-insert_head project_id c status p t = ground (
  arith,
  select_one-append p t (
      record {
        project_id = project_id;
        step_number = c.step_number;
        record_id = c.record_id;
        accepted_revision_id = [];
        state = first_state status;
      }
      ∷ []),
)

module _ (s : Records) (project_id : Str) (c : RecordCreate) (status : Opening) (hex now : Str)
    (fresh : contains (map (λ (q : RecordRevision). q.id) s.revisions) (new_id hex) ≡ false) where
  abbrev new : RecordRevision
  new = new_record_revision project_id c status hex now s

  no_row : (p : Str) → select_one (has_id p (new_id hex)) s.revisions ≡ none
  no_row p = select_one_zero (has_id p (new_id hex)) s.revisions (
      omega (
        arith,
        rowcount_absent (λ (q : RecordRevision). q.id) (new_id hex) s.revisions fresh,
        rowcount-le (has_id p (new_id hex)) (λ (q : RecordRevision). q.id == new_id hex) s.revisions
            (λ q h. ground arith),
      ))

  creation-IsSound :
      (r : RecordRevision) → IsSound s r → IsSound (created project_id c status hex now s) r
  creation-IsSound r v = record {
    read_back = select_one-append_old (has_id r.project_id r.id) s.revisions new v.read_back;
    named = v.named;
    is_head = λ a. accepted_id-insert_head project_id c status _ s.heads ∙ v.is_head a;
  }

  new-IsSound : IsSound (created project_id c status hex now s) new
  new-IsSound = record {
    read_back =
        select_one-append_new (has_id project_id (new_id hex)) s.revisions new (no_row project_id)
          (ground arith);
    named = refl;
    is_head = λ a. absurd (opened-ne-accepted status a);
  }

  pub created-AreSound : AreSound s → AreSound (created project_id c status hex now s)
  created-AreSound v =
      All-append (IsSound (created project_id c status hex now s)) s.revisions (new ∷ [])
        (All-map s.revisions creation-IsSound v) (new-IsSound, tt)
