-- ===== src/Snowflake/Records.antt =====
-- `SnowflakeRecordRepository` (backend/app/data/repositories/snowflake_records.py): revisions of the
-- records of steps 6 to 9, and for each record the head that names its accepted revision. `hex` is
-- the text that `uuid4` gives, and `now` the time of the call.
pub mod Reads
pub mod Invariant
pub mod Decisions
pub mod Single
use ai_writing.Common.{
  ℕ, zero, suc, ◌+◌, Bool, true, false, ◌&&◌, ◌||◌, not, Option, none, some, List, [], ◌∷◌, ◌++◌,
  Str, codes, ltb, is_empty, contains, ◌==◌, list_eq, nat_eq, if◌then◌else◌,
}
use ai_writing.Common.Results.{Result, ok, err, ◌>>=◌, ◌>>◌}
use ai_writing.Data.Errors.{Error, value_error, lookup_error, assertion_error}
use ai_writing.Data.Json.{Fields}
use ai_writing.Sql.{select_one, update, rowcount}
use ai_writing.Snowflake.{Source, RevisionStatus, revision_status_eq, RecordState, Decision}

-- `SnowflakeRecordRevisionCreate`
pub record RecordCreate : Type 0 where
  pub step_number : ℕ
  pub record_id : Str
  pub position : ℕ
  pub payload : Fields
  pub base_revision_id : Str
  pub source : Source

-- `SnowflakeRecordRevision`
pub record RecordRevision : Type 0 where
  pub id : Str
  pub project_id : Str
  pub step_number : ℕ
  pub record_id : Str
  pub position : ℕ
  pub revision_no : ℕ
  pub source : Source
  pub status : RevisionStatus
  pub payload : Fields
  pub base_revision_id : Str
  pub review_reason : Str
  pub created_at : Str
  pub reviewed_at : Str

-- `SnowflakeRecordHead`
pub record RecordHead : Type 0 where
  pub project_id : Str
  pub step_number : ℕ
  pub record_id : Str
  pub accepted_revision_id : Str
  pub state : RecordState

pub record Records : Type 0 where
  pub revisions : List RecordRevision
  pub heads : List RecordHead

-- `WHERE project_id = ? AND id = ?`
abbrev pub has_id : Str → Str → RecordRevision → Bool
has_id project_id id r = r.project_id == project_id && r.id == id

-- `WHERE project_id = ? AND step_number = ? AND record_id = ?`
abbrev pub is_head : Str → ℕ → Str → RecordHead → Bool
is_head project_id step record_id h =
    h.project_id == project_id && h.step_number == step && h.record_id == record_id

abbrev pub is_of : Str → ℕ → Str → RecordRevision → Bool
is_of project_id step record_id r =
    r.project_id == project_id && r.step_number == step && r.record_id == record_id

unfoldable pub get_revision : Str → Str → Records → Option RecordRevision
get_revision project_id id s = select_one (has_id project_id id) s.revisions

unfoldable pub get_head : Str → ℕ → Str → Records → Option RecordHead
get_head project_id step record_id s = select_one (is_head project_id step record_id) s.heads

-- `head.accepted_revision_id if head else ""`
abbrev pub accepted_id : Option RecordHead → Str
accepted_id none = []
accepted_id (some h) = h.accepted_revision_id

-- `COALESCE(MAX(revision_no), 0)`
unfoldable pub last_no : Str → ℕ → Str → List RecordRevision → ℕ
last_no project_id step record_id [] = 0
last_no project_id step record_id (r ∷ t) =
    let rest = last_no project_id step record_id t in
    if is_of project_id step record_id r && ltb rest r.revision_no then r.revision_no else rest

-- The statuses that the callers of `create` pass.
pub data Opening : Type 0 where
  draft pending_review : Opening

abbrev pub opened : Opening → RevisionStatus
opened draft = RevisionStatus.draft
opened pending_review = RevisionStatus.pending_review

-- The state of the head of a record that had none.
abbrev pub first_state : Opening → RecordState
first_state draft = RecordState.draft
first_state pending_review = RecordState.pending_review

abbrev pub new_id : Str → Str
new_id hex = codes "snowflake-record:" ++ hex

abbrev pub new_record_revision : Str → RecordCreate → Opening → Str → Str → Records → RecordRevision
new_record_revision project_id c status hex now s = record {
  id = new_id hex;
  project_id = project_id;
  step_number = c.step_number;
  record_id = c.record_id;
  position = c.position;
  revision_no = last_no project_id c.step_number c.record_id s.revisions + 1;
  source = c.source;
  status = opened status;
  payload = c.payload;
  base_revision_id = c.base_revision_id;
  review_reason = [];
  created_at = now;
  reviewed_at = [];
}

-- `INSERT OR IGNORE`
unfoldable pub insert_head : Str → RecordCreate → Opening → List RecordHead → List RecordHead
insert_head project_id c status t =
    if rowcount (is_head project_id c.step_number c.record_id) t == 0
    then t
      ++ record {
        project_id = project_id;
        step_number = c.step_number;
        record_id = c.record_id;
        accepted_revision_id = [];
        state = first_state status;
      }
        ∷ []
    else t

-- The tables after `create`.
abbrev pub created : Str → RecordCreate → Opening → Str → Str → Records → Records
created project_id c status hex now s = record {
  revisions = s.revisions ++ new_record_revision project_id c status hex now s ∷ [];
  heads = insert_head project_id c status s.heads;
}

-- `create`, and the row that it reads back.
unfoldable pub create :
    Str
    → RecordCreate
    → Opening
    → Str
    → Str
    → Records
    → Result Error (Option RecordRevision × Records)
create project_id c status hex now s =
    if c.base_revision_id == accepted_id (get_head project_id c.step_number c.record_id s)
    then ok (
      get_revision project_id (new_id hex) (created project_id c status hex now s),
      created project_id c status hex now s,
    )
    else err
        (value_error (codes "The Snowflake record changed; reload before creating a revision."))

abbrev pub is_open : RevisionStatus → Bool
is_open status = contains (RevisionStatus.draft ∷ RevisionStatus.pending_review ∷ []) status

-- `status = "accepted" if decision == "accepted" else "rejected"`
abbrev pub decided : Decision → RevisionStatus
decided Decision.accepted = RevisionStatus.accepted
decided Decision.rejected = RevisionStatus.rejected

abbrev pub set_decision : RevisionStatus → Str → Str → RecordRevision → RecordRevision
set_decision status reason now r = record r {
  status = status;
  review_reason = reason;
  reviewed_at = now;
}

-- `WHERE project_id = ? AND id = ? AND status = 'accepted'`
abbrev pub has_id_accepted : Str → Str → RecordRevision → Bool
has_id_accepted project_id id r = has_id project_id id r && r.status == RevisionStatus.accepted

abbrev pub set_superseded : RecordRevision → RecordRevision
set_superseded r = record r { status = RevisionStatus.superseded }

-- `if actual: …`
unfoldable pub supersede : Str → Str → List RecordRevision → List RecordRevision
supersede project_id actual t =
    if is_empty actual then t else update (has_id_accepted project_id actual) set_superseded t

abbrev pub set_accepted : Str → RecordHead → RecordHead
set_accepted id h = record h { accepted_revision_id = id; state = RecordState.approved }

-- The writes of `decide`.
unfoldable pub write_decision : RecordRevision → Decision → Str → Str → Str → Records → Records
write_decision r Decision.rejected actual reason now s = record s {
  revisions =
      update (has_id r.project_id r.id) (set_decision RevisionStatus.rejected reason now)
        s.revisions;
}
write_decision r Decision.accepted actual reason now s = record {
  revisions = supersede r.project_id actual (
      update (has_id r.project_id r.id) (set_decision RevisionStatus.accepted reason now)
        s.revisions);
  heads = update (is_head r.project_id r.step_number r.record_id) (set_accepted r.id) s.heads;
}

-- The `assert` at the end: without a revision and a head, `decide` raises.
unfoldable pub resolved :
    Option RecordRevision
    → Option RecordHead
    → Records
    → Result Error ((RecordRevision × RecordHead) × Records)
resolved (some r) (some h) s = ok ((r, h), s)
resolved none h s = err assertion_error
resolved (some r) none s = err assertion_error

-- `decide` on the revision that was found.
unfoldable pub decide_found :
    RecordRevision
    → Decision
    → Str
    → Str
    → Str
    → Records
    → Result Error ((RecordRevision × RecordHead) × Records)
decide_found r decision expected reason now s =
    let actual = accepted_id (get_head r.project_id r.step_number r.record_id s) in
    let s' = write_decision r decision actual reason now s in
    if not (is_open r.status)
    then err (value_error (codes "Snowflake record revision is already reviewed."))
    else if actual == expected && r.base_revision_id == expected
    then resolved (get_revision r.project_id r.id s')
        (get_head r.project_id r.step_number r.record_id s') s'
    else err (value_error (codes "The accepted Snowflake record changed; reload before deciding."))

unfoldable pub decide :
    Str
    → Str
    → Decision
    → Str
    → Str
    → Str
    → Records
    → Result Error ((RecordRevision × RecordHead) × Records)
decide project_id id decision expected reason now s = elim (get_revision project_id id s) [
  | none ↦ err (lookup_error (codes "Snowflake record revision not found."))
  | some r ↦ decide_found r decision expected reason now s
]
