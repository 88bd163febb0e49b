-- ===== src/Snowflake/Artifacts/Writes.antt =====
-- The writes of `SnowflakeRepository` (backend/app/data/repositories/snowflake.py).
use ai_writing.Common.{
  ℕ, ◌+◌, Bool, ◌&&◌, not, Option, none, some, List, [], ◌∷◌, ◌++◌, Str, codes, decimal, ltb,
  is_empty, ◌==◌, list_eq, nat_eq, if◌then◌else◌,
}
use ai_writing.Common.Results.{Result, ok, err, ◌>>=◌, ◌>>◌}
use ai_writing.Data.Errors.{Error, value_error, lookup_error}
use ai_writing.Data.Json.{Fields}
use ai_writing.Sql.{select_one, update, rowcount}
use ai_writing.Snowflake.{Source, RevisionStatus, revision_status_eq, source_eq}
use ai_writing.Snowflake.Steps.{StepSpec, get_step_spec}
use ai_writing.Snowflake.Dependencies.{Heads, upstream_snapshot}
use ai_writing.Snowflake.Artifacts.{
  missing, approved, stale, skipped, head_state_eq, ArtifactCreate, ArtifactRevision, ArtifactHead,
  Snowflake, is_head, is_of, has_id, get_head, get_revision, accepted_head_ids, missing_head,
  head_or, is_open,
}

-- `COALESCE(MAX(revision_no), 0)`
unfoldable pub last_no : Str → ℕ → List ArtifactRevision → ℕ
last_no project_id step [] = 0
last_no project_id step (r ∷ t) =
    let rest = last_no project_id step t in
    if is_of project_id step r && ltb rest r.revision_no then r.revision_no else rest

-- `status or ("pending_review" if actual_source == "ai" else "draft")`
abbrev pub initial_status : Option RevisionStatus → Source → RevisionStatus
initial_status (some status) source = status
initial_status none source =
    if source == Source.ai then RevisionStatus.pending_review else RevisionStatus.draft

abbrev pub source_or : Source → Option Source → Source
source_or given none = given
source_or given (some source) = source

abbrev pub new_id : Str → ℕ → Str → Str
new_id project_id step hex =
    codes "snowflake:" ++ project_id ++ codes ":" ++ decimal step ++ codes ":" ++ hex

-- The row of a new revision; `hex` is the text that `uuid4` gives.
abbrev pub new_revision :
    Str
    → ArtifactCreate
    → RevisionStatus
    → Source
    → StepSpec
    → Heads
    → Str
    → Str
    → Snowflake
    → ArtifactRevision
new_revision project_id c status source spec upstream hex now s = record {
  id = new_id project_id c.step_number hex;
  project_id = project_id;
  step_number = c.step_number;
  artifact_type = spec.artifact_type;
  revision_no = last_no project_id c.step_number s.revisions + 1;
  source = source;
  status = status;
  content = c.content;
  structured_payload = c.structured_payload;
  schema_version = c.schema_version;
  parent_revision_id = c.parent_revision_id;
  base_head_revision_id =
      if is_empty c.base_head_revision_id
      then (get_head project_id c.step_number s).accepted_revision_id
      else c.base_head_revision_id;
  upstream = upstream;
  review_reason = [];
  created_at = now;
  reviewed_at = [];
}

unfoldable pub create_revision :
    Str
    → ArtifactCreate
    → Option RevisionStatus
    → Option Source
    → Str
    → Str
    → Snowflake
    → Result Error (ArtifactRevision × Snowflake)
create_revision project_id c status source hex now s = do
  spec ← get_step_spec c.step_number
  if spec.virtual
      then err (value_error (codes "Snowflake step 10 is a virtual Manuscript milestone."))
      else ok tt
  upstream ← upstream_snapshot c.step_number (accepted_head_ids project_id s)
  let actual = source_or c.source source
  let r = new_revision project_id c (initial_status status actual) actual spec upstream hex now s
  ok (r, record s { revisions = s.revisions ++ r ∷ [] })

-- `content if content is not None else current.content`
abbrev pub given_or {ℓ} : {A : Type ℓ} → A → Option A → A
given_or old none = old
given_or old (some new) = new

abbrev pub set_patch :
    Option Str → Option Fields → ArtifactRevision → ArtifactRevision → ArtifactRevision
set_patch content payload current r = record r {
  content = given_or current.content content;
  structured_payload = given_or current.structured_payload payload;
}

unfoldable pub patch_revision :
    Str
    → Str
    → Option Str
    → Option Fields
    → Snowflake
    → Result Error (Option ArtifactRevision × Snowflake)
patch_revision project_id id content payload s = elim (get_revision project_id id s) [
  | none ↦ ok (none, s)
  | some current ↦
      let s' : Snowflake = record s {
        revisions = update (has_id project_id id) (set_patch content payload current) s.revisions;
      } in
      if is_open current.status
      then ok (get_revision project_id id s', s')
      else err (value_error (codes "Only draft or pending Snowflake revisions can be edited."))
]

abbrev pub set_review : RevisionStatus → Str → Str → ArtifactRevision → ArtifactRevision
set_review status reason now r = record r {
  status = status;
  review_reason = reason;
  reviewed_at = now;
}

abbrev pub or_lookup_error :
    Option ArtifactRevision → Snowflake → Result Error (ArtifactRevision × Snowflake)
or_lookup_error none s = err (lookup_error (codes "Snowflake revision not found."))
or_lookup_error (some r) s = ok (r, s)

unfoldable pub set_revision_status :
    Str → Str → RevisionStatus → Str → Str → Snowflake → Result Error (ArtifactRevision × Snowflake)
set_revision_status project_id id status reason now s =
    let s' : Snowflake = record s {
      revisions = update (has_id project_id id) (set_review status reason now) s.revisions;
    } in
    or_lookup_error (get_revision project_id id s') s'

-- `INSERT … ON CONFLICT(project_id, step_number) DO UPDATE SET …`
unfoldable pub upsert_head :
    ArtifactHead → (ArtifactHead → ArtifactHead) → List ArtifactHead → List ArtifactHead
upsert_head new set t =
    if rowcount (is_head new.project_id new.step_number) t == 0
    then t ++ new ∷ []
    else update (is_head new.project_id new.step_number) set t

-- `WHERE project_id = ? AND id = ? AND status = 'accepted'`
abbrev pub is_accepted : Str → Str → ArtifactRevision → Bool
is_accepted project_id id r = has_id project_id id r && r.status == RevisionStatus.accepted

unfoldable pub supersede_head :
    ArtifactRevision → ArtifactHead → List ArtifactRevision → List ArtifactRevision
supersede_head r current t =
    if not (is_empty current.accepted_revision_id) && not (current.accepted_revision_id == r.id)
    then update (is_accepted r.project_id current.accepted_revision_id)
        (λ q. record q { status = RevisionStatus.superseded }) t
    else t

abbrev pub approved_head : ArtifactRevision → ArtifactHead
approved_head r = record {
  project_id = r.project_id;
  step_number = r.step_number;
  accepted_revision_id = r.id;
  state = approved;
  stale_reason = [];
  stale_trigger_revision_id = [];
}

-- The columns that a conflict sets: all but the key.
abbrev pub as_head : ArtifactHead → ArtifactHead → ArtifactHead
as_head new h = record h {
  accepted_revision_id = new.accepted_revision_id;
  state = new.state;
  stale_reason = new.stale_reason;
  stale_trigger_revision_id = new.stale_trigger_revision_id;
}

unfoldable pub accept_revision : ArtifactRevision → Snowflake → ArtifactHead × Snowflake
accept_revision r s =
    let s' : Snowflake = record s {
      revisions = supersede_head r (get_head r.project_id r.step_number s) s.revisions;
      heads = upsert_head (approved_head r) (as_head (approved_head r)) s.heads;
    } in
    (get_head r.project_id r.step_number s', s')

abbrev pub stale_head : ArtifactHead → Str → Str → ArtifactHead
stale_head current reason trigger = record current {
  state = stale;
  stale_reason = reason;
  stale_trigger_revision_id = trigger;
}

-- One round of the loop over the steps.
unfoldable pub mark_one : Str → ℕ → Str → Str → List ArtifactHead → List ArtifactHead
mark_one project_id step reason trigger t =
    let current = head_or (missing_head project_id step) (select_one (is_head project_id step) t) in
    if current.state == missing && not (step == 10)
    then t
    else upsert_head
        (record (stale_head current reason trigger) { project_id = project_id; step_number = step })
        (λ h. stale_head h reason trigger) t

-- `for step_number in step_numbers`
unfoldable pub mark_stale : Str → List ℕ → Str → Str → List ArtifactHead → List ArtifactHead
mark_stale project_id [] reason trigger t = t
mark_stale project_id (step ∷ steps) reason trigger t =
    mark_stale project_id steps reason trigger (mark_one project_id step reason trigger t)

abbrev pub skipped_head : Str → ℕ → ArtifactHead
skipped_head project_id step = record (missing_head project_id step) { state = skipped }

unfoldable pub skip_step : Str → ℕ → Snowflake → Result Error (ArtifactHead × Snowflake)
skip_step project_id step s = do
  spec ← get_step_spec step
  let new = skipped_head project_id step
  let s' : Snowflake = record s { heads = upsert_head new (as_head new) s.heads }
  if spec.optional
      then ok (get_head project_id step s', s')
      else err (value_error (codes "Only optional Snowflake steps can be skipped."))
