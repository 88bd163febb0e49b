-- ===== src/Scene.antt =====
-- Scene contracts: `SceneRepository` (backend/app/data/repositories/scenes.py) on the list of the
-- rows of `scene_contracts`, and the classes of backend/app/domain_models/scene.py. The table has
-- UNIQUE (project_id, sequence) and a unique index on the source record. The children are the scene
-- proposals and the batch that accepts them.
pub mod Proposals
pub mod Compile
pub mod Accepted
use ai_writing.Common.{
  ℕ, zero, suc, ◌+◌, Bool, true, false, ◌&&◌, ◌||◌, not, Option, none, some, List, [], ◌∷◌, ◌++◌,
  map, Str, codes, decimal, is_empty, leb, length, ℤ, pos, negsuc, integer_eq, integer_lt, between,
  ◌==◌, list_eq, nat_eq, if◌then◌else◌,
}
use ai_writing.Common.Results.{Result, ok, err, ◌>>=◌, ◌>>◌}
use ai_writing.Data.Errors.{Error, validation_error, integrity_error, value_error}
use ai_writing.Data.RecordId.{make_record_id}
use ai_writing.Canon.{strip}
use ai_writing.Snowflake.{RevisionStatus, revision_status_eq}
use ai_writing.Snowflake.Records.{RecordRevision}
use ai_writing.Sql.{select, select_one, update, rowcount, delete, order_by}

-- `SceneContractCreate`, which is also `SceneContractUpdate`.
pub record SceneFields : Type 0 where
  pub chapter_id : Str
  pub sequence : ℤ
  pub title : Str
  pub pov : Str
  pub goal : Str
  pub conflict : Str
  pub turning_point : Str
  pub outcome : Str
  pub required_canon : Str
  pub forbidden_facts : Str
  pub information_delta : Str
  pub character_state_delta : Str
  pub story_thread_actions : Str
  pub open_threads : Str
  pub source_artifact_step : ℕ

pub record SceneContract : Type 0 where
  pub id : Str
  pub project_id : Str
  pub fields : SceneFields
  pub plan_version : ℕ
  pub source_record_step : ℕ
  pub source_record_id : Str
  pub source_record_revision_id : Str
  pub manuscript_plan_version : ℕ

-- The constraints of the class: they are tested before `normalize_scene_text` strips the texts.
unfoldable pub is_valid : SceneFields → Bool
is_valid f =
    leb (length f.chapter_id) 160
    && between 1 999 f.sequence
    && leb 1 (length f.title)
    && leb (length f.title) 160
    && leb (length f.pov) 120
    && leb (length f.goal) 1000
    && leb (length f.conflict) 1000
    && leb (length f.turning_point) 1000
    && leb (length f.outcome) 1000
    && leb (length f.required_canon) 4000
    && leb (length f.forbidden_facts) 4000
    && leb (length f.information_delta) 4000
    && leb (length f.character_state_delta) 4000
    && leb (length f.story_thread_actions) 4000
    && leb (length f.open_threads) 4000
    && leb 1 f.source_artifact_step
    && leb f.source_artifact_step 10

unfoldable pub normalized : SceneFields → SceneFields
normalized f = record f {
  chapter_id = strip f.chapter_id;
  title = strip f.title;
  pov = strip f.pov;
  goal = strip f.goal;
  conflict = strip f.conflict;
  turning_point = strip f.turning_point;
  outcome = strip f.outcome;
  required_canon = strip f.required_canon;
  forbidden_facts = strip f.forbidden_facts;
  information_delta = strip f.information_delta;
  character_state_delta = strip f.character_state_delta;
  story_thread_actions = strip f.story_thread_actions;
  open_threads = strip f.open_threads;
}

-- The construction of a model object: a constraint that fails is a ValidationError.
unfoldable pub validate : SceneFields → Result Error SceneFields
validate f = if is_valid f then ok (normalized f) else err validation_error

-- `WHERE project_id = ? AND id = ?`
abbrev pub has_key : Str → Str → SceneContract → Bool
has_key project_id id c = c.project_id == project_id && c.id == id

-- The key of the UNIQUE constraint.
abbrev pub has_sequence : Str → ℤ → SceneContract → Bool
has_sequence project_id sequence c = c.project_id == project_id && c.fields.sequence == sequence

unfoldable pub list_scenes : Str → List SceneContract → List SceneContract
list_scenes project_id t =
    order_by (λ a b. integer_lt a.fields.sequence b.fields.sequence)
      (select (λ c. c.project_id == project_id) t)

unfoldable pub get : Str → Str → List SceneContract → Option SceneContract
get project_id id = select_one (has_key project_id id)

-- `f"{sequence}"`
unfoldable pub sequence_text : ℤ → Str
sequence_text (pos n) = decimal n
sequence_text (negsuc n) = b'-' ∷ decimal (n + 1)

-- The row of a new contract.
unfoldable pub new_contract : Str → SceneFields → SceneFields → List SceneContract → SceneContract
new_contract project_id given f t = record {
  id =
      make_record_id
        (project_id ++ codes "-s" ++ sequence_text given.sequence ++ codes "-" ++ given.title)
        (map (λ (c : SceneContract). c.id) t);
  project_id = project_id;
  fields = f;
  plan_version = 1;
  source_record_step = 0;
  source_record_id = [];
  source_record_revision_id = [];
  manuscript_plan_version = 0;
}

unfoldable pub insert :
    Str → SceneFields → List SceneContract → Result Error (SceneContract × List SceneContract)
insert project_id f t = do
  valid ← validate f
  let created = new_contract project_id f valid t
  if rowcount (has_sequence project_id valid.sequence) t == 0
      then ok (created, t ++ created ∷ [])
      else err integrity_error

-- `SET …, plan_version = plan_version + 1`
abbrev pub set_fields : SceneFields → SceneContract → SceneContract
set_fields f c = record c { fields = f; plan_version = c.plan_version + 1 }

-- The rows other than the one of the id that have the sequence.
abbrev pub takes_sequence : Str → Str → ℤ → SceneContract → Bool
takes_sequence project_id id sequence c = has_sequence project_id sequence c && not (c.id == id)

unfoldable pub update_contract :
    Str
    → Str
    → SceneFields
    → List SceneContract
    → Result Error (Option SceneContract × List SceneContract)
update_contract project_id id f t = do
  valid ← validate f
  let t' = update (has_key project_id id) (set_fields valid) t
  if rowcount (has_key project_id id) t == 0
      then ok (none, t)
      else if rowcount (takes_sequence project_id id valid.sequence) t == 0
      then ok (get project_id id t', t')
      else err integrity_error

-- `WHERE project_id = ? AND source_record_step = 8 AND source_record_id = ?`
abbrev pub has_source : Str → Str → SceneContract → Bool
has_source project_id record_id c =
    c.project_id == project_id && c.source_record_step == 8 && c.source_record_id == record_id

abbrev pub read_again : Str → Option SceneContract → List SceneContract → Option SceneContract
read_again project_id none t = none
read_again project_id (some c) t = get project_id c.id t

unfoldable pub get_by_source : Str → Str → List SceneContract → Option SceneContract
get_by_source project_id record_id t =
    read_again project_id (select_one (has_source project_id record_id) t) t

abbrev pub set_source : Str → Str → SceneContract → SceneContract
set_source record_id revision_id c = record c {
  source_record_step = 8;
  source_record_id = record_id;
  source_record_revision_id = revision_id;
}

-- `WHERE project_id = ? AND step_number = 8 AND record_id = ? AND id = ? AND status = 'accepted'`
abbrev pub is_accepted_source : Str → Str → Str → RecordRevision → Bool
is_accepted_source project_id record_id revision_id r =
    r.project_id == project_id
    && r.step_number == 8
    && r.record_id == record_id
    && r.id == revision_id
    && r.status == RevisionStatus.accepted

-- `scene is None or (scene.source_record_id and scene.source_record_id != record_id)`
abbrev pub can_bind : Str → Option SceneContract → Bool
can_bind record_id none = false
can_bind record_id (some c) = is_empty c.source_record_id || c.source_record_id == record_id

-- The last test is the unique index on the source record.
unfoldable pub bind_source :
    Str
    → Str
    → Str
    → Str
    → List RecordRevision
    → List SceneContract
    → Result Error (List SceneContract)
bind_source project_id id record_id revision_id revisions t =
    if rowcount (is_accepted_source project_id record_id revision_id) revisions == 0
    then err (value_error (codes "Source must be an accepted Step 8 record in the same project."))
    else if not (can_bind record_id (get project_id id t))
    then err (value_error (codes "Scene is missing or already belongs to another record."))
    else if rowcount (λ c. has_source project_id record_id c && not (c.id == id)) t == 0
    then ok (update (has_key project_id id) (set_source record_id revision_id) t)
    else err integrity_error

unfoldable pub delete_contract : Str → Str → List SceneContract → Bool × List SceneContract
delete_contract project_id id t =
    (not (rowcount (has_key project_id id) t == 0), delete (has_key project_id id) t)

unfoldable pub clear_chapter_reference : Str → Str → List SceneContract → List SceneContract
clear_chapter_reference project_id chapter_id =
    update (λ c. c.project_id == project_id && c.fields.chapter_id == chapter_id)
      (λ c. set_fields (record (c.fields) { chapter_id = [] }) c)

abbrev pub sequence_of : Option SceneContract → Option ℤ
sequence_of none = none
sequence_of (some c) = some c.fields.sequence

unfoldable pub get_sequence : Str → Str → List SceneContract → Option ℤ
get_sequence project_id id t = sequence_of (get project_id id t)

-- The set of the sequences, as a list.
unfoldable pub list_sequences : Str → List SceneContract → List ℤ
list_sequences project_id t =
    map (λ (c : SceneContract). c.fields.sequence) (select (λ c. c.project_id == project_id) t)
