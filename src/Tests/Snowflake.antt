-- ===== src/Tests/Snowflake.antt =====
-- A revision of a step and a record revision, and their decisions.
use ai_writing.Common.{
  ◌==◌, nat_eq, list_eq, Bool, ℕ, ◌≡◌, refl, ◌↔◌, true, false, Option, none, some, List, [], ◌∷◌,
  Str, codes, contains, list_dec,
}
use ai_writing.Common.Results.{ok, value}
use ai_writing.Data.Json.{Fields, end}
use ai_writing.Sql.{select_one, update, rowcount}
use ai_writing.Snowflake.{human, RecordState, RevisionStatus, RevisionStatus-discrete, Decision}
use ai_writing.Snowflake.Steps.{StepSpec, snowflake_step_specs, get_step_spec}
use ai_writing.Snowflake.Dependencies.{downstream_steps, explore, visit, sorted}
use ai_writing.Snowflake.Dependencies.Closure.{Feeds, downstream_steps_lem}
use ai_writing.Snowflake.Records.{
  RecordCreate, RecordRevision, RecordHead, Records, get_revision, get_head, accepted_id, new_id,
}
use ai_writing.Snowflake.Records
use ai_writing.Snowflake.Records.Invariant.{creation, decision, Reach, here, next}
use ai_writing.Snowflake.Records.Single.{Reach-single}
use ai_writing.Snowflake.Artifacts.{ArtifactRevision, ArtifactHead, HeadState, Snowflake, is_open}
use ai_writing.Snowflake.Artifacts
use ai_writing.Snowflake.Artifacts.Writes.{approved_head}
use ai_writing.Snowflake.Artifacts.Writes
use ai_writing.Snowflake.Artifacts.Flow.{
  Store, Decided, decide_found, decide_snowflake_revision, accept_open, publish,
}
use ai_writing.Snowflake.Artifacts.Decided.{IsAccepted, decide_accepted_lem, decide_accepted_again}
use ai_writing.Snowflake.Artifacts.Acceptance.{accepted_revision}
use ai_writing.Canon.{CanonEntity}
use ai_writing.Threads.{StoryThread}
use ai_writing.Snowflake.Records.Reads.{list_accepted}
use ai_writing.Snowflake.RecordFlow
use ai_writing.Snowflake.RecordFlow.{decide_snowflake_record_revision}
use ai_writing.Snowflake.RecordFlow.Projected.{IsProjected}
use ai_writing.Snowflake.RecordFlow.Decided.{decide_record_lem}

abbrev first_spec : StepSpec
first_spec = record {
  number = 1;
  title = [];
  artifact_type = [];
  description = [];
  dependencies = [];
  optional = false;
  validator_name = [];
  virtual = false;
}

abbrev eighth : StepSpec
eighth = value first_spec (get_step_spec 8)

is_eighth : get_step_spec 8 ≡ ok eighth
unfolding get_step_spec select_one native.Mathlib.Decide.ℕ_discrete
is_eighth = refl

-- The scene list feeds the steps after it.
downstream_steps_lem_example :
    (l : List ℕ) × (downstream_steps 8 ≡ ok l)
    × ((t : ℕ) → (contains l t ≡ true) ↔ Feeds 8 t)
    × ((explore 11 snowflake_step_specs ([], 8 ∷ [])).1 ≡ [])
downstream_steps_lem_example = downstream_steps_lem 8 is_eighth

abbrev new_record : RecordCreate
new_record = record {
  step_number = 8;
  record_id = codes "r";
  position = 1;
  payload = end;
  base_revision_id = [];
  source = human;
}

abbrev no_records : Records
no_records = record { revisions = []; heads = [] }

abbrev no_revision : RecordRevision
no_revision = record {
  id = [];
  project_id = [];
  step_number = 8;
  record_id = [];
  position = 1;
  revision_no = 1;
  source = human;
  status = RevisionStatus.draft;
  payload = end;
  base_revision_id = [];
  review_reason = [];
  created_at = [];
  reviewed_at = [];
}

abbrev no_head : RecordHead
no_head = record {
  project_id = [];
  step_number = 8;
  record_id = [];
  accepted_revision_id = [];
  state = RecordState.draft;
}

abbrev made : Option RecordRevision × Records
made =
    value (none, no_records)
      (Records.create (codes "p") new_record Records.Opening.pending_review (codes "h") (codes "t1")
        no_records)

makes :
    Records.create
      (codes "p")
      new_record
      Records.Opening.pending_review
      (codes "h")
      (codes "t1")
      no_records
    ≡ ok made
unfolding Records.create list_dec get_head get_revision select_one native.Mathlib.Decide.ℕ_discrete
    Records.insert_head rowcount
makes = refl

abbrev chosen : (RecordRevision × RecordHead) × Records
chosen =
    value ((no_revision, no_head), no_records)
      (Records.decide (codes "p") (new_id (codes "h")) Decision.accepted [] [] (codes "t2")
        (made.1))

chooses :
    Records.decide (codes "p") (new_id (codes "h")) Decision.accepted [] [] (codes "t2") (made.1)
    ≡ ok chosen
unfolding Records.create Records.decide get_revision select_one list_dec get_head
    native.Mathlib.Decide.ℕ_discrete Records.decide_found RevisionStatus-discrete
    Records.insert_head rowcount Records.resolved Records.write_decision Records.supersede update
chooses = refl

history : Reach no_records (chosen.1)
history =
    next
      (next here (
        creation (codes "p") new_record Records.Opening.pending_review (codes "h") (codes "t1")
          (made.0) refl makes))
      (decision (codes "p") (new_id (codes "h")) Decision.accepted [] [] (codes "t2") (chosen.0)
        chooses)

is_read : get_revision (codes "p") (new_id (codes "h")) (chosen.1) ≡ some (chosen.0.0)
unfolding Records.create Records.decide get_revision select_one list_dec get_head
    native.Mathlib.Decide.ℕ_discrete Records.decide_found RevisionStatus-discrete
    Records.insert_head rowcount Records.resolved Records.write_decision Records.supersede update
is_read = refl

is_accepted : chosen.0.0.status ≡ RevisionStatus.accepted
unfolding Records.create Records.decide get_revision select_one list_dec get_head
    native.Mathlib.Decide.ℕ_discrete Records.decide_found RevisionStatus-discrete
    Records.insert_head rowcount Records.resolved Records.write_decision Records.supersede update
is_accepted = refl

Reach-single_example :
    (chosen.0.0 ≡ chosen.0.0)
    × (accepted_id (get_head (codes "p") chosen.0.0.step_number chosen.0.0.record_id (chosen.1))
        ≡ chosen.0.0.id)
Reach-single_example =
    Reach-single (codes "p") (new_id (codes "h")) (new_id (codes "h")) tt history is_read is_read
      is_accepted is_accepted refl refl

abbrev written : ArtifactRevision
written = record {
  id = codes "a";
  project_id = codes "p";
  step_number = 1;
  artifact_type = codes "story_contract";
  revision_no = 1;
  source = human;
  status = RevisionStatus.pending_review;
  content = codes "text";
  structured_payload = end;
  schema_version = 1;
  parent_revision_id = [];
  base_head_revision_id = [];
  upstream = [];
  review_reason = [];
  created_at = codes "t0";
  reviewed_at = [];
}

abbrev tables : Store
tables = record {
  snowflake = record { artifacts = []; revisions = written ∷ []; heads = [] };
  projects = [];
  jobs = [];
}

-- A validation that refuses an empty text.
abbrev passes : ℕ → Str → Fields → Bool
passes step [] payload = false
passes step (c ∷ content) payload = true

abbrev nothing : Decided
nothing = record { revision = written; head = approved_head written; affected = []; job_id = [] }

abbrev after : Decided × Store
after =
    value (nothing, tables)
      (decide_snowflake_revision passes (codes "p") (codes "a") Decision.accepted [] (codes "good")
        (codes "t1") tables)

accepts :
    decide_snowflake_revision passes
      (codes "p")
      (codes "a")
      Decision.accepted
      []
      (codes "good")
      (codes "t1")
      tables
    ≡ ok after
unfolding decide_snowflake_revision decide_found accept_open publish downstream_steps explore visit
    sorted select_one Artifacts.get_revision list_dec native.Mathlib.Decide.ℕ_discrete
    RevisionStatus-discrete Artifacts.get_head Writes.set_revision_status update get_step_spec
accepts = refl

finds : Artifacts.get_revision (codes "p") (codes "a") tables.snowflake ≡ some written
unfolding Artifacts.get_revision select_one list_dec native.Mathlib.Decide.ℕ_discrete
finds = refl

opens : is_open written.status ≡ true
unfolding RevisionStatus-discrete
opens = refl

decide_accepted_lem_example :
    IsAccepted passes written [] (codes "good") (codes "t1") tables (after.0) (after.1)
decide_accepted_lem_example =
    decide_accepted_lem passes (codes "p") (codes "a") [] (codes "good") (codes "t1") tables finds
      opens accepts

decide_accepted_again_example :
    decide_snowflake_revision passes
      (codes "p")
      (codes "a")
      Decision.accepted
      []
      (codes "more")
      (codes "t2")
      (after.1)
    ≡ ok (
      record {
        revision = accepted_revision written (codes "good") (codes "t1");
        head = approved_head (accepted_revision written (codes "good") (codes "t1"));
        affected = [];
        job_id = [];
      },
      after.1,
    )
decide_accepted_again_example =
    decide_accepted_again passes (codes "p") (codes "a") [] (codes "good") (codes "t1") tables finds
      opens accepts (codes "more") (codes "t2")

abbrev record_tables : RecordFlow.Store
record_tables = record {
  base = record {
    snowflake = record { artifacts = []; revisions = []; heads = [] };
    projects = [];
    jobs = [];
  };
  records = made.1;
  canon = [];
  threads = record { threads = []; events = [] };
}

-- Every payload passes, and every list of one scene.
abbrev passes_record : ℕ → Fields → Bool
passes_record step payload = step == 8

abbrev passes_context : List RecordRevision → List CanonEntity → List StoryThread → Bool
passes_context (r ∷ []) canon threads = true
passes_context rs canon threads = false

abbrev reviewed : (RecordRevision × RecordHead) × RecordFlow.Store
reviewed =
    value ((no_revision, no_head), record_tables)
      (decide_snowflake_record_revision passes_record passes_context (codes "p")
        (Records.new_id (codes "h")) Decision.accepted [] (codes "good") (codes "g") (codes "t2")
        record_tables)

reviews :
    decide_snowflake_record_revision passes_record passes_context
      (codes "p")
      (Records.new_id (codes "h"))
      Decision.accepted
      []
      (codes "good")
      (codes "g")
      (codes "t2")
      record_tables
    ≡ ok reviewed
unfolding decide_snowflake_record_revision Records.create get_revision select_one list_dec get_head
    native.Mathlib.Decide.ℕ_discrete RecordFlow.decide_found Records.insert_head rowcount
    RevisionStatus-discrete RecordFlow.check_candidate ai_writing.Sql.select list_accepted
    ai_writing.Sql.order_by ai_writing.Snowflake.Records.Reads.joined
    ai_writing.Snowflake.Records.Reads.accepted_of RecordFlow.decide_open Records.decide
    Records.decide_found Records.resolved Records.write_decision Records.supersede update
    RecordFlow.project RecordFlow.check_records ai_writing.Sql.insert_sorted
    ai_writing.Data.Json.Dump.dump ai_writing.Data.Json.Dump.spaces
    ai_writing.Data.Json.Dump.escape_all ai_writing.Data.Json.Dump.escape RecordFlow.entries
    ai_writing.Common.decimal ai_writing.Common.emit Writes.create_revision get_step_spec
    ai_writing.Snowflake.Dependencies.upstream_snapshot Writes.set_revision_status
    Artifacts.get_revision downstream_steps
reviews = refl

abbrev candidate : RecordRevision
candidate =
    Records.new_record_revision (codes "p") new_record Records.Opening.pending_review (codes "h")
      (codes "t1") no_records

is_candidate :
    Records.get_revision (codes "p") (Records.new_id (codes "h")) record_tables.records
    ≡ some candidate
unfolding Records.create get_revision select_one list_dec get_head native.Mathlib.Decide.ℕ_discrete
is_candidate = refl

is_open_candidate : Records.is_open candidate.status ≡ true
unfolding RevisionStatus-discrete
is_open_candidate = refl

decide_record_lem_example :
    IsProjected passes_record passes_context
      (codes "p")
      (reviewed.0.0)
      (list_accepted (codes "p") reviewed.0.0.step_number reviewed.1.records)
      record_tables.base
      reviewed.1.base
    × (Records.get_revision candidate.project_id candidate.id reviewed.1.records
        ≡ some (reviewed.0.0))
    × (Records.get_head candidate.project_id candidate.step_number candidate.record_id
          reviewed.1.records
        ≡ some (reviewed.0.1))
decide_record_lem_example =
    decide_record_lem passes_record passes_context (codes "p") (Records.new_id (codes "h")) []
      (codes "good") (codes "g") (codes "t2") record_tables (λ step. refl) is_candidate
      is_open_candidate reviews
