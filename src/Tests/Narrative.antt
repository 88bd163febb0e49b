-- ===== src/Tests/Narrative.antt =====
-- A fact, its correction and what the reader is told of it.
use ai_writing.Common.{
  ◌≡◌, refl, true, none, some, List, [], ◌∷◌, codes, ◌==◌, if◌then◌else◌, list_dec, option_dec,
  list_eq, nat_eq, option_eq, strip_by, drop_while, All,
}
use ai_writing.Common.Results.{ok, err, value}
use ai_writing.Data.Errors.{state_conflict}
use ai_writing.Canon.{strip, is_space}
use ai_writing.Projects.{Project, exists}
use ai_writing.Sql.{select, select_one, update, rowcount, order_by, insert_sorted}
use ai_writing.Narrative.{
  confirmed, fact_status_eq, FactStatus-discrete, Scope-discrete, reader_knowledge, scope_eq,
  FactFields, StoryFact, KnowledgeFields, KnowledgeState, Narrative, validate_fact,
  validate_position, validate_knowledge, validate_status,
}
use ai_writing.Narrative.Facts.{get_fact, create_fact, set_knowledge_state}
use ai_writing.Narrative.Facts.{
  record_revision, derive_knowledge, set_on_fact, next_state, write_knowledge, upsert_state,
  sync_scope, set_reader, sync_fact,
}
use ai_writing.Narrative.Facts.Reads.{facts_at, reader_facts_at}
use ai_writing.Narrative.Facts.Reads.{list_knowledge_states}
use ai_writing.Narrative.Maintenance.{correct_fact, corrected}
use ai_writing.Narrative.Maintenance.{require_fact, check_version, correct_found, withdraw}
use ai_writing.Narrative.Corrections.{IsCorrected, correct_fact_lem, correct_fact_once}
use ai_writing.Narrative.Knowledge.{reader_facts_at-Within}
use ai_writing.Narrative.ReaderSync.{set_reader_knowledge_lem}
use ai_writing.Narrative.Creation.{create_fact_lem}

abbrev fields : FactFields
fields = record {
  subject = codes "S";
  predicate = codes "is";
  value = codes "V";
  valid_from_scene = 2;
  valid_to_scene = none;
  reader_visible_from = none;
  source_ref = [];
  status = confirmed;
}

abbrev known : StoryFact
known = record {
  id = codes "f";
  project_id = codes "p";
  fields = fields;
  version = 1;
  updated_at = codes "t0";
}

abbrev told : KnowledgeFields
told = record {
  scope = reader_knowledge;
  character = [];
  known_from_scene = 3;
  source_ref = [];
  status = confirmed;
}

abbrev told_state : KnowledgeState
told_state = record {
  id = codes "k";
  project_id = codes "p";
  fact_id = codes "f";
  fields = told;
  version = 1;
  updated_at = codes "t0";
}

abbrev empty : Narrative
empty = record { facts = []; states = []; characters = []; revisions = []; uuid = λ n. n ∷ [] }

abbrev tables : Narrative
tables = record empty { facts = known ∷ [] }

abbrev told_tables : Narrative
told_tables = record tables { states = told_state ∷ [] }

abbrev change : FactFields
change = record fields { value = codes "W" }

abbrev after : StoryFact × Narrative
after =
    value (known, tables)
      (correct_fact (codes "p") (codes "f") change 1 (codes "why") (codes "t1") tables)

corrects :
    correct_fact (codes "p") (codes "f") change 1 (codes "why") (codes "t1") tables ≡ ok after
unfolding correct_fact require_fact get_fact check_version correct_found record_revision withdraw
    list_knowledge_states derive_knowledge set_knowledge_state set_on_fact next_state
    write_knowledge upsert_state sync_scope set_reader validate_fact validate_position
    validate_knowledge validate_status strip is_space strip_by drop_while select select_one update
    rowcount order_by list_dec native.Mathlib.Decide.ℕ_discrete FactStatus-discrete Scope-discrete
corrects = refl

-- The fact is corrected once under the version that was read.
correct_fact_lem_example :
    (current : StoryFact) × (get_fact (codes "p") (codes "f") tables ≡ some current)
    × (current.version ≡ 1)
    × (after.0 ≡ corrected current change (codes "t1"))
    × IsCorrected current after tables
correct_fact_lem_example =
    correct_fact_lem (codes "p") (codes "f") change 1 (codes "why") (codes "t1") tables corrects

correct_fact_once_example :
    correct_fact (codes "p") (codes "f") fields 1 (codes "again") (codes "t2") (after.1)
    ≡ err (state_conflict (codes "Narrative record changed; reload before correcting it"))
correct_fact_once_example =
    correct_fact_once (codes "p") (codes "f") change 1 (codes "why") (codes "t1") tables corrects
      fields (codes "again") (codes "t2")

abbrev IsConfirmed : StoryFact → Type 0
IsConfirmed f = f.fields.status ≡ confirmed

All-IsConfirmed : All IsConfirmed (facts_at (codes "p") 4 told_tables)
unfolding facts_at select order_by insert_sorted list_dec native.Mathlib.Decide.ℕ_discrete
    FactStatus-discrete
All-IsConfirmed = (refl, tt)

reader_facts_at-Within_example : All IsConfirmed (reader_facts_at (codes "p") 4 told_tables)
reader_facts_at-Within_example =
    reader_facts_at-Within (codes "p") 4 told_tables IsConfirmed All-IsConfirmed

abbrev shown : KnowledgeState × Narrative
shown =
    value (told_state, tables)
      (set_knowledge_state (codes "p") (codes "f") told (codes "why") true (codes "t1") tables)

shows :
    set_knowledge_state (codes "p") (codes "f") told (codes "why") true (codes "t1") tables
    ≡ ok shown
unfolding require_fact get_fact check_version correct_found record_revision withdraw
    list_knowledge_states derive_knowledge set_knowledge_state set_on_fact next_state
    write_knowledge upsert_state sync_scope set_reader validate_fact validate_position
    validate_knowledge validate_status strip is_space strip_by drop_while select select_one update
    rowcount order_by list_dec native.Mathlib.Decide.ℕ_discrete FactStatus-discrete Scope-discrete
    sync_fact option_dec
shows = refl

set_reader_knowledge_lem_example :
    (f : StoryFact) × (g : StoryFact) × (get_fact (codes "p") (codes "f") tables ≡ some f)
    × (get_fact (codes "p") (codes "f") (shown.1) ≡ some g)
    × (g.fields ≡ record (f.fields) {
      reader_visible_from = if told.status == confirmed then some told.known_from_scene else none;
    })
set_reader_knowledge_lem_example =
    set_reader_knowledge_lem (codes "p") (codes "f") told (codes "why") (codes "t1") tables refl
      shows

is_valid : validate_fact fields ≡ ok tt
unfolding validate_fact strip is_space strip_by drop_while native.Mathlib.Decide.ℕ_discrete
is_valid = refl

abbrev projects : List Project
projects = record { id = codes "p"; title = codes "P"; premise = []; current_step = 1 } ∷ []

is_project : exists (codes "p") projects ≡ true
unfolding exists rowcount list_dec native.Mathlib.Decide.ℕ_discrete
is_project = refl

create_fact_lem_example :
    (r : StoryFact × Narrative) × (create_fact (codes "p") fields projects (codes "t1") tables
      ≡ ok r)
    × (r.0.fields ≡ fields)
    × (get_fact (codes "p") r.0.id r.1 ≡ some (r.0))
    × (get_fact (codes "p") r.0.id tables ≡ none)
create_fact_lem_example =
    create_fact_lem (codes "p") fields projects (codes "t1") tables is_valid is_project
