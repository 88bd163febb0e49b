-- ===== src/Narrative/Facts.antt =====
-- `NarrativeRepository` on facts and knowledge (backend/app/data/repositories/narrative.py), and
-- `record_revision` of narrative_maintenance.py. `now` is the time of the call.
pub mod Reads
use mathlib.Core.Option
use ai_writing.Common.{
  ℕ, ◌+◌, Bool, true, false, ◌&&◌, not, Option, none, some, List, [], ◌∷◌, ◌++◌, map, Str, codes,
  decimal, is_empty, length, ◌==◌, list_eq, nat_eq, option_eq, if◌then◌else◌,
}
use ai_writing.Common.Results.{Result, ok, err, ◌>>=◌, ◌>>◌}
use ai_writing.Data.Errors.{Error, lookup_error, attribute_error, integrity_error}
use ai_writing.Data.RecordId.{make_record_id}
use ai_writing.Projects.{Project, exists}
use ai_writing.Sql.{select_one, update, rowcount, delete}
use ai_writing.Narrative.{
  FactStatus, planned, confirmed, retracted, fact_status_eq, Scope, world_truth, reader_knowledge,
  character_knowledge, scope_eq, FactFields, StoryFact, KnowledgeFields, KnowledgeState,
  CharacterKnowledge, Recorded, fact, knowledge, NarrativeRevision, Narrative, nocase,
  validate_fact, validate_knowledge,
}

-- `WHERE project_id=? AND id=?`
abbrev pub is_fact : Str → Str → StoryFact → Bool
is_fact project_id id f = f.project_id == project_id && f.id == id

unfoldable pub get_fact : Str → Str → Narrative → Option StoryFact
get_fact project_id id n = select_one (is_fact project_id id) n.facts

-- `WHERE project_id=? AND fact_id=? AND id=?`
abbrev pub is_state : Str → Str → Str → KnowledgeState → Bool
is_state project_id fact_id id s = s.project_id == project_id && s.fact_id == fact_id && s.id == id

unfoldable pub get_knowledge : Str → Str → Str → Narrative → Option KnowledgeState
get_knowledge project_id fact_id id n = select_one (is_state project_id fact_id id) n.states

-- `WHERE project_id=? AND fact_id=? AND scope=? AND character=?`, also the UNIQUE constraint.
abbrev pub is_known : Str → Str → Scope → Str → KnowledgeState → Bool
is_known project_id fact_id scope character s =
    s.project_id == project_id
    && s.fact_id == fact_id
    && s.fields.scope == scope
    && nocase s.fields.character == nocase character

-- What a revision is kept under.
abbrev pub recorded_fact : Recorded → Str
recorded_fact (fact f) = f.id
recorded_fact (knowledge s) = s.fact_id

abbrev pub recorded_state : Recorded → Option Str
recorded_state (fact f) = none
recorded_state (knowledge s) = some s.id

abbrev pub recorded_project : Recorded → Str
recorded_project (fact f) = f.project_id
recorded_project (knowledge s) = s.project_id

abbrev pub recorded_version : Recorded → ℕ
recorded_version (fact f) = f.version
recorded_version (knowledge s) = s.version

-- `WHERE project_id=? AND fact_id=? AND knowledge_state_id IS ? AND version=?`
abbrev pub is_revision : Str → Str → Option Str → ℕ → NarrativeRevision → Bool
is_revision project_id fact_id state version r =
    r.project_id == project_id
    && r.fact_id == fact_id
    && r.knowledge_state_id == state
    && r.version == version

abbrev pub has_revision : Recorded → NarrativeRevision → Bool
has_revision r =
    is_revision (recorded_project r) (recorded_fact r) (recorded_state r) (recorded_version r)

-- The row of a revision.
abbrev pub new_revision : Recorded → Str → Str → Narrative → NarrativeRevision
new_revision r reason now n = record {
  id = codes "narrative-revision-" ++ n.uuid (length n.revisions);
  project_id = recorded_project r;
  fact_id = recorded_fact r;
  knowledge_state_id = recorded_state r;
  version = recorded_version r;
  reason = reason;
  created_at = now;
  recorded = r;
}

-- The unique index on the same columns is kept, since the read before has met no row.
unfoldable pub record_revision : Recorded → Str → Str → Narrative → Narrative
record_revision r reason now n =
    if rowcount (has_revision r) n.revisions == 0
    then record n { revisions = n.revisions ++ new_revision r reason now n ∷ [] }
    else n

-- `INSERT … ON CONFLICT(id) DO UPDATE SET …`
abbrev pub set_state : KnowledgeState → KnowledgeState → KnowledgeState
set_state new s = record s {
  fields = record (s.fields) {
    known_from_scene = new.fields.known_from_scene;
    source_ref = new.fields.source_ref;
    status = new.fields.status;
  };
  version = new.version;
  updated_at = new.updated_at;
}

unfoldable pub upsert_state :
    KnowledgeState → List KnowledgeState → Result Error (List KnowledgeState)
upsert_state s t =
    if not (rowcount (λ r. r.id == s.id) t == 0)
    then ok (update (λ r. r.id == s.id) (set_state s) t)
    else if rowcount (is_known s.project_id s.fact_id s.fields.scope s.fields.character) t == 0
    then ok (t ++ s ∷ [])
    else err integrity_error

-- The reader's position of the fact, from the state of the reader's knowledge.
abbrev pub visible_from : KnowledgeState → Option ℕ
visible_from s = if s.fields.status == confirmed then some s.fields.known_from_scene else none

abbrev pub shown : Option ℕ → Str → StoryFact → StoryFact
shown visible now f = record f {
  fields = record (f.fields) { reader_visible_from = visible };
  version = f.version + 1;
  updated_at = now;
}

-- `UPDATE story_facts SET reader_visible_from=?, version=?, updated_at=?`
abbrev pub set_visible : StoryFact → StoryFact → StoryFact
set_visible new f = record f {
  fields = record (f.fields) { reader_visible_from = new.fields.reader_visible_from };
  version = new.version;
  updated_at = new.updated_at;
}

unfoldable pub write_visible : StoryFact → StoryFact → Str → Str → Narrative → Narrative
write_visible old new reason now n =
    let n1 = record_revision (fact old) (codes "Original baseline") now n in
    let n2 = record n1 {
      facts = update (is_fact old.project_id old.id) (set_visible new) n1.facts;
    } in
    record_revision (fact new) reason now n2

-- The branch of the reader's knowledge. `None` has no attribute `reader_visible_from`.
unfoldable pub sync_fact :
    KnowledgeState → Str → Str → Option StoryFact → Narrative → Result Error Narrative
sync_fact s reason now none n = err attribute_error
sync_fact s reason now (some f) n =
    if f.fields.reader_visible_from == visible_from s
    then ok n
    else ok (write_visible f (shown (visible_from s) now f) reason now n)

abbrev pub is_character : KnowledgeState → CharacterKnowledge → Bool
is_character s c =
    c.project_id == s.project_id && c.fact_id == s.fact_id && c.character == s.fields.character

abbrev pub character_row : KnowledgeState → CharacterKnowledge
character_row s = record {
  project_id = s.project_id;
  fact_id = s.fact_id;
  character = s.fields.character;
  known_from_scene = s.fields.known_from_scene;
}

-- The branch of a character's knowledge.
unfoldable pub sync_character : KnowledgeState → List CharacterKnowledge → List CharacterKnowledge
sync_character s t =
    if not (s.fields.status == confirmed)
    then delete (is_character s) t
    else if rowcount (is_character s) t == 0
    then t ++ character_row s ∷ []
    else update (is_character s) (λ c. record c { known_from_scene = s.fields.known_from_scene }) t

-- `if state.scope == "reader_knowledge" and sync_reader … elif …`
unfoldable pub sync_scope :
    Scope → KnowledgeState → Str → Bool → Str → Narrative → Result Error Narrative
sync_scope reader_knowledge s reason true now n =
    sync_fact s reason now (get_fact s.project_id s.fact_id n) n
sync_scope reader_knowledge s reason false now n = ok n
sync_scope character_knowledge s reason sync_reader now n =
    ok (record n { characters = sync_character s n.characters })
sync_scope world_truth s reason sync_reader now n = ok n

abbrev pub record_previous : Option KnowledgeState → Str → Narrative → Narrative
record_previous none now n = n
record_previous (some s) now n = record_revision (knowledge s) (codes "Original baseline") now n

unfoldable pub write_knowledge :
    KnowledgeState → Str → Option KnowledgeState → Bool → Str → Narrative → Result Error Narrative
write_knowledge s reason previous sync_reader now n =
    let n1 = record_previous previous now n in
    do
      states ← upsert_state s n1.states
      sync_scope s.fields.scope s reason sync_reader now
          (record_revision (knowledge s) reason now (record n1 { states = states }))

abbrev pub scope_name : Scope → Str
scope_name world_truth = codes "world_truth"
scope_name reader_knowledge = codes "reader_knowledge"
scope_name character_knowledge = codes "character_knowledge"

-- The state that `set_knowledge_state` writes.
unfoldable pub next_state :
    StoryFact → KnowledgeFields → Option KnowledgeState → Str → Narrative → KnowledgeState
next_state f k previous now n = record {
  id = elim previous [
    | some p ↦ p.id
    | none ↦
        make_record_id
          (codes "knowledge-"
            ++ f.id
            ++ codes "-"
            ++ scope_name k.scope
            ++ codes "-"
            ++ k.character)
          (map (λ (s : KnowledgeState). s.id) n.states)
  ];
  project_id = f.project_id;
  fact_id = f.id;
  fields = record k {
    source_ref = if is_empty k.source_ref then f.fields.source_ref else k.source_ref;
    character = elim previous [ some p ↦ p.fields.character | none ↦ k.character ];
  };
  version = elim previous [ some p ↦ p.version + 1 | none ↦ 1 ];
  updated_at = now;
}

-- `previous`
abbrev pub previous_state : Str → Str → KnowledgeFields → Narrative → Option KnowledgeState
previous_state project_id fact_id k n =
    select_one (is_known project_id fact_id k.scope k.character) n.states

unfoldable pub set_on_fact :
    KnowledgeFields
    → Str
    → Bool
    → Str
    → Option StoryFact
    → Narrative
    → Result Error (KnowledgeState × Narrative)
set_on_fact k reason sync_reader now none n = err (lookup_error (codes "Story fact not found"))
set_on_fact k reason sync_reader now (some f) n =
    let previous = previous_state f.project_id f.id k n in
    let s = next_state f k previous now n in
    do
      validate_knowledge f.fields k
      n' ← write_knowledge s reason previous sync_reader now n
      ok (s, n')

unfoldable pub set_knowledge_state :
    Str
    → Str
    → KnowledgeFields
    → Str
    → Bool
    → Str
    → Narrative
    → Result Error (KnowledgeState × Narrative)
set_knowledge_state project_id fact_id k reason sync_reader now n =
    set_on_fact k reason sync_reader now (get_fact project_id fact_id n) n

-- The knowledge that follows from a fact: world truth, and where it has one the reader's position.
abbrev pub truth_of : StoryFact → KnowledgeFields
truth_of f = record {
  scope = world_truth;
  character = [];
  known_from_scene = f.fields.valid_from_scene;
  source_ref = f.fields.source_ref;
  status = f.fields.status;
}

abbrev pub reader_of : StoryFact → ℕ → KnowledgeFields
reader_of f position = record {
  scope = reader_knowledge;
  character = [];
  known_from_scene = position;
  source_ref = f.fields.source_ref;
  status = f.fields.status;
}

unfoldable pub set_reader : StoryFact → Option ℕ → Str → Str → Narrative → Result Error Narrative
set_reader f none reason now n = ok n
set_reader f (some position) reason now n = do
  (s, n') ← set_knowledge_state f.project_id f.id (reader_of f position) reason false now n
  ok n'

-- The two calls of `set_knowledge_state` with which `create_fact` and `correct_fact` end.
unfoldable pub derive_knowledge : StoryFact → Str → Str → Narrative → Result Error Narrative
derive_knowledge f reason now n = do
  (s, n') ← set_knowledge_state f.project_id f.id (truth_of f) reason false now n
  set_reader f f.fields.reader_visible_from reason now n'

unfoldable pub new_fact : Str → FactFields → Narrative → StoryFact
new_fact project_id f n = record {
  id =
      make_record_id
        (project_id
          ++ codes "-"
          ++ f.subject
          ++ codes "-"
          ++ f.predicate
          ++ codes "-"
          ++ decimal f.valid_from_scene)
        (map (λ (g : StoryFact). g.id) n.facts);
  project_id = project_id;
  fields = f;
  version = 1;
  updated_at = [];
}

-- The foreign key of `story_facts` names a project.
unfoldable pub create_fact :
    Str → FactFields → List Project → Str → Narrative → Result Error (StoryFact × Narrative)
create_fact project_id f projects now n =
    let created = new_fact project_id f n in
    do
      validate_fact f
      if exists project_id projects then ok tt else err integrity_error
      n' ←
          derive_knowledge created (codes "Knowledge assigned") now
            (record n { facts = n.facts ++ created ∷ [] })
      ok (created, record_revision (fact created) (codes "Created fact") now n')
