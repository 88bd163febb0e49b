-- ===== src/Narrative.antt =====
-- The narrative tables: the classes of backend/app/domain_models/narrative.py, the rows that
-- backend/app/data/repositories/narrative.py and narrative_maintenance.py keep, and the tests on a
-- fact and on a state of knowledge. An object arrives as its class has made it, with texts stripped.
pub mod Facts
pub mod Maintenance
pub mod Derived
pub mod Corrections
pub mod Knowledge
pub mod ReaderSync
pub mod Creation
pub mod Relations
use ai_writing.Common.{
  ℕ, Bool, true, false, ◌&&◌, ◌||◌, not, Option, none, some, List, [], ◌∷◌, map, Str, codes, ltb,
  leb, is_empty, ◌==◌, list_eq, nat_eq, if◌then◌else◌, Eq, ◌+◌,
}
use ai_writing.Canon.{strip}
use ai_writing.Common.Results.{Result, ok, err, ◌>>=◌, ◌>>◌}
use ai_writing.Data.Errors.{Error, value_error}

pub data FactStatus : Type 0 where
  planned confirmed superseded retracted : FactStatus

unfoldable pub FactStatus-discrete : Discrete FactStatus
FactStatus-discrete = hlevel

instance abbrev pub fact_status_eq : Eq FactStatus
fact_status_eq = record { dec = FactStatus-discrete }

pub data Scope : Type 0 where
  world_truth reader_knowledge character_knowledge : Scope

unfoldable pub Scope-discrete : Discrete Scope
Scope-discrete = hlevel

instance abbrev pub scope_eq : Eq Scope
scope_eq = record { dec = Scope-discrete }

-- `StoryFactCreate`
pub record FactFields : Type 0 where
  pub subject : Str
  pub predicate : Str
  pub value : Str
  pub valid_from_scene : ℕ
  pub valid_to_scene : Option ℕ
  pub reader_visible_from : Option ℕ
  pub source_ref : Str
  pub status : FactStatus

pub record StoryFact : Type 0 where
  pub id : Str
  pub project_id : Str
  pub fields : FactFields
  pub version : ℕ
  pub updated_at : Str

-- `KnowledgeStateCreate`
pub record KnowledgeFields : Type 0 where
  pub scope : Scope
  pub character : Str
  pub known_from_scene : ℕ
  pub source_ref : Str
  pub status : FactStatus

pub record KnowledgeState : Type 0 where
  pub id : Str
  pub project_id : Str
  pub fact_id : Str
  pub fields : KnowledgeFields
  pub version : ℕ
  pub updated_at : Str

-- A row of `story_fact_character_knowledge`.
pub record CharacterKnowledge : Type 0 where
  pub project_id : Str
  pub fact_id : Str
  pub character : Str
  pub known_from_scene : ℕ

-- `StoryFact | KnowledgeState`, which a revision holds.
pub data Recorded : Type 0 where
  fact : StoryFact → Recorded
  knowledge : KnowledgeState → Recorded

-- A row of `narrative_revisions`.
pub record NarrativeRevision : Type 0 where
  pub id : Str
  pub project_id : Str
  pub fact_id : Str
  pub knowledge_state_id : Option Str
  pub version : ℕ
  pub reason : Str
  pub created_at : Str
  pub recorded : Recorded

-- The tables of the repository, and the names that `uuid4` gives, in order.
pub record Narrative : Type 0 where
  pub facts : List StoryFact
  pub states : List KnowledgeState
  pub characters : List CharacterKnowledge
  pub revisions : List NarrativeRevision
  pub uuid : ℕ → Str

-- `COLLATE NOCASE`, and `lower` of SQLite: the letters A to Z alone are folded.
abbrev pub nocase : Str → Str
nocase s = map (λ c. if leb b'A' c && leb c b'Z' then c + 32 else c) s

-- `not value.strip()`
abbrev pub is_blank : Str → Bool
is_blank s = is_empty (strip s)

-- `bound is not None and position > bound`
abbrev pub is_after : ℕ → Option ℕ → Bool
is_after position none = false
is_after position (some bound) = ltb bound position

unfoldable pub validate_position : FactFields → ℕ → Result Error (Unit {0})
validate_position f position =
    if ltb position f.valid_from_scene || is_after position f.valid_to_scene
    then err (value_error (codes "Knowledge position must be within the fact's validity interval"))
    else ok tt

-- `valid_to is not None and valid_to < valid_from`
abbrev pub ends_before : Option ℕ → ℕ → Bool
ends_before none start = false
ends_before (some end) start = ltb end start

abbrev pub validate_visible : FactFields → Option ℕ → Result Error (Unit {0})
validate_visible f none = ok tt
validate_visible f (some position) = validate_position f position

unfoldable pub validate_fact : FactFields → Result Error (Unit {0})
validate_fact f =
    if is_blank f.subject || is_blank f.predicate || is_blank f.value
    then err (value_error (codes "Fact subject, predicate and value cannot be blank"))
    else if ends_before f.valid_to_scene f.valid_from_scene
    then err (value_error (codes "valid_to_scene cannot be before valid_from_scene"))
    else validate_visible f f.reader_visible_from

-- The later tests of `validate_knowledge`.
unfoldable pub validate_status : FactFields → KnowledgeFields → Result Error (Unit {0})
validate_status f k =
    if k.status == confirmed && not (f.status == confirmed)
    then err (value_error (codes "Knowledge cannot be confirmed until its fact is confirmed"))
    else if k.scope == world_truth
        && (not (k.known_from_scene == f.valid_from_scene) || not (k.status == f.status))
    then err (value_error (codes "World truth knowledge is derived from the fact"))
    else ok tt

unfoldable pub validate_knowledge : FactFields → KnowledgeFields → Result Error (Unit {0})
validate_knowledge f k = do
  if k.status == retracted then ok tt else validate_position f k.known_from_scene
  validate_status f k
