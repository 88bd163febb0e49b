-- ===== src/Narrative/Maintenance.antt =====
-- The author's corrections of facts and knowledge: `NarrativeMaintenance`
-- (backend/app/data/repositories/narrative_maintenance.py).
use ai_writing.Common.{
  ℕ, ◌+◌, Bool, true, false, ◌&&◌, ◌||◌, Option, none, some, List, [], ◌∷◌, Str, codes, str_lt,
  ◌==◌, list_eq, nat_eq, if◌then◌else◌,
}
use ai_writing.Common.Results.{Result, ok, err, ◌>>=◌, ◌>>◌}
use ai_writing.Data.Errors.{Error, resource_not_found, state_conflict, invalid_operation}
use ai_writing.Sql.{select, update, rowcount, order_by}
use ai_writing.Narrative.{
  FactStatus, planned, retracted, fact_status_eq, world_truth, reader_knowledge, scope_eq,
  FactFields, StoryFact, KnowledgeFields, KnowledgeState, fact, NarrativeRevision, Narrative,
  validate_fact,
}
use ai_writing.Narrative.Facts.{
  is_fact, get_fact, get_knowledge, is_known, record_revision, write_knowledge, set_knowledge_state,
  derive_knowledge,
}
use ai_writing.Narrative.Facts.Reads.{by_key, by_number, list_knowledge_states}

abbrev pub found {ℓ} : {A : Type ℓ} → Str → Option A → Result Error A
found message none = err (resource_not_found message)
found message (some a) = ok a

unfoldable pub require_fact : Str → Str → Narrative → Result Error StoryFact
require_fact project_id fact_id n =
    found (codes "Story fact not found") (get_fact project_id fact_id n)

unfoldable pub require_knowledge : Str → Str → Str → Narrative → Result Error KnowledgeState
require_knowledge project_id fact_id id n = do
  f ← require_fact project_id fact_id n
  found (codes "Knowledge state not found") (get_knowledge project_id fact_id id n)

unfoldable pub check_version : ℕ → ℕ → Result Error (Unit {0})
check_version version expected =
    if version == expected
    then ok tt
    else err (state_conflict (codes "Narrative record changed; reload before correcting it"))

-- The state that a correction of its fact leaves.
abbrev pub withdrawn : FactStatus → Str → KnowledgeState → KnowledgeState
withdrawn status now s = record s {
  fields = record (s.fields) { status = if status == retracted then retracted else planned };
  version = s.version + 1;
  updated_at = now;
}

abbrev pub is_present : Option ℕ → Bool
is_present none = false
is_present (some n) = true

-- `continue`: the states that a correction of their fact does not withdraw.
abbrev pub is_derived : StoryFact → KnowledgeState → Bool
is_derived f s =
    s.fields.scope == world_truth
    || (s.fields.scope == reader_knowledge && is_present f.fields.reader_visible_from)

-- `for state in self.repository.list_knowledge_states(project_id, fact_id)`
unfoldable pub withdraw :
    StoryFact → Str → Str → List KnowledgeState → Narrative → Result Error Narrative
withdraw f reason now [] n = ok n
withdraw f reason now (s ∷ states) n =
    (if is_derived f s
      then ok n
      else write_knowledge (withdrawn f.fields.status now s) reason (some s) false now n)
    >>= withdraw f reason now states

-- `UPDATE story_facts SET …`, all columns of the class and the version.
abbrev pub set_fact : StoryFact → StoryFact → StoryFact
set_fact new f = record f {
  fields = new.fields;
  version = new.version;
  updated_at = new.updated_at;
}

abbrev pub corrected : StoryFact → FactFields → Str → StoryFact
corrected current change now = record current {
  fields = change;
  version = current.version + 1;
  updated_at = now;
}

unfoldable pub correct_found :
    StoryFact → FactFields → Str → Str → Narrative → Result Error (StoryFact × Narrative)
correct_found current change reason now n =
    let updated = corrected current change now in
    let n1 = record_revision (fact current) (codes "Original baseline") now n in
    let n2 = record n1 {
      facts = update (is_fact current.project_id current.id) (set_fact updated) n1.facts;
    } in
    do
      n3 ← withdraw updated reason now (list_knowledge_states current.project_id current.id n2) n2
      n4 ← derive_knowledge updated reason now n3
      ok (updated, record_revision (fact updated) reason now n4)

-- `change.expected_version` and `change.reason` are arguments.
unfoldable pub correct_fact :
    Str → Str → FactFields → ℕ → Str → Str → Narrative → Result Error (StoryFact × Narrative)
correct_fact project_id fact_id change expected reason now n = do
  current ← require_fact project_id fact_id n
  check_version current.version expected
  if change.status == retracted then ok tt else validate_fact change
  correct_found current change reason now n

unfoldable pub retract_fact :
    Str → Str → ℕ → Str → Str → Narrative → Result Error (StoryFact × Narrative)
retract_fact project_id fact_id expected reason now n = do
  current ← require_fact project_id fact_id n
  correct_fact project_id fact_id (record (current.fields) { status = retracted }) expected reason
      now n

abbrev pub derived_error : Error
derived_error = invalid_operation (codes "World truth knowledge is derived from the fact")

unfoldable pub create_knowledge :
    Str → Str → KnowledgeFields → Str → Str → Narrative → Result Error (KnowledgeState × Narrative)
create_knowledge project_id fact_id create reason now n = do
  f ← require_fact project_id fact_id n
  if create.scope == world_truth then err derived_error else ok tt
  if rowcount (is_known project_id fact_id create.scope create.character) n.states == 0
      then set_knowledge_state project_id fact_id create reason true now n
      else err
          (state_conflict (codes "Knowledge state already exists; use its version to correct it"))

-- `casefold` is Python's.
module _ (casefold : Str → Str) where
  abbrev pub same_identity : KnowledgeFields → KnowledgeFields → Bool
  same_identity a b = a.scope == b.scope && casefold a.character == casefold b.character

  unfoldable pub correct_knowledge :
      Str
      → Str
      → Str
      → KnowledgeFields
      → ℕ
      → Str
      → Str
      → Narrative
      → Result Error (KnowledgeState × Narrative)
  correct_knowledge project_id fact_id id change expected reason now n = do
    current ← require_knowledge project_id fact_id id n
    check_version current.version expected
    if current.fields.scope == world_truth then err derived_error else ok tt
    if same_identity change current.fields
        then set_knowledge_state project_id fact_id change reason true now n
        else err
            (invalid_operation (codes "Knowledge scope and character identity cannot be changed"))

  unfoldable pub retract_knowledge :
      Str → Str → Str → ℕ → Str → Str → Narrative → Result Error (KnowledgeState × Narrative)
  retract_knowledge project_id fact_id id expected reason now n = do
    current ← require_knowledge project_id fact_id id n
    correct_knowledge project_id fact_id id (record (current.fields) { status = retracted })
        expected reason now n

-- `ORDER BY created_at, version, id`
unfoldable pub in_history : NarrativeRevision → NarrativeRevision → Bool
in_history a b = by_key a.created_at b.created_at (by_number a.version b.version (str_lt a.id b.id))

unfoldable pub history : Str → Str → Narrative → Result Error (List NarrativeRevision)
history project_id fact_id n = do
  f ← require_fact project_id fact_id n
  ok (
      order_by in_history
        (select (λ r. r.project_id == project_id && r.fact_id == fact_id) n.revisions))
