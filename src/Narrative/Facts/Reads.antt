-- ===== src/Narrative/Facts/Reads.antt =====
-- The queries of `NarrativeRepository` on facts and knowledge: what is true, what the reader knows
-- and what a character knows at a scene (backend/app/data/repositories/narrative.py).
use ai_writing.Common.{
  ℕ, Bool, true, ◌&&◌, ◌||◌, Option, none, some, List, [], ◌∷◌, ◌++◌, Str, str_lt, ltb, leb, ◌==◌,
  list_eq, nat_eq,
}
use ai_writing.Sql.{select, order_by}
use ai_writing.Narrative.{
  confirmed, fact_status_eq, Scope, reader_knowledge, character_knowledge, scope_eq, StoryFact,
  KnowledgeState, Narrative, nocase,
}
use ai_writing.Narrative.Facts.{scope_name}

-- One key of an ORDER BY clause, and what decides where it is the same.
abbrev pub by_key : Str → Str → Bool → Bool
by_key a b rest = str_lt a b || (a == b && rest)

abbrev pub by_number : ℕ → ℕ → Bool → Bool
by_number a b rest = ltb a b || (a == b && rest)

-- `ORDER BY valid_from_scene, subject, predicate, id`
unfoldable pub in_listing : StoryFact → StoryFact → Bool
in_listing a b = by_number a.fields.valid_from_scene b.fields.valid_from_scene (
    by_key a.fields.subject b.fields.subject
      (by_key a.fields.predicate b.fields.predicate (str_lt a.id b.id)))

-- `ORDER BY subject, predicate, valid_from_scene DESC, id`
unfoldable pub in_state : StoryFact → StoryFact → Bool
in_state a b = by_key a.fields.subject b.fields.subject (
    by_key a.fields.predicate b.fields.predicate
      (by_number b.fields.valid_from_scene a.fields.valid_from_scene (str_lt a.id b.id)))

unfoldable pub list_facts : Str → Narrative → List StoryFact
list_facts project_id n = order_by in_listing (select (λ f. f.project_id == project_id) n.facts)

-- `valid_to IS NULL OR valid_to >= ?`
abbrev pub lasts_to : Option ℕ → ℕ → Bool
lasts_to none position = true
lasts_to (some end) position = leb position end

-- The conditions on the fact that the three queries share.
abbrev pub holds_at : Str → ℕ → StoryFact → Bool
holds_at project_id position f =
    f.project_id == project_id
    && f.fields.status == confirmed
    && leb f.fields.valid_from_scene position
    && lasts_to f.fields.valid_to_scene position

unfoldable pub facts_at : Str → ℕ → Narrative → List StoryFact
facts_at project_id position n = order_by in_state (select (holds_at project_id position) n.facts)

-- `story_facts f JOIN knowledge_states k ON …`: a row for each state that fits the fact.
unfoldable pub repeated : StoryFact → List KnowledgeState → List StoryFact
repeated f [] = []
repeated f (s ∷ t) = f ∷ repeated f t

unfoldable pub join_states :
    (StoryFact → KnowledgeState → Bool) → List KnowledgeState → List StoryFact → List StoryFact
join_states p t [] = []
join_states p t (f ∷ facts) = repeated f (select (p f) t) ++ join_states p t facts

-- `ON k.project_id = f.project_id AND k.fact_id = f.id`, and what is asked of the state.
abbrev pub is_about : Scope → ℕ → StoryFact → KnowledgeState → Bool
is_about scope position f s =
    s.project_id == f.project_id
    && s.fact_id == f.id
    && s.fields.scope == scope
    && leb s.fields.known_from_scene position
    && s.fields.status == confirmed

unfoldable pub reader_facts_at : Str → ℕ → Narrative → List StoryFact
reader_facts_at project_id position n = order_by in_state (
    join_states (λ f s. holds_at project_id position f && is_about reader_knowledge position f s)
      n.states n.facts)

unfoldable pub character_facts_at : Str → Str → ℕ → Narrative → List StoryFact
character_facts_at project_id character position n = order_by in_state (
    join_states
      (λ f s.
        holds_at project_id position f
        && (is_about character_knowledge position f s
            && nocase s.fields.character == nocase character))
      n.states n.facts)

-- `ORDER BY scope, lower(character), known_from_scene, id`
unfoldable pub by_scope : KnowledgeState → KnowledgeState → Bool
by_scope a b = by_key (scope_name a.fields.scope) (scope_name b.fields.scope) (
    by_key (nocase a.fields.character) (nocase b.fields.character)
      (by_number a.fields.known_from_scene b.fields.known_from_scene (str_lt a.id b.id)))

unfoldable pub list_knowledge_states : Str → Str → Narrative → List KnowledgeState
list_knowledge_states project_id fact_id n =
    order_by by_scope (select (λ s. s.project_id == project_id && s.fact_id == fact_id) n.states)
