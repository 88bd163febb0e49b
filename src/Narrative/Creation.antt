-- ===== src/Narrative/Creation.antt =====
-- Where the tests pass, knowledge is written and a fact is created.
use ai_writing.Common.{
  ℕ, ◌≡◌, refl, ap, ◌∙◌, true, false, ◌||◌, Option, none, some, List, [], ◌∷◌, ◌++◌, Str, ◌==◌,
  codes, list_eq, nat_eq, option_eq, arith, inl, inr, Bool-cases, ==_refl, map,
}
use ai_writing.Common.Results.{ok, err-ne-ok}
use ai_writing.Data.RecordId.Fresh.{make_record_id_fresh}
use ai_writing.Projects.{Project, exists}
use ai_writing.Sql.{select_one, update, rowcount}
use ai_writing.Sql.Laws.{
  rowcount_absent, rowcount_zero, rowcount_pos, select_one-append_new, select_one_zero, rowcount-le,
}
use ai_writing.Narrative.{
  StoryFact, FactFields, KnowledgeState, KnowledgeFields, Narrative, reader_knowledge,
  fact_status_eq, fact, knowledge, validate_fact, validate_visible, ends_before, is_after, is_blank,
  validate_position, validate_knowledge, validate_status, scope_eq, Scope, world_truth,
  character_knowledge,
}
use ai_writing.Narrative.Facts.{
  is_fact, is_known, get_fact, record_revision, record_previous, upsert_state, sync_scope,
  sync_character, write_knowledge, next_state, set_state, previous_state, set_on_fact,
  set_knowledge_state, truth_of, reader_of, set_reader, derive_knowledge, new_fact, create_fact,
}
use ai_writing.Narrative.Derived.{set_knowledge_state-Derives, derive_knowledge-Derives}
use ai_writing.Narrative.Corrections.{facts-record_revision}

states-record_revision :
    (k : KnowledgeState) (reason now : Str) (n : Narrative)
    → (record_revision (knowledge k) reason now n).states ≡ n.states
unfolding record_revision
states-record_revision k reason now n = ground arith

states-record_previous :
    (o : Option KnowledgeState) (now : Str) (n : Narrative)
    → (record_previous o now n).states ≡ n.states
states-record_previous none now n = refl
states-record_previous (some s) now n = states-record_revision s _ now n

-- The row that `set_knowledge_state` writes never breaks a constraint of the table.
upsert_state_total :
    (f : StoryFact) (k : KnowledgeFields) (now : Str) (n : Narrative) (o : Option KnowledgeState)
    → previous_state f.project_id f.id k n ≡ o
    → (t : List KnowledgeState) × (upsert_state (next_state f k o now n) n.states ≡ ok t)
unfolding upsert_state next_state
upsert_state_total f k now n none e =
    let s = next_state f k none now n in
    let fresh : rowcount (λ r. r.id == s.id) n.states ≡ 0 =
      rowcount_absent (λ (s : KnowledgeState). s.id) s.id n.states
        (make_record_id_fresh _ (map (λ (s : KnowledgeState). s.id) n.states)) in
    let unknown : rowcount (is_known f.project_id f.id k.scope k.character) n.states ≡ 0 =
      rowcount_zero (is_known f.project_id f.id k.scope k.character) n.states e in
    (n.states ++ s ∷ [], ground (arith, fresh, unknown))
upsert_state_total f k now n (some p) e =
    let s = next_state f k (some p) now n in
    (
      update (λ r. r.id == s.id) (set_state s) n.states,
      ground (
        arith,
        rowcount_pos (λ (r : KnowledgeState). r.id == p.id)
            (is_known f.project_id f.id k.scope k.character) n.states e (==_refl p.id),
      ),
    )

sync_scope_total :
    (scope : Scope) (s : KnowledgeState) (reason now : Str) (n : Narrative)
    → (n' : Narrative) × (sync_scope scope s reason false now n ≡ ok n')
unfolding sync_scope
sync_scope_total world_truth s reason now n = (n, refl)
sync_scope_total reader_knowledge s reason now n = (n, refl)
sync_scope_total character_knowledge s reason now n =
    (record n { characters = sync_character s n.characters }, refl)

module _ (f : StoryFact) (k : KnowledgeFields) (reason now : Str) (n : Narrative)
    (valid : validate_knowledge f.fields k ≡ ok tt) where
  abbrev previous : Option KnowledgeState
  previous = previous_state f.project_id f.id k n

  abbrev written : KnowledgeState
  written = next_state f k previous now n

  write_knowledge_total :
      (n' : Narrative) × (write_knowledge written reason previous false now n ≡ ok n')
  unfolding write_knowledge
  write_knowledge_total =
      let (t, up) = upsert_state_total f k now n previous refl in
      let n1 = record_previous previous now n in
      let (n', sync) =
        sync_scope_total written.fields.scope written reason now
          (record_revision (knowledge written) reason now (record n1 { states = t })) in
      (n', rw (states-record_previous previous now n, up) sync)

  set_on_fact_total :
      (r : KnowledgeState × Narrative) × (set_on_fact k reason false now (some f) n ≡ ok r)
  unfolding set_on_fact
  set_on_fact_total = let (n', w) = write_knowledge_total in ((written, n'), rw (valid, w) refl)

  -- Knowledge that passes the tests on a fact that is there is written.
  pub set_knowledge_state_total :
      get_fact f.project_id f.id n ≡ some f
      → (r : KnowledgeState × Narrative) × (set_knowledge_state f.project_id f.id k reason false now
            n
          ≡ ok r)
  unfolding set_knowledge_state
  set_knowledge_state_total there = let (r, set) = set_on_fact_total in (r, rw there set)

-- What `validate_fact` has checked.
fact_interval :
    (f : FactFields)
    → validate_fact f ≡ ok tt
    → (ends_before f.valid_to_scene f.valid_from_scene ≡ false)
      × (validate_visible f f.reader_visible_from ≡ ok tt)
unfolding validate_fact
fact_interval f h =
    elim (Bool-cases (is_blank f.subject || is_blank f.predicate || is_blank f.value)) [
      | inl blank ↦ absurd (err-ne-ok (rw blank at h))
      | inr named ↦ elim (Bool-cases (ends_before f.valid_to_scene f.valid_from_scene)) [
        | inl e ↦ absurd (err-ne-ok (rw e at (rw named at h)))
        | inr e ↦ (e, rw e at (rw named at h))
      ]
    ]

is_after-ends_before :
    (o : Option ℕ) (start : ℕ) → ends_before o start ≡ false → is_after start o ≡ false
is_after-ends_before none start h = refl
is_after-ends_before (some end) start h = h

-- World truth agrees with a fact that is valid.
truth_valid :
    (f : StoryFact)
    → validate_fact f.fields ≡ ok tt
    → validate_knowledge f.fields (truth_of f) ≡ ok tt
unfolding validate_knowledge validate_position validate_status
truth_valid f h = ground (
  arith,
  is_after-ends_before f.fields.valid_to_scene f.fields.valid_from_scene
      ((fact_interval f.fields h).0),
)

-- So does the position of the reader.
reader_valid :
    (f : StoryFact) (position : ℕ)
    → validate_fact f.fields ≡ ok tt
    → f.fields.reader_visible_from ≡ some position
    → validate_knowledge f.fields (reader_of f position) ≡ ok tt
unfolding validate_knowledge validate_position validate_status
reader_valid f position h e =
    let visible : validate_position f.fields position ≡ ok tt =
      rw e at ((fact_interval f.fields h).1) in
    ground (arith, visible)

module _ (f : StoryFact) (reason now : Str) (valid : validate_fact f.fields ≡ ok tt) where
  set_reader_total :
      (o : Option ℕ) (n : Narrative)
      → f.fields.reader_visible_from ≡ o
      → get_fact f.project_id f.id n ≡ some f
      → (n' : Narrative) × (set_reader f o reason now n ≡ ok n')
  unfolding set_reader
  set_reader_total none n e there = (n, refl)
  set_reader_total (some position) n e there =
      let (r, set) =
        set_knowledge_state_total f (reader_of f position) reason now n
          (reader_valid f position valid e) there in
      (r.1, rw set refl)

  -- Knowledge follows from a valid fact without an error.
  pub derive_knowledge_total :
      (n : Narrative)
      → get_fact f.project_id f.id n ≡ some f
      → (n' : Narrative) × (derive_knowledge f reason now n ≡ ok n')
  unfolding derive_knowledge get_fact
  derive_knowledge_total n there =
      let (r, set) =
        set_knowledge_state_total f (truth_of f) reason now n (truth_valid f valid) there in
      let d = set_knowledge_state-Derives f.project_id f.id (truth_of f) reason now n set in
      let (n', done) =
        set_reader_total f.fields.reader_visible_from (r.1) refl
          (ap (select_one (is_fact f.project_id f.id)) d.facts ∙ there) in
      (n', rw set done)

-- The creation of a fact of a project that is there, whose fields pass the validation, never
-- raises: it returns the fact with these fields under an id that was not there, and the fact is
-- read back.
pub create_fact_lem :
    (project_id : Str) (f : FactFields) (projects : List Project) (now : Str) (n : Narrative)
    → validate_fact f ≡ ok tt
    → exists project_id projects ≡ true
    → (r : StoryFact × Narrative) × (create_fact project_id f projects now n ≡ ok r)
      × (r.0.fields ≡ f)
      × (get_fact project_id r.0.id r.1 ≡ some (r.0))
      × (get_fact project_id r.0.id n ≡ none)
unfolding create_fact new_fact get_fact
create_fact_lem project_id f projects now n valid known =
    let created = new_fact project_id f n in
    let unused =
      rowcount_absent (λ (g : StoryFact). g.id) created.id n.facts
        (make_record_id_fresh _ (map (λ (g : StoryFact). g.id) n.facts)) in
    let new : select_one (is_fact project_id created.id) n.facts ≡ none =
      select_one_zero (is_fact project_id created.id) n.facts (
        omega (
          arith,
          unused,
          rowcount-le (is_fact project_id created.id) (λ (g : StoryFact). g.id == created.id)
              n.facts (λ g h. ground arith),
        )) in
    let start : Narrative = record n { facts = n.facts ++ created ∷ [] } in
    let there : select_one (is_fact project_id created.id) (n.facts ++ created ∷ [])
        ≡ some created =
      select_one-append_new (is_fact project_id created.id) n.facts created new (ground arith) in
    let (n', done) =
      derive_knowledge_total created (codes "Knowledge assigned") now valid start there in
    (
      (created, record_revision (fact created) (codes "Created fact") now n'),
      rw (valid, known, done) refl,
      refl,
      ap (select_one (is_fact project_id created.id)) (
            facts-record_revision (fact created) (codes "Created fact") now n'
            ∙ (derive_knowledge-Derives created (codes "Knowledge assigned") now start done).facts)
          ∙ there,
      new,
    )
