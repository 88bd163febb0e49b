-- ===== src/Narrative/ReaderSync.antt =====
-- The fact follows the author's change of what the reader knows.
use mathlib.Core.Path.{subst}
use ai_writing.Common.{
  ℕ, ◌≡◌, refl, ap, ◌∙◌, true, Option, none, some, List, Str, ◌==◌, codes, list_eq, nat_eq,
  option_eq, if◌then◌else◌, arith, inl, inr, Bool-cases, Option-cases,
}
use ai_writing.Common.Results.{ok, >>=-eq-ok, ok_injective, err-ne-ok}
use ai_writing.Sql.{select_one, update}
use ai_writing.Sql.Laws.{select_one-update, select_one_sound}
use ai_writing.Narrative.{
  StoryFact, KnowledgeState, KnowledgeFields, Narrative, reader_knowledge, confirmed,
  fact_status_eq, fact, knowledge, Scope, validate_knowledge,
}
use ai_writing.Narrative.Facts.{
  is_fact, get_fact, record_revision, record_previous, upsert_state, sync_scope, visible_from,
  shown, sync_fact, set_visible, write_visible, write_knowledge, next_state, previous_state,
  set_on_fact, set_knowledge_state,
}
use ai_writing.Narrative.Derived.{record_previous-Derives, record_revision-Derives}
use ai_writing.Narrative.Corrections.{facts-record_revision}

get_fact-key :
    (project_id id : Str) (n : Narrative) {f : StoryFact}
    → get_fact project_id id n ≡ some f
    → (f.project_id ≡ project_id) × (f.id ≡ id)
unfolding get_fact
get_fact-key project_id id n h = ground (arith, select_one_sound (is_fact project_id id) n.facts h)

-- The fact `f` as it is read in `n'`: the reader's position is that of the state, and the rest is
-- as before.
abbrev pub IsSynced : StoryFact → Option ℕ → Narrative → Type 0
IsSynced f visible n' =
    (g : StoryFact) × (get_fact f.project_id f.id n' ≡ some g)
    × (g.fields ≡ record (f.fields) { reader_visible_from = visible })

get_fact-write_visible :
    (f : StoryFact) (visible : Option ℕ) (reason now : Str) (n : Narrative)
    → get_fact f.project_id f.id n ≡ some f
    → get_fact f.project_id f.id (write_visible f (shown visible now f) reason now n)
      ≡ some (shown visible now f)
unfolding write_visible get_fact
get_fact-write_visible f visible reason now n h =
    let new = shown visible now f in
    let n1 = record_revision (fact f) (codes "Original baseline") now n in
    let n2 : Narrative = record n1 {
      facts = update (is_fact f.project_id f.id) (set_visible new) n1.facts;
    } in
    ap (select_one (is_fact f.project_id f.id)) (facts-record_revision (fact new) reason now n2)
    ∙ ground (
      arith,
      facts-record_revision (fact f) (codes "Original baseline") now n,
      select_one-update (is_fact f.project_id f.id) (is_fact f.project_id f.id) (set_visible new)
          n.facts (λ f. refl),
      select_one_sound (is_fact f.project_id f.id) n.facts h,
    )

sync_fact-IsSynced :
    (s : KnowledgeState) (reason now : Str) (f : StoryFact) (n : Narrative) {n' : Narrative}
    → get_fact f.project_id f.id n ≡ some f
    → sync_fact s reason now (some f) n ≡ ok n'
    → IsSynced f (visible_from s) n'
unfolding sync_fact
sync_fact-IsSynced s reason now f n h done =
    elim (Bool-cases (f.fields.reader_visible_from == visible_from s)) [
      | inl e ↦
          subst (IsSynced f (visible_from s)) (ok_injective (rw e at done)) (f, h, ground arith)
      | inr e ↦ subst (IsSynced f (visible_from s)) (ok_injective (rw e at done)) (
        shown (visible_from s) now f,
        get_fact-write_visible f (visible_from s) reason now n h,
        refl,
      )
    ]

module _ (k : KnowledgeFields) (reason now : Str) (f : StoryFact) (n : Narrative)
    (reader : k.scope ≡ reader_knowledge) where
  -- The state that is written.
  abbrev state : KnowledgeState
  state = next_state f k (previous_state f.project_id f.id k n) now n

  -- The tables as the branch of the reader's knowledge finds them.
  abbrev before : List KnowledgeState → Narrative
  before states =
      record_revision (knowledge state) reason now
        (record (record_previous (previous_state f.project_id f.id k n) now n) { states = states })

  get_fact-before :
      (states : List KnowledgeState)
      → get_fact f.project_id f.id n ≡ some f
      → get_fact f.project_id f.id (before states) ≡ some f
  unfolding get_fact
  get_fact-before states h =
      ap (select_one (is_fact f.project_id f.id)) (
        (record_revision-Derives state reason now
          (record (record_previous (previous_state f.project_id f.id k n) now n) {
            states = states;
          })).facts
        ∙ (record_previous-Derives (previous_state f.project_id f.id k n) now n).facts)
      ∙ h

  set_on_fact-IsSynced :
      {r : KnowledgeState × Narrative}
      → get_fact f.project_id f.id n ≡ some f
      → set_on_fact k reason true now (some f) n ≡ ok r
      → IsSynced f (if k.status == confirmed then some k.known_from_scene else none) r.1
  unfolding set_on_fact write_knowledge next_state sync_scope
  set_on_fact-IsSynced h done =
      let previous = previous_state f.project_id f.id k n in
      let visible = if k.status == confirmed then some k.known_from_scene else none in
      let (u, valid, rest) = >>=-eq-ok (validate_knowledge f.fields k) _ done in
      let (m, w, e) = >>=-eq-ok (write_knowledge state reason previous true now n) _ rest in
      let (states, up, last) =
        >>=-eq-ok (upsert_state state (record_previous previous now n).states) _ w in
      let synced : sync_fact state reason now (get_fact f.project_id f.id (before states))
            (before states)
          ≡ ok m =
        subst (λ (sc : Scope). sync_scope sc state reason true now (before states) ≡ ok m) reader
          last in
      subst (λ (r : KnowledgeState × Narrative). IsSynced f visible (r.1)) (ok_injective e)
        (sync_fact-IsSynced state reason now f (before states) (get_fact-before states h)
          (rw (get_fact-before states h) at synced))

-- A state of the reader's knowledge that is set without an error leaves the fact with its fields,
-- but for the scene from which the reader knows it, which is that of the state where the state is
-- confirmed and none otherwise.
pub set_reader_knowledge_lem :
    (project_id fact_id : Str) (k : KnowledgeFields) (reason now : Str) (n : Narrative)
    {r : KnowledgeState × Narrative}
    → k.scope ≡ reader_knowledge
    → set_knowledge_state project_id fact_id k reason true now n ≡ ok r
    → (f : StoryFact) × (g : StoryFact) × (get_fact project_id fact_id n ≡ some f)
      × (get_fact project_id fact_id (r.1) ≡ some g)
      × (g.fields ≡ record (f.fields) {
        reader_visible_from = if k.status == confirmed then some k.known_from_scene else none;
      })
unfolding set_knowledge_state set_on_fact
set_reader_knowledge_lem project_id fact_id k reason now n {r} reader done =
    elim (Option-cases (get_fact project_id fact_id n)) [
      | inl missing ↦ absurd (err-ne-ok (rw missing at done))
      | inr (f, there) ↦
          let key = get_fact-key project_id fact_id n there in
          let there' : get_fact f.project_id f.id n ≡ some f = ground (arith, key) in
          let (g, back, fields) =
            set_on_fact-IsSynced k reason now f n reader there' (rw there at done) in
          (f, g, there, ground (arith, key, back), fields)
    ]
