-- ===== src/Narrative/Derived.antt =====
-- Writes of knowledge that leave the facts alone, and only add revisions of knowledge.
use mathlib.Core.Path.{subst}
use mathlib.Core.List.{append_assoc, append-nil}
use ai_writing.Common.{
  ℕ, ◌≡◌, refl, ap, ◌∙◌, false, Option, none, some, List, [], ◌∷◌, ◌++◌, Str, ◌==◌, list_eq, nat_eq,
  option_eq, option_dec, arith, inl, inr, Bool-cases,
}
use ai_writing.Common.Results.{ok, >>=-eq-ok, ok_injective, err-ne-ok}
use ai_writing.Sql.{rowcount}
use ai_writing.Sql.Laws.{rowcount-append}
use ai_writing.Narrative.{
  Scope, world_truth, reader_knowledge, character_knowledge, StoryFact, KnowledgeFields,
  KnowledgeState, fact, knowledge, NarrativeRevision, Narrative, validate_knowledge,
}
use ai_writing.Narrative.Facts.{
  get_fact, has_revision, new_revision, record_revision, record_previous, upsert_state, sync_scope,
  write_knowledge, next_state, previous_state, set_on_fact, set_knowledge_state, truth_of,
  reader_of, set_reader, derive_knowledge,
}
use ai_writing.Narrative.Maintenance.{is_derived, withdrawn, withdraw}

-- The facts are the same, and the revisions that were added are none of a fact.
pub record Derives (n : Narrative) (n' : Narrative) : Type 0 where
  pub facts : n'.facts ≡ n.facts
  pub added : List NarrativeRevision
  pub grown : n'.revisions ≡ n.revisions ++ added
  pub apart : (f : StoryFact) → rowcount (has_revision (fact f)) added ≡ 0

pub Derives-refl : (n : Narrative) → Derives n n
unfolding rowcount
Derives-refl n = record { facts = refl; added = []; grown = rw append-nil; apart = λ f. refl }

pub Derives-trans : {n m l : Narrative} → Derives n m → Derives m l → Derives n l
Derives-trans {n} {m} {l} d e = record {
  facts = e.facts ∙ d.facts;
  added = d.added ++ e.added;
  grown =
      e.grown
      ∙ ap (λ (r : List NarrativeRevision). r ++ e.added) d.grown
      ∙ append_assoc n.revisions d.added e.added;
  apart = λ f.
      omega (arith, d.apart f, e.apart f, rowcount-append (has_revision (fact f)) d.added e.added);
}

pub record_revision-Derives :
    (s : KnowledgeState) (reason now : Str) (n : Narrative)
    → Derives n (record_revision (knowledge s) reason now n)
unfolding record_revision rowcount option_dec
record_revision-Derives s reason now n =
    elim (Bool-cases (rowcount (has_revision (knowledge s)) n.revisions == 0)) [
      | inl e ↦ rw e (record {
        facts = refl;
        added = new_revision (knowledge s) reason now n ∷ [];
        grown = refl;
        apart = λ f. ground arith;
      })
      | inr e ↦ rw e (Derives-refl n)
    ]

pub record_previous-Derives :
    (o : Option KnowledgeState) (now : Str) (n : Narrative) → Derives n (record_previous o now n)
record_previous-Derives none now n = Derives-refl n
record_previous-Derives (some s) now n = record_revision-Derives s _ now n

Derives-states :
    (n : Narrative) (states : List KnowledgeState) → Derives n (record n { states = states })
unfolding rowcount
Derives-states n states = record {
  facts = refl;
  added = [];
  grown = rw append-nil;
  apart = λ f. refl;
}

sync_scope-Derives :
    (scope : Scope) (s : KnowledgeState) (reason now : Str) (n : Narrative) {n' : Narrative}
    → sync_scope scope s reason false now n ≡ ok n'
    → Derives n n'
unfolding sync_scope rowcount
sync_scope-Derives world_truth s reason now n h =
    subst (Derives n) (ok_injective h) (Derives-refl n)
sync_scope-Derives reader_knowledge s reason now n h =
    subst (Derives n) (ok_injective h) (Derives-refl n)
sync_scope-Derives character_knowledge s reason now n h =
    subst (Derives n) (ok_injective h)
      (record { facts = refl; added = []; grown = rw append-nil; apart = λ f. refl })

-- A write of knowledge that does not synchronise the reader.
pub write_knowledge-Derives :
    (s : KnowledgeState) (reason : Str) (previous : Option KnowledgeState) (now : Str)
    (n : Narrative) {n' : Narrative}
    → write_knowledge s reason previous false now n ≡ ok n'
    → Derives n n'
unfolding write_knowledge
write_knowledge-Derives s reason previous now n h =
    let n1 = record_previous previous now n in
    let (states, up, done) = >>=-eq-ok (upsert_state s n1.states) _ h in
    let n2 : Narrative = record n1 { states = states } in
    Derives-trans (record_previous-Derives previous now n) (
      Derives-trans (Derives-states n1 states) (
        Derives-trans (record_revision-Derives s reason now n2)
          (sync_scope-Derives s.fields.scope s reason now _ done)))

set_on_fact-Derives :
    (k : KnowledgeFields) (reason now : Str) (o : Option StoryFact) (n : Narrative)
    {r : KnowledgeState × Narrative}
    → set_on_fact k reason false now o n ≡ ok r
    → Derives n r.1
unfolding set_on_fact
set_on_fact-Derives k reason now none n h = absurd (err-ne-ok h)
set_on_fact-Derives k reason now (some f) n h =
    let previous = previous_state f.project_id f.id k n in
    let s = next_state f k previous now n in
    let (checked, v, rest) = >>=-eq-ok (validate_knowledge f.fields k) _ h in
    let (m, w, e) = >>=-eq-ok (write_knowledge s reason previous false now n) _ rest in
    subst (λ (r : KnowledgeState × Narrative). Derives n r.1) (ok_injective e)
      (write_knowledge-Derives s reason previous now n w)

pub set_knowledge_state-Derives :
    (project_id fact_id : Str) (k : KnowledgeFields) (reason now : Str) (n : Narrative)
    {r : KnowledgeState × Narrative}
    → set_knowledge_state project_id fact_id k reason false now n ≡ ok r
    → Derives n r.1
unfolding set_knowledge_state
set_knowledge_state-Derives project_id fact_id k reason now n h =
    set_on_fact-Derives k reason now (get_fact project_id fact_id n) n h

set_reader-Derives :
    (f : StoryFact) (o : Option ℕ) (reason now : Str) (n : Narrative) {n' : Narrative}
    → set_reader f o reason now n ≡ ok n'
    → Derives n n'
unfolding set_reader
set_reader-Derives f none reason now n h = subst (Derives n) (ok_injective h) (Derives-refl n)
set_reader-Derives f (some position) reason now n h =
    let (r, set, e) =
      >>=-eq-ok (set_knowledge_state f.project_id f.id (reader_of f position) reason false now n) _
        h in
    subst (Derives n) (ok_injective e)
      (set_knowledge_state-Derives f.project_id f.id (reader_of f position) reason now n set)

pub derive_knowledge-Derives :
    (f : StoryFact) (reason now : Str) (n : Narrative) {n' : Narrative}
    → derive_knowledge f reason now n ≡ ok n'
    → Derives n n'
unfolding derive_knowledge
derive_knowledge-Derives f reason now n h =
    let (r, set, rest) =
      >>=-eq-ok (set_knowledge_state f.project_id f.id (truth_of f) reason false now n) _ h in
    Derives-trans (set_knowledge_state-Derives f.project_id f.id (truth_of f) reason now n set)
      (set_reader-Derives f f.fields.reader_visible_from reason now r.1 rest)

pub withdraw-Derives :
    (f : StoryFact) (reason now : Str) (states : List KnowledgeState) (n : Narrative)
    {n' : Narrative}
    → withdraw f reason now states n ≡ ok n'
    → Derives n n'
unfolding withdraw
withdraw-Derives f reason now [] n h = subst (Derives n) (ok_injective h) (Derives-refl n)
withdraw-Derives f reason now (s ∷ states) n h = elim (Bool-cases (is_derived f s)) [
  | inl kept ↦ withdraw-Derives f reason now states n (rw kept at h)
  | inr written ↦
      let (m, w, rest) =
        >>=-eq-ok (write_knowledge (withdrawn f.fields.status now s) reason (some s) false now n) _
          (rw written at h) in
      Derives-trans
        (write_knowledge-Derives (withdrawn f.fields.status now s) reason (some s) now n w)
        (withdraw-Derives f reason now states m rest)
]
