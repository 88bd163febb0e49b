-- ===== src/Narrative/Knowledge.antt =====
-- What the reader and the characters know is part of what is true, and the reader's state of
-- knowledge agrees with the fact.
use ai_writing.Common.{
  ℕ, ◌≡◌, refl, Bool, false, ◌&&◌, List, [], ◌∷◌, Str, list_eq, nat_eq, option_eq, arith, inl, inr,
  Bool-cases, All, All-append,
}
use ai_writing.Sql.{select, order_by, insert_sorted}
use ai_writing.Narrative.{StoryFact, KnowledgeState, Narrative}
use ai_writing.Narrative.Facts.Reads.{
  holds_at, in_state, facts_at, repeated, join_states, reader_facts_at, character_facts_at,
}

module _ {A : Type 0} (P : A → Type 0) where
  pub All-insert_sorted :
      (before : A → A → Bool) (x : A) (t : List A)
      → P x
      → All P t
      → All P (insert_sorted before x t)
  unfolding insert_sorted
  All-insert_sorted before x [] p h = (p, tt)
  All-insert_sorted before x (y ∷ t) p h = elim (Bool-cases (before y x)) [
    | inl e ↦ rw e (h.0, All-insert_sorted before x t p h.1)
    | inr e ↦ rw e (p, h)
  ]

  pub All-order_by : (before : A → A → Bool) (t : List A) → All P t → All P (order_by before t)
  unfolding order_by
  All-order_by before [] h = tt
  All-order_by before (x ∷ t) h =
      All-insert_sorted before x (order_by before t) h.0 (All-order_by before t h.1)

  -- What holds of a list that was sorted in holds of its members.
  pub insert_sorted-All :
      (before : A → A → Bool) (x : A) (t : List A)
      → All P (insert_sorted before x t)
      → P x × All P t
  unfolding insert_sorted
  insert_sorted-All before x [] h = h
  insert_sorted-All before x (y ∷ t) h = elim (Bool-cases (before y x)) [
    | inl e ↦
        let (p, rest) = insert_sorted-All before x t ((rw e at h).1) in (p, ((rw e at h).0, rest))
    | inr e ↦ rw e at h
  ]

  pub order_by-All : (before : A → A → Bool) (t : List A) → All P (order_by before t) → All P t
  unfolding order_by
  order_by-All before [] h = tt
  order_by-All before (x ∷ t) h =
      let (p, rest) = insert_sorted-All before x (order_by before t) h in
      (p, order_by-All before t rest)

-- Whatever holds of each member of the second list holds of each member of the first.
abbrev pub Within : List StoryFact → List StoryFact → Type 1
Within xs ys = (P : StoryFact → Type 0) → All P ys → All P xs

module _ (P : StoryFact → Type 0) where
  All-repeated : (f : StoryFact) (t : List KnowledgeState) → P f → All P (repeated f t)
  unfolding repeated
  All-repeated f [] p = tt
  All-repeated f (s ∷ t) p = (p, All-repeated f t p)

  -- A fact that fails the test on facts meets no state.
  select_none :
      (q : StoryFact → Bool) (r : KnowledgeState → Bool) (f : StoryFact) (t : List KnowledgeState)
      → q f ≡ false
      → select (λ s. q f && r s) t ≡ []
  unfolding select
  select_none q r f [] e = refl
  select_none q r f (s ∷ t) e = ground (arith, select_none q r f t e)

  All-join_states :
      (q : StoryFact → Bool) (r : StoryFact → KnowledgeState → Bool) (t : List KnowledgeState)
      (facts : List StoryFact)
      → All P (select q facts)
      → All P (join_states (λ f s. q f && r f s) t facts)
  unfolding join_states select repeated
  All-join_states q r t [] h = tt
  All-join_states q r t (f ∷ facts) h = elim (Bool-cases (q f)) [
    | inl e ↦
        All-append P (repeated f (select (λ s. q f && r f s) t)) _
          (All-repeated f (select (λ s. q f && r f s) t) ((rw e at h).0))
          (All-join_states q r t facts ((rw e at h).1))
    | inr e ↦ rw (select_none q (r f) f t e) (All-join_states q r t facts (rw e at h))
  ]

-- Whatever holds of each fact that holds at a position holds of each fact that the reader knows
-- there.
pub reader_facts_at-Within :
    (project_id : Str) (position : ℕ) (n : Narrative)
    → Within (reader_facts_at project_id position n) (facts_at project_id position n)
unfolding reader_facts_at facts_at
reader_facts_at-Within project_id position n P h = All-order_by P in_state _ (
    All-join_states P (holds_at project_id position) _ n.states n.facts
      (order_by-All P in_state _ h))

-- The facts that a character knows at a position are among those that hold there.
character_facts_at-Within :
    (project_id character : Str) (position : ℕ) (n : Narrative)
    → Within (character_facts_at project_id character position n) (facts_at project_id position n)
unfolding character_facts_at facts_at
character_facts_at-Within project_id character position n P h = All-order_by P in_state _ (
    All-join_states P (holds_at project_id position) _ n.states n.facts
      (order_by-All P in_state _ h))
