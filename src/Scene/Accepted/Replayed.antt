-- ===== src/Scene/Accepted/Replayed.antt =====
-- The read of the contracts of accepted proposals (`replayed` in
-- backend/app/data/transactions/scene_compile.py).
use mathlib.Core.Option.{some-injective}
use mathlib.Core.Path.{subst}
use ai_writing.Common.{
  ◌≡◌, ◌≢◌, ◌⊎◌, sym, ap, ◌∙◌, true, false, some, List, [], ◌∷◌, map, Str, is_empty, contains,
  list_eq, nat_eq, arith, inl, inr, Bool-cases, Option-cases, All, All-map,
}
use ai_writing.Common.Results.{ok, >>=-eq-ok, ok_injective, err-ne-ok}
use ai_writing.Sql.{select}
use ai_writing.Scene
use ai_writing.Scene.{SceneContract}
use ai_writing.Scene.Accepted.Contracts.{IsThere, get-id}
use ai_writing.Scene.Accepted.Replay.{Answers}
use ai_writing.Scene.Proposals.{SceneProposal, get_proposal}
use ai_writing.Scene.Compile.{Store, read_all, present, replayed}

abbrev pub ids_of : List SceneContract → List Str
ids_of = map (λ (c : SceneContract). c.id)

module _ (project_id : Str) (t : List SceneContract) where
  -- What the read does with its first proposal.
  replayed_head :
      (q : SceneProposal) (qs : List SceneProposal)
      → (replayed project_id (q ∷ qs) t ≡ replayed project_id qs t
          × ((d : SceneContract)
              → is_empty q.applied_scene_id ≡ false
              → Scene.get project_id q.applied_scene_id t ≢ some d))
        ⊎ ((d : SceneContract) × (Scene.get project_id q.applied_scene_id t ≡ some d)
            × (is_empty q.applied_scene_id ≡ false)
            × (replayed project_id (q ∷ qs) t ≡ d ∷ replayed project_id qs t))
  unfolding replayed select present
  replayed_head q qs = elim (Bool-cases (is_empty q.applied_scene_id)) [
    | inl e ↦ inl (ground arith, λ d f. absurd cc)
    | inr e ↦ elim (Option-cases (Scene.get project_id q.applied_scene_id t)) [
      | inl g ↦ inl (ground (arith, e, g), λ d f h. ground (arith, g, h))
      | inr (d, g) ↦ inr (d, g, e, ground (arith, e, g))
    ]
  ]

  -- What holds of the contract that each proposal records holds of those that are read.
  pub replayed-All :
      (P : SceneContract → Type 0) (qs : List SceneProposal)
      → All
          (λ (q : SceneProposal).
            is_empty q.applied_scene_id ≡ false
            → (d : SceneContract) → Scene.get project_id q.applied_scene_id t ≡ some d
            → P d)
          qs
      → All P (replayed project_id qs t)
  unfolding replayed select present
  replayed-All P [] h = tt
  replayed-All P (q ∷ qs) h = elim (replayed_head q qs) [
    | inl (same, miss) ↦ subst (All P) (sym same) (replayed-All P qs (h.1))
    | inr (d, g, e, grown) ↦ subst (All P) (sym grown) (h.0 e d g, replayed-All P qs (h.1))
  ]

  -- The contracts that are read are the rows of the table.
  pub replayed-rows :
      (qs : List SceneProposal)
      → All (λ (c : SceneContract). Scene.get project_id c.id t ≡ some c) (replayed project_id qs t)
  unfolding replayed select present
  replayed-rows [] = tt
  replayed-rows (q ∷ qs) = elim (replayed_head q qs) [
    | inl (same, miss) ↦ subst (All _) (sym same) (replayed-rows qs)
    | inr (d, g, e, grown) ↦ subst (All _) (sym grown) (
      ap (λ i. Scene.get project_id i t) (get-id project_id q.applied_scene_id t g) ∙ g,
      replayed-rows qs,
    )
  ]

  pub replayed_more :
      (q : SceneProposal) (qs : List SceneProposal) (id : Str)
      → contains (ids_of (replayed project_id qs t)) id ≡ true
      → contains (ids_of (replayed project_id (q ∷ qs) t)) id ≡ true
  replayed_more q qs id h = elim (replayed_head q qs) [
    | inl (same, miss) ↦ rw same h
    | inr (d, g, e, grown) ↦ rw grown (ground arith)
  ]

  pub replayed_own :
      (q : SceneProposal) (qs : List SceneProposal)
      → is_empty q.applied_scene_id ≡ false
      → IsThere project_id t q.applied_scene_id
      → contains (ids_of (replayed project_id (q ∷ qs) t)) q.applied_scene_id ≡ true
  replayed_own q qs filled (d, g) = elim (replayed_head q qs) [
    | inl (same, miss) ↦ absurd (miss d filled g)
    | inr (d', g', e, grown) ↦ rw grown (ground (arith, get-id project_id q.applied_scene_id t g'))
  ]

module _ (project_id : Str) (s : Store) where
  -- The contracts of a batch that is read back are among those that are read for it.
  pub replayed-Answers :
      (ps qs : List SceneProposal)
      → read_all project_id (map (λ (p : SceneProposal). p.id) ps) s.proposals ≡ ok qs
      → All
          (λ (p : SceneProposal).
            Answers project_id s
              (λ id. contains (ids_of (replayed project_id qs s.scenes)) id ≡ true)
              p.id)
          ps
  unfolding read_all
  replayed-Answers [] qs h = tt
  replayed-Answers (p ∷ ps) qs h = elim (Option-cases (get_proposal project_id p.id s.proposals)) [
    | inl e ↦ absurd (err-ne-ok (rw (e, read_all) at h))
    | inr (q, e) ↦
        let (others, rest, done) =
          >>=-eq-ok (read_all project_id (map (λ (p : SceneProposal). p.id) ps) s.proposals) _
            (rw (e, read_all) at h) in
        subst
          (λ (l : List SceneProposal).
            All
              (λ (p : SceneProposal).
                Answers project_id s
                  (λ id. contains (ids_of (replayed project_id l s.scenes)) id ≡ true) p.id)
              (p ∷ ps))
          (ok_injective done)
          (
            λ r found filled there.
                subst
                  (λ (v : SceneProposal).
                    is_empty v.applied_scene_id ≡ false
                    → IsThere project_id s.scenes v.applied_scene_id
                    → contains (ids_of (replayed project_id (q ∷ others) s.scenes))
                        v.applied_scene_id
                      ≡ true)
                  (some-injective q _ (sym e ∙ found)) (replayed_own project_id s.scenes q others)
                  filled there,
            All-map ps
                (λ (p : SceneProposal) answers r found filled there.
                  replayed_more project_id s.scenes q others r.applied_scene_id
                    (answers r found filled there))
                (replayed-Answers ps others rest),
          )
  ]
