-- ===== src/Scene/Accepted/Origins.antt =====
-- The contracts that a second acceptance of a batch reads are those of the first
-- (backend/app/data/transactions/scene_compile.py).
use mathlib.Core.Option.{some-injective}
use mathlib.Core.Path.{subst}
use ai_writing.Common.{
  ◌≡◌, refl, sym, ap, ◌∙◌, true, false, some, List, [], ◌∷◌, ◌++◌, map, Str, is_empty, contains,
  ◌==◌, list_eq, nat_eq, arith, inl, inr, Bool-cases, Option-cases, All, All-map,
}
use ai_writing.Common.Results.{ok, >>=-eq-ok, ok_injective, err-ne-ok}
use ai_writing.Review.{pending_review, accepted, review_status_eq}
use ai_writing.Sql.{select}
use ai_writing.Scene
use ai_writing.Scene.{SceneContract}
use ai_writing.Scene.Accepted.Batch.{Reads}
use ai_writing.Scene.Accepted.Contracts.{IsThere, get-id}
use ai_writing.Scene.Accepted.Rounds.{Ready, Grows, apply_one-HasScene}
use ai_writing.Scene.Accepted.Replay.{Answers, apply_all-Answers}
use ai_writing.Scene.Accepted.Replayed.{ids_of, replayed_own, replayed_more, replayed-All}
use ai_writing.Scene.Proposals.{SceneProposal, get_proposal}
use ai_writing.Scene.Compile.{
  Store, read_all, is_open, apply_one, apply_all, already_accepted, replayed,
}

contains_left :
    (cs ds : List SceneContract) (id : Str)
    → contains (ids_of cs) id ≡ true
    → contains (ids_of (cs ++ ds)) id ≡ true
contains_left [] ds id h = absurd cc
contains_left (c ∷ cs) ds id h = ground (arith, contains_left cs ds id)

contains_right :
    (cs ds : List SceneContract) (id : Str)
    → contains (ids_of ds) id ≡ true
    → contains (ids_of (cs ++ ds)) id ≡ true
contains_right [] ds id h = h
contains_right (c ∷ cs) ds id h = ground (arith, contains_right cs ds id h)

module _ (project_id : Str) where
  -- The contract that a proposal of the batch records in the end is one that the batch has made.
  abbrev pub IsMade : List SceneContract × Store → SceneProposal → Type 0
  IsMade r p =
      (q : SceneProposal)
      → get_proposal project_id p.id r.1.proposals ≡ some q
      → contains (ids_of r.0) q.applied_scene_id ≡ true

  pub apply_all-IsMade :
      (now : Str) (ps : List SceneProposal) (s : Store) {r : List SceneContract × Store}
      → apply_all project_id now ps s ≡ ok r
      → All (λ (p : SceneProposal). Ready project_id s.proposals p.id) ps
      → All (IsMade r) ps
  unfolding apply_all
  apply_all-IsMade now [] s h ready = tt
  apply_all-IsMade now (p ∷ ps) s h ready =
      let (x, first, h1) = >>=-eq-ok (apply_one project_id now p s) _ h in
      let (y, others, h2) = >>=-eq-ok (apply_all project_id now ps (x.1)) _ h1 in
      let (step, (q, found, done, recorded), there) =
        apply_one-HasScene project_id now p s first (ready.0) in
      let later =
        All-map ps (λ (q : SceneProposal) open_q. step.ready_kept q.id open_q) (ready.1) in
      let (steps, answers) = apply_all-Answers project_id now ps (x.1) others later in
      let end = steps.accepted_same p.id q found done in
      subst (λ (r : List SceneContract × Store). All (IsMade r) (p ∷ ps)) (ok_injective h2)
        (
          λ q' found'.
              let same : q.applied_scene_id ≡ q'.applied_scene_id =
                ap (λ (v : SceneProposal). v.applied_scene_id)
                  (some-injective q _ (sym end ∙ found')) in
              ground (arith, same, recorded),
          All-map ps (λ (p : SceneProposal) made q' found'. ground (arith, made q' found'))
              (apply_all-IsMade now ps (x.1) others later),
        )

  already_accepted_first :
      (p : SceneProposal) (ps : List SceneProposal)
      → (p.status == accepted) ≡ true
      → already_accepted (p ∷ ps) ≡ p ∷ already_accepted ps
  unfolding already_accepted select
  already_accepted_first p ps e = rw e refl

  already_accepted_rest :
      (p : SceneProposal) (ps : List SceneProposal)
      → (p.status == accepted) ≡ false
      → already_accepted (p ∷ ps) ≡ already_accepted ps
  unfolding already_accepted select
  already_accepted_rest p ps e = rw e refl

  -- The contract of an accepted proposal is among those that are read for a list of proposals.
  abbrev pub IsRead : List SceneContract → List SceneProposal → SceneProposal → Type 0
  IsRead t qs p =
      (p.status == accepted) ≡ true
      → is_empty p.applied_scene_id ≡ false
      → IsThere project_id t p.applied_scene_id
      → contains (ids_of (replayed project_id qs t)) p.applied_scene_id ≡ true

  pub accepted-IsRead :
      (t : List SceneContract) (ps : List SceneProposal) → All (IsRead t (already_accepted ps)) ps
  accepted-IsRead t [] = tt
  accepted-IsRead t (p ∷ ps) =
      let As : List SceneProposal → Type 0 = λ qs. All (IsRead t qs) (p ∷ ps) in
      let rest = accepted-IsRead t ps in
      elim (Bool-cases (p.status == accepted)) [
        | inl e ↦ subst As (sym (already_accepted_first p ps e)) (
          λ own filled there. replayed_own project_id t p (already_accepted ps) filled there,
          All-map ps
              (λ (q : SceneProposal) read own filled there.
                replayed_more project_id t p (already_accepted ps) q.applied_scene_id
                  (read own filled there))
              rest,
        )
        | inr e ↦ subst As (sym (already_accepted_rest p ps e)) (λ own. absurd cc, rest)
      ]

  -- Every proposal of the batch records a contract that the first acceptance returns.
  pub batch-Answers :
      (s : Store) (ps : List SceneProposal) (y : List SceneContract × Store)
      (old : List SceneContract)
      → Grows project_id s (y.1)
      → All (Reads project_id s.proposals) ps
      → All (λ (p : SceneProposal). is_open p ≡ true) ps
      → All (λ (p : SceneProposal). (p.status == pending_review) ≡ true → IsMade y p) ps
      → All
          (λ (p : SceneProposal).
            (p.status == accepted) ≡ true
            → is_empty p.applied_scene_id ≡ false
            → IsThere project_id y.1.scenes p.applied_scene_id
            → contains (ids_of old) p.applied_scene_id ≡ true)
          ps
      → All
          (λ (p : SceneProposal).
            Answers project_id (y.1) (λ id. contains (ids_of (y.0 ++ old)) id ≡ true) p.id)
          ps
  batch-Answers s [] y old grows r o m a = tt
  batch-Answers s (p ∷ ps) y old grows r o m a = (
    λ q found filled there. elim (Bool-cases (p.status == pending_review)) [
      | inl e ↦ contains_left (y.0) old q.applied_scene_id (m.0 e q found)
      | inr e ↦
          let kept = grows.accepted_same p.id p (r.0) (ground arith) in
          contains_right (y.0) old q.applied_scene_id (
            subst
              (λ (v : SceneProposal).
                is_empty v.applied_scene_id ≡ false
                → IsThere project_id y.1.scenes v.applied_scene_id
                → contains (ids_of old) v.applied_scene_id ≡ true)
              (some-injective p _ (sym kept ∙ found)) (a.0 (ground arith)) filled there)
    ],
    batch-Answers s ps y old grows (r.1) (o.1) (m.1) (a.1),
  )

  -- What holds of the contracts of a batch holds of those that are read for it.
  read-Answers :
      (s : Store) (P : Str → Type 0) (ps qs : List SceneProposal)
      → read_all project_id (map (λ (p : SceneProposal). p.id) ps) s.proposals ≡ ok qs
      → All (λ (p : SceneProposal). Answers project_id s P p.id) ps
      → All
          (λ (q : SceneProposal).
            is_empty q.applied_scene_id ≡ false
            → (d : SceneContract) → Scene.get project_id q.applied_scene_id s.scenes ≡ some d
            → P d.id)
          qs
  unfolding read_all
  read-Answers s P [] qs h a = subst (All _) (ok_injective h) tt
  read-Answers s P (p ∷ ps) qs h a =
      elim (Option-cases (get_proposal project_id p.id s.proposals)) [
        | inl e ↦ absurd (err-ne-ok (rw (e, read_all) at h))
        | inr (q, e) ↦
            let (others, rest, done) =
              >>=-eq-ok (read_all project_id (map (λ (p : SceneProposal). p.id) ps) s.proposals) _
                (rw (e, read_all) at h) in
            subst (All _) (ok_injective done) (
              λ filled d g.
                  subst P (sym (get-id project_id q.applied_scene_id s.scenes g))
                    (a.0 q e filled (d, g)),
              read-Answers s P ps others rest (a.1),
            )
      ]

  pub replayed_origins :
      (s : Store) (P : Str → Type 0) (ps qs : List SceneProposal)
      → read_all project_id (map (λ (p : SceneProposal). p.id) ps) s.proposals ≡ ok qs
      → All (λ (p : SceneProposal). Answers project_id s P p.id) ps
      → All (λ (c : SceneContract). P c.id) (replayed project_id qs s.scenes)
  replayed_origins s P ps qs h a =
      replayed-All project_id s.scenes (λ c. P c.id) qs (read-Answers s P ps qs h a)
