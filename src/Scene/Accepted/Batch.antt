-- ===== src/Scene/Accepted/Batch.antt =====
-- The proposals of a batch as they are read before and after it
-- (backend/app/data/transactions/scene_compile.py).
use mathlib.Core.Path.{subst}
use ai_writing.Common.{
  ◌≡◌, refl, sym, ap, ap₂, ◌∙◌, true, false, some, List, [], ◌∷◌, map, Str, is_empty, ◌==◌, list_eq,
  nat_eq, arith, inl, inr, Bool-cases, Option-cases, All,
}
use ai_writing.Common.Results.{ok, >>=-eq-ok, ok_injective, err-ne-ok}
use ai_writing.Review.{pending_review, accepted, review_status_eq}
use ai_writing.Sql.{select}
use ai_writing.Scene
use ai_writing.Scene.{SceneContract}
use ai_writing.Scene.Accepted.Contracts.{get-id}
use ai_writing.Scene.Accepted.Rounds.{Ready, Grows, proposal-id}
use ai_writing.Scene.Accepted.Replay.{Answers}
use ai_writing.Scene.Accepted.Replayed.{replayed-All}
use ai_writing.Scene.Accepted.Marks.{Open, IsAccepted, Advances}
use ai_writing.Scene.Proposals.{SceneProposal, get_proposal, scene_proposal_reviewable}
use ai_writing.Scene.Compile.{
  Store, read_all, is_open, already_accepted, present, replayed, read_accepted,
}

module _ (project_id : Str) where
  -- A proposal that was read under its own id.
  abbrev pub Reads : List SceneProposal → SceneProposal → Type 0
  Reads t p = get_proposal project_id p.id t ≡ some p

  pub read_all_lem :
      (ids : List Str) (t : List SceneProposal) {ps : List SceneProposal}
      → read_all project_id ids t ≡ ok ps
      → (ids ≡ map (λ (p : SceneProposal). p.id) ps) × All (Reads t) ps
  unfolding read_all
  read_all_lem [] t h =
      subst
        (λ (ps : List SceneProposal).
          ([] ≡ map (λ (p : SceneProposal). p.id) ps) × All (Reads t) ps)
        (ok_injective h) (refl, tt)
  read_all_lem (id ∷ ids) t h = elim (Option-cases (get_proposal project_id id t)) [
    | inl e ↦ absurd (err-ne-ok (rw (e, read_all) at h))
    | inr (p, e) ↦
        let (ps, rest, done) = >>=-eq-ok (read_all project_id ids t) _ (rw (e, read_all) at h) in
        let (same, reads) = read_all_lem ids t rest in
        let own = proposal-id project_id id t e in
        subst
          (λ (ps : List SceneProposal).
            (id ∷ ids ≡ map (λ (p : SceneProposal). p.id) ps) × All (Reads t) ps)
          (ok_injective done)
          (ap₂ ◌∷◌ (sym own) same, (ap (λ x. get_proposal project_id x t) own ∙ e, reads))
  ]

  pub Opened :
      (t : List SceneProposal) (ps : List SceneProposal)
      → All (Reads t) ps
      → All (λ (p : SceneProposal). is_open p ≡ true) ps
      → All (λ (p : SceneProposal). Open project_id t p.id) ps
  Opened t [] r o = tt
  Opened t (p ∷ ps) r o = ((p, r.0, o.0), Opened t ps (r.1) (o.1))

  -- A batch whose proposals are all accepted is read back.
  pub read_all_accepted :
      (ps t : List SceneProposal)
      → All (λ (p : SceneProposal). IsAccepted project_id t p.id) ps
      → (qs : List SceneProposal) × (read_all project_id (map (λ (p : SceneProposal). p.id) ps) t
          ≡ ok qs)
        × All (λ (q : SceneProposal). q.status ≡ accepted) qs
        × All (Reads t) qs
  unfolding read_all
  read_all_accepted [] t a = ([], refl, tt, tt)
  read_all_accepted (p ∷ ps) t a =
      let (q, h, status) = a.0 in
      let (qs, rest, statuses, reads) = read_all_accepted ps t (a.1) in
      let own = proposal-id project_id p.id t h in
      (
        q ∷ qs,
        rw (h, read_all) (rw rest refl),
        (status, statuses),
        (ap (λ x. get_proposal project_id x t) own ∙ h, reads),
      )

  -- The pending members are accepted by the batch, and the accepted ones stay so.
  pub All-IsAccepted :
      (t t' : List SceneProposal) (ps : List SceneProposal)
      → Advances project_id t t'
      → All (Reads t) ps
      → All (λ (p : SceneProposal). is_open p ≡ true) ps
      → All
          (λ (p : SceneProposal).
            (p.status == pending_review) ≡ true → IsAccepted project_id t' p.id)
          ps
      → All (λ (p : SceneProposal). IsAccepted project_id t' p.id) ps
  All-IsAccepted t t' [] a r o m = tt
  All-IsAccepted t t' (p ∷ ps) a r o m = (
    elim (Bool-cases (p.status == pending_review)) [
      | inl e ↦ m.0 e
      | inr e ↦ a.accepted_kept p.id (p, r.0, ground arith)
    ],
    All-IsAccepted t t' ps a (r.1) (o.1) (m.1),
  )

  pub read_accepted_same :
      (ps t : List SceneProposal) → All (Reads t) ps → read_accepted project_id ps t ≡ ps
  unfolding read_accepted present
  read_accepted_same [] t r = refl
  read_accepted_same (p ∷ ps) t r = rw (r.0) (ap (◌∷◌ p) (read_accepted_same ps t (r.1)))

  -- The pending proposals of a batch are ready for it.
  pub pending-Ready :
      (t : List SceneProposal) (ps : List SceneProposal)
      → All (Reads t) ps
      → All
          (λ (p : SceneProposal). Ready project_id t p.id)
          (select (λ p. p.status == pending_review) ps)
  unfolding select
  pending-Ready t [] r = tt
  pending-Ready t (p ∷ ps) r = elim (Bool-cases (p.status == pending_review)) [
    | inl e ↦ rw e (inl (p, r.0, ground arith), pending-Ready t ps (r.1))
    | inr e ↦ rw e (pending-Ready t ps (r.1))
  ]

  -- The contracts of the proposals that were accepted before are those that they record in the end.
  accepted-Answers :
      (s s' : Store) (ps : List SceneProposal)
      → Grows project_id s s'
      → All (Reads s.proposals) ps
      → (P : Str → Type 0) → All (λ (p : SceneProposal). Answers project_id s' P p.id) ps
      → All
          (λ (p : SceneProposal).
            is_empty p.applied_scene_id ≡ false
            → (d : SceneContract) → Scene.get project_id p.applied_scene_id s'.scenes ≡ some d
            → is_empty d.id ≡ false
            → P d.id)
          (select (λ p. p.status == accepted) ps)
  unfolding select
  accepted-Answers s s' [] grows r P a = tt
  accepted-Answers s s' (p ∷ ps) grows r P a =
      let rest = accepted-Answers s s' ps grows (r.1) P (a.1) in
      elim (Bool-cases (p.status == accepted)) [
        | inl e ↦
            let kept = grows.accepted_same p.id p (r.0) (ground arith) in
            rw e (
              λ filled d g named.
                  subst P (sym (get-id project_id p.applied_scene_id s'.scenes g))
                    (a.0 p kept filled (d, g)),
              rest,
            )
        | inr e ↦ rw e rest
      ]

  pub replayed_accepted :
      (s s' : Store) (ps : List SceneProposal)
      → Grows project_id s s'
      → All (Reads s.proposals) ps
      → (P : Str → Type 0) → All (λ (p : SceneProposal). Answers project_id s' P p.id) ps
      → All
          (λ (c : SceneContract). is_empty c.id ≡ false → P c.id)
          (replayed project_id (already_accepted ps) s'.scenes)
  unfolding already_accepted
  replayed_accepted s s' ps grows r P a =
      replayed-All project_id s'.scenes (λ c. is_empty c.id ≡ false → P c.id) _
        (accepted-Answers s s' ps grows r P a)
