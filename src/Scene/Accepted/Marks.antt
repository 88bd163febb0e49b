-- ===== src/Scene/Accepted/Marks.antt =====
-- A batch only advances the proposals (backend/app/data/transactions/scene_compile.py): an open one
-- stays open, an accepted one stays accepted, and the batch's own are accepted.
use mathlib.Core.Option
use mathlib.Core.Path.{subst}
use ai_writing.Common.{
  ◌≡◌, refl, ap, ◌∙◌, true, some, List, [], ◌∷◌, Str, ◌==◌, list_eq, nat_eq, arith, inl, inr,
  Bool-cases, All, All-map,
}
use ai_writing.Common.Results.{ok, >>=-eq-ok, ok_injective, err-ne-ok}
use ai_writing.Review.{accepted, review_status_eq}
use ai_writing.Review.Status
use ai_writing.Sql.{update, rowcount}
use ai_writing.Sql.Laws.{updated, select_one-update, select_one_sound}
use ai_writing.Scene.{SceneContract}
use ai_writing.Scene.Proposals.{
  SceneProposal, get_proposal, is_pending, set_accepted, mark_accepted, scene_proposal_reviewable,
  set_review,
}
use ai_writing.Scene.Compile.{Store, is_open, write_scene, bind_scene, apply_one, apply_all}

module _ (project_id : Str) where
  -- The proposal that the id reads is pending or accepted.
  abbrev pub Open : List SceneProposal → Str → Type 0
  Open t id = (q : SceneProposal) × (get_proposal project_id id t ≡ some q) × (is_open q ≡ true)

  abbrev pub IsAccepted : List SceneProposal → Str → Type 0
  IsAccepted t id =
      (q : SceneProposal) × (get_proposal project_id id t ≡ some q) × (q.status ≡ accepted)

  -- Only pending proposals change, and they become accepted.
  pub record Advances (t : List SceneProposal) (t' : List SceneProposal) : Type 0 where
    pub open_kept : (id : Str) → Open t id → Open t' id
    pub accepted_kept : (id : Str) → IsAccepted t id → IsAccepted t' id

  Advances-refl : (t : List SceneProposal) → Advances t t
  Advances-refl t = record { open_kept = λ id o. o; accepted_kept = λ id a. a }

  Advances-trans : {t u v : List SceneProposal} → Advances t u → Advances u v → Advances t v
  Advances-trans a b = record {
    open_kept = λ id o. b.open_kept id (a.open_kept id o);
    accepted_kept = λ id o. b.accepted_kept id (a.accepted_kept id o);
  }

  module _ (id scene_id now : Str) (t : List SceneProposal) where
    abbrev after : List SceneProposal
    after = update (is_pending project_id id) (set_accepted scene_id now) t

    get_proposal-mark :
        (id' : Str)
        → get_proposal project_id id' after
          ≡ Option.map
              (updated (is_pending project_id id) (set_accepted scene_id now))
              (get_proposal project_id id' t)
    unfolding get_proposal Status.get set_review
    get_proposal-mark id' =
        select_one-update (Status.has_key project_id id') (is_pending project_id id)
          (set_accepted scene_id now) t (λ p. refl)

    mark-Advances : Advances t after
    mark-Advances = record {
      open_kept = λ id' (q, h, o). (
        updated (is_pending project_id id) (set_accepted scene_id now) q,
        get_proposal-mark id' ∙ ap (Option.map _) h,
        ground arith,
      );
      accepted_kept = λ id' (q, h, o). (
        updated (is_pending project_id id) (set_accepted scene_id now) q,
        get_proposal-mark id' ∙ ap (Option.map _) h,
        ground arith,
      );
    }

    mark-IsAccepted : Open t id → IsAccepted after id
    unfolding get_proposal Status.get set_review
    mark-IsAccepted (q, h, o) = (
      updated (is_pending project_id id) (set_accepted scene_id now) q,
      get_proposal-mark id ∙ ap (Option.map _) h,
      ground (arith, select_one_sound (Status.has_key project_id id) t h),
    )

  -- One round marks its proposal.
  apply_one_lem :
      (now : Str) (p : SceneProposal) (s : Store) {r : SceneContract × Store}
      → apply_one project_id now p s ≡ ok r
      → Advances s.proposals r.1.proposals × (Open s.proposals p.id → IsAccepted r.1.proposals p.id)
  unfolding apply_one mark_accepted
  apply_one_lem now p s h =
      let (w, written, h1) = >>=-eq-ok (write_scene project_id p.create s.scenes) _ h in
      let (b, bound, h2) = >>=-eq-ok (bind_scene project_id p.create s.records (w.0) (w.1)) _ h1 in
      elim (Bool-cases (rowcount (is_pending project_id p.id) s.proposals == 0)) [
        | inl e ↦ absurd (err-ne-ok (rw e at h2))
        | inr e ↦
            subst
              (λ (r : SceneContract × Store).
                Advances s.proposals r.1.proposals
                × (Open s.proposals p.id → IsAccepted r.1.proposals p.id))
              (ok_injective (rw e at h2))
              (
                mark-Advances p.id b.0.id now s.proposals,
                mark-IsAccepted p.id b.0.id now s.proposals,
              )
      ]

  pub apply_all_lem :
      (now : Str) (ps : List SceneProposal) (s : Store) {r : List SceneContract × Store}
      → apply_all project_id now ps s ≡ ok r
      → All (λ (p : SceneProposal). Open s.proposals p.id) ps
      → Advances s.proposals r.1.proposals
        × All (λ (p : SceneProposal). IsAccepted r.1.proposals p.id) ps
  unfolding apply_all
  apply_all_lem now [] s h o = (
    subst (λ (r : List SceneContract × Store). Advances s.proposals r.1.proposals) (ok_injective h)
        (Advances-refl s.proposals),
    tt,
  )
  apply_all_lem now (p ∷ ps) s h o =
      let (x, first, h1) = >>=-eq-ok (apply_one project_id now p s) _ h in
      let (y, others, h2) = >>=-eq-ok (apply_all project_id now ps (x.1)) _ h1 in
      let (step, own) = apply_one_lem now p s first in
      let (steps, rest) =
        apply_all_lem now ps (x.1) others
          (All-map ps (λ (q : SceneProposal) open_q. step.open_kept q.id open_q) (o.1)) in
      subst
        (λ (r : List SceneContract × Store).
          Advances s.proposals r.1.proposals
          × All (λ (q : SceneProposal). IsAccepted r.1.proposals q.id) (p ∷ ps))
        (ok_injective h2) (Advances-trans step steps, (steps.accepted_kept p.id (own (o.0)), rest))
