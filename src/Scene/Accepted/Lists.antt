-- ===== src/Scene/Accepted/Lists.antt =====
-- The checks of the batch on lists of proposals (backend/app/data/transactions/scene_compile.py).
use ai_writing.Common.{
  ◌≡◌, refl, Bool, true, List, [], ◌∷◌, Str, ◌==◌, list_eq, nat_eq, arith, inl, inr, Bool-cases,
  All,
}
use ai_writing.Common.Results.{ok, err-ne-ok}
use ai_writing.Review.{pending_review, accepted, review_status_eq}
use ai_writing.Sql.{select, rowcount}
use ai_writing.Scene.{SceneContract}
use ai_writing.Scene.Proposals.{SceneProposal, scene_proposal_reviewable}
use ai_writing.Scene.Compile.{is_open, check_open, clashes}

pub check_open_lem :
    (ps : List SceneProposal)
    → check_open ps ≡ ok tt
    → All (λ (p : SceneProposal). is_open p ≡ true) ps
unfolding check_open
check_open_lem [] h = tt
check_open_lem (p ∷ ps) h = elim (Bool-cases (is_open p)) [
  | inl e ↦ (e, check_open_lem ps (rw e at h))
  | inr e ↦ absurd (err-ne-ok (rw e at h))
]

pub select-All :
    (P : SceneProposal → Type 0) (q : SceneProposal → Bool) (ps : List SceneProposal)
    → All P (select q ps)
    → All (λ (p : SceneProposal). q p ≡ true → P p) ps
unfolding select
select-All P q [] h = tt
select-All P q (p ∷ ps) h = elim (Bool-cases (q p)) [
  | inl e ↦ (λ own. (rw e at h).0, select-All P q ps ((rw e at h).1))
  | inr e ↦ (λ own. absurd cc, select-All P q ps (rw e at h))
]

pub All-select :
    (P : SceneProposal → Type 0) (q : SceneProposal → Bool) (ps : List SceneProposal)
    → All P ps
    → All P (select q ps)
unfolding select
All-select P q [] h = tt
All-select P q (p ∷ ps) h = elim (Bool-cases (q p)) [
  | inl e ↦ rw e (h.0, All-select P q ps (h.1))
  | inr e ↦ rw e (All-select P q ps (h.1))
]

pub pending_none :
    (ps : List SceneProposal)
    → All (λ (p : SceneProposal). p.status ≡ accepted) ps
    → (select (λ p. p.status == pending_review) ps ≡ [])
      × (select (λ p. p.status == accepted) ps ≡ ps)
      × (check_open ps ≡ ok tt)
unfolding select check_open
pending_none [] a = (refl, refl, refl)
pending_none (p ∷ ps) a = ground (arith, pending_none ps (a.1))

pub no_clash :
    (project_id : Str) (targets : List Str) (t : List SceneContract)
    → rowcount (clashes project_id targets []) t ≡ 0
unfolding rowcount
no_clash project_id targets [] = refl
no_clash project_id targets (c ∷ t) = ground (arith, no_clash project_id targets t)
