-- ===== src/Scene/Accepted/Replay.antt =====
-- What a batch returns (backend/app/data/transactions/scene_compile.py): the contracts that its
-- proposals record in the end.
use mathlib.Core.Path.{subst}
use ai_writing.Common.{
  ◌≡◌, sym, ap, ◌∙◌, false, some, List, [], ◌∷◌, Str, is_empty, list_eq, nat_eq, All, All-map,
}
use ai_writing.Common.Results.{ok, >>=-eq-ok, ok_injective}
use ai_writing.Review.{review_status_eq}
use ai_writing.Scene.{SceneContract}
use ai_writing.Scene.Accepted.Contracts.{IsThere}
use ai_writing.Scene.Proposals.{SceneProposal, get_proposal, scene_proposal_reviewable}
use ai_writing.Scene.Compile.{Store, apply_one, apply_all}
use ai_writing.Scene.Accepted.Rounds.{Ready, Grows, Grows-refl, Grows-trans, apply_one-HasScene}

module _ (project_id : Str) where
  -- What holds of the contract that a proposal records in the end.
  abbrev pub Answers : Store → (Str → Type 0) → Str → Type 0
  Answers s P id =
      (q : SceneProposal)
      → get_proposal project_id id s.proposals ≡ some q
      → is_empty q.applied_scene_id ≡ false
      → IsThere project_id s.scenes q.applied_scene_id
      → P q.applied_scene_id

  -- The contracts that a batch makes are those that its proposals record in the end.
  pub apply_all-Answers :
      (now : Str) (ps : List SceneProposal) (s : Store) {r : List SceneContract × Store}
      → apply_all project_id now ps s ≡ ok r
      → All (λ (p : SceneProposal). Ready project_id s.proposals p.id) ps
      → Grows project_id s r.1
        × ((P : Str → Type 0)
            → All (λ (p : SceneProposal). Answers (r.1) P p.id) ps
            → All (λ (c : SceneContract). is_empty c.id ≡ false → P c.id) r.0)
  unfolding apply_all
  apply_all-Answers now [] s h ready =
      subst
        (λ (r : List SceneContract × Store).
          Grows project_id s r.1
          × ((P : Str → Type 0)
              → Unit {0}
              → All (λ (c : SceneContract). is_empty c.id ≡ false → P c.id) r.0))
        (ok_injective h) (Grows-refl project_id s, λ P a. tt)
  apply_all-Answers now (p ∷ ps) s h ready =
      let (x, first, h1) = >>=-eq-ok (apply_one project_id now p s) _ h in
      let (y, others, h2) = >>=-eq-ok (apply_all project_id now ps (x.1)) _ h1 in
      let (step, (q, found, done, recorded), there) =
        apply_one-HasScene project_id now p s first (ready.0) in
      let (steps, rest) =
        apply_all-Answers now ps (x.1) others
          (All-map ps (λ (q : SceneProposal) open_q. step.ready_kept q.id open_q) (ready.1)) in
      subst
        (λ (r : List SceneContract × Store).
          Grows project_id s r.1
          × ((P : Str → Type 0)
              → All (λ (p : SceneProposal). Answers (r.1) P p.id) (p ∷ ps)
              → All (λ (c : SceneContract). is_empty c.id ≡ false → P c.id) r.0))
        (ok_injective h2)
        (
          Grows-trans project_id step steps,
          λ P answers. (
            λ filled. subst P recorded (
                answers.0 q (steps.accepted_same p.id q found done) (ap is_empty recorded ∙ filled)
                  (subst (IsThere project_id y.1.scenes) (sym recorded)
                    (steps.contracts_kept x.0.id there))),
            rest P (answers.1),
          ),
        )
