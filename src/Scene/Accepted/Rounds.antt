-- ===== src/Scene/Accepted/Rounds.antt =====
-- One round of a batch (backend/app/data/transactions/scene_compile.py): it marks its proposal with
-- its contract, and keeps the accepted proposals and the contracts.
use mathlib.Core.Option
use mathlib.Core.Option.{some-injective}
use mathlib.Core.Path.{subst}
use ai_writing.Common.{
  ◌≡◌, ◌≢◌, ◌⊎◌, refl, sym, ◌≤◌, some, List, [], ◌∷◌, Str, ◌==◌, list_eq, nat_eq, arith, inl, inr,
  Bool-cases,
}
use ai_writing.Common.Results.{ok, >>=-eq-ok, ok_injective, err-ne-ok}
use ai_writing.Review.{pending_review, accepted, review_status_eq}
use ai_writing.Review.Status
use ai_writing.Sql.{update, rowcount}
use ai_writing.Sql.Laws.{updated, select_one-update, select_one_sound}
use ai_writing.Scene.{SceneContract}
use ai_writing.Scene.Accepted.Contracts.{IsThere, Kept, round-Writes}
use ai_writing.Scene.Proposals.{
  SceneProposal, get_proposal, is_pending, set_accepted, mark_accepted, scene_proposal_reviewable,
  set_review,
}
use ai_writing.Scene.Compile.{Store, write_scene, bind_scene, apply_one}

module _ (project_id : Str) where
  -- The proposal is pending, or no row of its id is.
  abbrev pub Ready : List SceneProposal → Str → Type 0
  Ready t id =
      ((q : SceneProposal) × (get_proposal project_id id t ≡ some q) × (q.status ≡ pending_review))
      ⊎ (rowcount (is_pending project_id id) t ≡ 0)

  -- The proposal of the id is accepted and records the contract.
  abbrev pub HasScene : List SceneProposal → Str → Str → Type 0
  HasScene t id scene_id =
      (q : SceneProposal) × (get_proposal project_id id t ≡ some q)
      × (q.status ≡ accepted)
      × (q.applied_scene_id ≡ scene_id)

  -- Accepted proposals keep their fields, and no contract is lost.
  pub record Grows (s s' : Store) : Type 0 where
    pub accepted_same :
        (id : Str) (q : SceneProposal)
        → get_proposal project_id id s.proposals ≡ some q
        → q.status ≡ accepted
        → get_proposal project_id id s'.proposals ≡ some q
    pub ready_kept : (id : Str) → Ready s.proposals id → Ready s'.proposals id
    pub contracts_kept : Kept project_id s.scenes s'.scenes

  proposal-key :
      (id : Str) (t : List SceneProposal) {q : SceneProposal}
      → get_proposal project_id id t ≡ some q
      → (q.project_id ≡ project_id) × (q.id ≡ id)
  unfolding get_proposal Status.get set_review
  proposal-key id t h = ground (arith, select_one_sound (Status.has_key project_id id) t h)

  pub proposal-id :
      (id : Str) (t : List SceneProposal) {q : SceneProposal}
      → get_proposal project_id id t ≡ some q
      → q.id ≡ id
  proposal-id id t h = (proposal-key id t h).1

  pub Grows-refl : (s : Store) → Grows s s
  Grows-refl s = record {
    accepted_same = λ id q h a. h;
    ready_kept = λ id r. r;
    contracts_kept = λ id c. c;
  }

  pub Grows-trans : {s t u : Store} → Grows s t → Grows t u → Grows s u
  Grows-trans a b = record {
    accepted_same = λ id q h k. b.accepted_same id q (a.accepted_same id q h k) k;
    ready_kept = λ id r. b.ready_kept id (a.ready_kept id r);
    contracts_kept = λ id c. b.contracts_kept id (a.contracts_kept id c);
  }

  module _ (id scene_id now : Str) (t : List SceneProposal) where
    abbrev after : List SceneProposal
    after = update (is_pending project_id id) (set_accepted scene_id now) t

    get_proposal-mark :
        (id' : Str)
        → get_proposal project_id id' after
          ≡ Option.map
              (updated (is_pending project_id id) (set_accepted scene_id now))
              (get_proposal project_id id' t)
    unfolding get_proposal Status.get set_review
    get_proposal-mark id' =
        select_one-update (Status.has_key project_id id') (is_pending project_id id)
          (set_accepted scene_id now) t (λ p. refl)

    mark-same :
        (id' : Str) (q : SceneProposal)
        → get_proposal project_id id' t ≡ some q
        → q.status ≡ accepted
        → get_proposal project_id id' after ≡ some q
    mark-same id' q h a = ground (arith, get_proposal-mark id', h, a)

  -- No row of the id is pending after its mark, and a mark makes none pending.
  none_pending :
      (id scene_id now : Str) (t : List SceneProposal)
      → rowcount (is_pending project_id id) (after id scene_id now t) ≡ 0
  unfolding rowcount update
  none_pending id scene_id now [] = refl
  none_pending id scene_id now (p ∷ t) = ground (arith, none_pending id scene_id now t)

  fewer_pending :
      (id scene_id now id' : Str) (t : List SceneProposal)
      → rowcount (is_pending project_id id') (after id scene_id now t)
        ≤ rowcount (is_pending project_id id') t
  unfolding rowcount update
  fewer_pending id scene_id now id' [] = omega arith
  fewer_pending id scene_id now id' (p ∷ t) = ground (arith, fewer_pending id scene_id now id' t)

  mark-Ready :
      (id scene_id now : Str) (t : List SceneProposal) (id' : Str)
      → Ready t id'
      → Ready (after id scene_id now t) id'
  mark-Ready id scene_id now t id' (inr z) =
      inr (omega (arith, z, fewer_pending id scene_id now id' t))
  mark-Ready id scene_id now t id' (inl (q, h, w)) = elim (Bool-cases (id' == id)) [
    | inl e ↦
        let same : id' ≡ id = ground arith in
        inr (
          subst (λ (i : Str). rowcount (is_pending project_id i) (after id scene_id now t) ≡ 0)
            (sym same) (none_pending id scene_id now t))
    | inr e ↦
        inl
          (q, ground (arith, get_proposal-mark id scene_id now t id', h, e, proposal-id id' t h), w)
  ]

  -- The row of a pending id is the one that the mark changes.
  mark-HasScene :
      (id scene_id now : Str) (t : List SceneProposal)
      → Ready t id
      → rowcount (is_pending project_id id) t ≢ 0
      → HasScene (after id scene_id now t) id scene_id
  mark-HasScene id scene_id now t (inr z) n = absurd (n z)
  mark-HasScene id scene_id now t (inl (q, h, w)) n = (
    set_accepted scene_id now q,
    ground (arith, get_proposal-mark id scene_id now t id, h, w, proposal-key id t h),
    refl,
    refl,
  )

  pub apply_one-HasScene :
      (now : Str) (p : SceneProposal) (s : Store) {r : SceneContract × Store}
      → apply_one project_id now p s ≡ ok r
      → Ready s.proposals p.id
      → Grows s r.1 × HasScene r.1.proposals p.id r.0.id × IsThere project_id r.1.scenes r.0.id
  unfolding apply_one mark_accepted
  apply_one-HasScene now p s h ready =
      let (w, written, h1) = >>=-eq-ok (write_scene project_id p.create s.scenes) _ h in
      let (b, bound, h2) = >>=-eq-ok (bind_scene project_id p.create s.records (w.0) (w.1)) _ h1 in
      let (kept, there) = round-Writes project_id p.create s.records s.scenes written bound in
      elim (Bool-cases (rowcount (is_pending project_id p.id) s.proposals == 0)) [
        | inl e ↦ absurd (err-ne-ok (rw e at h2))
        | inr e ↦
            let some_pending : rowcount (is_pending project_id p.id) s.proposals ≢ 0 =
              λ z. ground (arith, z, e) in
            subst
              (λ (r : SceneContract × Store).
                Grows s r.1
                × HasScene r.1.proposals p.id r.0.id
                × IsThere project_id r.1.scenes r.0.id)
              (ok_injective (rw e at h2))
              (
                record {
                  accepted_same = mark-same p.id b.0.id now s.proposals;
                  ready_kept = mark-Ready p.id b.0.id now s.proposals;
                  contracts_kept = kept;
                },
                mark-HasScene p.id b.0.id now s.proposals ready some_pending,
                there,
              )
      ]
