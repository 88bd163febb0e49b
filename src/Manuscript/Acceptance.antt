-- ===== src/Manuscript/Acceptance.antt =====
-- What the acceptance of a proposal decides
-- (`accept_manuscript_proposal`, backend/app/data/transactions/manuscript.py).
use mathlib.Core.Option
use ai_writing.Common.{
  ◌≡◌, refl, ◌≢◌, ◌∙◌, sym, ap, true, false, Option, none, some, List, Str, inl, inr, list_eq,
  nat_eq, arith, Bool-cases,
}
use ai_writing.Common.Results.{ok, >>=-eq-ok, ok_injective, err-ne-ok}
use ai_writing.Review.{accepted, pending_review, superseded, review_status_eq}
use ai_writing.Review.Status.{has_key, get}
use ai_writing.Review.Status.Laws.{get_sound}
use ai_writing.Sql.{select_one, update}
use ai_writing.Sql.Laws.{updated, select_one-update}
use ai_writing.Manuscript.{Proposal, Scene, Store}
use ai_writing.Manuscript.Proposals.{
  set_review, get_proposal, set_proposal_status, is_sibling, supersede_pending_for_scene,
  proposal_reviewable,
}
use ai_writing.Manuscript.Scenes.{get_scene, get_scene_version}
use ai_writing.Manuscript.Flows.{
  Draft, next_version, accepted_text, is_stale, commit_scene, accepted_scene, mark_accepted,
  accept_pending, accept_found, accept_manuscript_proposal,
}
use ai_writing.Manuscript.Committed.{accept_pending-IsReturned, commit_scene-IsCommitted}

-- A row of the proposals as the acceptance of `id` leaves it.
abbrev pub decided : Str → Str → Str → Str → Proposal → Proposal
decided p sid id now r =
    updated (is_sibling p sid id) (set_review superseded now)
      (updated (has_key p id) (set_review accepted now) r)

-- Every read of a proposal after the acceptance.
get_proposal-mark_accepted :
    (p : Str) (q : Proposal) (id now : Str) (s : Store) (p' id' : Str)
    → get_proposal p' id' (mark_accepted p q id now s).proposals
      ≡ Option.map (decided p q.scene_id id now) (get_proposal p' id' s.proposals)
unfolding mark_accepted get_proposal get set_proposal_status supersede_pending_for_scene
get_proposal-mark_accepted p q id now s p' id' =
    select_one-update (has_key p' id') (is_sibling p q.scene_id id) (set_review superseded now)
      (update (has_key p id) (set_review accepted now) s.proposals) (λ r. refl)
    ∙ ap (Option.map (updated (is_sibling p q.scene_id id) (set_review superseded now))) (
        select_one-update (has_key p' id') (has_key p id) (set_review accepted now) s.proposals
          (λ r. refl))
    ∙ both (select_one (has_key p' id') s.proposals)
  where
    both :
        (o : Option Proposal)
        → Option.map
            (updated (is_sibling p q.scene_id id) (set_review superseded now))
            (Option.map (updated (has_key p id) (set_review accepted now)) o)
          ≡ Option.map (decided p q.scene_id id now) o
    both none = refl
    both (some r) = refl

-- The accepted proposal, and a pending proposal beside it.
decided_own :
    (p sid id now : Str) (r : Proposal)
    → has_key p id r ≡ true
    → decided p sid id now r ≡ set_review accepted now r
decided_own p sid id now r h = ground arith

decided_sibling :
    (p sid id now : Str) (r : Proposal)
    → r.project_id ≡ p
    → r.scene_id ≡ sid
    → r.id ≢ id
    → r.status ≡ pending_review
    → decided p sid id now r ≡ set_review superseded now r
decided_sibling p sid id now r hp hs hi hr = ground arith

get_proposal_sound :
    (p id : Str) (t : List Proposal) {r : Proposal}
    → get_proposal p id t ≡ some r
    → (r.project_id ≡ p) × (r.id ≡ id)
unfolding get_proposal
get_proposal_sound p id t h = get_sound p id t h

key_own : (p id : Str) (r : Proposal) → (r.project_id ≡ p) × (r.id ≡ id) → has_key p id r ≡ true
key_own p id r (hp, hi) = ground arith

accept_found_accepted :
    (p id : Str) (d : Option Draft) (now : Str) (q : Proposal) (s : Store)
    → q.status ≡ accepted
    → accept_found p id d now q s ≡ ok (get_scene p q.scene_id s.scenes, s)
unfolding accept_found
accept_found_accepted p id d now q s h = ground arith

accept_found_superseded :
    (p id : Str) (d : Option Draft) (now : Str) (q : Proposal) (s : Store)
    → q.status ≡ superseded
    → accept_found p id d now q s ≡ ok (none, s)
unfolding accept_found
accept_found_superseded p id d now q s h = ground arith

-- What the acceptance of the pending proposal `q` leaves.
pub record IsAccepted (p id : Str) (d : Option Draft) (now : Str) (q : Proposal) (s : Store)
    (o : Option Scene) (s' : Store) : Type 0 where
  pub fresh : is_stale d (get_scene_version p q.scene_id s.scenes) ≡ false
  pub row : Scene
  pub returned : o ≡ some row
  pub read : get_scene p q.scene_id s'.scenes ≡ o
  pub version : row.version ≡ next_version (get_scene_version p q.scene_id s.scenes)
  pub title : row.title ≡ (accepted_text d q).0
  pub content : row.content ≡ (accepted_text d q).1
  pub proposals :
      (p' id' : Str)
      → get_proposal p' id' s'.proposals
        ≡ Option.map (decided p q.scene_id id now) (get_proposal p' id' s.proposals)

accept_pending-IsAccepted :
    (p id : Str) (d : Option Draft) (now : Str) (q : Proposal) (s : Store) {o : Option Scene}
    {s' : Store}
    → accept_pending p id d now q s ≡ ok (o, s')
    → IsAccepted p id d now q s o s'
unfolding accept_pending accepted_scene mark_accepted
accept_pending-IsAccepted p id d now q s {o = o} {s' = s'} h =
    elim (Bool-cases (is_stale d (get_scene_version p q.scene_id s.scenes))) [
      | inl stale ↦ absurd (err-ne-ok (rw stale at h))
      | inr fresh ↦
          let (c, commit, e) =
            >>=-eq-ok (commit_scene (accepted_scene p d q now s) now s) _ (rw fresh at h) in
          let done = ok_injective e in
          let returned = accept_pending-IsReturned p id d now q s h in
          let kept =
            (commit_scene-IsCommitted (accepted_scene p d q now s) now s refl commit).proposals in
          record {
            fresh = fresh;
            row = returned.row;
            returned = returned.returned;
            read =
                ap (λ (r : Option Scene × Store). get_scene p q.scene_id r.1.scenes) (sym done)
                ∙ ap (λ (r : Option Scene × Store). r.0) done;
            version = returned.version;
            title = returned.title;
            content = returned.content;
            proposals = λ p' id'.
                ap (λ (r : Option Scene × Store). get_proposal p' id' r.1.proposals) (sym done)
                ∙ get_proposal-mark_accepted p q id now c p' id'
                ∙ ap (λ t. Option.map (decided p q.scene_id id now) (get_proposal p' id' t)) kept;
          }
    ]

module _ (p id : Str) (d : Option Draft) (now : Str) (s : Store) {q : Proposal} {o : Option Scene}
    {s' : Store} (found : get_proposal p id s.proposals ≡ some q)
    (pending : q.status ≡ pending_review)
    (done : accept_manuscript_proposal p id d now s ≡ ok (o, s')) where
  -- When a pending proposal is accepted without an error, its draft was not stale, the returned
  -- scene is the one a read finds, it has the next version and the text of the draft or else of
  -- the proposal, and every proposal is read as before but for the accepted one and the superseded
  -- pending proposals of the same scene.
  pub accept_manuscript_proposal_lem : IsAccepted p id d now q s o s'
  unfolding accept_manuscript_proposal accept_found
  accept_manuscript_proposal_lem =
      accept_pending-IsAccepted p id d now q s
        (accepting (rw (found, accept_manuscript_proposal) at done))
    where
      accepting :
          accept_found p id d now q s ≡ ok (o, s') → accept_pending p id d now q s ≡ ok (o, s')
      accepting e = ground arith

  now_accepted : get_proposal p id s'.proposals ≡ some (set_review accepted now q)
  now_accepted =
      accept_manuscript_proposal_lem.proposals p id
      ∙ ap (Option.map (decided p q.scene_id id now)) found
      ∙ ap some (
          decided_own p q.scene_id id now q
            (key_own p id q (get_proposal_sound p id s.proposals found)))

  -- After the acceptance of a pending proposal, a further acceptance of it with any draft returns
  -- the same scene and changes nothing.
  pub accept_again :
      (d' : Option Draft) (now' : Str) → accept_manuscript_proposal p id d' now' s' ≡ ok (o, s')
  unfolding accept_manuscript_proposal
  accept_again d' now' =
      rw (now_accepted, accept_manuscript_proposal)
        (accept_found_accepted p id d' now' (set_review accepted now q) s' refl
          ∙ ap (λ x. ok (x, s')) accept_manuscript_proposal_lem.read)

  -- After the acceptance of a pending proposal, the acceptance of another proposal of the scene
  -- that was pending before returns none and changes nothing.
  pub accept_sibling :
      (id' : Str) (d' : Option Draft) (now' : Str) {r : Proposal}
      → get_proposal p id' s.proposals ≡ some r
      → r.scene_id ≡ q.scene_id
      → r.status ≡ pending_review
      → id' ≢ id
      → accept_manuscript_proposal p id' d' now' s' ≡ ok (none, s')
  unfolding accept_manuscript_proposal
  accept_sibling id' d' now' {r = r} there same waiting other =
      rw (now_superseded, accept_manuscript_proposal)
        (accept_found_superseded p id' d' now' (set_review superseded now r) s' refl)
    where
      key : (r.project_id ≡ p) × (r.id ≡ id')
      key = get_proposal_sound p id' s.proposals there

      now_superseded : get_proposal p id' s'.proposals ≡ some (set_review superseded now r)
      now_superseded =
          accept_manuscript_proposal_lem.proposals p id'
          ∙ ap (Option.map (decided p q.scene_id id now)) there
          ∙ ap some (
              decided_sibling p q.scene_id id now r key.0 same (λ e. other (sym key.1 ∙ e)) waiting)
