-- ===== src/Writeback/Decisions.antt =====
-- What the acceptance of an update proposal decides, and what can no longer be accepted afterwards
-- (`accept_writeback_proposal`, backend/app/data/transactions/writeback.py).
use mathlib.Core.Option
use mathlib.Core.Path.{subst}
use ai_writing.Common.{
  ◌≡◌, refl, ap, ap₂, sym, ◌∙◌, ◌≢◌, Option, some, Str, codes, ==_iff, list_eq, nat_eq, arith,
}
use ai_writing.Common.Results.{Result, ok, err, >>=-eq-ok, ok_injective}
use ai_writing.Data.Errors.{Error, value_error}
use ai_writing.Review.{pending_review, superseded, review_status_eq}
use ai_writing.Sql.{update}
use ai_writing.Canon.{CanonEntity}
use ai_writing.Writeback.{
  canon_entity, update_action, action_eq, target_eq, ProposalCreate, WritebackProposal,
  set_accepted, set_review, get_writeback, writeback_reviewable,
}
use ai_writing.Writeback.Flow.{
  Tables, apply_canon_update_proposal, apply_canon, apply_target, accept_pending, accept_found,
  accept_writeback_proposal, with_canon,
}
use ai_writing.Writeback.Marks.{
  decided, finish_accept-proposals, writeback_key, decided_sibling, accept_found_accepted,
  accept_found_superseded,
}
use ai_writing.Writeback.Accepted.{IsUpdated, apply_canon_update_proposal-IsUpdated}

-- The outcome of the acceptance of an update proposal `p`.
pub record IsAccepted {N : Type 0} (project_id id now : Str) (p : WritebackProposal) (s : Tables N)
    (o : Option WritebackProposal) (s' : Tables N) : Type 0 where
  pub entity : CanonEntity
  pub canon : IsUpdated project_id p.proposal s.canon s'.canon entity
  pub returned : o ≡ get_writeback project_id id s'.proposals
  pub proposals :
      (p' id' : Str)
      → get_writeback p' id' s'.proposals
        ≡ Option.map
            (decided project_id id p.proposal.target_record_id entity.id now)
            (get_writeback p' id' s.proposals)

apply_target-IsUpdated :
    {N : Type 0} (an : Str → ProposalCreate → N → Result Error (Str × N)) (project_id : Str)
    (p : ProposalCreate) (now : Str) (s : Tables N) {i : Str} {s' : Tables N}
    → p.action ≡ update_action
    → apply_target an canon_entity project_id p now s ≡ ok (i, s')
    → (e : CanonEntity) × (i ≡ e.id)
      × IsUpdated project_id p s.canon s'.canon e
      × (s'.proposals ≡ s.proposals)
unfolding apply_target apply_canon
apply_target-IsUpdated {N = N} an project_id p now s {i = i} {s' = s'} act h =
    let (r, applied, e) =
      >>=-eq-ok (apply_canon_update_proposal project_id p now s.canon) (with_canon an s)
        (rw ((==_iff p.action update_action).1 act) at h) in
    let done = ok_injective e in
    (
      r.0,
      ap (λ (x : Str × Tables N). x.0) (sym done),
      subst (λ (x : Str × Tables N). IsUpdated project_id p s.canon x.1.canon r.0) done
          (apply_canon_update_proposal-IsUpdated project_id p now s.canon applied),
      ap (λ (x : Str × Tables N). x.1.proposals) (sym done),
    )

module _ {N : Type 0} (an : Str → ProposalCreate → N → Result Error (Str × N))
    (project_id id now : Str) (s : Tables N) {p : WritebackProposal} {o : Option WritebackProposal}
    {s' : Tables N} (found : get_writeback project_id id s.proposals ≡ some p)
    (pending : p.status ≡ pending_review) (target : p.proposal.target ≡ canon_entity)
    (action : p.proposal.action ≡ update_action)
    (done : accept_writeback_proposal an project_id id now s ≡ ok (o, s')) where
  accepting : accept_pending an project_id id now p s ≡ ok (o, s')
  unfolding accept_writeback_proposal accept_found
  accepting = from (rw (found, accept_writeback_proposal) at done)
    where
      from :
          accept_found an project_id id now p s ≡ ok (o, s')
          → accept_pending an project_id id now p s ≡ ok (o, s')
      from e = ground arith

  -- When a pending update proposal for a canon entity is accepted without an error, the entity was
  -- there at the expected version and is read at the next version afterwards, the read of the
  -- proposal is returned, and every proposal is read as before but for the accepted one and the
  -- superseded pending updates of the same entity.
  pub accept_writeback_proposal_lem : IsAccepted project_id id now p s o s'
  unfolding accept_pending
  accept_writeback_proposal_lem =
      let (r, applied, e) =
        >>=-eq-ok (apply_target an p.proposal.target project_id p.proposal now s) _ accepting in
      let (entity, same, canon, kept) =
        apply_target-IsUpdated an project_id p.proposal now s action
          (ap (λ t. apply_target an t project_id p.proposal now s) (sym target) ∙ applied) in
      let (c, returned, proposals) =
        finish_accept-proposals an project_id id p.proposal r.0 now r.1 action e in
      record {
        entity = entity;
        canon = subst (λ c. IsUpdated project_id p.proposal s.canon c entity) (sym c) canon;
        returned = returned;
        proposals = λ p' id'.
            proposals p' id'
            ∙ ap₂
                (λ i t.
                  Option.map (decided project_id id p.proposal.target_record_id i now)
                    (get_writeback p' id' t))
                same kept;
      }

  key : (p.project_id ≡ project_id) × (p.id ≡ id)
  key = writeback_key project_id id s.proposals found

  now_accepted :
      get_writeback project_id id s'.proposals
      ≡ some (set_accepted accept_writeback_proposal_lem.entity.id now p)
  now_accepted =
      accept_writeback_proposal_lem.proposals project_id id
      ∙ ap (Option.map _) found
      ∙ ap some (own accept_writeback_proposal_lem.entity.id)
    where
      own :
          (i : Str)
          → decided project_id id p.proposal.target_record_id i now p ≡ set_accepted i now p
      own i = ground (arith, key)

  -- After the acceptance of a pending update proposal for a canon entity, a further acceptance of
  -- it returns the same proposal and changes nothing.
  pub accept_writeback_again :
      (later : Str) → accept_writeback_proposal an project_id id later s' ≡ ok (o, s')
  unfolding accept_writeback_proposal
  accept_writeback_again later =
      rw (now_accepted, accept_writeback_proposal)
        (accept_found_accepted an project_id id later _ s' refl
          ∙ ap (λ x. ok (x, s')) (sym (accept_writeback_proposal_lem.returned ∙ now_accepted)))

  -- After the acceptance of a pending update proposal for a canon entity, the acceptance of
  -- another update proposal of that entity that was pending before raises that it is already
  -- reviewed.
  pub accept_writeback_sibling :
      (id' later : Str) {r : WritebackProposal}
      → get_writeback project_id id' s.proposals ≡ some r
      → r.status ≡ pending_review
      → r.proposal.target ≡ canon_entity
      → r.proposal.action ≡ update_action
      → r.proposal.target_record_id ≡ p.proposal.target_record_id
      → id' ≢ id
      → accept_writeback_proposal an project_id id' later s'
        ≡ err (value_error (codes "Write-back proposal is already reviewed."))
  unfolding accept_writeback_proposal
  accept_writeback_sibling id' later {r = r} there waiting canon update same other =
      rw (now_superseded, accept_writeback_proposal)
        (accept_found_superseded an project_id id' later _ s' refl)
    where
      sibling_key : (r.project_id ≡ project_id) × (r.id ≡ id')
      sibling_key = writeback_key project_id id' s.proposals there

      sibling :
          (i : Str)
          → decided project_id id p.proposal.target_record_id i now r ≡ set_review superseded now r
      sibling i =
          decided_sibling project_id id p.proposal.target_record_id i now r sibling_key.0
            (λ e. other (sym sibling_key.1 ∙ e)) waiting canon update same

      now_superseded :
          get_writeback project_id id' s'.proposals ≡ some (set_review superseded now r)
      now_superseded =
          accept_writeback_proposal_lem.proposals project_id id'
          ∙ ap (Option.map _) there
          ∙ ap some (sibling accept_writeback_proposal_lem.entity.id)
