-- ===== src/Writeback/Marks.antt =====
-- The writes on the proposals at the end of `accept_writeback_proposal`
-- (backend/app/data/transactions/writeback.py).
use mathlib.Core.Option
use ai_writing.Common.{
  ◌≡◌, refl, ap, sym, ◌∙◌, ◌≢◌, inl, inr, Option, none, some, List, Str, codes, ◌==◌, list_eq,
  nat_eq, arith, Bool-cases,
}
use ai_writing.Common.Results.{Result, ok, err, ok_injective, err-ne-ok}
use ai_writing.Data.Errors.{Error, value_error}
use ai_writing.Review.{pending_review, accepted, superseded, review_status_eq}
use ai_writing.Review.Status.{has_key, has_key_and_status, get}
use ai_writing.Review.Status.Laws.{get_sound}
use ai_writing.Sql.{select_one, update, rowcount}
use ai_writing.Sql.Laws.{updated, select_one-update}
use ai_writing.Writeback.{
  canon_entity, update_action, action_eq, target_eq, ProposalCreate, WritebackProposal,
  set_accepted, set_review, is_sibling, get_writeback, mark_writeback_accepted,
  supersede_pending_for_target, writeback_reviewable,
}
use ai_writing.Writeback.Flow.{Tables, supersede_siblings, finish_accept, accept_found}

-- A proposal as the acceptance of the update `id` of the record `rid` leaves it.
abbrev pub decided : Str → Str → Str → Str → Str → WritebackProposal → WritebackProposal
decided project_id id rid applied_id now r =
    updated (is_sibling project_id id rid) (set_review superseded now)
      (updated (has_key_and_status project_id id pending_review) (set_accepted applied_id now) r)

-- A read of a proposal after the two writes of the flow.
get_writeback-decided :
    (project_id id rid applied_id now p' id' : Str) (t : List WritebackProposal)
    → get_writeback p' id' (
        update (is_sibling project_id id rid) (set_review superseded now) (
          update (has_key_and_status project_id id pending_review) (set_accepted applied_id now) t))
      ≡ Option.map (decided project_id id rid applied_id now) (get_writeback p' id' t)
unfolding get_writeback get
get_writeback-decided project_id id rid applied_id now p' id' t =
    select_one-update (has_key p' id') (is_sibling project_id id rid) (set_review superseded now)
      (update (has_key_and_status project_id id pending_review) (set_accepted applied_id now) t)
      (λ r. refl)
    ∙ ap (Option.map (updated (is_sibling project_id id rid) (set_review superseded now))) (
        select_one-update (has_key p' id') (has_key_and_status project_id id pending_review)
          (set_accepted applied_id now) t (λ r. refl))
    ∙ both (select_one (has_key p' id') t)
  where
    both :
        (o : Option WritebackProposal)
        → Option.map (updated (is_sibling project_id id rid) (set_review superseded now)) (
            Option.map
              (updated
                (has_key_and_status project_id id pending_review)
                (set_accepted applied_id now))
              o)
          ≡ Option.map (decided project_id id rid applied_id now) o
    both none = refl
    both (some r) = refl

supersede_siblings-update :
    {N : Type 0} (an : Str → ProposalCreate → N → Result Error (Str × N)) (project_id id : Str)
    (p : ProposalCreate) (now : Str) (t : List WritebackProposal)
    → p.action ≡ update_action
    → supersede_siblings an project_id id p now t
      ≡ update (is_sibling project_id id p.target_record_id) (set_review superseded now) t
unfolding supersede_siblings supersede_pending_for_target
supersede_siblings-update an project_id id p now t act = ground arith

-- The end of the flow on an update proposal.
pub finish_accept-proposals :
    {N : Type 0} (an : Str → ProposalCreate → N → Result Error (Str × N)) (project_id id : Str)
    (p : ProposalCreate) (applied_id now : Str) (s : Tables N) {o : Option WritebackProposal}
    {s' : Tables N}
    → p.action ≡ update_action
    → finish_accept an project_id id p applied_id now s ≡ ok (o, s')
    → (s'.canon ≡ s.canon)
      × (o ≡ get_writeback project_id id s'.proposals)
      × ((p' id' : Str)
          → get_writeback p' id' s'.proposals
            ≡ Option.map
                (decided project_id id p.target_record_id applied_id now)
                (get_writeback p' id' s.proposals))
unfolding finish_accept mark_writeback_accepted
finish_accept-proposals {N = N} an project_id id p applied_id now s {o = o} {s' = s'} act h =
    elim (Bool-cases
      (rowcount (has_key_and_status project_id id pending_review) s.proposals == 0)) [
        | inl lost ↦ absurd (err-ne-ok (rw lost at h))
        | inr met ↦
            let done = ok_injective (rw met at h) in
            let kept = ap (λ (x : Option WritebackProposal × Tables N). x.1.proposals) done in
            (
              ap (λ (x : Option WritebackProposal × Tables N). x.1.canon) (sym done),
              ap (λ (x : Option WritebackProposal × Tables N). x.0) (sym done)
                  ∙ ap (get_writeback project_id id) kept,
              λ p' id'.
                  ap (get_writeback p' id') (sym kept)
                  ∙ ap (get_writeback p' id')
                      (supersede_siblings-update an project_id id p now _ act)
                  ∙ get_writeback-decided project_id id p.target_record_id applied_id now p' id'
                      s.proposals,
            )
      ]

pub writeback_key :
    (project_id id : Str) (t : List WritebackProposal) {r : WritebackProposal}
    → get_writeback project_id id t ≡ some r
    → (r.project_id ≡ project_id) × (r.id ≡ id)
unfolding get_writeback
writeback_key project_id id t h = get_sound project_id id t h

pub decided_sibling :
    (project_id id rid applied_id now : Str) (r : WritebackProposal)
    → r.project_id ≡ project_id
    → r.id ≢ id
    → r.status ≡ pending_review
    → r.proposal.target ≡ canon_entity
    → r.proposal.action ≡ update_action
    → r.proposal.target_record_id ≡ rid
    → decided project_id id rid applied_id now r ≡ set_review superseded now r
decided_sibling project_id id rid applied_id now r hp hi hs ht ha hr = ground arith

pub accept_found_accepted :
    {N : Type 0} (an : Str → ProposalCreate → N → Result Error (Str × N)) (project_id id now : Str)
    (p : WritebackProposal) (s : Tables N)
    → p.status ≡ accepted
    → accept_found an project_id id now p s ≡ ok (some p, s)
unfolding accept_found
accept_found_accepted an project_id id now p s h = ground arith

pub accept_found_superseded :
    {N : Type 0} (an : Str → ProposalCreate → N → Result Error (Str × N)) (project_id id now : Str)
    (p : WritebackProposal) (s : Tables N)
    → p.status ≡ superseded
    → accept_found an project_id id now p s
      ≡ err (value_error (codes "Write-back proposal is already reviewed."))
unfolding accept_found
accept_found_superseded an project_id id now p s h = ground arith
