-- ===== src/Tests/Review.antt =====
-- Reviews of manuscript proposals.
use ai_writing.Common.{
  ◌≡◌, refl, none, some, List, [], ◌∷◌, codes, ◌==◌, arith, if◌then◌else◌, list_dec, list_eq,
  nat_eq,
}
use ai_writing.Common.Results.{ok, err}
use ai_writing.Data.Errors.{value_error, invalid_review_transition}
use ai_writing.Review.{
  ReviewStatus-discrete, pending_review, accepted, rejected, review_status_eq, decide,
}
use ai_writing.Review.Status.{get, has_key_and_status, update_status}
use ai_writing.Review.Status.Laws.{update_status_found, update_status_keeps_decided}
use ai_writing.Sql.{select_one, update}
use ai_writing.Manuscript.{Proposal}
use ai_writing.Manuscript.Proposals.{set_review, proposal_reviewable}

abbrev proposal : Proposal
proposal = record {
  id = codes "q1";
  project_id = codes "p";
  scene_id = codes "s1";
  source = codes "scene_contract";
  title = codes "T";
  content = codes "C";
  context = [];
  checklist = [];
  status = pending_review;
  created_at = codes "t0";
  reviewed_at = [];
  generation_review = none;
}

abbrev kept : Proposal
kept = record proposal { id = codes "q2"; status = rejected }

abbrev proposals : List Proposal
proposals = proposal ∷ kept ∷ []

found : get (codes "p") (codes "q1") proposals ≡ some proposal
unfolding get select_one list_dec native.Mathlib.Decide.ℕ_discrete
found = refl

kept_found : get (codes "p") (codes "q2") proposals ≡ some kept
unfolding get select_one list_dec native.Mathlib.Decide.ℕ_discrete
kept_found = refl

update_status_found_example :
    update_status
      (codes "Proposal")
      (λ t. err (value_error []))
      (codes "p")
      (codes "q1")
      rejected
      (codes "t1")
      proposals
    ≡ (if pending_review == rejected
        then ok (some proposal, proposals)
        else if pending_review == pending_review
        then ok (
          some (set_review rejected (codes "t1") proposal),
          update
              (has_key_and_status (codes "p") (codes "q1") pending_review)
              (set_review rejected (codes "t1"))
              proposals,
        )
        else err (
            invalid_review_transition
              (record { current = pending_review; target = rejected; subject = codes "Proposal" })))
update_status_found_example =
    update_status_found (codes "Proposal") (λ t. err (value_error [])) (codes "p") (codes "q1")
      rejected (codes "t1") proposals proposal found

written :
    update_status
      (codes "Proposal")
      (λ t. err (value_error []))
      (codes "p")
      (codes "q1")
      rejected
      (codes "t1")
      proposals
    ≡ ok (
      some (set_review rejected (codes "t1") proposal),
      set_review rejected (codes "t1") proposal ∷ kept ∷ [],
    )
unfolding ReviewStatus-discrete update list_dec native.Mathlib.Decide.ℕ_discrete
written = update_status_found_example

update_status_keeps_decided_example :
    get (codes "p") (codes "q2") (set_review rejected (codes "t1") proposal ∷ kept ∷ []) ≡ some kept
update_status_keeps_decided_example =
    update_status_keeps_decided (codes "Proposal") (λ t. err (value_error [])) (codes "p")
      (codes "q1") rejected (codes "t1") proposals (codes "p") (codes "q2") kept_found (λ e. cc)
      written

same_decision : decide accepted accepted (codes "P") ≡ ok accepted
unfolding decide
same_decision = ground arith
