-- ===== src/Review/Transitions.antt =====
-- Which decisions the state machine of review/state_machine.py lets through.
use ai_writing.Common.{Str, ◌≡◌, refl, ◌≢◌, ◌↔◌, ◌⊎◌, true, arith}
use ai_writing.Common.Results.{ok, err}
use ai_writing.Review.{
  ReviewStatus, pending_review, accepted, rejected, superseded, is_terminal_review_status, decide,
}

-- A decision is accepted exactly where the status is the target or is pending.
pub decide-eq-ok_iff :
    (current target : ReviewStatus) (subject : Str)
    → (decide current target subject ≡ ok target)
      ↔ ((current ≡ target) ⊎ (current ≡ pending_review))
unfolding decide
decide-eq-ok_iff pending_review target s = ground arith
decide-eq-ok_iff current target s = ground arith

-- A refused decision names the two statuses and the subject that it was asked about.
pub decide-eq-err :
    (current target : ReviewStatus) (subject : Str)
    → current ≢ target
    → current ≢ pending_review
    → decide current target subject
      ≡ err (record { current = current; target = target; subject = subject })
unfolding decide
decide-eq-err pending_review target s h k = ground arith
decide-eq-err current target s h k = ground arith

-- A status is terminal exactly where every accepted decision from it has it as its target.
pub is_terminal_iff :
    (status : ReviewStatus) (subject : Str)
    → (is_terminal_review_status status ≡ true)
      ↔ ((target : ReviewStatus) → decide status target subject ≡ ok target → target ≡ status)
unfolding decide is_terminal_review_status
is_terminal_iff pending_review s = (λ h. cc, λ all. ground (arith, all accepted))
is_terminal_iff accepted s = (λ h t e. ground arith, λ all. refl)
is_terminal_iff rejected s = (λ h t e. ground arith, λ all. refl)
is_terminal_iff superseded s = (λ h t e. ground arith, λ all. refl)

-- The statuses that decisions, one after another, can lead to.
pub data Reach (s : ReviewStatus) : ReviewStatus → Type 0 where
  here : Reach s s
  next : {t u : ReviewStatus} (subject : Str) → Reach s t → decide t u subject ≡ ok u → Reach s u

-- A status that is not pending is the only one that accepted decisions lead to from it.
pub Reach-decided : {s t : ReviewStatus} → s ≢ pending_review → Reach s t → t ≡ s
unfolding decide
Reach-decided h here = refl
Reach-decided {s = s} h (next {t = t} {u = u} subject r e) =
    ground (arith, Reach-decided h r, decide-eq-ok_iff t u subject)
