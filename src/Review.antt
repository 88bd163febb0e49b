-- ===== src/Review.antt =====
-- The status transitions that every reviewable record shares (backend/app/review/state_machine.py)
-- and `decide` of backend/app/review/service.py. A status is one of the four literals of
-- `ReviewStatus`, which the models of the rows enforce.
pub mod Transitions
pub mod Status
use ai_writing.Common.{
  Str, Bool, List, [], ◌∷◌, if◌then◌else◌, Eq, ◌==◌, contains, true, false, not,
}
use ai_writing.Common.Results.{Result, ok, err, ◌>>=◌, ◌>>◌}

pub data ReviewStatus : Type 0 where
  pending_review accepted rejected superseded : ReviewStatus

unfoldable pub ReviewStatus-discrete : Discrete ReviewStatus
ReviewStatus-discrete = hlevel

instance abbrev pub review_status_eq : Eq ReviewStatus
review_status_eq = record { dec = ReviewStatus-discrete }

-- `REVIEW_TRANSITIONS`
unfoldable pub review_transitions : ReviewStatus → List ReviewStatus
review_transitions pending_review = accepted ∷ rejected ∷ superseded ∷ []
review_transitions accepted = []
review_transitions rejected = []
review_transitions superseded = []

-- `InvalidReviewTransitionError`, with the attributes that its message is built from.
pub record InvalidReviewTransitionError : Type 0 where
  pub current : ReviewStatus
  pub target : ReviewStatus
  pub subject : Str

-- The truth value of a set.
abbrev truthy : List ReviewStatus → Bool
truthy [] = false
truthy (_ ∷ _) = true

unfoldable pub is_terminal_review_status : ReviewStatus → Bool
unfolding review_transitions
is_terminal_review_status status = not (truthy (review_transitions status))

unfoldable pub validate_review_transition :
    ReviewStatus → ReviewStatus → Str → Result InvalidReviewTransitionError (Unit {0})
unfolding review_transitions
validate_review_transition current target subject =
    if current == target
    then ok tt
    else if contains (review_transitions current) target
    then ok tt
    else err (record { current = current; target = target; subject = subject })

unfoldable pub decide :
    ReviewStatus → ReviewStatus → Str → Result InvalidReviewTransitionError ReviewStatus
unfolding validate_review_transition
decide current target subject = do validate_review_transition current target subject; ok target
