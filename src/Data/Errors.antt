-- ===== src/Data/Errors.antt =====
-- The exceptions that the data layer raises, and the transaction that rolls back on one
-- (backend/app/data/unit_of_work.py).
use ai_writing.Common.{ℕ, Str, Option, ◌≡◌, arith}
use ai_writing.Common.Results.{Result, ok, err}
use ai_writing.Review.{InvalidReviewTransitionError}

pub data Error : Type 0 where
  invalid_review_transition : InvalidReviewTransitionError → Error
  value_error : Str → Error
  lookup_error : Str → Error
  writeback_target_missing : Str → Error
  writeback_version_conflict : Str → Option ℕ → ℕ → Error
  concurrent_canon_update : Str → Str → Error
  integrity_error : Error
  validation_error : Error
  attribute_error : Error
  assertion_error : Error
  resource_not_found : Str → Error
  state_conflict : Str → Error
  invalid_operation : Str → Error
  snowflake_revision_not_found : Error
  snowflake_revision_state : Error
  snowflake_head_conflict : Error
  snowflake_revision_validation : Error
  scene_proposal_not_found : Str → Error
  scene_proposal_reviewed : Str → Error
  scene_sequence_conflict : Str → Error
  scene_chapter_missing : Str → Error
  scene_proposal_quality : Str → Error

-- A review violation passes through the data layer unchanged.
abbrev pub from_review {ℓ} : {A : Type ℓ} → Result InvalidReviewTransitionError A → Result Error A
from_review (ok a) = ok a
from_review (err e) = err (invalid_review_transition e)

-- A statement on a connection: the result and the state after it, or an exception.
abbrev pub Action {ℓ κ} : Type ℓ → Type κ → Type (ℓ ⊔ κ)
Action S A = S → Result Error (A × S)

infixl 5 ◌>>=◌ ◌>>◌
abbrev pub ◌>>=◌ {ℓ κ μ} :
    {S : Type ℓ} {A : Type κ} {B : Type μ} → Action S A → (A → Action S B) → Action S B
◌>>=◌ m f s = elim (m s) [ ok r ↦ f r.0 r.1 | err e ↦ err e ]

abbrev pub ◌>>◌ {ℓ κ} : {S : Type ℓ} {B : Type κ} → Action S (Unit {0}) → Action S B → Action S B
m >> k = m >>= λ _. k

abbrev pub pure {ℓ κ} : {S : Type ℓ} {A : Type κ} → A → Action S A
pure a s = ok (a, s)

abbrev pub raise {ℓ κ} : {S : Type ℓ} {A : Type κ} → Error → Action S A
raise e s = err e

-- A call that neither reads nor writes the tables.
abbrev pub lift {ℓ κ} : {S : Type ℓ} {A : Type κ} → Result Error A → Action S A
lift (ok a) s = ok (a, s)
lift (err e) s = err e

abbrev pub gets {ℓ κ} : {S : Type ℓ} {A : Type κ} → (S → A) → Action S A
gets f s = ok (f s, s)

abbrev pub modify {ℓ} : {S : Type ℓ} → (S → S) → Action S (Unit {0})
modify f s = ok (tt, f s)

-- `with SqliteUnitOfWork(...)`: a clean exit commits, an exception rolls back and is raised on.
unfoldable pub transaction {ℓ κ} : {S : Type ℓ} {A : Type κ} → Action S A → S → Result Error A × S
transaction m s = elim (m s) [ ok r ↦ (ok r.0, r.1) | err e ↦ (err e, s) ]

-- What a transaction that raises has read or written is gone.
pub transaction_rollback {ℓ κ} :
    {S : Type ℓ} {A : Type κ} (m : Action S A) (s : S) {e : Error}
    → (transaction m s).0 ≡ err e
    → (transaction m s).1 ≡ s
unfolding transaction
transaction_rollback m s h = ground arith
