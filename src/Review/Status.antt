-- ===== src/Review/Status.antt =====
-- The status write that the review tables share: `update_writeback_status` and
-- `update_reference_status` (backend/app/data/repositories/review.py), `update_proposal_status`
-- (repositories/manuscript.py) and `update_status` (repositories/scene_proposals.py) read the row,
-- ask the state machine, and write with the status that they have read in the WHERE clause.
pub mod Laws
use ai_writing.Common.{
  ℕ, ◌≡◌, Bool, ◌&&◌, Option, none, some, List, Str, ◌==◌, list_eq, nat_eq, if◌then◌else◌,
}
use ai_writing.Common.Results.{Result, ok, err}
use ai_writing.Review.{ReviewStatus, review_status_eq, validate_review_transition}
use ai_writing.Data.Errors.{
  Error, Action, from_review, ◌>>=◌, ◌>>◌, pure, raise, lift, gets, modify,
}
use ai_writing.Sql.{select_one, update, rowcount}

-- A row that is reviewed: `set_review` is `SET status = ?, reviewed_at = ?`.
pub record Reviewable (R : Type 0) : Type 0 where
  pub id : R → Str
  pub project_id : R → Str
  pub status : R → ReviewStatus
  pub set_review : ReviewStatus → Str → R → R
  pub id-set_review : (s : ReviewStatus) (now : Str) (r : R) → id (set_review s now r) ≡ id r
  pub project_id-set_review :
      (s : ReviewStatus) (now : Str) (r : R) → project_id (set_review s now r) ≡ project_id r
  pub status-set_review : (s : ReviewStatus) (now : Str) (r : R) → status (set_review s now r) ≡ s

module _ {R : Type 0} ⦃v : Reviewable R⦄ where
  -- `WHERE project_id = ? AND id = ?`
  abbrev pub has_key : Str → Str → R → Bool
  has_key project_id id r = v.project_id r == project_id && v.id r == id

  -- `get_…(project_id, id)`
  unfoldable pub get : Str → Str → List R → Option R
  get project_id id = select_one (has_key project_id id)

  -- `WHERE project_id = ? AND id = ? AND status = ?`
  abbrev pub has_key_and_status : Str → Str → ReviewStatus → R → Bool
  has_key_and_status project_id id s r = has_key project_id id r && v.status r == s

  -- `if cursor.rowcount == 0`: where the write has met no row, `lost` says what the method does.
  unfoldable pub write_status :
      Action (List R) (Option R)
      → Str
      → Str
      → ReviewStatus
      → ReviewStatus
      → Str
      → Action (List R) (Option R)
  write_status lost project_id id current target now t =
      let p = has_key_and_status project_id id current in
      let t' = update p (v.set_review target now) t in
      if rowcount p t == 0 then lost t else ok (get project_id id t', t')

  -- The method on the row that `get` has found.
  unfoldable pub update_found :
      Str
      → Action (List R) (Option R)
      → Str
      → Str
      → ReviewStatus
      → Str
      → R
      → Action (List R) (Option R)
  update_found subject lost project_id id target now current t =
      if v.status current == target
      then ok (some current, t)
      else ((lift (from_review (validate_review_transition (v.status current) target subject))
            >> write_status lost project_id id (v.status current) target now)
          t)

  unfoldable pub update_status :
      Str → Action (List R) (Option R) → Str → Str → ReviewStatus → Str → Action (List R) (Option R)
  update_status subject lost project_id id target now t = elim (get project_id id t) [
    | none ↦ ok (none, t)
    | some current ↦ update_found subject lost project_id id target now current t
  ]
