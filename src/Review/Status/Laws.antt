-- ===== src/Review/Status/Laws.antt =====
-- What the status write of the review tables does, on every branch.
use ai_writing.Common.{
  ◌≡◌, refl, ◌≢◌, inl, inr, true, Option, none, some, List, Str, ◌==◌, list_eq, nat_eq,
  if◌then◌else◌, arith, Option-cases,
}
use ai_writing.Common.Results.{ok, err}
use ai_writing.Review.{ReviewStatus, pending_review, review_status_eq, validate_review_transition}
use ai_writing.Data.Errors.{Action, invalid_review_transition}
use ai_writing.Sql.{update}
use ai_writing.Sql.Laws.{updated, select_one-update, select_one_sound, rowcount_pos}
use ai_writing.Review.Status.{
  Reviewable, has_key, get, has_key_and_status, write_status, update_found, update_status,
}

module _ {R : Type 0} ⦃v : Reviewable R⦄ where
  -- `set_review` keeps the key of a row.
  has_key-set_review :
      (project_id id : Str) (s : ReviewStatus) (now : Str) (r : R)
      → has_key project_id id (v.set_review s now r) ≡ has_key project_id id r
  has_key-set_review project_id id s now r =
      rw (v.id-set_review s now r, v.project_id-set_review s now r) refl

  -- A row that `get` finds has the key.
  pub get_sound :
      (project_id id : Str) (t : List R) {r : R}
      → get project_id id t ≡ some r
      → (v.project_id r ≡ project_id) × (v.id r ≡ id)
  unfolding get
  get_sound project_id id t {r = r} h = ground (arith, select_one_sound (has_key project_id id) t h)

  -- After the write every read finds the row that it found before, with the new status on the
  -- row of the key.
  pub get-write :
      (project_id id p' id' : Str) (current target : ReviewStatus) (now : Str) (t : List R)
      → get p' id' (update (has_key_and_status project_id id current) (v.set_review target now) t)
        ≡ mathlib.Core.Option.map
            (updated (has_key_and_status project_id id current) (v.set_review target now))
            (get p' id' t)
  unfolding get
  get-write project_id id p' id' current target now t =
      select_one-update (has_key p' id') _ _ t (has_key-set_review p' id' target now)

  module _ (subject : Str) (lost : Action (List R) (Option R)) (project_id id : Str)
      (target : ReviewStatus) (now : Str) (t : List R) where
    -- No row: the method returns `None` and writes nothing.
    pub update_status_missing :
        get project_id id t ≡ none
        → update_status subject lost project_id id target now t ≡ ok (none, t)
    unfolding update_status
    update_status_missing h = rw (h, update_status)

    module _ (current : R) (found : get project_id id t ≡ some current) where
      abbrev written : List R
      written =
          update (has_key_and_status project_id id (v.status current)) (v.set_review target now) t

      key_and_status : has_key_and_status project_id id (v.status current) current ≡ true
      key_and_status = ground (arith, get_sound project_id id t found)

      -- In one transaction the WHERE clause still meets the row that was read.
      write_status_lem :
          write_status lost project_id id (v.status current) target now t
          ≡ ok (some (v.set_review target now current), written)
      unfolding write_status get
      write_status_lem = ground (
        arith,
        found,
        rowcount_pos (has_key_and_status project_id id (v.status current)) (has_key project_id id) t
            found key_and_status,
        get-write project_id id project_id id (v.status current) target now t,
        key_and_status,
      )

      pub update_status_found : update_status subject lost project_id id target now t ≡ (
          if v.status current == target
          then ok (some current, t)
          else if v.status current == pending_review
          then ok (some (v.set_review target now current), written)
          else err (
              invalid_review_transition
                (record { current = v.status current; target = target; subject = subject })))
      unfolding update_status update_found validate_review_transition
      update_status_found = rw (found, update_status) (ground (arith, write_status_lem))

-- A record that is not pending is read unchanged after any status update that does not raise.
pub update_status_keeps_decided :
    {R : Type 0} ⦃v : Reviewable R⦄ (subject : Str) (lost : Action (List R) (Option R))
    (project_id id : Str) (target : ReviewStatus) (now : Str) (t : List R) {r : R} {o : Option R}
    {t' : List R} (p' id' : Str)
    → get p' id' t ≡ some r
    → v.status r ≢ pending_review
    → update_status subject lost project_id id target now t ≡ ok (o, t')
    → get p' id' t' ≡ some r
update_status_keeps_decided ⦃v⦄ subject lost project_id id target now t {r = r} {o = o} {t' = t'} p'
      id' h decided done =
    elim (Option-cases (get project_id id t)) [
      | inl missing ↦
          ground (arith, update_status_missing subject lost project_id id target now t missing)
      | inr (current, found) ↦ ground (
        arith,
        update_status_found subject lost project_id id target now t current found,
        get-write project_id id p' id' (v.status current) target now t,
      )
    ]
