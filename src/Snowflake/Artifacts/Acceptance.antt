-- ===== src/Snowflake/Artifacts/Acceptance.antt =====
-- The rows and heads that the acceptance of a revision leaves (`accept_revision`, `mark_stale`,
-- backend/app/data/repositories/snowflake.py).
use ai_writing.Common.{
  ℕ, ◌≡◌, refl, ap, ◌∙◌, ◌&&◌, not, some, List, Str, is_empty, contains, ◌==◌, list_eq, nat_eq,
  if◌then◌else◌, arith, inl, inr, Bool-cases,
}
use ai_writing.Common.Results.{ok}
use ai_writing.Sql.{select_one, update}
use ai_writing.Sql.Laws.{select_one-update, select_one_sound}
use ai_writing.Snowflake.{RevisionStatus, revision_status_eq}
use ai_writing.Snowflake.Artifacts.{
  ArtifactRevision, ArtifactHead, Snowflake, is_head, has_id, get_revision,
}
use ai_writing.Snowflake.Artifacts.Writes.{
  mark_stale, set_review, set_revision_status, supersede_head, approved_head, as_head, upsert_head,
}
use ai_writing.Snowflake.Artifacts.Staleness.{read, read-upsert_head, marked, read-mark_stale}

-- The open revision `r` after its acceptance.
abbrev pub accepted_revision : ArtifactRevision → Str → Str → ArtifactRevision
accepted_revision r reason now = set_review RevisionStatus.accepted reason now r

module _ (r : ArtifactRevision) (reason now : Str) (s : Snowflake)
    (there : get_revision r.project_id r.id s ≡ some r) where
  abbrev pub accepted : ArtifactRevision
  accepted = accepted_revision r reason now

  abbrev pub reviewed : Snowflake
  reviewed = record s {
    revisions =
        update (has_id r.project_id r.id) (set_review RevisionStatus.accepted reason now)
          s.revisions;
  }

  pub set_revision_status_lem :
      set_revision_status r.project_id r.id RevisionStatus.accepted reason now s
      ≡ ok (accepted, reviewed)
  unfolding set_revision_status get_revision
  set_revision_status_lem = ground (
    arith,
    there,
    select_one_sound (has_id r.project_id r.id) s.revisions there,
    select_one-update (has_id r.project_id r.id) (has_id r.project_id r.id)
        (set_review RevisionStatus.accepted reason now) s.revisions (λ q. refl),
  )

  -- The revision itself is not superseded.
  pub get_revision-supersede :
      (h : ArtifactHead)
      → select_one (has_id r.project_id r.id) (supersede_head accepted h reviewed.revisions)
        ≡ some accepted
  unfolding supersede_head get_revision
  get_revision-supersede h =
      let p = has_id r.project_id r.id in
      let first : select_one p reviewed.revisions ≡ some accepted = ground (
        arith,
        there,
        select_one_sound p s.revisions there,
        select_one-update p p (set_review RevisionStatus.accepted reason now) s.revisions
            (λ q. refl),
      ) in
      elim (Bool-cases
        (not (is_empty h.accepted_revision_id) && not (h.accepted_revision_id == r.id))) [
          | inr e ↦ rw e first
          | inl e ↦
              rw e (select_one-update p _ _ reviewed.revisions (λ q. refl) ∙ ground (arith, first))
        ]

-- The heads after the acceptance of `r`, where the affected steps are marked stale.
pub get_head-accepted :
    (r : ArtifactRevision) (affected : List ℕ) (reason trigger : Str) (heads : List ArtifactHead)
    (t : ℕ)
    → read r.project_id t (
        mark_stale r.project_id affected reason trigger
          (upsert_head (approved_head r) (as_head (approved_head r)) heads))
      ≡ (if contains affected t
          then marked reason trigger t
              (if r.step_number == t then approved_head r else read r.project_id t heads)
          else if r.step_number == t
          then approved_head r
          else read r.project_id t heads)
get_head-accepted r affected reason trigger heads t =
    let agrees : (h : ArtifactHead)
        → select_one (is_head r.project_id r.step_number) heads ≡ some h
        → approved_head r ≡ as_head (approved_head r) h =
      λ h e. ground (arith, select_one_sound (is_head r.project_id r.step_number) heads e) in
    read-mark_stale r.project_id affected reason trigger
      (upsert_head (approved_head r) (as_head (approved_head r)) heads) t
    ∙ ap (λ (x : ArtifactHead). if contains affected t then marked reason trigger t x else x)
        (read-upsert_head (approved_head r) (as_head (approved_head r)) r.project_id t heads
          (λ h. refl) refl agrees)
