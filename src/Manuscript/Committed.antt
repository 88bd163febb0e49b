-- ===== src/Manuscript/Committed.antt =====
-- What the manuscript flows commit (backend/app/data/transactions/manuscript.py).
use mathlib.Core.Path.{subst}
use ai_writing.Common.{
  ℕ, ◌+◌, ◌≡◌, refl, ◌∙◌, sym, ap, inl, inr, true, Option, some, List, [], ◌∷◌, ◌++◌, Str, list_eq,
  nat_eq, arith, Bool-cases,
}
use ai_writing.Common.Results.{ok, >>=-eq-ok, ok_injective, err-ne-ok}
use ai_writing.Review.{review_status_eq}
use ai_writing.Manuscript.{Proposal, Scene, Revision, Store}
use ai_writing.Manuscript.Scenes.{
  get_scene, get_scene_version, of_version, insert_revision, upsert_scene,
}
use ai_writing.Manuscript.Scenes.Laws.{IsWritten, upsert_scene-IsWritten}
use ai_writing.Manuscript.Jobs.{enqueue_committed_revision_jobs}
use ai_writing.Manuscript.Flows.{
  Draft, next_version, revision_of, revision_id, file_revision, commit_scene, accepted_scene,
  mark_accepted, accept_pending, restored_scene, restore_found, is_stale,
}
use ai_writing.Manuscript.History.{IsHistory, IsNewer, extend}

-- What `file_revision` leaves of the tables.
pub record IsFiled (r : Revision) (s s' : Store) : Type 0 where
  pub scenes : s'.scenes ≡ s.scenes
  pub revisions : s'.revisions ≡ s.revisions ++ r ∷ []
  pub proposals : s'.proposals ≡ s.proposals

pub file_revision-IsFiled :
    (r : Revision) (now : Str) (s : Store) {s' : Store}
    → file_revision r now s ≡ ok s'
    → IsFiled r s s'
unfolding file_revision insert_revision enqueue_committed_revision_jobs
file_revision-IsFiled r now s {s' = s'} h = record {
  scenes = ground arith;
  revisions = ground arith;
  proposals = ground arith;
}

-- `x` has the version that follows the one of its scene.
abbrev pub IsNext : List Scene → Scene → Type 0
IsNext t x = x.version ≡ next_version (get_scene_version x.project_id x.scene_id t)

pub next_found :
    (t : List Scene) (x : Scene) {y : Scene}
    → get_scene x.project_id x.scene_id t ≡ some y
    → next_version (get_scene_version x.project_id x.scene_id t) ≡ y.version + 1
unfolding get_scene_version
next_found t x h = rw (h, get_scene_version) refl

pub IsNext-IsNewer : (t : List Scene) (x : Scene) → IsNext t x → IsNewer t x
IsNext-IsNewer t x e y found = omega (arith, e, next_found t x found)

-- What a flow that commits the scene `x` does.
pub record IsCommitted (x : Scene) (s s' : Store) : Type 0 where
  pub history : IsHistory s.scenes s.revisions → IsHistory s'.scenes s'.revisions
  pub written : IsWritten x.project_id x.scene_id x s.scenes s'.scenes
  pub proposals : s'.proposals ≡ s.proposals

-- A row that is written and a revision of it that is filed.
pub filed-IsCommitted :
    (x : Scene) (r : Revision) (t : List Scene) (s : Store) {s' : Store}
    → IsNext s.scenes x
    → IsWritten x.project_id x.scene_id x s.scenes t
    → of_version x.project_id x.scene_id x.version r ≡ true
    → r.title ≡ x.title
    → r.content ≡ x.content
    → IsFiled r (record s { scenes = t }) s'
    → IsCommitted x s s'
filed-IsCommitted x r t s {s' = s'} next written key title content filed = record {
  history = λ h.
      subst (λ u. IsHistory u s'.revisions) (sym filed.scenes)
        (subst (IsHistory t) (sym filed.revisions) (
          extend x r s.scenes t s.revisions (IsNext-IsNewer s.scenes x next) written key title
            content h));
  written = subst (IsWritten x.project_id x.scene_id x s.scenes) (sym filed.scenes) written;
  proposals = filed.proposals;
}

pub of_version_own :
    (p s : Str) (v : ℕ) (r : Revision)
    → r.project_id ≡ p
    → r.scene_id ≡ s
    → r.version ≡ v
    → of_version p s v r ≡ true
of_version_own p s v r hp hs hv = ground arith

pub commit_scene-IsCommitted :
    (x : Scene) (now : Str) (s : Store) {s' : Store}
    → IsNext s.scenes x
    → commit_scene x now s ≡ ok s'
    → IsCommitted x s s'
unfolding commit_scene
commit_scene-IsCommitted x now s {s' = s'} next h =
    let (t, placed, filed) = >>=-eq-ok (upsert_scene x s.scenes) _ h in
    let r = revision_of (revision_id x.project_id x.scene_id x.version s.revisions) x now in
    filed-IsCommitted x r t s next (upsert_scene-IsWritten x s.scenes placed)
      (of_version_own x.project_id x.scene_id x.version r refl refl refl) refl refl
      (file_revision-IsFiled r now (record s { scenes = t }) filed)

-- What a flow that commits the scene `x` returns: the row of the scene, and the store `s'`.
pub record IsReturned (x : Scene) (o : Option Scene) (s s' : Store) : Type 0 where
  pub row : Scene
  pub returned : o ≡ some row
  pub version : row.version ≡ x.version
  pub title : row.title ≡ x.title
  pub content : row.content ≡ x.content
  pub history : IsHistory s.scenes s.revisions → IsHistory s'.scenes s'.revisions

pub read-IsReturned :
    (x : Scene) (o : Option Scene) (s c s' : Store)
    → IsCommitted x s c
    → get_scene x.project_id x.scene_id c.scenes ≡ o
    → s'.scenes ≡ c.scenes
    → s'.revisions ≡ c.revisions
    → IsReturned x o s s'
read-IsReturned x o s c s' done read scenes revisions = record {
  row = done.written.row;
  returned = sym read ∙ done.written.found;
  version = done.written.version;
  title = done.written.title;
  content = done.written.content;
  history = λ h.
      subst (λ u. IsHistory u s'.revisions) (sym scenes)
        (subst (IsHistory c.scenes) (sym revisions) (done.history h));
}

pub accept_pending-IsReturned :
    (p id : Str) (d : Option Draft) (now : Str) (q : Proposal) (s : Store) {o : Option Scene}
    {s' : Store}
    → accept_pending p id d now q s ≡ ok (o, s')
    → IsReturned (accepted_scene p d q now s) o s s'
unfolding accept_pending mark_accepted accepted_scene
accept_pending-IsReturned p id d now q s {o = o} {s' = s'} h =
    elim (Bool-cases (is_stale d (get_scene_version p q.scene_id s.scenes))) [
      | inl stale ↦ absurd (err-ne-ok (rw stale at h))
      | inr fresh ↦
          let (c, commit, e) =
            >>=-eq-ok (commit_scene (accepted_scene p d q now s) now s) _ (rw fresh at h) in
          let done = ok_injective e in
          read-IsReturned (accepted_scene p d q now s) o s c s'
            (commit_scene-IsCommitted (accepted_scene p d q now s) now s refl commit)
            (ap (λ r. r.0) done) (ap (λ (r : Option Scene × Store). r.1.scenes) (sym done))
            (ap (λ (r : Option Scene × Store). r.1.revisions) (sym done))
    ]

pub restore_found-IsReturned :
    (p : Str) (now : Str) (r : Revision) (s : Store) {o : Option Scene} {s' : Store}
    → restore_found p now r s ≡ ok (o, s')
    → IsReturned (restored_scene p r now s) o s s'
unfolding restore_found restored_scene
restore_found-IsReturned p now r s {o = o} {s' = s'} h =
    let (c, commit, e) = >>=-eq-ok (commit_scene (restored_scene p r now s) now s) _ h in
    let done = ok_injective e in
    read-IsReturned (restored_scene p r now s) o s c s'
      (commit_scene-IsCommitted (restored_scene p r now s) now s refl commit) (ap (λ r. r.0) done)
      (ap (λ (r : Option Scene × Store). r.1.scenes) (sym done))
      (ap (λ (r : Option Scene × Store). r.1.revisions) (sym done))
