-- ===== src/Manuscript/Edits.antt =====
-- The manual edit of a scene (`update_manuscript_scene`,
-- backend/app/data/transactions/manuscript.py).
use ai_writing.Common.{
  ◌+◌, ◌≡◌, refl, sym, ap, Option, some, Str, inl, inr, ◌==◌, list_eq, nat_eq, Bool-cases,
}
use ai_writing.Common.Results.{ok, >>=-eq-ok, ok_injective, err-ne-ok}
use ai_writing.Manuscript.{Scene, Revision, Store}
use ai_writing.Manuscript.Scenes.{get_scene, update_scene_fields}
use ai_writing.Manuscript.Scenes.Laws.{update_scene_fields-IsWritten}
use ai_writing.Manuscript.Flows.{Draft, revision_of, revision_id, file_revision, update_found}
use ai_writing.Manuscript.Committed.{
  IsReturned, read-IsReturned, filed-IsCommitted, of_version_own, file_revision-IsFiled, next_found,
}

-- The row of a scene as the edit leaves it.
abbrev pub edited : Str → Str → Draft → Str → Scene → Scene
edited p sid d now current = record current {
  project_id = p;
  scene_id = sid;
  title = d.title;
  content = d.content;
  version = current.version + 1;
  accepted_at = now;
}

abbrev pub edit_revision : Str → Str → Draft → Str → Scene → Store → Revision
edit_revision p sid d now current s =
    revision_of (revision_id p sid (current.version + 1) s.revisions) (edited p sid d now current)
      now

pub update_found-IsReturned :
    (p sid : Str) (d : Draft) (now : Str) (current : Scene) (s : Store) {o : Option Scene}
    {s' : Store}
    → get_scene p sid s.scenes ≡ some current
    → update_found p sid d now current s ≡ ok (o, s')
    → IsReturned (edited p sid d now current) o s s'
unfolding update_found
update_found-IsReturned p sid d now current s {o = o} {s' = s'} found h =
    elim (Bool-cases (d.expected_scene_version == current.version)) [
      | inr stale ↦ absurd (err-ne-ok (rw stale at h))
      | inl fresh ↦
          let (c, filed, e) =
            >>=-eq-ok
              (file_revision (edit_revision p sid d now current s) now (record s {
                scenes =
                    update_scene_fields p sid d.title d.content (current.version + 1) now s.scenes;
              }))
              _ (rw fresh at h) in
          let done = ok_injective e in
          read-IsReturned (edited p sid d now current) o s c s'
            (filed-IsCommitted (edited p sid d now current) (edit_revision p sid d now current s)
              (update_scene_fields p sid d.title d.content (current.version + 1) now s.scenes) s
              (sym (next_found s.scenes (edited p sid d now current) found))
              (update_scene_fields-IsWritten (edited p sid d now current) s.scenes found)
              (of_version_own p sid (current.version + 1) (edit_revision p sid d now current s) refl
                refl refl)
              refl refl (file_revision-IsFiled _ now _ filed))
            (ap (λ r. r.0) done) (ap (λ (r : Option Scene × Store). r.1.scenes) (sym done))
            (ap (λ (r : Option Scene × Store). r.1.revisions) (sym done))
    ]
