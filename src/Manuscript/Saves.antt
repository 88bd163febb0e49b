-- ===== src/Manuscript/Saves.antt =====
-- A manual edit of the latest text is always saved (`update_manuscript_scene`,
-- backend/app/data/transactions/manuscript.py).
use ai_writing.Common.{
  ◌+◌, ◌≡◌, refl, ◌∙◌, sym, ap, true, false, ◌||◌, ◌&&◌, Option, some, List, [], ◌∷◌, ◌++◌, Str,
  ◌==◌, list_eq, nat_eq, arith, contains,
}
use ai_writing.Common.Results.{Result, ok, ◌>>=◌}
use ai_writing.Data.Errors.{Error}
use ai_writing.Data.RecordId.Fresh.{make_record_id_fresh}
use ai_writing.Sql.{rowcount, update}
use ai_writing.Sql.Laws.{rowcount-or, rowcount_zero}
use ai_writing.Manuscript.{Scene, Revision, Store}
use ai_writing.Manuscript.Scenes.{
  get_scene, of_version, list_revision_ids, insert_revision, update_scene_fields, plan_written,
}
use ai_writing.Manuscript.History.{IsHistory, unfiled}
use ai_writing.Manuscript.Jobs.{enqueue_committed_revision_jobs}
use ai_writing.Manuscript.Flows.{Draft, file_revision, update_found, update_manuscript_scene}
use ai_writing.Manuscript.Committed.{next_found, IsNext-IsNewer}
use ai_writing.Manuscript.Edits.{edited, edit_revision, update_found-IsReturned}

unnamed :
    (id : Str) (t : List Revision)
    → contains (list_revision_ids t) id ≡ false
    → rowcount (λ (r : Revision). r.id == id) t ≡ 0
unfolding list_revision_ids rowcount
unnamed id [] h = refl
unnamed id (r ∷ t) h = ground (arith, unnamed id t)

insert_revision-fits :
    (r : Revision) (s : Store)
    → rowcount (λ x. x.id == r.id || of_version r.project_id r.scene_id r.version x) s.revisions ≡ 0
    → (filed : Store) × (insert_revision r s ≡ ok filed)
unfolding insert_revision
insert_revision-fits r s free = (
  record s {
    revisions = s.revisions ++ r ∷ [];
    contracts =
        update (λ c. c.project_id == r.project_id && c.id == r.scene_id) plan_written s.contracts;
  },
  ground (arith, free),
)

module _ (p sid : Str) (d : Draft) (now : Str) (s : Store) {current : Scene}
    (history : IsHistory s.scenes s.revisions) (found : get_scene p sid s.scenes ≡ some current)
    (latest : d.expected_scene_version ≡ current.version) where
  abbrev new_revision : Revision
  new_revision = edit_revision p sid d now current s

  unclaimed :
      rowcount
        (λ r. r.id == new_revision.id || of_version p sid (current.version + 1) r)
        s.revisions
      ≡ 0
  unclaimed =
      rowcount-or (λ (r : Revision). r.id == new_revision.id)
        (of_version p sid (current.version + 1)) s.revisions
        (unnamed new_revision.id s.revisions
          (make_record_id_fresh _ (list_revision_ids s.revisions)))
        (rowcount_zero (of_version p sid (current.version + 1)) s.revisions (
          unfiled (edited p sid d now current) s.scenes s.revisions
            (IsNext-IsNewer s.scenes (edited p sid d now current)
              (sym (next_found s.scenes (edited p sid d now current) found)))
            history.past))

  abbrev written : Store
  written = record s {
    scenes = update_scene_fields p sid d.title d.content (current.version + 1) now s.scenes;
  }

  saved : (o : Option Scene) × (s' : Store) × (update_found p sid d now current s ≡ ok (o, s'))
  unfolding update_found file_revision
  saved =
      let (filed, inserted) = insert_revision-fits new_revision written unclaimed in
      let after = enqueue_committed_revision_jobs new_revision now filed in
      (
        get_scene p sid after.scenes,
        after,
        rw up_to_date (
            ap
              (λ (m : Result Error Store).
                (m >>= λ f. ok (enqueue_committed_revision_jobs new_revision now f)) >>= λ f.
                ok (get_scene p sid f.scenes, f))
              inserted),
      )
    where
      up_to_date : (d.expected_scene_version == current.version) ≡ true
      up_to_date = ground (arith, latest)

  -- In a store whose scenes have their revisions, an edit that names the version of a scene that
  -- is there never raises: it returns the scene at the next version with the title and content of
  -- the edit, and keeps the revisions of the scenes.
  pub update_manuscript_scene_lem :
      (s' : Store) × (row : Scene) × (update_manuscript_scene p sid d now s ≡ ok (some row, s'))
      × (row.version ≡ current.version + 1)
      × (row.title ≡ d.title)
      × (row.content ≡ d.content)
      × IsHistory s'.scenes s'.revisions
  unfolding update_manuscript_scene
  update_manuscript_scene_lem =
      let (o, s', e) = saved in
      let r = update_found-IsReturned p sid d now current s found e in
      (
        s',
        r.row,
        rw (found, update_manuscript_scene) (e ∙ ap (λ x. ok (x, s')) r.returned),
        r.version,
        r.title,
        r.content,
        r.history history,
      )
