-- ===== src/Manuscript/Scenes.antt =====
-- The accepted scenes and the revisions of `ManuscriptRepository`
-- (backend/app/data/repositories/manuscript.py). `manuscript_scenes` has UNIQUE (project_id,
-- scene_id) and `manuscript_revisions` UNIQUE (project_id, scene_id, version), beside the ids.
pub mod Laws
use ai_writing.Common.{
  ℕ, Bool, ◌&&◌, ◌||◌, not, Option, none, some, List, [], ◌∷◌, ◌++◌, map, Str, str_lt, ◌==◌,
  list_eq, nat_eq, contains, if◌then◌else◌,
}
use ai_writing.Common.Results.{Result, ok, err}
use ai_writing.Data.Errors.{Error, integrity_error}
use ai_writing.Sql.{select, select_one, update, rowcount, order_by}
use ai_writing.Manuscript.{Scene, Revision, Contract, Store}

-- `WHERE project_id = ? AND scene_id = ?`
abbrev pub of_scene : Str → Str → Scene → Bool
of_scene project_id scene_id r = r.project_id == project_id && r.scene_id == scene_id

unfoldable pub list_scenes : Str → List Scene → List Scene
list_scenes project_id t =
    order_by
      (λ a b.
        if a.accepted_at == b.accepted_at
        then str_lt b.id a.id
        else str_lt b.accepted_at a.accepted_at)
      (select (λ r. r.project_id == project_id) t)

unfoldable pub get_scene : Str → Str → List Scene → Option Scene
get_scene project_id scene_id = select_one (of_scene project_id scene_id)

unfoldable pub get_scene_version : Str → Str → List Scene → Option ℕ
get_scene_version project_id scene_id t = elim (get_scene project_id scene_id t) [
  | none ↦ none
  | some r ↦ some r.version
]

-- `DO UPDATE SET …`: the row keeps its id.
abbrev pub overwrite : Scene → Scene → Scene
overwrite scene r = record r {
  proposal_id = scene.proposal_id;
  title = scene.title;
  content = scene.content;
  version = scene.version;
  accepted_at = scene.accepted_at;
}

-- `INSERT … ON CONFLICT(project_id, scene_id) DO UPDATE`; the id of another scene is an
-- IntegrityError.
unfoldable pub upsert_scene : Scene → List Scene → Result Error (List Scene)
upsert_scene scene t =
    let key = of_scene scene.project_id scene.scene_id in
    if rowcount (λ r. r.id == scene.id && not (key r)) t == 0
    then ok (if rowcount key t == 0 then t ++ scene ∷ [] else update key (overwrite scene) t)
    else err integrity_error

abbrev pub set_fields : Str → Str → ℕ → Str → Scene → Scene
set_fields title content version now r = record r {
  title = title;
  content = content;
  version = version;
  accepted_at = now;
}

unfoldable pub update_scene_fields : Str → Str → Str → Str → ℕ → Str → List Scene → List Scene
update_scene_fields project_id scene_id title content version now =
    update (of_scene project_id scene_id) (set_fields title content version now)

unfoldable pub list_scene_ids : List Scene → List Str
list_scene_ids t = map (λ (r : Scene). r.id) t

unfoldable pub list_revisions : Str → List Revision → List Revision
list_revisions project_id t =
    order_by
      (λ a b.
        if a.created_at == b.created_at then str_lt b.id a.id else str_lt b.created_at a.created_at)
      (select (λ r. r.project_id == project_id) t)

unfoldable pub get_revision : Str → Str → List Revision → Option Revision
get_revision project_id id = select_one (λ r. r.project_id == project_id && r.id == id)

-- `WHERE project_id = ? AND scene_id = ? AND version = ?`
abbrev pub of_version : Str → Str → ℕ → Revision → Bool
of_version project_id scene_id version r =
    r.project_id == project_id && r.scene_id == scene_id && r.version == version

abbrev pub plan_written : Contract → Contract
plan_written c = record c { manuscript_plan_version = c.plan_version }

-- The revision is filed, and its scene contract is marked as written.
unfoldable pub insert_revision : Revision → Store → Result Error Store
insert_revision revision s =
    if rowcount
        (λ r.
          r.id == revision.id
          || of_version revision.project_id revision.scene_id revision.version r)
        s.revisions
      == 0
    then ok (record s {
      revisions = s.revisions ++ revision ∷ [];
      contracts =
          update (λ c. c.project_id == revision.project_id && c.id == revision.scene_id)
            plan_written s.contracts;
    })
    else err integrity_error

unfoldable pub list_revision_ids : List Revision → List Str
list_revision_ids t = map (λ (r : Revision). r.id) t

unfoldable pub previous_revision_id : Str → Str → ℕ → List Revision → Option Str
previous_revision_id project_id scene_id version t =
    elim (select_one (of_version project_id scene_id version) t) [
      | none ↦ none
      | some r ↦ some r.id
    ]
