-- ===== src/Volumes.antt =====
-- The volumes that group chapters: `VolumeRepository` (backend/app/data/repositories/volumes.py) and
-- the classes of backend/app/domain_models/volume.py. A chapter is in one volume at most, which is the
-- primary key of the membership table. `hex` is the text that `uuid4` gives.
pub mod Membership
use ai_writing.Common.{
  ℕ, Bool, false, ◌&&◌, ◌||◌, not, Option, none, some, List, [], ◌∷◌, ◌++◌, map, Str, codes,
  is_empty, str_lt, ltb, contains, ◌==◌, list_eq, nat_eq, if◌then◌else◌,
}
use ai_writing.Common.Results.{Result, ok, err}
use ai_writing.Data.Errors.{Error, resource_not_found}
use ai_writing.Manuscript.{Chapter}
use ai_writing.Sql.{select, select_one, update, rowcount, delete, order_by}

-- `ManuscriptVolumeCreate`
pub record VolumeFields : Type 0 where
  pub sequence : ℕ
  pub title : Str

-- A row of `manuscript_volumes`.
pub record VolumeRow : Type 0 where
  pub id : Str
  pub project_id : Str
  pub fields : VolumeFields

-- `ManuscriptVolume`
pub record ManuscriptVolume : Type 0 where
  pub row : VolumeRow
  pub chapter_ids : List Str

-- A row of `manuscript_volume_chapters`.
pub record Member : Type 0 where
  pub project_id : Str
  pub chapter_id : Str
  pub volume_id : Str

pub record Volumes : Type 0 where
  pub volumes : List VolumeRow
  pub members : List Member

abbrev pub is_volume : Str → Str → VolumeRow → Bool
is_volume project_id id v = v.project_id == project_id && v.id == id

abbrev pub is_member : Str → Str → Member → Bool
is_member project_id chapter_id m = m.project_id == project_id && m.chapter_id == chapter_id

abbrev pub is_chapter : Str → Str → Chapter → Bool
is_chapter project_id id c = c.project_id == project_id && c.id == id

-- The volume of a chapter.
unfoldable pub volume_of : Str → Str → Volumes → Option Member
volume_of project_id chapter_id s = select_one (is_member project_id chapter_id) s.members

abbrev pub is_in : Str → Option Member → Bool
is_in volume_id none = false
is_in volume_id (some m) = m.volume_id == volume_id

-- `ORDER BY c.sequence, c.id` on the join of the memberships with the chapters; the membership of a
-- chapter is one row at most.
unfoldable pub chapter_ids : Str → Str → List Chapter → Volumes → List Str
chapter_ids project_id volume_id chapters s =
    map (λ (c : Chapter). c.id)
      (order_by (λ a b. ltb a.sequence b.sequence || (a.sequence == b.sequence && str_lt a.id b.id))
        (select (λ c. c.project_id == project_id && is_in volume_id (volume_of project_id c.id s))
          chapters))

abbrev pub with_chapters : List Chapter → Volumes → VolumeRow → ManuscriptVolume
with_chapters chapters s v = record {
  row = v;
  chapter_ids = chapter_ids v.project_id v.id chapters s;
}

-- `ORDER BY sequence, id`
unfoldable pub list_volumes : Str → List Chapter → Volumes → List ManuscriptVolume
list_volumes project_id chapters s = map (with_chapters chapters s) (
    order_by
      (λ a b.
        ltb a.fields.sequence b.fields.sequence
        || (a.fields.sequence == b.fields.sequence && str_lt a.id b.id))
      (select (λ v. v.project_id == project_id) s.volumes))

unfoldable pub create : Str → VolumeFields → Str → Volumes → ManuscriptVolume × Volumes
create project_id f hex s =
    let v : VolumeRow = record {
      id = codes "volume-" ++ hex;
      project_id = project_id;
      fields = f;
    } in
    (record { row = v; chapter_ids = [] }, record s { volumes = s.volumes ++ v ∷ [] })

-- The volume that was updated is in the list, so that `next` finds it.
unfoldable pub update_volume :
    Str
    → Str
    → VolumeFields
    → List Chapter
    → Volumes
    → Result Error (Option ManuscriptVolume × Volumes)
update_volume project_id id f chapters s =
    let s' : Volumes = record s {
      volumes = update (is_volume project_id id) (λ v. record v { fields = f }) s.volumes;
    } in
    if rowcount (is_volume project_id id) s.volumes == 0
    then err (resource_not_found (codes "Manuscript volume not found."))
    else ok (
      select_one (λ (v : ManuscriptVolume). v.row.id == id) (list_volumes project_id chapters s'),
      s',
    )

-- The memberships of the volume go with it.
unfoldable pub delete_volume : Str → Str → Volumes → Bool × Volumes
delete_volume project_id id s = (
  not (rowcount (is_volume project_id id) s.volumes == 0),
  record {
    volumes = delete (is_volume project_id id) s.volumes;
    members =
        if rowcount (is_volume project_id id) s.volumes == 0
        then s.members
        else delete (λ m. m.project_id == project_id && m.volume_id == id) s.members;
  },
)

-- `INSERT … ON CONFLICT(project_id, chapter_id) DO UPDATE SET volume_id = excluded.volume_id`
unfoldable pub upsert_member : Member → List Member → List Member
upsert_member m t =
    if rowcount (is_member m.project_id m.chapter_id) t == 0
    then t ++ m ∷ []
    else update (is_member m.project_id m.chapter_id)
        (λ old. record old { volume_id = m.volume_id }) t

-- `ChapterVolumeMembership` holds the two ids of the call.
unfoldable pub assign : Str → Str → Str → List Chapter → Volumes → Result Error Volumes
assign project_id chapter_id volume_id chapters s =
    let m : Member = record {
      project_id = project_id;
      chapter_id = chapter_id;
      volume_id = volume_id;
    } in
    if rowcount (is_chapter project_id chapter_id) chapters == 0
    then err (resource_not_found (codes "Chapter not found in this project."))
    else if is_empty volume_id
    then ok (record s { members = delete (is_member project_id chapter_id) s.members })
    else if rowcount (is_volume project_id volume_id) s.volumes == 0
    then err (resource_not_found (codes "Volume not found in this project."))
    else ok (record s { members = upsert_member m s.members })
