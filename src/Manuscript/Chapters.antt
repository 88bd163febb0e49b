-- ===== src/Manuscript/Chapters.antt =====
-- The chapters of `ManuscriptRepository` (backend/app/data/repositories/manuscript.py). The table
-- has UNIQUE (project_id, sequence).
use ai_writing.Common.{
  ℕ, Bool, ◌&&◌, not, Option, none, some, List, [], ◌∷◌, ◌++◌, map, Str, codes, decimal, ltb, ◌==◌,
  list_eq, nat_eq, if◌then◌else◌,
}
use ai_writing.Common.Results.{Result, ok, err}
use ai_writing.Data.Errors.{Error, integrity_error}
use ai_writing.Data.RecordId.{make_record_id}
use ai_writing.Sql.{select, update, rowcount, delete, order_by}
use ai_writing.Manuscript.{Chapter}

-- `WHERE project_id = ? AND id = ?`
abbrev pub has_key : Str → Str → Chapter → Bool
has_key project_id id c = c.project_id == project_id && c.id == id

-- The key of the UNIQUE constraint.
abbrev pub has_sequence : Str → ℕ → Chapter → Bool
has_sequence project_id sequence c = c.project_id == project_id && c.sequence == sequence

unfoldable pub list_chapters : Str → List Chapter → List Chapter
list_chapters project_id t =
    order_by (λ a b. ltb a.sequence b.sequence) (select (λ c. c.project_id == project_id) t)

unfoldable pub new_chapter : Str → ℕ → Str → Str → List Chapter → Chapter
new_chapter project_id sequence title summary t = record {
  id =
      make_record_id (project_id ++ codes "-chapter-" ++ decimal sequence ++ codes "-" ++ title)
        (map (λ (c : Chapter). c.id) t);
  project_id = project_id;
  sequence = sequence;
  title = title;
  summary = summary;
}

unfoldable pub create_chapter :
    Str → ℕ → Str → Str → List Chapter → Result Error (Chapter × List Chapter)
create_chapter project_id sequence title summary t =
    let created = new_chapter project_id sequence title summary t in
    if rowcount (has_sequence project_id sequence) t == 0
    then ok (created, t ++ created ∷ [])
    else err integrity_error

-- `SET sequence = ?, title = ?, summary = ?`
abbrev pub set_chapter : ℕ → Str → Str → Chapter → Chapter
set_chapter sequence title summary c = record c {
  sequence = sequence;
  title = title;
  summary = summary;
}

-- An update that would give two chapters of a project one sequence fails.
unfoldable pub update_chapter :
    Str → Str → ℕ → Str → Str → List Chapter → Result Error (Option Chapter × List Chapter)
update_chapter project_id id sequence title summary t =
    let updated : Chapter = record {
      id = id;
      project_id = project_id;
      sequence = sequence;
      title = title;
      summary = summary;
    } in
    if rowcount (has_key project_id id) t == 0
    then ok (none, t)
    else if rowcount (λ c. has_sequence project_id sequence c && not (c.id == id)) t == 0
    then ok (some updated, update (has_key project_id id) (set_chapter sequence title summary) t)
    else err integrity_error

unfoldable pub delete_chapter : Str → Str → List Chapter → Bool × List Chapter
delete_chapter project_id id t =
    (not (rowcount (has_key project_id id) t == 0), delete (has_key project_id id) t)
