-- ===== src/Memory.antt =====
-- The continuity and style records: `MemoryRepository`
-- (backend/app/data/repositories/memory.py) on the rows of `memory_records` in rowid order, and the
-- classes of backend/app/domain_models/memory.py.
use ai_writing.Common.{
  Bool, ◌&&◌, not, Option, none, some, List, [], ◌∷◌, ◌++◌, map, Str, codes, str_lt, leb, length,
  ◌==◌, list_eq, nat_eq, contains, if◌then◌else◌,
}
use ai_writing.Common.Results.{Result, ok, err, ◌>>=◌}
use ai_writing.Data.Errors.{Error, validation_error}
use ai_writing.Data.RecordId.{make_record_id}
use ai_writing.Canon.{strip}
use ai_writing.Sql.{select, update, rowcount, delete, order_by}

-- `MemoryRecordCreate`, which is also `MemoryRecordUpdate`.
pub record MemoryFields : Type 0 where
  pub record_type : Str
  pub title : Str
  pub scope : Str
  pub content : Str
  pub tags : Str
  pub source_ref : Str

pub record MemoryRecord : Type 0 where
  pub id : Str
  pub project_id : Str
  pub fields : MemoryFields

-- `MemoryRecordType`
abbrev pub memory_record_types : List Str
memory_record_types =
    codes "chapter_summary" ∷ codes "prose_sample" ∷ codes "voice_sample" ∷ codes "style_rule" ∷ []

unfoldable pub is_valid : MemoryFields → Bool
is_valid f =
    contains memory_record_types f.record_type
    && leb 1 (length f.title)
    && leb (length f.title) 160
    && leb (length f.scope) 160
    && leb 1 (length f.content)
    && leb (length f.content) 12000
    && leb (length f.tags) 1000
    && leb (length f.source_ref) 160

unfoldable pub normalized : MemoryFields → MemoryFields
normalized f = record {
  record_type = f.record_type;
  title = strip f.title;
  scope = strip f.scope;
  content = strip f.content;
  tags = strip f.tags;
  source_ref = strip f.source_ref;
}

-- The construction of a model object.
unfoldable pub validate : MemoryFields → Result Error MemoryFields
validate f = if is_valid f then ok (normalized f) else err validation_error

-- `WHERE project_id = ? AND id = ?`
abbrev pub has_key : Str → Str → MemoryRecord → Bool
has_key project_id id r = r.project_id == project_id && r.id == id

-- `ORDER BY record_type, title`
unfoldable pub list_records : Str → List MemoryRecord → List MemoryRecord
list_records project_id t =
    order_by
      (λ a b.
        if a.fields.record_type == b.fields.record_type
        then str_lt a.fields.title b.fields.title
        else str_lt a.fields.record_type b.fields.record_type)
      (select (λ r. r.project_id == project_id) t)

unfoldable pub create :
    Str → MemoryFields → List MemoryRecord → Result Error (MemoryRecord × List MemoryRecord)
create project_id f t = do
  valid ← validate f
  let created : MemoryRecord = record {
    id =
        make_record_id (project_id ++ codes "-" ++ f.record_type ++ codes "-" ++ f.title)
          (map (λ (r : MemoryRecord). r.id) t);
    project_id = project_id;
    fields = valid;
  }
  ok (created, t ++ created ∷ [])

-- `SET record_type = ?, …, source_ref = ?`
abbrev pub set_fields : MemoryFields → MemoryRecord → MemoryRecord
set_fields f r = record r { fields = f }

unfoldable pub update_record :
    Str
    → Str
    → MemoryFields
    → List MemoryRecord
    → Result Error (Option MemoryRecord × List MemoryRecord)
update_record project_id id f t = do
  valid ← validate f
  let updated : MemoryRecord = record { id = id; project_id = project_id; fields = valid }
  ok (
    if rowcount (has_key project_id id) t == 0 then none else some updated,
    update (has_key project_id id) (set_fields valid) t,
  )

unfoldable pub delete_record : Str → Str → List MemoryRecord → Bool × List MemoryRecord
delete_record project_id id t =
    (not (rowcount (has_key project_id id) t == 0), delete (has_key project_id id) t)
