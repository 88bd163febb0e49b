-- ===== src/Canon.antt =====
-- The confirmed facts of the story: `CanonRepository`
-- (backend/app/data/repositories/canon.py) on the list of the rows of `canon_entities` in rowid order,
-- and the classes of backend/app/domain_models/canon.py. The table has UNIQUE (project_id,
-- entity_type, name).
pub mod Versions
pub mod Edits
use ai_writing.Common.{
  ℕ, suc, zero, ◌+◌, Bool, true, false, ◌&&◌, ◌||◌, not, Option, none, some, List, [], ◌∷◌, ◌++◌,
  map, Str, codes, str_lt, leb, strip_by, length, ◌==◌, list_eq, nat_eq, contains, if◌then◌else◌,
}
use ai_writing.Common.Results.{Result, ok, err, ◌>>=◌}
use ai_writing.Data.Errors.{Error, validation_error, integrity_error, concurrent_canon_update}
use ai_writing.Data.RecordId.{make_record_id}
use ai_writing.Sql.{select, select_one, update, rowcount, delete, order_by}

-- `CanonEntityCreate`, which is also `CanonEntityUpdate`.
pub record CanonFields : Type 0 where
  pub entity_type : Str
  pub name : Str
  pub summary : Str
  pub current_state : Str
  pub constraints : Str
  pub last_seen : Str
  pub timeline_notes : Str

pub record CanonEntity : Type 0 where
  pub id : Str
  pub project_id : Str
  pub fields : CanonFields
  pub version : ℕ
  pub updated_at : Str

-- `CANON_ENTITY_TYPES` (backend/app/review/writeback_apply.py), the literals of `CanonEntityType`.
abbrev pub canon_entity_types : List Str
canon_entity_types =
    codes "character" ∷ codes "location" ∷ codes "item" ∷ codes "faction" ∷ codes "rule" ∷ []

-- `str.isspace` on one character, which is what `strip` takes off.
unfoldable pub is_space : ℕ → Bool
is_space c =
    (leb 9 c && leb c 13)
    || (leb 28 c && leb c 32)
    || c == 0x85
    || c == 0xa0
    || c == 0x1680
    || (leb 0x2000 c && leb c 0x200a)
    || (leb 0x2028 c && leb c 0x2029)
    || c == 0x202f
    || c == 0x205f
    || c == 0x3000

unfoldable pub strip : Str → Str
strip s = strip_by is_space s

-- The constraints of the class: they are tested before `normalize_text` strips the texts.
unfoldable pub is_valid : CanonFields → Bool
is_valid f =
    contains canon_entity_types f.entity_type
    && leb 1 (length f.name)
    && leb (length f.name) 120
    && leb (length f.summary) 1000
    && leb (length f.current_state) 4000
    && leb (length f.constraints) 4000
    && leb (length f.last_seen) 120
    && leb (length f.timeline_notes) 8000

unfoldable pub normalized : CanonFields → CanonFields
normalized f = record {
  entity_type = f.entity_type;
  name = strip f.name;
  summary = strip f.summary;
  current_state = strip f.current_state;
  constraints = strip f.constraints;
  last_seen = strip f.last_seen;
  timeline_notes = strip f.timeline_notes;
}

-- The construction of a model object: a constraint that fails is a ValidationError.
unfoldable pub validate : CanonFields → Result Error CanonFields
validate f = if is_valid f then ok (normalized f) else err validation_error

-- `WHERE project_id = ? AND id = ?`
abbrev pub has_key : Str → Str → CanonEntity → Bool
has_key project_id id e = e.project_id == project_id && e.id == id

-- `WHERE project_id = ? AND id = ? AND version = ?`
abbrev pub has_key_and_version : Str → Str → ℕ → CanonEntity → Bool
has_key_and_version project_id id version e = has_key project_id id e && e.version == version

-- The key of the UNIQUE constraint.
abbrev pub has_name : Str → CanonFields → CanonEntity → Bool
has_name project_id f e =
    e.project_id == project_id && e.fields.entity_type == f.entity_type && e.fields.name == f.name

-- `ORDER BY entity_type, name`
unfoldable pub list_entities : Str → List CanonEntity → List CanonEntity
list_entities project_id t =
    order_by
      (λ a b.
        if a.fields.entity_type == b.fields.entity_type
        then str_lt a.fields.name b.fields.name
        else str_lt a.fields.entity_type b.fields.entity_type)
      (select (λ e. e.project_id == project_id) t)

unfoldable pub get : Str → Str → List CanonEntity → Option CanonEntity
get project_id id = select_one (has_key project_id id)

-- The row of a new entity.
unfoldable pub new_entity : Str → CanonFields → CanonFields → Str → List CanonEntity → CanonEntity
new_entity project_id given f now t = record {
  id =
      make_record_id (project_id ++ codes "-" ++ given.entity_type ++ codes "-" ++ given.name)
        (map (λ (e : CanonEntity). e.id) t);
  project_id = project_id;
  fields = f;
  version = 1;
  updated_at = now;
}

-- `INSERT`; a name that the project has for this type of entity is an IntegrityError.
unfoldable pub insert_entity :
    CanonEntity → List CanonEntity → Result Error (CanonEntity × List CanonEntity)
insert_entity e t =
    if rowcount (has_name e.project_id e.fields) t == 0
    then ok (e, t ++ e ∷ [])
    else err integrity_error

unfoldable pub create :
    Str → CanonFields → Str → List CanonEntity → Result Error (CanonEntity × List CanonEntity)
create project_id f now t = do
  valid ← validate f
  insert_entity (new_entity project_id f valid now t) t

-- `SET entity_type = ?, …, version = ?, updated_at = ?`
abbrev pub set_entity : CanonEntity → CanonEntity → CanonEntity
set_entity updated e = record e {
  fields = updated.fields;
  version = updated.version;
  updated_at = updated.updated_at;
}

-- The UPDATE and its row count. A row that takes the name of another one is an IntegrityError.
unfoldable pub apply_cas_update :
    CanonEntity → ℕ → List CanonEntity → Result Error (ℕ × List CanonEntity)
apply_cas_update updated expected t =
    let p = has_key_and_version updated.project_id updated.id expected in
    let n = rowcount p t in
    let taken =
      rowcount (λ e. has_name updated.project_id updated.fields e && not (e.id == updated.id)) t in
    if n == 0
    then ok (0, t)
    else if taken == 0
    then ok (n, update p (set_entity updated) t)
    else err integrity_error

-- The entity that a try of `update` writes.
abbrev pub next_entity : Str → Str → CanonFields → Str → CanonEntity → CanonEntity
next_entity project_id id f now current = record {
  id = id;
  project_id = project_id;
  fields = f;
  version = current.version + 1;
  updated_at = now;
}

-- `update` reads and writes without reserving the writer, so that other connections may commit before
-- each of its statements: `others k` is what they do to the table before the statement `k`.
abbrev pub Others : Type 0
Others = ℕ → List CanonEntity → List CanonEntity

-- `for _ in range(3)`, from a try on; `tries` are left, and `k` is the number of the next statement.
unfoldable pub update_tries :
    ℕ
    → ℕ
    → Others
    → Str
    → Str
    → CanonFields
    → Str
    → List CanonEntity
    → Result Error (Option CanonEntity × List CanonEntity)
update_tries zero k others project_id id f now t = err (concurrent_canon_update project_id id)
update_tries (suc tries) k others project_id id f now t =
    let again = update_tries tries (k + 2) others project_id id f now in
    let read = others k t in
    elim (get project_id id read) [
      | none ↦ ok (none, read)
      | some current ↦ do
        valid ← validate f
        let next = next_entity project_id id valid now current
        (n, t') ← apply_cas_update next current.version (others (k + 1) read)
        if n == 0 then again t' else ok (some next, t')
    ]

unfoldable pub update_entity :
    Others
    → Str
    → Str
    → CanonFields
    → Str
    → List CanonEntity
    → Result Error (Option CanonEntity × List CanonEntity)
update_entity = update_tries 3 0

unfoldable pub delete_entity : Str → Str → List CanonEntity → Bool × List CanonEntity
delete_entity project_id id t =
    (not (rowcount (has_key project_id id) t == 0), delete (has_key project_id id) t)
