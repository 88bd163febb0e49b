-- ===== src/Writeback/Apply.antt =====
-- The rules for update proposals (backend/app/review/writeback_apply.py).
use ai_writing.Common.{
  ℕ, zero, suc, Bool, true, false, ◌&&◌, not, Option, none, some, List, [], ◌∷◌, ◌++◌, Str, codes,
  is_empty, ◌==◌, list_eq, nat_eq, contains, if◌then◌else◌,
}
use ai_writing.Common.Results.{Result, ok, err, ◌>>=◌, ◌>>◌}
use ai_writing.Data.Errors.{Error, value_error}
use ai_writing.Canon.{CanonEntity, CanonFields, canon_entity_types, strip, validate}
use ai_writing.Writeback.{canon_entity, target_eq, target_name, Changes, ProposalCreate}

-- `UPDATABLE_CANON_FIELDS`
abbrev pub updatable_canon_fields : List Str
updatable_canon_fields =
    codes "entity_type"
    ∷ codes "name"
    ∷ codes "summary"
    ∷ codes "current_state"
    ∷ codes "constraints"
    ∷ codes "last_seen"
    ∷ codes "timeline_notes"
    ∷ []

-- `change.get("after")`
abbrev pub after_value : List (Str × Str) → Option Str
after_value [] = none
after_value ((k, v) ∷ change) = if k == codes "after" then some v else after_value change

-- `str(change.get("after", ""))`
abbrev pub or_blank : Option Str → Str
or_blank none = []
or_blank (some s) = s

-- The tests on a new value. The class of the proposal makes it a text.
unfoldable pub check_value : Str → Option Str → Result Error (Unit {0})
check_value field none = err (
    value_error (codes "Change for canon field '" ++ field ++ codes "' requires an 'after' value."))
check_value field (some after) =
    if field == codes "entity_type" && not (contains canon_entity_types after)
    then err (
        value_error (
          codes "'after' entity_type '"
          ++ after
          ++ codes "' is not one of ['character', 'faction', 'item', 'location', 'rule']."))
    else if field == codes "name" && is_empty (strip after)
    then err (value_error (codes "'name' cannot be updated to a blank value."))
    else ok tt

unfoldable pub check_change : Str → List (Str × Str) → Result Error (Unit {0})
check_change field change =
    if contains updatable_canon_fields field
    then check_value field (after_value change)
    else err (
        value_error (
          codes "Cannot update canon field '"
          ++ field
          ++ codes
              "'; updatable fields: ['constraints', 'current_state', 'entity_type', 'last_seen', 'name', 'summary', 'timeline_notes']."))

unfoldable pub check_changes : Changes → Result Error (Unit {0})
check_changes [] = ok tt
check_changes ((field, change) ∷ rest) = check_change field change >> check_changes rest

-- `proposal.expected_version is None or proposal.expected_version < 1`
abbrev pub lacks_version : Option ℕ → Bool
lacks_version none = true
lacks_version (some zero) = true
lacks_version (some (suc n)) = false

unfoldable pub validate_update_proposal : ProposalCreate → Result Error (Unit {0})
validate_update_proposal p =
    if not (p.target == canon_entity)
    then err (
        value_error (
          codes "Update write-backs currently support canon_entity targets, got target='"
          ++ target_name p.target
          ++ codes "'."))
    else if is_empty p.target_record_id
    then err (value_error (codes "Update write-back proposals require a target_record_id."))
    else if lacks_version p.expected_version
    then err (
        value_error
          (codes "Update write-back proposals require the expected_version of the target record."))
    else if is_empty p.changes
    then err (value_error (codes "Update write-back proposals require at least one field change."))
    else check_changes p.changes

-- One of the text fields; a key that is none of them changes nothing.
unfoldable pub set_field : Str → Str → CanonFields → CanonFields
set_field k v f =
    if k == codes "entity_type"
    then record f { entity_type = v }
    else if k == codes "name"
    then record f { name = v }
    else if k == codes "summary"
    then record f { summary = v }
    else if k == codes "current_state"
    then record f { current_state = v }
    else if k == codes "constraints"
    then record f { constraints = v }
    else if k == codes "last_seen"
    then record f { last_seen = v }
    else if k == codes "timeline_notes"
    then record f { timeline_notes = v }
    else f

-- `{**current.model_dump(), **updates}`, one key at a time. A key that is no field of the class is
-- ignored by it; `version` and `updated_at` are written afterwards.
unfoldable pub with_field : Str → Str → CanonEntity → CanonEntity
with_field k v e =
    if k == codes "id"
    then record e { id = v }
    else if k == codes "project_id"
    then record e { project_id = v }
    else record e { fields = set_field k v e.fields }

unfoldable pub with_changes : Changes → CanonEntity → CanonEntity
with_changes [] e = e
with_changes ((field, change) ∷ rest) e =
    with_changes rest (with_field field (or_blank (after_value change)) e)

unfoldable pub apply_canon_update :
    CanonEntity → ProposalCreate → ℕ → Str → Result Error CanonEntity
apply_canon_update current p new_version now = do
  let merged = with_changes p.changes current
  valid ← validate merged.fields
  ok (record merged { fields = valid; version = new_version; updated_at = now })
