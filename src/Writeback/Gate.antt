-- ===== src/Writeback/Gate.antt =====
-- The gate before an update proposal is stored (`_ensure_update_target_current`,
-- backend/app/review/service.py) and what it promises of the acceptance.
use mathlib.Core.Path.{subst}
use ai_writing.Common.{
  ℕ, ◌+◌, ◌≡◌, refl, ap, ap₂, sym, ◌∙◌, inl, inr, not, Option, none, some, List, [], ◌++◌, Str,
  codes, decimal, ◌==◌, list_eq, nat_eq, option_eq, contains, if◌then◌else◌, arith, Bool-cases,
  Option-cases,
}
use ai_writing.Common.Results.{Result, ok, err, ok_injective, err-ne-ok}
use ai_writing.Data.Errors.{Error, value_error, validation_error, integrity_error}
use ai_writing.Canon.{
  CanonEntity, CanonFields, canon_entity_types, is_valid, normalized, strip, validate,
  apply_cas_update,
}
use ai_writing.Canon as Canon
use ai_writing.Canon.Versions.{takers, rewritten, met, get_sound}
use ai_writing.Writeback.{ProposalCreate}
use ai_writing.Writeback.Apply.{
  check_changes, validate_update_proposal, with_changes, apply_canon_update,
}
use ai_writing.Writeback.Flow.{write_update, apply_found, apply_canon_update_proposal}
use ai_writing.Writeback.Accepted.{with_changes_keeps, validate_update_proposal-changes}

-- `f"{expected_version}"`
abbrev pub version_text : Option ℕ → Str
version_text none = codes "None"
version_text (some v) = decimal v

unfoldable pub ensure_current : ProposalCreate → Option CanonEntity → Result Error (Unit {0})
ensure_current p none = err (
    value_error (
      codes "Update proposal '"
      ++ p.title
      ++ codes "' targets canon record '"
      ++ p.target_record_id
      ++ codes "', which does not exist."))
ensure_current p (some e) =
    if not (some e.version == p.expected_version)
    then err (
        value_error (
          codes "Update proposal '"
          ++ p.title
          ++ codes "' expects canon record '"
          ++ e.fields.name
          ++ codes "' at version "
          ++ version_text p.expected_version
          ++ codes ", but the current version is "
          ++ decimal e.version
          ++ codes "."))
    else ok tt

-- `_ensure_update_target_current`
unfoldable pub ensure_update_target_current :
    Str → ProposalCreate → List CanonEntity → Result Error (Unit {0})
ensure_update_target_current project_id p t =
    ensure_current p (Canon.get project_id p.target_record_id t)

-- The entity that the acceptance of an update writes.
abbrev pub merged : CanonEntity → ProposalCreate → Str → CanonEntity
merged current p now = record (with_changes p.changes current) {
  fields = normalized (with_changes p.changes current).fields;
  version = current.version + 1;
  updated_at = now;
}

-- What the acceptance comes to on the entity `current`.
abbrev pub verdict :
    CanonEntity
    → ProposalCreate
    → Str
    → List CanonEntity
    → Result Error (CanonEntity × List CanonEntity)
verdict current p now t =
    if is_valid (with_changes p.changes current).fields
    then (if takers (merged current p now) t == 0
        then ok (merged current p now, rewritten (merged current p now) current.version t)
        else err integrity_error)
    else err validation_error

module _ (project_id : Str) (p : ProposalCreate) (now : Str) (t : List CanonEntity) where
  write_update-verdict :
      (current : CanonEntity) {u : Unit {0}}
      → check_changes p.changes ≡ ok u
      → Canon.get project_id p.target_record_id t ≡ some current
      → write_update current p now t ≡ verdict current p now t
  unfolding write_update apply_canon_update validate apply_cas_update
  write_update-verdict current checked found =
      let key = get_sound project_id p.target_record_id t found in
      let same_id =
        with_changes_keeps (λ (e : CanonEntity). e.id) p.changes current (λ e f. refl) checked in
      let same_project =
        with_changes_keeps (λ (e : CanonEntity). e.project_id) p.changes current (λ e f. refl)
          checked in
      ground (
        arith,
        met (merged current p now) t {e = current}
            (ap₂ (λ p i. Canon.get p i t) (same_project ∙ key.0) (same_id ∙ key.1) ∙ found),
      )

  -- An update proposal that passes its validation and the gate finds its entity, and its
  -- acceptance on the same rows writes the changed fields at the next version, unless the changed
  -- fields are invalid or another entity has their name, which raise.
  pub ensure_update_target_current_lem :
      {u v : Unit {0}}
      → validate_update_proposal p ≡ ok u
      → ensure_update_target_current project_id p t ≡ ok v
      → (current : CanonEntity) × (Canon.get project_id p.target_record_id t ≡ some current)
        × (apply_canon_update_proposal project_id p now t ≡ verdict current p now t)
  unfolding ensure_update_target_current ensure_current apply_canon_update_proposal apply_found
  ensure_update_target_current_lem {u = u} {v = v} valid current_ok =
      elim (Option-cases (Canon.get project_id p.target_record_id t)) [
        | inl missing ↦ absurd (err-ne-ok (rw (missing, ensure_current) at current_ok))
        | inr (current, found) ↦ (
          current,
          found,
          rw (valid, apply_canon_update_proposal, found, apply_found)
              (at_version current found (rw (found, ensure_current) at current_ok)),
        )
      ]
    where
      at_version :
          (current : CanonEntity)
          → Canon.get project_id p.target_record_id t ≡ some current
          → ensure_current p (some current) ≡ ok v
          → apply_found p now t (some current) ≡ verdict current p now t
      at_version current found e = elim (Bool-cases (some current.version == p.expected_version)) [
        | inl same ↦
            rw same (write_update-verdict current (validate_update_proposal-changes p valid) found)
        | inr stale ↦ absurd (err-ne-ok (rw stale at e))
      ]

-- Fields that pass the validation of the payload with a name that strips to the empty text are
-- refused by every creation of an entity from the validated fields.
pub create_blank :
    (project_id : Str) (f g : CanonFields) (now : Str) (t : List CanonEntity)
    → validate f ≡ ok g
    → strip f.name ≡ []
    → Canon.create project_id g now t ≡ err validation_error
unfolding Canon.create validate normalized is_valid
create_blank project_id f g now t good blank = elim (Bool-cases (is_valid f)) [
  | inr bad ↦ absurd (err-ne-ok (rw bad at good))
  | inl fits ↦
      subst (λ h. Canon.create project_id h now t ≡ err validation_error)
        (ok_injective (rw fits at good)) (nameless (normalized f) blank)
]
  where
    unnamed :
        (h : CanonFields)
        → Canon.create project_id (record h { name = [] }) now t ≡ err validation_error
    unnamed h = elim (Bool-cases (contains canon_entity_types h.entity_type)) [
      | inl e ↦ rw e refl
      | inr e ↦ rw e refl
    ]

    nameless :
        (h : CanonFields) → h.name ≡ [] → Canon.create project_id h now t ≡ err validation_error
    nameless h e =
        subst (λ (x : CanonFields). Canon.create project_id x now t ≡ err validation_error)
          (sym (ap (λ n. record h { name = n }) e)) (unnamed h)
