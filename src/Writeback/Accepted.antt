-- ===== src/Writeback/Accepted.antt =====
-- What the acceptance of an update proposal leaves of the canon and of the other proposals
-- (`accept_writeback_proposal`, backend/app/data/transactions/writeback.py).
use mathlib.Core.Path.{subst}
use ai_writing.Common.{
  ℕ, ◌+◌, ◌≡◌, refl, ap, ap₂, sym, ◌∙◌, ◌≢◌, inl, inr, Bool, true, false, some, List, [], ◌∷◌, Str,
  codes, ◌==◌, ==_iff, list_eq, nat_eq, option_eq, list_dec, contains, arith, Bool-cases,
  Option-cases,
}
use ai_writing.Common.Results.{ok, >>=-eq-ok, ok_injective, err-ne-ok}
use ai_writing.Review.{review_status_eq}
use ai_writing.Sql.Laws.{updated}
use ai_writing.Canon.{CanonEntity, CanonFields, validate, set_entity, apply_cas_update}
use ai_writing.Canon as Canon
use ai_writing.Canon.Versions.{rewritten, written, apply_cas_update_ok}
use ai_writing.Canon.Versions as Versions
use ai_writing.Writeback.{action_eq, target_eq, writeback_reviewable}
use ai_writing.Writeback.Flow.{write_update, apply_found, apply_canon_update_proposal}
use ai_writing.Writeback.{Changes, ProposalCreate}
use ai_writing.Writeback.Apply.{
  updatable_canon_fields, after_value, or_blank, check_change, check_changes,
  validate_update_proposal, with_field, with_changes, apply_canon_update,
}

-- No part of the key is an updatable field.
not_updatable_id : (k : Str) → contains updatable_canon_fields k ≡ true → (k == codes "id") ≡ false
unfolding list_dec native.Mathlib.Decide.ℕ_discrete
not_updatable_id k h = elim (Bool-cases (k == codes "id")) [
  | inr e ↦ e
  | inl e ↦ absurd (
      true-ne-false (
        sym
          (subst (λ j. contains updatable_canon_fields j ≡ true) ((==_iff k (codes "id")).0 e) h)))
]
  where
    true-ne-false : Path Bool true false → ⊥
    true-ne-false h = cc

not_updatable_project :
    (k : Str) → contains updatable_canon_fields k ≡ true → (k == codes "project_id") ≡ false
unfolding list_dec native.Mathlib.Decide.ℕ_discrete
not_updatable_project k h = elim (Bool-cases (k == codes "project_id")) [
  | inr e ↦ e
  | inl e ↦ absurd (
      true-ne-false (
        sym (
          subst (λ j. contains updatable_canon_fields j ≡ true)
            ((==_iff k (codes "project_id")).0 e) h)))
]
  where
    true-ne-false : Path Bool true false → ⊥
    true-ne-false h = cc

with_field_keeps :
    {B : Type 0} (f : CanonEntity → B) (k v : Str) (e : CanonEntity)
    → ((fields : CanonFields) → f (record e { fields = fields }) ≡ f e)
    → (k == codes "id") ≡ false
    → (k == codes "project_id") ≡ false
    → f (with_field k v e) ≡ f e
unfolding with_field
with_field_keeps f k v e same h h' = rw (h, h') (same _)

check_change_updatable :
    (field : Str) (change : List (Str × Str)) {u : Unit {0}}
    → check_change field change ≡ ok u
    → contains updatable_canon_fields field ≡ true
unfolding check_change
check_change_updatable field change h = elim (Bool-cases (contains updatable_canon_fields field)) [
  | inl e ↦ e
  | inr e ↦ absurd (err-ne-ok (rw e at h))
]

-- Changes that pass the validation leave the id and the project of the entity alone.
pub with_changes_keeps :
    {B : Type 0} (f : CanonEntity → B) (c : Changes) (e : CanonEntity) {u : Unit {0}}
    → ((e : CanonEntity) (fields : CanonFields) → f (record e { fields = fields }) ≡ f e)
    → check_changes c ≡ ok u
    → f (with_changes c e) ≡ f e
unfolding check_changes with_changes
with_changes_keeps f [] e same h = refl
with_changes_keeps f ((k, change) ∷ rest) e same h =
    let (u, first, others) = >>=-eq-ok (check_change k change) _ h in
    let known = check_change_updatable k change first in
    with_changes_keeps f rest (with_field k (or_blank (after_value change)) e) same others
    ∙ with_field_keeps f k (or_blank (after_value change)) e (same e) (not_updatable_id k known)
        (not_updatable_project k known)

pub validate_update_proposal-changes :
    (p : ProposalCreate) {u : Unit {0}}
    → validate_update_proposal p ≡ ok u
    → check_changes p.changes ≡ ok u
unfolding validate_update_proposal
validate_update_proposal-changes p h = ground arith

-- The entity of an update proposal, before and after the update.
pub record IsUpdated (project_id : Str) (p : ProposalCreate) (t t' : List CanonEntity)
    (e : CanonEntity) : Type 0 where
  pub current : CanonEntity
  pub found : Canon.get project_id p.target_record_id t ≡ some current
  pub expected : some current.version ≡ p.expected_version
  pub read : Canon.get project_id p.target_record_id t' ≡ some e
  pub version : e.version ≡ current.version + 1

apply_canon_update_keeps :
    {B : Type 0} (f : CanonEntity → B) (current : CanonEntity) (p : ProposalCreate) (v : ℕ)
    (now : Str) {u : Unit {0}} {e : CanonEntity}
    → ((e : CanonEntity) (fields : CanonFields) → f (record e { fields = fields }) ≡ f e)
    → ((e : CanonEntity) (fields : CanonFields) (v : ℕ) (now : Str)
        → f (record e { fields = fields; version = v; updated_at = now }) ≡ f e)
    → check_changes p.changes ≡ ok u
    → apply_canon_update current p v now ≡ ok e
    → (f e ≡ f current) × (e.version ≡ v)
unfolding apply_canon_update
apply_canon_update_keeps f current p v now same all checked h =
    let (valid, good, done) = >>=-eq-ok (validate (with_changes p.changes current).fields) _ h in
    (
      ap f (sym (ok_injective done))
          ∙ all (with_changes p.changes current) valid v now
          ∙ with_changes_keeps f p.changes current same checked,
      ap (λ (e : CanonEntity). e.version) (sym (ok_injective done)),
    )

cas_read :
    (p id : Str) (current u : CanonEntity) (t : List CanonEntity) {n : ℕ} {t' : List CanonEntity}
    → Canon.get p id t ≡ some current
    → u.id ≡ current.id
    → u.project_id ≡ current.project_id
    → apply_cas_update u current.version t ≡ ok (n, t')
    → n ≢ 0
    → Canon.get p id t' ≡ some u
cas_read p id current u t {n = n} {t' = t'} found same_id same_project h k =
    let key = Versions.get_sound p id t found in
    let own : Canon.get u.project_id u.id t ≡ some current =
      ap₂ (λ p i. Canon.get p i t) (same_project ∙ key.0) (same_id ∙ key.1) ∙ found in
    ap₂ (λ p i. Canon.get p i t') (sym (same_project ∙ key.0)) (sym (same_id ∙ key.1))
    ∙ ap (Canon.get u.project_id u.id) (apply_cas_update_ok u current.version t h k)
    ∙ written u t own
    ∙ ap (λ (x : Str × Str). some (record u { id = x.0; project_id = x.1 }))
        (ap₂ (λ i q. (i, q)) (sym same_id) (sym same_project))

write_update-read :
    (project_id : Str) (current : CanonEntity) (p : ProposalCreate) (now : Str)
    (t : List CanonEntity) {u : Unit {0}} {e : CanonEntity} {t' : List CanonEntity}
    → check_changes p.changes ≡ ok u
    → Canon.get project_id p.target_record_id t ≡ some current
    → write_update current p now t ≡ ok (e, t')
    → (Canon.get project_id p.target_record_id t' ≡ some e) × (e.version ≡ current.version + 1)
unfolding write_update
write_update-read project_id current p now t {e = e} {t' = t'} checked found h =
    let (updated, applied, rest) =
      >>=-eq-ok (apply_canon_update current p (current.version + 1) now) _ h in
    let (r, cas, last) = >>=-eq-ok (apply_cas_update updated current.version t) _ rest in
    elim (Bool-cases (r.0 == 0)) [
      | inl lost ↦ absurd (err-ne-ok (rw lost at last))
      | inr met ↦
          let done = ok_injective (rw met at last) in
          let kept_id =
            apply_canon_update_keeps (λ (e : CanonEntity). e.id) current p (current.version + 1) now
              (λ e f. refl) (λ e f v n. refl) checked applied in
          let kept_project =
            apply_canon_update_keeps (λ (e : CanonEntity). e.project_id) current p
              (current.version + 1) now (λ e f. refl) (λ e f v n. refl) checked applied in
          (
            ap (Canon.get project_id p.target_record_id)
                  (ap (λ (x : CanonEntity × List CanonEntity). x.1) (sym done))
                ∙ cas_read project_id p.target_record_id current updated t found kept_id.0
                    kept_project.0 cas (λ z. nonzero r.0 met z)
                ∙ ap (λ (x : CanonEntity × List CanonEntity). some x.0) done,
            ap (λ (x : CanonEntity × List CanonEntity). x.0.version) (sym done) ∙ kept_id.1,
          )
    ]
  where
    nonzero : (n : ℕ) → (n == 0) ≡ false → n ≢ 0
    nonzero n h z = ground arith

pub apply_canon_update_proposal-IsUpdated :
    (project_id : Str) (p : ProposalCreate) (now : Str) (t : List CanonEntity) {e : CanonEntity}
    {t' : List CanonEntity}
    → apply_canon_update_proposal project_id p now t ≡ ok (e, t')
    → IsUpdated project_id p t t' e
unfolding apply_canon_update_proposal apply_found
apply_canon_update_proposal-IsUpdated project_id p now t {e = e} {t' = t'} h =
    let (u, valid, rest) = >>=-eq-ok (validate_update_proposal p) _ h in
    elim (Option-cases (Canon.get project_id p.target_record_id t)) [
      | inl missing ↦ absurd (err-ne-ok (rw (missing, apply_found) at rest))
      | inr (current, found) ↦
          at_version (validate_update_proposal-changes p valid) current found
            (rw (found, apply_found) at rest)
    ]
  where
    at_version :
        {u : Unit {0}}
        → check_changes p.changes ≡ ok u
        → (current : CanonEntity) → Canon.get project_id p.target_record_id t ≡ some current
        → apply_found p now t (some current) ≡ ok (e, t')
        → IsUpdated project_id p t t' e
    at_version checked current found a =
        elim (Bool-cases (some current.version == p.expected_version)) [
          | inr stale ↦ absurd (err-ne-ok (rw stale at a))
          | inl same ↦
              let (read, version) =
                write_update-read project_id current p now t checked found (rw same at a) in
              record {
                current = current;
                found = found;
                expected = (==_iff (some current.version) p.expected_version).0 same;
                read = read;
                version = version;
              }
        ]
