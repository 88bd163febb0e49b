-- ===== src/Canon/Versions.antt =====
-- The optimistic concurrency of the canon: which version a write meets and leaves
-- (`apply_cas_update`, `update` and `create`, backend/app/data/repositories/canon.py).
use mathlib.Core.Option
use mathlib.Core.Option.{some-injective}
use mathlib.Core.Path.{subst}
use ai_writing.Common.{
  ℕ, ◌+◌, ◌≤◌, ◌≡◌, refl, ap, ap₂, sym, ◌∙◌, ◌≢◌, inl, inr, Bool, true, false, ◌&&◌, not, Option,
  none, some, List, [], ◌∷◌, map, Str, ◌==◌, ==_iff, list_eq, nat_eq, contains, arith, Bool-cases,
}
use ai_writing.Common.Results.{ok, ok_injective, err-ne-ok}
use ai_writing.Data.RecordId.Fresh.{make_record_id_fresh}
use ai_writing.Sql.{select_one, update, rowcount}
use ai_writing.Sql.Laws.{
  updated, keep, select_one-update, select_one_sound, rowcount_pos, rowcount_zero, select_one-and,
  select_one-append_new, rowcount-update,
}
use ai_writing.Canon.{
  CanonEntity, CanonFields, is_valid, normalized, validate, has_key, has_key_and_version, has_name,
  get, new_entity, insert_entity, create, set_entity, apply_cas_update,
}

pub get_sound :
    (p id : Str) (t : List CanonEntity) {e : CanonEntity}
    → get p id t ≡ some e
    → (e.project_id ≡ p) × (e.id ≡ id)
unfolding get
get_sound p id t h = (
  ground (arith, select_one_sound (has_key p id) t h),
  ground (arith, select_one_sound (has_key p id) t h),
)

-- The entities whose name an update would take.
abbrev pub takers : CanonEntity → List CanonEntity → ℕ
takers u t = rowcount (λ e. has_name u.project_id u.fields e && not (e.id == u.id)) t

-- The table after an UPDATE that has met the version.
abbrev pub rewritten : CanonEntity → ℕ → List CanonEntity → List CanonEntity
rewritten u v t = update (has_key_and_version u.project_id u.id v) (set_entity u) t

-- A read of any entity after the UPDATE.
get-rewritten :
    (u : CanonEntity) (v : ℕ) (t : List CanonEntity) (p id : Str)
    → get p id (rewritten u v t)
      ≡ Option.map (updated (has_key_and_version u.project_id u.id v) (set_entity u)) (get p id t)
unfolding get
get-rewritten u v t p id = select_one-update (has_key p id) _ (set_entity u) t (λ e. refl)

module _ (u : CanonEntity) (t : List CanonEntity) {e : CanonEntity}
    (found : get u.project_id u.id t ≡ some e) where
  meets : has_key_and_version u.project_id u.id e.version e ≡ true
  meets = ground (arith, get_sound u.project_id u.id t found)

  pub met : rowcount (has_key_and_version u.project_id u.id e.version) t ≢ 0
  unfolding get
  met =
      rowcount_pos (has_key_and_version u.project_id u.id e.version) (has_key u.project_id u.id) t
        found meets

  -- The version that is there lets the write through, where its name is free.
  apply_cas_update_hit :
      takers u t ≡ 0
      → apply_cas_update u e.version t
        ≡ ok (rowcount (has_key_and_version u.project_id u.id e.version) t, rewritten u e.version t)
  unfolding apply_cas_update
  apply_cas_update_hit free = ground (arith, met)

  pub written : get u.project_id u.id (rewritten u e.version t) ≡ some (set_entity u e)
  written = ground (arith, found, meets, get-rewritten u e.version t u.project_id u.id)

-- A write that has met a row is the UPDATE.
pub apply_cas_update_ok :
    (u : CanonEntity) (v : ℕ) (t : List CanonEntity) {n : ℕ} {t' : List CanonEntity}
    → apply_cas_update u v t ≡ ok (n, t')
    → n ≢ 0
    → t' ≡ rewritten u v t
unfolding apply_cas_update
apply_cas_update_ok u v t h k = ground arith

-- Any other version, or no entity at all, lets nothing through.
apply_cas_update_miss :
    (u : CanonEntity) (v : ℕ) (t : List CanonEntity)
    → rowcount (has_key u.project_id u.id) t ≤ 1
    → ((e : CanonEntity) → get u.project_id u.id t ≡ some e → e.version ≢ v)
    → apply_cas_update u v t ≡ ok (0, t)
unfolding apply_cas_update get
apply_cas_update_miss u v t keyed other =
    let q : CanonEntity → Bool = λ e. e.version == v in
    let none_left : select_one (has_key_and_version u.project_id u.id v) t ≡ none =
      select_one-and (has_key u.project_id u.id) q t keyed
      ∙ nothing (get u.project_id u.id t) refl in
    ground (arith, rowcount_zero (has_key_and_version u.project_id u.id v) t none_left)
  where
    nothing :
        (o : Option CanonEntity) → get u.project_id u.id t ≡ o → keep (λ e. e.version == v) o ≡ none
    nothing none e = refl
    nothing (some e) h = ground (arith, other e h)

-- Where the key of an entity names one row at most and the new name is free, a write that expects
-- the version that is there meets a row and is read back, and any further write that expects the
-- same version meets no row and changes nothing.
pub cas_once :
    (u w : CanonEntity) (t : List CanonEntity) {e : CanonEntity}
    → rowcount (has_key u.project_id u.id) t ≤ 1
    → get u.project_id u.id t ≡ some e
    → takers u t ≡ 0
    → u.version ≡ e.version + 1
    → w.project_id ≡ u.project_id
    → w.id ≡ u.id
    → (n : ℕ) × (n ≢ 0)
      × (t' : List CanonEntity) × (apply_cas_update u e.version t ≡ ok (n, t'))
      × (get u.project_id u.id t' ≡ some (set_entity u e))
      × (apply_cas_update w e.version t' ≡ ok (0, t'))
cas_once u w t {e = e} keyed found free bump hp hi = (
  rowcount (has_key_and_version u.project_id u.id e.version) t,
  met u t found,
  rewritten u e.version t,
  apply_cas_update_hit u t found free,
  written u t found,
  apply_cas_update_miss w e.version (rewritten u e.version t) still newer,
)
  where
    still : rowcount (has_key w.project_id w.id) (rewritten u e.version t) ≤ 1
    still =
        rw
          (
            hp,
            hi,
            rowcount-update (has_key u.project_id u.id)
                (has_key_and_version u.project_id u.id e.version) (set_entity u) t (λ e. refl),
          )
          keyed

    newer :
        (e' : CanonEntity)
        → get w.project_id w.id (rewritten u e.version t) ≡ some e'
        → e'.version ≢ e.version
    newer e' h v =
        let same = some-injective (set_entity u e) e' (
          sym (written u t found)
          ∙ ap₂ (λ p i. get p i (rewritten u e.version t)) (sym hp) (sym hi)
          ∙ h) in
        omega (arith, bump, ap (λ (x : CanonEntity). x.version) same, v)

-- An id that is not among the ids of the rows names no row.
unnamed :
    (p id : Str) (t : List CanonEntity)
    → contains (map (λ (e : CanonEntity). e.id) t) id ≡ false
    → select_one (has_key p id) t ≡ none
unfolding select_one
unnamed p id [] h = refl
unnamed p id (e ∷ t) h = ground (arith, unnamed p id t)

-- An entity that is created without an error is read back under its id, at version 1 with the
-- stripped fields, and the fields were valid and their name free.
pub create_lem :
    (p : Str) (f : CanonFields) (now : Str) (t : List CanonEntity) {e : CanonEntity}
    {t' : List CanonEntity}
    → create p f now t ≡ ok (e, t')
    → (get p e.id t' ≡ some e)
      × (e.version ≡ 1)
      × (e.fields ≡ normalized f)
      × (is_valid f ≡ true)
      × (rowcount (has_name p (normalized f)) t ≡ 0)
unfolding create validate insert_entity new_entity get
create_lem p f now t {e = e} {t' = t'} h = elim (Bool-cases (is_valid f)) [
  | inr bad ↦ absurd (err-ne-ok (rw bad at h))
  | inl good ↦ inserted good (rw good at h)
]
  where
    row : CanonEntity
    row = new_entity p f (normalized f) now t

    own : has_key p row.id row ≡ true
    own = ground arith

    inserted :
        is_valid f ≡ true
        → insert_entity row t ≡ ok (e, t')
        → (get p e.id t' ≡ some e)
          × (e.version ≡ 1)
          × (e.fields ≡ normalized f)
          × (is_valid f ≡ true)
          × (rowcount (has_name p (normalized f)) t ≡ 0)
    inserted good i = elim (Bool-cases (rowcount (has_name p (normalized f)) t == 0)) [
      | inr taken ↦ absurd (err-ne-ok (rw taken at i))
      | inl free ↦
          subst
            (λ (r : CanonEntity × List CanonEntity).
              (get p r.0.id r.1 ≡ some r.0)
              × (r.0.version ≡ 1)
              × (r.0.fields ≡ normalized f)
              × (is_valid f ≡ true)
              × (rowcount (has_name p (normalized f)) t ≡ 0))
            (ok_injective (rw free at i))
            (
              select_one-append_new (has_key p row.id) t row
                  (unnamed p row.id t (make_record_id_fresh _ (map (λ (x : CanonEntity). x.id) t)))
                  own,
              refl,
              refl,
              good,
              (==_iff _ 0).0 free,
            )
    ]
