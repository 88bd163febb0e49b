-- ===== src/Canon/Edits.antt =====
-- The manual update of an entity among other writers (`update`,
-- backend/app/data/repositories/canon.py).
use ai_writing.Common.{
  ℕ, zero, suc, ◌+◌, ◌<◌, ◌≡◌, ◌≢◌, refl, ap, sym, ◌∙◌, inl, inr, true, false, Option, none, some,
  List, Str, ◌==◌, list_eq, nat_eq, arith, Bool-cases, Option-cases,
}
use ai_writing.Common.Results.{Result, ok, err}
use ai_writing.Data.Errors.{Error, concurrent_canon_update, validation_error, integrity_error}
use ai_writing.Sql.{select_one, update, rowcount}
use ai_writing.Sql.Laws.{rowcount_zero, select_one_sound}
use ai_writing.Canon.{
  CanonEntity, CanonFields, is_valid, normalized, validate, has_key_and_version, get,
  apply_cas_update, next_entity, Others, update_tries, update_entity,
}
use ai_writing.Canon.Versions.{takers}

module _ (others : Others) (p id : Str) (f : CanonFields) (now : Str) where
  -- The table as the other writers have left it just before the UPDATE of a try, where the earlier
  -- tries have changed nothing. The first try starts at the statement `k` on the table `t`.
  abbrev pub at_update : ℕ → ℕ → List CanonEntity → List CanonEntity
  at_update k zero t = others (k + 1) (others k t)
  at_update k (suc attempt) t = at_update (k + 2) attempt (others (k + 1) (others k t))

  -- The UPDATE of the version `v`.
  abbrev pub at_version : ℕ → List CanonEntity → List CanonEntity
  at_version v s =
      update (has_key_and_version p id v)
        (λ e. record e { fields = normalized f; version = v + 1; updated_at = now }) s

  -- `u` and `t'` are the entity at the next version and the rows with it, written into the table just
  -- before the UPDATE of one of the tries.
  pub record IsWritten (tries k : ℕ) (t : List CanonEntity) (u : CanonEntity)
      (t' : List CanonEntity) : Type 0 where
    pub attempt : ℕ
    pub within : attempt < tries
    pub before : CanonEntity
    pub key : (u.project_id ≡ p) × (u.id ≡ id)
    pub fields : (is_valid f ≡ true) × (u.fields ≡ normalized f)
    pub found :
        select_one (has_key_and_version p id before.version) (at_update k attempt t) ≡ some before
    pub version : u.version ≡ before.version + 1
    pub free : takers u (at_update k attempt t) ≡ 0
    pub rows : t' ≡ at_version before.version (at_update k attempt t)

  -- In every try the entity that was read had another version, or was gone, at the UPDATE.
  abbrev pub Raced : ℕ → ℕ → List CanonEntity → Type 0
  Raced zero k t = Unit {0}
  Raced (suc tries) k t =
      (c : CanonEntity) × (get p id (others k t) ≡ some c)
      × (rowcount (has_key_and_version p id c.version) (others (k + 1) (others k t)) ≡ 0)
      × Raced tries (k + 2) (others (k + 1) (others k t))

  -- Why an update raises.
  abbrev pub IsExplained : ℕ → ℕ → List CanonEntity → Error → Type 0
  IsExplained tries k t (concurrent_canon_update p' id') = Raced tries k t
  IsExplained tries k t validation_error = is_valid f ≡ false
  IsExplained tries k t integrity_error =
      (attempt : ℕ) × (attempt < tries)
      × (u : CanonEntity) × (u.project_id ≡ p)
      × (u.id ≡ id)
      × (u.fields ≡ normalized f)
      × (takers u (at_update k attempt t) ≢ 0)
  IsExplained tries k t _ = ⊥

  abbrev pub IsOutcome :
      ℕ → ℕ → List CanonEntity → Result Error (Option CanonEntity × List CanonEntity) → Type 0
  IsOutcome tries k t (ok (some u, t')) = IsWritten tries k t u t'
  IsOutcome tries k t (ok (none, t')) = get p id t' ≡ none
  IsOutcome tries k t (err e) = IsExplained tries k t e

  -- A further try is explained by those after it.
  later :
      (tries k : ℕ) (t : List CanonEntity) (c : CanonEntity)
      (r : Result Error (Option CanonEntity × List CanonEntity))
      → get p id (others k t) ≡ some c
      → rowcount (has_key_and_version p id c.version) (others (k + 1) (others k t)) ≡ 0
      → IsOutcome tries (k + 2) (others (k + 1) (others k t)) r
      → IsOutcome (suc tries) k t r
  later tries k t c (ok (some u, t')) found missed o = record {
    attempt = suc o.attempt;
    within = omega (arith, o.within);
    before = o.before;
    key = o.key;
    fields = o.fields;
    found = o.found;
    version = o.version;
    free = o.free;
    rows = o.rows;
  }
  later tries k t c (ok (none, t')) found missed o = o
  later tries k t c (err (concurrent_canon_update p' id')) found missed o = (c, found, missed, o)
  later tries k t c (err validation_error) found missed o = o
  later tries k t c (err integrity_error) found missed
        (attempt, within, u, own, same, stripped, taken) =
      (suc attempt, omega (arith, within), u, own, same, stripped, taken)
  later tries k t c (err e) found missed o = o

  -- The row that the UPDATE meets.
  row_met :
      (v : ℕ) (s : List CanonEntity)
      → rowcount (has_key_and_version p id v) s ≢ 0
      → (e : CanonEntity) × (select_one (has_key_and_version p id v) s ≡ some e) × (e.version ≡ v)
  row_met v s hit = elim (Option-cases (select_one (has_key_and_version p id v) s)) [
    | inl e ↦ absurd (hit (rowcount_zero (has_key_and_version p id v) s e))
    | inr (e, found) ↦
        (e, found, ground (arith, select_one_sound (has_key_and_version p id v) s found))
  ]

  tries_lem :
      (tries k : ℕ) (t : List CanonEntity)
      → IsOutcome tries k t (update_tries tries k others p id f now t)
  unfolding update_tries validate apply_cas_update native.Mathlib.Decide.ℕ_discrete
  tries_lem zero k t = tt
  tries_lem (suc tries) k t =
      let read = others k t in
      let s = others (k + 1) read in
      elim (Option-cases (get p id read)) [
        | inl e ↦ rw (e, update_tries) e
        | inr (c, found) ↦ elim (Bool-cases (is_valid f)) [
          | inr bad ↦ rw (found, update_tries) (rw bad bad)
          | inl good ↦ elim (Bool-cases (rowcount (has_key_and_version p id c.version) s == 0)) [
            | inl missed ↦
                rw (found, update_tries)
                  (rw good (
                    rw missed (
                      later tries k t c (update_tries tries (k + 2) others p id f now s) found
                        (ground (arith, missed)) (tries_lem tries (k + 2) s))))
            | inr hit ↦
                let u = next_entity p id (normalized f) now c in
                elim (Bool-cases (takers u s == 0)) [
                  | inr taken ↦
                      rw (found, update_tries)
                        (rw good (
                          rw hit (rw taken (zero, omega arith, u, refl, refl, refl, ground arith))))
                  | inl free ↦
                      let (e, there, version) = row_met c.version s (ground arith) in
                      rw (found, update_tries)
                        (rw good (
                          rw hit (
                            rw free (
                              rw hit (record {
                                attempt = zero;
                                within = omega arith;
                                before = e;
                                key = (refl, refl);
                                fields = (good, refl);
                                found =
                                    ap (λ v. select_one (has_key_and_version p id v) s) version
                                    ∙ there;
                                version = ground arith;
                                free = ground arith;
                                rows = ap (λ v. at_version v s) (sym version);
                              })))))
                ]
          ]
        ]
      ]

  -- Whatever other writers do to the table between the read and the UPDATE of each try, the manual
  -- update of an entity returns an entity only with valid fields, which it has stripped, at the
  -- version after that of the row that the others had left just before the UPDATE of one of the
  -- three tries, under a name that was free there, and only that row has changed; it returns none
  -- only where a read finds no entity; it raises only a validation error on invalid fields, an
  -- integrity error where the name is taken just before the UPDATE of one of the tries, or the
  -- concurrency error where in each of the three tries the version that was read was gone at the
  -- UPDATE.
  pub update_entity_lem :
      (t : List CanonEntity) → IsOutcome 3 0 t (update_entity others p id f now t)
  unfolding update_entity
  update_entity_lem t = tries_lem 3 0 t
