-- ===== src/Llm/Catalog/Candidates.antt =====
-- The candidates of a run: known, without repetition, the requested one first.
use ai_writing.Common.{
  ◌≤◌, ◌≡◌, refl, ◌∙◌, sym, ap, inl, inr, Bool, false, Option, none, some, List, [], ◌∷◌, map, Str,
  list_eq, nat_eq, contains, is_empty, if◌then◌else◌, arith, length, All, Bool-cases, Option-cases,
}
use mathlib.Core.Option.{some-injective, some-ne-none}
use mathlib.Core.Path.{subst}
use native.Mathlib.Nat.{le_trans}
use ai_writing.Sql.Laws.{select_one_sound, length-limit}
use ai_writing.Llm.{ModelProfile}
use ai_writing.Llm.Catalog.{Profiles, has_id, get, resolve, admit, candidate_ids, candidates}

abbrev pub ids : List ModelProfile → List Str
ids = map (λ (p : ModelProfile). p.id)

-- No id stands twice, and none of those seen before stands at all.
abbrev pub IsNew : List Str → List ModelProfile → Type 0
IsNew seen [] = Unit
IsNew seen (p ∷ ps) = (contains seen p.id ≡ false) × IsNew (p.id ∷ seen) ps

-- Every candidate is a profile of the catalog, under its own id.
abbrev pub IsKnown : Profiles → ModelProfile → Type 0
IsKnown catalog p = get p.id catalog ≡ some p

get_id : (id : Str) (catalog : Profiles) {p : ModelProfile} → get id catalog ≡ some p → p.id ≡ id
unfolding get
get_id id catalog h = ground (arith, select_one_sound (has_id id) catalog h)

admit-IsNew :
    (catalog : Profiles) (seen : List Str) (id : Str) (o : Option ModelProfile)
    (skipped kept : List ModelProfile)
    → get id catalog ≡ o
    → contains seen id ≡ false
    → IsNew seen skipped
    → IsNew (id ∷ seen) kept
    → IsNew seen (admit o skipped kept)
admit-IsNew catalog seen id none skipped kept e new h k = h
admit-IsNew catalog seen id (some p) skipped kept e new h k = rw (get_id id catalog e) (new, k)

resolve-IsNew : (catalog : Profiles) (seen l : List Str) → IsNew seen (resolve catalog seen l)
unfolding resolve
resolve-IsNew catalog seen [] = tt
resolve-IsNew catalog seen (id ∷ l) = elim (Bool-cases (contains seen id)) [
  | inl old ↦ rw old (resolve-IsNew catalog seen l)
  | inr new ↦ rw new (
      admit-IsNew catalog seen id (get id catalog) (resolve catalog seen l)
        (resolve catalog (id ∷ seen) l) refl new (resolve-IsNew catalog seen l)
        (resolve-IsNew catalog (id ∷ seen) l))
]

admit-IsKnown :
    (catalog : Profiles) (id : Str) (o : Option ModelProfile) (skipped kept : List ModelProfile)
    → get id catalog ≡ o
    → All (IsKnown catalog) skipped
    → All (IsKnown catalog) kept
    → All (IsKnown catalog) (admit o skipped kept)
admit-IsKnown catalog id none skipped kept e h k = h
admit-IsKnown catalog id (some p) skipped kept e h k =
    (ap (λ (i : Str). get i catalog) (get_id id catalog e) ∙ e, k)

resolve-IsKnown :
    (catalog : Profiles) (seen l : List Str) → All (IsKnown catalog) (resolve catalog seen l)
unfolding resolve
resolve-IsKnown catalog seen [] = tt
resolve-IsKnown catalog seen (id ∷ l) = elim (Bool-cases (contains seen id)) [
  | inl old ↦ rw old (resolve-IsKnown catalog seen l)
  | inr new ↦ rw new (
      admit-IsKnown catalog id (get id catalog) (resolve catalog seen l)
        (resolve catalog (id ∷ seen) l) refl (resolve-IsKnown catalog seen l)
        (resolve-IsKnown catalog (id ∷ seen) l))
]

length-resolve-le :
    (catalog : Profiles) (seen l : List Str) → length (resolve catalog seen l) ≤ length l
unfolding resolve
length-resolve-le catalog seen [] = omega arith
length-resolve-le catalog seen (id ∷ l) =
    ground (arith, length-resolve-le catalog seen l, length-resolve-le catalog (id ∷ seen) l)

length-candidate_ids :
    (catalog : Profiles) (requested : Str) {l : List Str}
    → candidate_ids catalog requested false ≡ some l
    → length l ≤ 1
unfolding candidate_ids
length-candidate_ids catalog requested h = ground (arith, length-limit 1 (ids catalog))

candidates_of_ids :
    (catalog : Profiles) (requested : Str) (allow_fallback : Bool) {k : List Str}
    → candidate_ids catalog requested allow_fallback ≡ some k
    → candidates catalog requested allow_fallback ≡ some (resolve catalog [] k)
unfolding candidates
candidates_of_ids catalog requested allow_fallback e = rw (e, candidates)

abbrev Sound : Profiles → Bool → List ModelProfile → Type 0
Sound catalog allow_fallback l =
    IsNew [] l × All (IsKnown catalog) l × (allow_fallback ≡ false → length l ≤ 1)

-- The candidates that are returned have distinct ids, are each found in the catalog under their
-- own id, and are at most one where fallback is not allowed.
pub candidates_lem :
    (catalog : Profiles) (requested : Str) (allow_fallback : Bool) {l : List ModelProfile}
    → candidates catalog requested allow_fallback ≡ some l
    → IsNew [] l × All (IsKnown catalog) l × (allow_fallback ≡ false → length l ≤ 1)
unfolding candidates
candidates_lem catalog requested allow_fallback {l = l} h =
    elim (Option-cases (candidate_ids catalog requested allow_fallback)) [
      | inl missing ↦ absurd (some-ne-none l (sym h ∙ rw (missing, candidates)))
      | inr (k, e) ↦
          subst (Sound catalog allow_fallback)
            (some-injective (resolve catalog [] k) l
              (sym (candidates_of_ids catalog requested allow_fallback e) ∙ h))
            (
              resolve-IsNew catalog [] k,
              resolve-IsKnown catalog [] k,
              λ off. le_trans (length-resolve-le catalog [] k) (
                  length-candidate_ids catalog requested
                    (subst (λ f. candidate_ids catalog requested f ≡ some k) off e)),
            )
    ]

ids_named :
    (catalog : Profiles) (requested : Str) (allow_fallback : Bool) {p : ModelProfile}
    → is_empty requested ≡ false
    → get requested catalog ≡ some p
    → candidate_ids catalog requested allow_fallback
      ≡ some (p.id ∷ (if allow_fallback then p.fallback_profile_ids else []))
unfolding candidate_ids
ids_named catalog requested allow_fallback named found = rw (named, found, candidate_ids)

-- A requested profile that the catalog has is the first candidate.
pub candidates_first :
    (catalog : Profiles) (requested : Str) (allow_fallback : Bool) {p : ModelProfile}
    → is_empty requested ≡ false
    → get requested catalog ≡ some p
    → (rest : List ModelProfile) × (candidates catalog requested allow_fallback ≡ some (p ∷ rest))
unfolding resolve
candidates_first catalog requested allow_fallback {p = p} named found = (
  resolve catalog (p.id ∷ []) (if allow_fallback then p.fallback_profile_ids else []),
  candidates_of_ids catalog requested allow_fallback
        (ids_named catalog requested allow_fallback named found)
      ∙ ap
          (λ o. some (
            admit o (resolve catalog [] (if allow_fallback then p.fallback_profile_ids else [])) (
              resolve catalog (p.id ∷ []) (if allow_fallback then p.fallback_profile_ids else []))))
          (ap (λ (i : Str). get i catalog) (get_id requested catalog found) ∙ found),
)
