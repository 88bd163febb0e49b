-- ===== src/Llm/Catalog.antt =====
-- `ModelCatalog` (backend/app/llm/capabilities.py). The dict of profiles is the list of its values.
pub mod Candidates
use ai_writing.Common.{
  ℕ, ◌≡◌, Bool, true, false, not, Option, none, some, List, [], ◌∷◌, ◌++◌, map, Str, ◌==◌, list_eq,
  nat_eq, contains, is_empty, if◌then◌else◌,
}
use ai_writing.Common.Results.{Result, ok, err}
use ai_writing.Sql.{select_one, limit}
use ai_writing.Llm.{ModelProfile}

abbrev pub Profiles : Type 0
Profiles = List ModelProfile

abbrev pub has_id : Str → ModelProfile → Bool
has_id id p = p.id == id

-- `ModelCatalog(profiles)`: a repeated id is a ValueError, here `none`.
unfoldable pub build : List ModelProfile → Option Profiles
build [] = some []
build (p ∷ ps) = elim (build ps) [
  | none ↦ none
  | some rest ↦
      if contains (map (λ (q : ModelProfile). q.id) rest) p.id then none else some (p ∷ rest)
]

-- `get`; a missing id is a LookupError, here `none`.
unfoldable pub get : Str → Profiles → Option ModelProfile
get id = select_one (has_id id)

-- A profile that is known is kept.
abbrev pub admit : Option ModelProfile → List ModelProfile → List ModelProfile → List ModelProfile
admit none skipped kept = skipped
admit (some p) skipped kept = p ∷ kept

-- The loop that drops repeated and unknown ids.
unfoldable pub resolve : Profiles → List Str → List Str → List ModelProfile
resolve catalog seen [] = []
resolve catalog seen (id ∷ ids) =
    let skipped = resolve catalog seen ids in
    let kept = resolve catalog (id ∷ seen) ids in
    if contains seen id then skipped else admit (get id catalog) skipped kept

-- The ids in the order in which they are tried; `none` is the LookupError.
unfoldable pub candidate_ids : Profiles → Str → Bool → Option (List Str)
candidate_ids catalog requested allow_fallback =
    if is_empty requested
    then (let ids = map (λ (p : ModelProfile). p.id) catalog in
        some (if allow_fallback then ids else limit 1 ids))
    else elim (get requested catalog) [
      | none ↦ none
      | some primary ↦
          some (primary.id ∷ (if allow_fallback then primary.fallback_profile_ids else []))
    ]

unfoldable pub candidates : Profiles → Str → Bool → Option (List ModelProfile)
candidates catalog requested allow_fallback =
    elim (candidate_ids catalog requested allow_fallback) [
      | none ↦ none
      | some ids ↦ some (resolve catalog [] ids)
    ]
