-- ===== src/Manuscript/History.antt =====
-- The history of the accepted text: every committed version of a scene has its revision
-- (backend/app/data/transactions/manuscript.py).
use mathlib.Core.Path.{subst}
use mathlib.Core.Option.{some-injective}
use ai_writing.Common.{
  ℕ, ◌≤◌, ◌<◌, ◌≡◌, ◌∙◌, sym, ap₂, inl, inr, true, false, ◌&&◌, none, some, List, [], ◌∷◌, ◌++◌,
  Str, ◌==◌, list_eq, nat_eq, arith, All, All-append, All-map, Bool-cases, Option-cases,
}
use ai_writing.Review.{review_status_eq}
use ai_writing.Sql.{select_one}
use ai_writing.Sql.Laws.{
  select_one_sound, select_one-All, select_one-append_old, select_one-append_new,
}
use ai_writing.Manuscript.{Scene, Revision}
use ai_writing.Manuscript.Scenes.{get_scene, of_version}
use ai_writing.Manuscript.Scenes.Laws.{IsWritten, of_version_sound}

-- A revision of a scene that has a row, and of no later version than the row.
abbrev pub IsPast : List Scene → Revision → Type 0
IsPast scenes r =
    (x : Scene) × (get_scene r.project_id r.scene_id scenes ≡ some x) × (r.version ≤ x.version)

-- The current text of every scene is the text of the revision of its version, and no revision is
-- newer than its scene.
abbrev pub IsRecorded : List Revision → Str → Str → Scene → Type 0
IsRecorded revisions p s x =
    (r : Revision) × (select_one (of_version p s x.version) revisions ≡ some r)
    × (r.title ≡ x.title)
    × (r.content ≡ x.content)

pub record IsHistory (scenes : List Scene) (revisions : List Revision) : Type 0 where
  pub recorded :
      (p s : Str) {x : Scene} → get_scene p s scenes ≡ some x → IsRecorded revisions p s x
  pub past : All (IsPast scenes) revisions

-- Every row that the scene of `x` has is older than `x`.
abbrev pub IsNewer : List Scene → Scene → Type 0
IsNewer scenes x =
    (y : Scene) → get_scene x.project_id x.scene_id scenes ≡ some y → y.version < x.version

same_key : (p s p' s' : Str) → (p == p' && s == s') ≡ true → (p ≡ p') × (s ≡ s')
same_key p s p' s' h = (ground arith, ground arith)

-- A revision with the key of `x` is older than `x`.
past_older :
    (x : Scene) (scenes : List Scene) (r : Revision)
    → IsNewer scenes x
    → IsPast scenes r
    → of_version x.project_id x.scene_id x.version r ≡ false
past_older x scenes r newer (y, found, bound) =
    elim (Bool-cases (of_version x.project_id x.scene_id x.version r)) [
      | inr e ↦ e
      | inl e ↦
          let (p, s, v) = of_version_sound x.project_id x.scene_id x.version r e in
          absurd (le_lt_absurd (newer y (ap₂ (λ p s. get_scene p s scenes) p s ∙ found)) bound v)
    ]
  where
    le_lt_absurd : {a b c : ℕ} → a < b → c ≤ a → b ≡ c → ⊥
    le_lt_absurd h k e = omega arith

pub unfiled :
    (x : Scene) (scenes : List Scene) (revisions : List Revision)
    → IsNewer scenes x
    → All (IsPast scenes) revisions
    → select_one (of_version x.project_id x.scene_id x.version) revisions ≡ none
unfiled x scenes revisions newer past =
    elim (Option-cases (select_one (of_version x.project_id x.scene_id x.version) revisions)) [
      | inl e ↦ e
      | inr (r, e) ↦ ground (
        arith,
        select_one_sound (of_version x.project_id x.scene_id x.version) revisions e,
        past_older x scenes r newer (
            select_one-All (IsPast scenes) (of_version x.project_id x.scene_id x.version) revisions
              past e),
      )
    ]

-- A write to the row of the scene of `x`, with the revision `new` of the same version and text.
module _ (x : Scene) (new : Revision) (scenes scenes' : List Scene) (revisions : List Revision)
    (newer : IsNewer scenes x) (written : IsWritten x.project_id x.scene_id x scenes scenes')
    (key : of_version x.project_id x.scene_id x.version new ≡ true) (title : new.title ≡ x.title)
    (content : new.content ≡ x.content) (h : IsHistory scenes revisions) where
  IsRecorded-row : IsRecorded (revisions ++ new ∷ []) x.project_id x.scene_id written.row
  IsRecorded-row = (
    new,
    subst
        (λ v. select_one (of_version x.project_id x.scene_id v) (revisions ++ new ∷ []) ≡ some new)
        (sym written.version)
        (select_one-append_new (of_version x.project_id x.scene_id x.version) revisions new
          (unfiled x scenes revisions newer h.past) key),
    title ∙ sym written.title,
    content ∙ sym written.content,
  )

  IsRecorded-same :
      {y : Scene}
      → get_scene x.project_id x.scene_id scenes' ≡ some y
      → IsRecorded (revisions ++ new ∷ []) x.project_id x.scene_id y
  IsRecorded-same {y = y} found =
      subst (IsRecorded (revisions ++ new ∷ []) x.project_id x.scene_id)
        (some-injective written.row y (sym written.found ∙ found)) IsRecorded-row

  IsRecorded-all :
      (p s : Str) {y : Scene}
      → get_scene p s scenes' ≡ some y
      → IsRecorded (revisions ++ new ∷ []) p s y
  IsRecorded-all p s {y = y} found = elim (Bool-cases (p == x.project_id && s == x.scene_id)) [
    | inr other ↦
        let (r, e, t, c) = h.recorded p s (sym (written.others p s other) ∙ found) in
        (r, select_one-append_old (of_version p s y.version) revisions new e, t, c)
    | inl same ↦
        let (pe, se) = same_key p s x.project_id x.scene_id same in
        subst (λ q. IsRecorded (revisions ++ new ∷ []) q s y) (sym pe)
          (subst (λ q. IsRecorded (revisions ++ new ∷ []) x.project_id q y) (sym se)
            (IsRecorded-same (ap₂ (λ p s. get_scene p s scenes') (sym pe) (sym se) ∙ found)))
  ]

  IsPast-kept : (r : Revision) → IsPast scenes r → IsPast scenes' r
  IsPast-kept r (y, found, bound) =
      elim (Bool-cases (r.project_id == x.project_id && r.scene_id == x.scene_id)) [
        | inr other ↦ (y, written.others r.project_id r.scene_id other ∙ found, bound)
        | inl same ↦
            let (pe, se) = same_key r.project_id r.scene_id x.project_id x.scene_id same in
            (
              written.row,
              ap₂ (λ p s. get_scene p s scenes') pe se ∙ written.found,
              between bound (newer y (ap₂ (λ p s. get_scene p s scenes) (sym pe) (sym se) ∙ found))
                  written.version,
            )
      ]
    where
      between : {a b c d : ℕ} → a ≤ b → b < c → d ≡ c → a ≤ d
      between k l e = omega arith

  IsPast-new : IsPast scenes' new
  IsPast-new =
      let (p, s, v) = of_version_sound x.project_id x.scene_id x.version new key in
      (
        written.row,
        ap₂ (λ p s. get_scene p s scenes') (sym p) (sym s) ∙ written.found,
        same v written.version,
      )
    where
      same : {a b c : ℕ} → a ≡ b → c ≡ a → b ≤ c
      same k e = omega arith

  pub extend : IsHistory scenes' (revisions ++ new ∷ [])
  extend = record {
    recorded = IsRecorded-all;
    past =
        All-append (IsPast scenes') revisions (new ∷ []) (All-map revisions IsPast-kept h.past)
          (IsPast-new, tt);
  }
