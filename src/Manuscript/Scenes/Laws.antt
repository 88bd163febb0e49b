-- ===== src/Manuscript/Scenes/Laws.antt =====
-- What the writes to the scene table do to later reads of it.
use mathlib.Core.Path.{subst}
use ai_writing.Common.{
  ℕ, ◌≡◌, refl, inl, inr, true, false, ◌&&◌, not, none, some, List, [], ◌∷◌, ◌++◌, Str, ◌==◌,
  list_eq, nat_eq, if◌then◌else◌, arith, Bool-cases, Option-cases,
}
use ai_writing.Common.Results.{ok, ok_injective, err-ne-ok}
use ai_writing.Sql.{select_one, update, rowcount}
use ai_writing.Sql.Laws.{
  select_one-update, select_one_sound, rowcount_pos, rowcount_zero, select_one-append,
}
use ai_writing.Manuscript.{Scene, Revision}
use ai_writing.Manuscript.Scenes.{
  of_version, of_scene, get_scene, overwrite, upsert_scene, set_fields, update_scene_fields,
}

-- The table `t'` is `t` with the row of one scene written: it has the version and the text of `x`,
-- and the rows of all other scenes are as they were.
pub record IsWritten (project_id scene_id : Str) (x : Scene) (t t' : List Scene) : Type 0 where
  pub row : Scene
  pub found : get_scene project_id scene_id t' ≡ some row
  pub version : row.version ≡ x.version
  pub title : row.title ≡ x.title
  pub content : row.content ≡ x.content
  pub others :
      (p' s' : Str)
      → (p' == project_id && s' == scene_id) ≡ false
      → get_scene p' s' t' ≡ get_scene p' s' t

-- A write to the row of a scene, by an UPDATE that keeps the keys.
module _ (project_id scene_id : Str) (f : Scene → Scene)
    (keeps : (p' s' : Str) (r : Scene) → of_scene p' s' (f r) ≡ of_scene p' s' r)
    (t : List Scene) where
  updated_hit :
      {r : Scene}
      → get_scene project_id scene_id t ≡ some r
      → get_scene project_id scene_id (update (of_scene project_id scene_id) f t) ≡ some (f r)
  unfolding get_scene
  updated_hit {r = r} h = ground (
    arith,
    select_one-update (of_scene project_id scene_id) (of_scene project_id scene_id) f t
        (keeps project_id scene_id),
    select_one_sound (of_scene project_id scene_id) t h,
  )

  updated_others :
      (p' s' : Str)
      → (p' == project_id && s' == scene_id) ≡ false
      → get_scene p' s' (update (of_scene project_id scene_id) f t) ≡ get_scene p' s' t
  unfolding get_scene
  updated_others p' s' other = elim (Option-cases (select_one (of_scene p' s') t)) [
    | inl e ↦
        ground (
          arith,
          select_one-update (of_scene p' s') (of_scene project_id scene_id) f t (keeps p' s'),
        )
    | inr (r, e) ↦ ground (
      arith,
      select_one-update (of_scene p' s') (of_scene project_id scene_id) f t (keeps p' s'),
      select_one_sound (of_scene p' s') t e,
    )
  ]

appended_others :
    (x : Scene) (t : List Scene) (p' s' : Str)
    → (p' == x.project_id && s' == x.scene_id) ≡ false
    → get_scene p' s' (t ++ x ∷ []) ≡ get_scene p' s' t
unfolding get_scene select_one
appended_others x t p' s' other = elim (Option-cases (select_one (of_scene p' s') t)) [
  | inl e ↦ ground (arith, select_one-append (of_scene p' s') t (x ∷ []))
  | inr (r, e) ↦ ground (arith, select_one-append (of_scene p' s') t (x ∷ []))
]

appended_hit :
    (x : Scene) (t : List Scene)
    → get_scene x.project_id x.scene_id t ≡ none
    → get_scene x.project_id x.scene_id (t ++ x ∷ []) ≡ some x
unfolding get_scene select_one
appended_hit x t h = ground (arith, select_one-append (of_scene x.project_id x.scene_id) t (x ∷ []))

counted :
    (x : Scene) (t : List Scene) {r : Scene}
    → select_one (of_scene x.project_id x.scene_id) t ≡ some r
    → (rowcount (of_scene x.project_id x.scene_id) t == 0) ≡ false
counted x t h = ground (
  arith,
  rowcount_pos (of_scene x.project_id x.scene_id) (of_scene x.project_id x.scene_id) t h,
  select_one_sound (of_scene x.project_id x.scene_id) t h,
)

-- What `upsert_scene` leaves where it does not raise.
placed-IsWritten :
    (x : Scene) (t : List Scene)
    → IsWritten x.project_id x.scene_id x t (
        if rowcount (of_scene x.project_id x.scene_id) t == 0
        then t ++ x ∷ []
        else update (of_scene x.project_id x.scene_id) (overwrite x) t)
unfolding get_scene native.Mathlib.Decide.ℕ_discrete
placed-IsWritten x t = elim (Option-cases (select_one (of_scene x.project_id x.scene_id) t)) [
  | inl e ↦ rw (rowcount_zero (of_scene x.project_id x.scene_id) t e) (record {
    row = x;
    found = appended_hit x t e;
    version = refl;
    title = refl;
    content = refl;
    others = appended_others x t;
  })
  | inr (r, e) ↦ rw (counted x t e) (record {
    row = overwrite x r;
    found = updated_hit x.project_id x.scene_id (overwrite x) (λ p' s' r. refl) t e;
    version = refl;
    title = refl;
    content = refl;
    others = updated_others x.project_id x.scene_id (overwrite x) (λ p' s' r. refl) t;
  })
]

pub upsert_scene-IsWritten :
    (x : Scene) (t : List Scene) {t' : List Scene}
    → upsert_scene x t ≡ ok t'
    → IsWritten x.project_id x.scene_id x t t'
unfolding upsert_scene
upsert_scene-IsWritten x t {t' = t'} h =
    elim (Bool-cases
      (rowcount (λ r. r.id == x.id && not (of_scene x.project_id x.scene_id r)) t == 0)) [
        | inl e ↦
            subst (IsWritten x.project_id x.scene_id x t) (ok_injective (rw e at h))
              (placed-IsWritten x t)
        | inr e ↦ absurd (err-ne-ok (rw e at h))
      ]

pub update_scene_fields-IsWritten :
    (x : Scene) (t : List Scene) {r : Scene}
    → get_scene x.project_id x.scene_id t ≡ some r
    → IsWritten x.project_id x.scene_id x t
        (update_scene_fields x.project_id x.scene_id x.title x.content x.version x.accepted_at t)
unfolding update_scene_fields
update_scene_fields-IsWritten x t {r = r} h = record {
  row = set_fields x.title x.content x.version x.accepted_at r;
  found =
      updated_hit x.project_id x.scene_id (set_fields x.title x.content x.version x.accepted_at)
        (λ p' s' r. refl) t h;
  version = refl;
  title = refl;
  content = refl;
  others =
      updated_others x.project_id x.scene_id (set_fields x.title x.content x.version x.accepted_at)
        (λ p' s' r. refl) t;
}

pub of_version_sound :
    (p s : Str) (v : ℕ) (r : Revision)
    → of_version p s v r ≡ true
    → (p ≡ r.project_id) × (s ≡ r.scene_id) × (v ≡ r.version)
of_version_sound p s v r h = (ground arith, ground arith, ground arith)
