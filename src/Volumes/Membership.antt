-- ===== src/Volumes/Membership.antt =====
-- In which volume an assignment leaves the chapters (`VolumeRepository.assign`,
-- backend/app/data/repositories/volumes.py).
use ai_writing.Common.{
  ◌≡◌, refl, sym, ap, ◌∙◌, Option, none, some, List, [], ◌∷◌, Str, is_empty, ◌==◌, list_eq, nat_eq,
  if◌then◌else◌, arith, inl, inr, Bool-cases, Option-cases,
}
use ai_writing.Common.Results.{ok, ok_injective, err-ne-ok}
use ai_writing.Manuscript.{Chapter}
use ai_writing.Sql.{select_one, rowcount, delete}
use ai_writing.Sql.Laws.{
  select_one-update, select_one-append, select_one_sound, rowcount_zero, rowcount_pos,
}
use ai_writing.Volumes.{
  Member, Volumes, is_member, is_chapter, is_volume, volume_of, upsert_member, assign,
}

-- The membership that an assignment of `chapter_id` to `volume_id` leaves of the chapter `c`.
abbrev assigned : Str → Str → Str → Str → Option Member → Option Member
assigned project_id chapter_id volume_id c old =
    if c == chapter_id
    then (if is_empty volume_id
        then none
        else some
            (record { project_id = project_id; chapter_id = chapter_id; volume_id = volume_id }))
    else old

module _ (project_id chapter_id c : Str) where
  read-delete :
      (t : List Member)
      → select_one (is_member project_id c) (delete (is_member project_id chapter_id) t)
        ≡ (if c == chapter_id then none else select_one (is_member project_id c) t)
  unfolding select_one delete
  read-delete [] = ground arith
  read-delete (m ∷ t) = ground (arith, read-delete t)

  same_chapter :
      (t : List Member)
      → c ≡ chapter_id
      → select_one (is_member project_id c) t ≡ select_one (is_member project_id chapter_id) t
  same_chapter t e i = select_one (is_member project_id (e i)) t

  read-upsert :
      (volume_id : Str) (t : List Member)
      → let m : Member = record {
        project_id = project_id;
        chapter_id = chapter_id;
        volume_id = volume_id;
      } in
        select_one (is_member project_id c) (upsert_member m t)
        ≡ (if c == chapter_id then some m else select_one (is_member project_id c) t)
  unfolding upsert_member select_one
  read-upsert volume_id t =
      let k = is_member project_id chapter_id in
      let p = is_member project_id c in
      let m : Member = record {
        project_id = project_id;
        chapter_id = chapter_id;
        volume_id = volume_id;
      } in
      let set : Member → Member = λ old. record old { volume_id = volume_id } in
      elim (Option-cases (select_one k t)) [
        | inl e ↦
            ground (arith, rowcount_zero k t e, select_one-append p t (m ∷ []), e, same_chapter t)
        | inr (h, e) ↦
            let key = select_one_sound k t e in
            let there = rowcount_pos k k t e key in
            elim (Option-cases (select_one p t)) [
              | inl none_left ↦ ground (
                arith,
                there,
                select_one-update p k set t (λ x. refl),
                none_left,
                e,
                same_chapter t,
              )
              | inr (g, found) ↦ ground (
                arith,
                there,
                select_one-update p k set t (λ x. refl),
                found,
                select_one_sound p t found,
                same_chapter t,
              )
            ]
      ]

-- An assignment that raises nothing keeps the volumes, puts the chapter into the given volume or, where
-- none is given, into no volume, and leaves the other chapters of the project where they are.
assign_lem :
    (project_id chapter_id volume_id : Str) (chapters : List Chapter) (s : Volumes) {s' : Volumes}
    → assign project_id chapter_id volume_id chapters s ≡ ok s'
    → (s'.volumes ≡ s.volumes)
      × ((c : Str)
          → volume_of project_id c s'
            ≡ assigned project_id chapter_id volume_id c (volume_of project_id c s))
unfolding assign volume_of
assign_lem project_id chapter_id volume_id chapters s h =
    elim (Bool-cases (rowcount (is_chapter project_id chapter_id) chapters == 0)) [
      | inl e ↦ absurd (err-ne-ok (rw e at h))
      | inr e ↦ elim (Bool-cases (is_empty volume_id)) [
        | inl empty ↦
            let same = ok_injective (rw empty at (rw e at h)) in
            (
              sym (ap (λ (v : Volumes). v.volumes) same),
              λ c.
                  ap (λ (v : Volumes). select_one (is_member project_id c) v.members) (sym same)
                  ∙ read-delete project_id chapter_id c s.members
                  ∙ ground arith,
            )
        | inr given ↦ elim (Bool-cases (rowcount (is_volume project_id volume_id) s.volumes == 0)) [
          | inl missing ↦ absurd (err-ne-ok (rw missing at (rw given at (rw e at h))))
          | inr known ↦
              let same = ok_injective (rw known at (rw given at (rw e at h))) in
              (
                sym (ap (λ (v : Volumes). v.volumes) same),
                λ c.
                    ap (λ (v : Volumes). select_one (is_member project_id c) v.members) (sym same)
                    ∙ read-upsert project_id chapter_id c volume_id s.members
                    ∙ ground arith,
              )
        ]
      ]
    ]
