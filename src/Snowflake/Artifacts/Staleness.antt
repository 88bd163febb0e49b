-- ===== src/Snowflake/Artifacts/Staleness.antt =====
-- What the writes to the heads do to later reads of them.
use ai_writing.Common.{
  ℕ, ◌≡◌, refl, ap, ◌∙◌, false, ◌&&◌, not, some, List, [], ◌∷◌, Str, contains, ◌==◌, ==_iff,
  list_eq, nat_eq, if◌then◌else◌, arith, inl, inr, Bool-cases, Option-cases,
}
use ai_writing.Sql.{select_one}
use ai_writing.Sql.Laws.{
  select_one-update, select_one_sound, select_one-append, rowcount_zero, rowcount_pos,
}
use ai_writing.Snowflake.Artifacts.{
  missing, head_state_eq, ArtifactHead, is_head, missing_head, head_or,
}
use ai_writing.Snowflake.Artifacts.Writes.{upsert_head, stale_head, mark_one, mark_stale}

-- The head of a step as `get_head` reads it.
abbrev pub read : Str → ℕ → List ArtifactHead → ArtifactHead
read project_id step t =
    head_or (missing_head project_id step) (select_one (is_head project_id step) t)

same_key :
    (p p' : Str) (step step' : ℕ) (t : List ArtifactHead)
    → p ≡ p'
    → step ≡ step'
    → select_one (is_head p step) t ≡ select_one (is_head p' step') t
same_key p p' step step' t e f i = select_one (is_head (e i) (f i)) t

-- A head that is written is read back; the heads of the other steps are as before.
pub read-upsert_head :
    (new : ArtifactHead) (set : ArtifactHead → ArtifactHead) (project_id : Str) (step : ℕ)
    (t : List ArtifactHead)
    → ((h : ArtifactHead) → is_head project_id step (set h) ≡ is_head project_id step h)
    → new.project_id ≡ project_id
    → ((h : ArtifactHead)
        → select_one (is_head new.project_id new.step_number) t ≡ some h
        → new ≡ set h)
    → read project_id step (upsert_head new set t)
      ≡ (if new.step_number == step then new else read project_id step t)
unfolding upsert_head select_one
read-upsert_head new set project_id step t keeps project agrees =
    let k = is_head new.project_id new.step_number in
    let p = is_head project_id step in
    elim (Option-cases (select_one k t)) [
      | inl e ↦ ground (arith, rowcount_zero k t e, select_one-append p t (new ∷ []), e)
      | inr (h, e) ↦
          let key = select_one_sound k t e in
          let there = rowcount_pos k k t e key in
          elim (Option-cases (select_one p t)) [
            | inl none_left ↦ ground (
              arith,
              there,
              select_one-update p k set t keeps,
              none_left,
              same_key new.project_id project_id new.step_number step t,
            )
            | inr (g, found) ↦ ground (
              arith,
              there,
              select_one-update p k set t keeps,
              found,
              select_one_sound p t found,
              same_key new.project_id project_id new.step_number step t,
              agrees h e,
            )
          ]
    ]

-- A head as `mark_stale` leaves it.
abbrev pub marked : Str → Str → ℕ → ArtifactHead → ArtifactHead
marked reason trigger step h =
    if h.state == missing && not (step == 10) then h else stale_head h reason trigger

-- What `read` finds in a row has its key, and so does a missing head.
read-key :
    (project_id : Str) (step : ℕ) (t : List ArtifactHead)
    → ((read project_id step t).project_id ≡ project_id)
      × ((read project_id step t).step_number ≡ step)
read-key project_id step t = elim (Option-cases (select_one (is_head project_id step) t)) [
  | inl e ↦ rw e (refl, refl)
  | inr (h, e) ↦ ground (arith, e, select_one_sound (is_head project_id step) t e)
]

module _ (project_id reason trigger : Str) (t : List ArtifactHead) where
  written :
      (s step : ℕ)
      → read project_id step (
          upsert_head
            (record (stale_head (read project_id s t) reason trigger) {
              project_id = project_id;
              step_number = s;
            })
            (λ (h : ArtifactHead). stale_head h reason trigger)
            t)
        ≡ (if s == step
            then record (stale_head (read project_id s t) reason trigger) {
              project_id = project_id;
              step_number = s;
            }
            else read project_id step t)
  written s step =
      read-upsert_head _ (λ (h : ArtifactHead). stale_head h reason trigger) project_id step t
        (λ h. refl) refl (λ h e. ground (arith, e, select_one_sound (is_head project_id s) t e))

  read-mark_one_self :
      (step : ℕ)
      → read project_id step (mark_one project_id step reason trigger t)
        ≡ marked reason trigger step (read project_id step t)
  unfolding mark_one
  read-mark_one_self step =
      elim (Bool-cases ((read project_id step t).state == missing && not (step == 10))) [
        | inl e ↦ rw e refl
        | inr e ↦ rw e (written step step ∙ ground (arith, read-key project_id step t))
      ]

  read-mark_one_ne :
      (s step : ℕ)
      → (s == step) ≡ false
      → read project_id step (mark_one project_id s reason trigger t) ≡ read project_id step t
  unfolding mark_one
  read-mark_one_ne s step ne =
      elim (Bool-cases ((read project_id s t).state == missing && not (s == 10))) [
        | inl e ↦ rw e refl
        | inr e ↦ rw e (written s step ∙ rw ne refl)
      ]

  read-mark_one :
      (s step : ℕ)
      → read project_id step (mark_one project_id s reason trigger t) ≡ (
          if s == step
          then marked reason trigger step (read project_id step t)
          else read project_id step t)
  read-mark_one s step = elim (Bool-cases (s == step)) [
    | inl e ↦ rw e (
        ap (λ x. read project_id step (mark_one project_id x reason trigger t))
          ((==_iff s step).0 e)
        ∙ read-mark_one_self step)
    | inr e ↦ rw e (read-mark_one_ne s step e)
  ]

-- Every step on the list is marked, and no other.
pub read-mark_stale :
    (project_id : Str) (steps : List ℕ) (reason trigger : Str) (t : List ArtifactHead) (step : ℕ)
    → read project_id step (mark_stale project_id steps reason trigger t) ≡ (
        if contains steps step
        then marked reason trigger step (read project_id step t)
        else read project_id step t)
unfolding mark_stale
read-mark_stale project_id [] reason trigger t step = refl
read-mark_stale project_id (s ∷ steps) reason trigger t step = ground (
  arith,
  read-mark_stale project_id steps reason trigger (mark_one project_id s reason trigger t) step,
  read-mark_one project_id reason trigger t s step,
)
