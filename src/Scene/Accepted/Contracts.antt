-- ===== src/Scene/Accepted/Contracts.antt =====
-- What a batch does to the contracts (backend/app/data/transactions/scene_compile.py): none is
-- lost, and each of its own is read by its id and recorded by its proposal.
use mathlib.Core.Option
use mathlib.Core.Path.{subst}
use ai_writing.Common.{
  ◌≡◌, refl, ap, ◌∙◌, Bool, ◌&&◌, not, Option, none, some, List, [], ◌∷◌, ◌++◌, Str, is_empty, ◌==◌,
  list_eq, nat_eq, arith, inl, inr, Bool-cases, Option-cases,
}
use ai_writing.Common.Results.{ok, >>=-eq-ok, ok_injective, err-ne-ok}
use ai_writing.Snowflake.Records.{Records, RecordRevision}
use ai_writing.Sql.{select_one, update, rowcount}
use ai_writing.Sql.Laws.{updated, or_else, select_one-update, select_one_sound, select_one-append}
use ai_writing.Scene
use ai_writing.Scene.{
  SceneFields, SceneContract, has_key, takes_sequence, set_fields, insert, new_contract, validate,
  update_contract, bind_source, set_source, is_accepted_source, can_bind, has_source,
}
use ai_writing.Scene.Proposals.{update_scene, operation_eq, ProposalCreate, scene_contract_input}
use ai_writing.Scene.Compile.{write_scene, bind_scene, or_attribute_error}

module _ (project_id : Str) where
  -- The id reads a contract.
  abbrev pub IsThere : List SceneContract → Str → Type 0
  IsThere t id = (c : SceneContract) × (Scene.get project_id id t ≡ some c)

  abbrev pub Kept : List SceneContract → List SceneContract → Type 0
  Kept t t' = (id : Str) → IsThere t id → IsThere t' id

  pub get-id :
      (id : Str) (t : List SceneContract) {c : SceneContract}
      → Scene.get project_id id t ≡ some c
      → c.id ≡ id
  unfolding Scene.get
  get-id id t h = ground (arith, select_one_sound (has_key project_id id) t h)

  own-IsThere :
      (id : Str) (t : List SceneContract) {c : SceneContract}
      → Scene.get project_id id t ≡ some c
      → IsThere t c.id
  own-IsThere id t {c = c} h = (c, ap (λ i. Scene.get project_id i t) (get-id id t h) ∙ h)

  update-Kept :
      (p : SceneContract → Bool) (f : SceneContract → SceneContract) (t : List SceneContract)
      → ((id : Str) (c : SceneContract) → has_key project_id id (f c) ≡ has_key project_id id c)
      → Kept t (update p f t)
  unfolding Scene.get
  update-Kept p f t same id (c, h) = (
    updated p f c,
    select_one-update (has_key project_id id) p f t (same id) ∙ ap (Option.map _) h,
  )

  append-Kept : (t : List SceneContract) (b : SceneContract) → Kept t (t ++ b ∷ [])
  unfolding Scene.get
  append-Kept t b id (c, h) = (
    c,
    select_one-append (has_key project_id id) t (b ∷ [])
        ∙ ap (λ o. or_else o (select_one (has_key project_id id) (b ∷ []))) h,
  )

  append-IsThere :
      (t : List SceneContract) (b : SceneContract)
      → b.project_id ≡ project_id
      → IsThere (t ++ b ∷ []) b.id
  unfolding Scene.get select_one
  append-IsThere t b own = elim (Option-cases (select_one (has_key project_id b.id) t)) [
    | inl e ↦ (b, ground (arith, select_one-append (has_key project_id b.id) t (b ∷ []), e, own))
    | inr (c, e) ↦ append-Kept t b b.id (c, e)
  ]

  -- A step on the contracts that keeps each of them and whose own can be read.
  abbrev pub Writes : List SceneContract → SceneContract × List SceneContract → Type 0
  Writes t w = Kept t w.1 × IsThere w.1 w.0.id

  insert-Writes :
      (f : SceneFields) (t : List SceneContract) {w : SceneContract × List SceneContract}
      → Scene.insert project_id f t ≡ ok w
      → Writes t w
  unfolding Scene.insert new_contract
  insert-Writes f t h =
      let (valid, v, h1) = >>=-eq-ok (validate f) _ h in
      elim (Bool-cases (rowcount (Scene.has_sequence project_id valid.sequence) t == 0)) [
        | inl e ↦
            subst (Writes t) (ok_injective (rw e at h1))
              (append-Kept t _, append-IsThere t (new_contract project_id f valid t) refl)
        | inr e ↦ absurd (err-ne-ok (rw e at h1))
      ]

  -- A row that is read again after a write.
  read-Writes :
      (id : Str) (t t' : List SceneContract) (o : Option SceneContract)
      {w : SceneContract × List SceneContract}
      → Kept t t'
      → Scene.get project_id id t' ≡ o
      → or_attribute_error o t' ≡ ok w
      → Writes t w
  read-Writes id t t' none kept h done = absurd (err-ne-ok done)
  read-Writes id t t' (some c) kept h done =
      subst (Writes t) (ok_injective done) (kept, own-IsThere id t' h)

  update_contract-Writes :
      (id : Str) (f : SceneFields) (t : List SceneContract) {w : SceneContract × List SceneContract}
      {r : Option SceneContract × List SceneContract}
      → update_contract project_id id f t ≡ ok r
      → or_attribute_error (r.0) (r.1) ≡ ok w
      → Writes t w
  unfolding update_contract
  update_contract-Writes id f t {w = w} {r = r} h done =
      let (valid, v, h1) = >>=-eq-ok (validate f) _ h in
      let t' = update (has_key project_id id) (set_fields valid) t in
      let Goal : Option SceneContract × List SceneContract → Type 0 =
        λ y. or_attribute_error (y.0) (y.1) ≡ ok w → Writes t w in
      elim (Bool-cases (rowcount (has_key project_id id) t == 0)) [
        | inl e ↦ subst Goal (ok_injective (rw e at h1)) (λ d. absurd (err-ne-ok d)) done
        | inr e ↦
            elim (Bool-cases (rowcount (takes_sequence project_id id valid.sequence) t == 0)) [
              | inl e' ↦
                  subst Goal (ok_injective (rw (e, e') at h1))
                    (read-Writes id t t' (Scene.get project_id id t')
                      (update-Kept (has_key project_id id) (set_fields valid) t (λ i c. refl)) refl)
                    done
              | inr e' ↦ absurd (err-ne-ok (rw (e, e') at h1))
            ]
      ]

  write_scene-Writes :
      (c : ProposalCreate) (t : List SceneContract) {w : SceneContract × List SceneContract}
      → write_scene project_id c t ≡ ok w
      → Writes t w
  unfolding write_scene
  write_scene-Writes c t h =
      let (desired, d, h1) = >>=-eq-ok (scene_contract_input c) _ h in
      elim (Bool-cases (c.operation == update_scene)) [
        | inl e ↦
            let (r, u, done) =
              >>=-eq-ok (update_contract project_id c.target_scene_id desired t) _ (rw e at h1) in
            update_contract-Writes c.target_scene_id desired t u done
        | inr e ↦ insert-Writes desired t (rw e at h1)
      ]

  bind_source-Kept :
      (id record_id revision_id : Str) (revisions : List RecordRevision) (t : List SceneContract)
      {t' : List SceneContract}
      → bind_source project_id id record_id revision_id revisions t ≡ ok t'
      → Kept t t'
  unfolding bind_source
  bind_source-Kept id record_id revision_id revisions t h =
      elim (Bool-cases
        (rowcount (is_accepted_source project_id record_id revision_id) revisions == 0)) [
          | inl e ↦ absurd (err-ne-ok (rw e at h))
          | inr e ↦ elim (Bool-cases (can_bind record_id (Scene.get project_id id t))) [
            | inl b ↦
                elim (Bool-cases
                  (rowcount (λ c. has_source project_id record_id c && not (c.id == id)) t == 0)) [
                    | inl z ↦ subst (Kept t) (ok_injective (rw (e, b, z) at h)) (
                        update-Kept (has_key project_id id) (set_source record_id revision_id) t
                          (λ i c. refl))
                    | inr z ↦ absurd (err-ne-ok (rw (e, b, z) at h))
                  ]
            | inr b ↦ absurd (err-ne-ok (rw (e, b) at h))
          ]
        ]

  bind_scene-Writes :
      (c : ProposalCreate) (records : Records) (scene : SceneContract) (t : List SceneContract)
      {w : SceneContract × List SceneContract}
      → bind_scene project_id c records scene t ≡ ok w
      → IsThere t scene.id
      → Writes t w
  unfolding bind_scene
  bind_scene-Writes c records scene t h there = elim (Bool-cases (is_empty c.source_record_id)) [
    | inl e ↦ subst (Writes t) (ok_injective (rw e at h)) (λ i o. o, there)
    | inr e ↦
        let (t', bound, done) =
          >>=-eq-ok
            (bind_source project_id scene.id c.source_record_id c.source_record_revision_id
              records.revisions t)
            _ (rw e at h) in
        read-Writes scene.id t t' (Scene.get project_id scene.id t')
          (bind_source-Kept scene.id _ _ _ t bound) refl done
  ]

  -- One round keeps the contracts, and its own is read by its id.
  pub round-Writes :
      (c : ProposalCreate) (records : Records) (t : List SceneContract)
      {w x : SceneContract × List SceneContract}
      → write_scene project_id c t ≡ ok w
      → bind_scene project_id c records (w.0) (w.1) ≡ ok x
      → Writes t x
  round-Writes c records t {w = w} written bound =
      let (kept, there) = write_scene-Writes c t written in
      let (kept', there') = bind_scene-Writes c records (w.0) (w.1) bound there in
      (λ i o. kept' i (kept i o), there')
