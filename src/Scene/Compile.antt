-- ===== src/Scene/Compile.antt =====
-- `accept_scene_proposals` (backend/app/data/transactions/scene_compile.py): a batch of proposals
-- becomes scene contracts in one transaction. The message of an error is the id or the number that it
-- is about.
use ai_writing.Common.{
  ℕ, ◌+◌, Bool, true, false, ◌&&◌, ◌||◌, not, Option, none, some, List, [], ◌∷◌, ◌++◌, map, Str,
  is_empty, str_lt, ℤ, negsuc, integer_eq, contains, ◌==◌, list_eq, nat_eq, if◌then◌else◌,
}
use ai_writing.Common.Results.{Result, ok, err, ◌>>=◌, ◌>>◌}
use ai_writing.Data.Errors.{
  Error, attribute_error, scene_proposal_not_found, scene_proposal_reviewed,
  scene_sequence_conflict, scene_chapter_missing, scene_proposal_quality,
}
use ai_writing.Manuscript.{Chapter}
use ai_writing.Review.{pending_review, accepted, review_status_eq}
use ai_writing.Snowflake.Records
use ai_writing.Snowflake.Records.{Records, RecordHead}
use ai_writing.Sql.{select, update, order_by, rowcount}
use ai_writing.Scene
use ai_writing.Scene.{
  SceneContract, has_key, bind_source, get_by_source, update_contract, sequence_text,
}
use ai_writing.Scene.Proposals.{
  create_scene, update_scene, operation_eq, ProposalCreate, SceneProposal, get_proposal,
  in_sequence, scene_contract_input, mark_accepted,
}

-- The tables that the batch touches.
pub record Store : Type 0 where
  pub proposals : List SceneProposal
  pub scenes : List SceneContract
  pub chapters : List Chapter
  pub records : Records

-- `[proposals_repo.get(project_id, pid) …]`; the first id that names no proposal is an error.
unfoldable pub read_all : Str → List Str → List SceneProposal → Result Error (List SceneProposal)
read_all project_id [] t = ok []
read_all project_id (id ∷ ids) t = elim (get_proposal project_id id t) [
  | none ↦ err (scene_proposal_not_found id)
  | some p ↦ read_all project_id ids t >>= λ ps. ok (p ∷ ps)
]

abbrev pub is_open : SceneProposal → Bool
is_open p = p.status == pending_review || p.status == accepted

-- `if blocked`
unfoldable pub check_open : List SceneProposal → Result Error (Unit {0})
check_open [] = ok tt
check_open (p ∷ ps) =
    let rest = check_open ps in if is_open p then rest else err (scene_proposal_reviewed p.id)

unfoldable pub ordered : List SceneProposal → List SceneProposal
ordered ps = order_by in_sequence (select (λ p. p.status == pending_review) ps)

unfoldable pub already_accepted : List SceneProposal → List SceneProposal
already_accepted ps = select (λ p. p.status == accepted) ps

-- One round of the validation before any insert; `seen` are the sequences of the earlier ones.
unfoldable pub check_one : List Str → List ℤ → SceneProposal → Result Error (Unit {0})
check_one chapters seen p =
    if not (is_empty p.create.blocking_errors)
    then err (scene_proposal_quality p.id)
    else if contains seen p.create.sequence
    then err (scene_sequence_conflict p.id)
    else if not (is_empty p.create.chapter_id) && not (contains chapters p.create.chapter_id)
    then err (scene_chapter_missing p.id)
    else ok tt

-- The loop, and the sequences that it has seen.
unfoldable pub check_all : List Str → List ℤ → List SceneProposal → Result Error (List ℤ)
check_all chapters seen [] = ok seen
check_all chapters seen (p ∷ ps) = do
  check_one chapters seen p
  check_all chapters (p.create.sequence ∷ seen) ps

-- `head is None or head.accepted_revision_id != …`
abbrev pub is_current : Str → Option RecordHead → Bool
is_current revision_id none = false
is_current revision_id (some h) = h.accepted_revision_id == revision_id

abbrev pub is_some {ℓ} : {A : Type ℓ} → Option A → Bool
is_some none = false
is_some (some a) = true

-- The checks on the source record of a proposal.
unfoldable pub check_source : Str → SceneProposal → Store → Result Error (Unit {0})
check_source project_id p s =
    let c = p.create in
    if is_empty c.source_record_id
    then ok tt
    else if not (
        is_current c.source_record_revision_id
          (Records.get_head project_id 8 c.source_record_id s.records))
    then err (scene_proposal_reviewed p.id)
    else if c.operation == create_scene
        && is_some (get_by_source project_id c.source_record_id s.scenes)
    then err (scene_proposal_reviewed p.id)
    else ok tt

-- `target is None or …`
abbrev pub is_target : ProposalCreate → List Str → Option SceneContract → Bool
is_target c targets none = false
is_target c targets (some t) =
    t.source_record_id == c.source_record_id
    && t.plan_version == c.expected_plan_version
    && not (contains targets t.id)

-- The second loop: the ids of the contracts that the batch updates.
unfoldable pub check_targets : Str → List Str → List SceneProposal → Store → Result Error (List Str)
check_targets project_id targets [] s = ok targets
check_targets project_id targets (p ∷ ps) s = do
  check_source project_id p s
  if p.create.operation == create_scene
        || is_target p.create targets (Scene.get project_id p.create.target_scene_id s.scenes)
      then ok tt
      else err (scene_proposal_reviewed p.id)
  check_targets project_id
      (if p.create.operation == update_scene then p.create.target_scene_id ∷ targets else targets)
      ps s

-- A sequence of the batch that a contract has which the batch does not update.
abbrev pub clashes : Str → List Str → List ℤ → SceneContract → Bool
clashes project_id targets seen c =
    c.project_id == project_id && not (contains targets c.id) && contains seen c.fields.sequence

-- The numbers -100000, -100001, … lie outside what a contract can have, so no UPDATE meets the UNIQUE
-- constraint.
unfoldable pub vacate : Str → ℕ → List Str → List SceneContract → List SceneContract
vacate project_id index [] t = t
vacate project_id index (id ∷ ids) t = vacate project_id (index + 1) ids (
    update (has_key project_id id)
      (λ c. record c { fields = record (c.fields) { sequence = negsuc (99999 + index) } }) t)

-- `scene.id` on `None` is an AttributeError.
abbrev pub or_attribute_error :
    Option SceneContract → List SceneContract → Result Error (SceneContract × List SceneContract)
or_attribute_error none t = err attribute_error
or_attribute_error (some c) t = ok (c, t)

-- The contract of a proposal, written and not bound. The classes that an update constructs on the way
-- to its own repeat a validation of the same stripped texts.
unfoldable pub write_scene :
    Str → ProposalCreate → List SceneContract → Result Error (SceneContract × List SceneContract)
write_scene project_id c t = do
  desired ← scene_contract_input c
  if c.operation == update_scene
      then (update_contract project_id c.target_scene_id desired t
          >>= λ (r : Option SceneContract × List SceneContract). or_attribute_error (r.0) (r.1))
      else Scene.insert project_id desired t

unfoldable pub bind_scene :
    Str
    → ProposalCreate
    → Records
    → SceneContract
    → List SceneContract
    → Result Error (SceneContract × List SceneContract)
bind_scene project_id c records scene t = if is_empty c.source_record_id then ok (scene, t) else do
  t' ←
      bind_source project_id scene.id c.source_record_id c.source_record_revision_id
        records.revisions t
  or_attribute_error (Scene.get project_id scene.id t') t'

-- One round of the last loop.
unfoldable pub apply_one : Str → Str → SceneProposal → Store → Result Error (SceneContract × Store)
apply_one project_id now p s = do
  (written, t) ← write_scene project_id p.create s.scenes
  (scene, t') ← bind_scene project_id p.create s.records written t
  let (n, proposals) = mark_accepted project_id p.id scene.id now s.proposals
  if n == 0
      then err (scene_proposal_reviewed p.id)
      else ok (scene, record s { scenes = t'; proposals = proposals })

unfoldable pub apply_all :
    Str → Str → List SceneProposal → Store → Result Error (List SceneContract × Store)
apply_all project_id now [] s = ok ([], s)
apply_all project_id now (p ∷ ps) s = do
  (scene, s1) ← apply_one project_id now p s
  (scenes, s2) ← apply_all project_id now ps s1
  ok (scene ∷ scenes, s2)

-- The members that are not `None`.
unfoldable pub present {ℓ} : {A : Type ℓ} → List (Option A) → List A
present [] = []
present (none ∷ os) = present os
present (some a ∷ os) = a ∷ present os

unfoldable pub replayed : Str → List SceneProposal → List SceneContract → List SceneContract
replayed project_id ps t = present (
    map (λ (p : SceneProposal). Scene.get project_id p.applied_scene_id t)
      (select (λ p. not (is_empty p.applied_scene_id)) ps))

unfoldable pub read_accepted : Str → List SceneProposal → List SceneProposal → List SceneProposal
read_accepted project_id ps t =
    present (map (λ (p : SceneProposal). get_proposal project_id p.id t) ps)

-- The result of the batch on the tables after it.
abbrev pub outcome :
    Str
    → List SceneProposal
    → List SceneContract
    → Store
    → (List SceneContract × List SceneProposal) × Store
outcome project_id ps created s = (
  (
    created ++ replayed project_id (already_accepted ps) s.scenes,
    read_accepted project_id (ordered ps ++ already_accepted ps) s.proposals,
  ),
  s,
)

unfoldable pub accept_scene_proposals :
    Str → List Str → Str → Store → Result Error ((List SceneContract × List SceneProposal) × Store)
accept_scene_proposals project_id ids now s = do
  ps ← read_all project_id ids s.proposals
  check_open ps
  seen ←
      check_all (map (λ (c : Chapter). c.id) (select (λ c. c.project_id == project_id) s.chapters))
        [] (ordered ps)
  targets ← check_targets project_id [] (ordered ps) s
  if rowcount (clashes project_id targets seen) s.scenes == 0
      then ok tt
      else err (scene_sequence_conflict [])
  (created, s') ←
      apply_all project_id now (ordered ps)
        (record s { scenes = vacate project_id 0 (order_by str_lt targets) s.scenes })
  ok (outcome project_id ps created s')
