-- ===== src/Manuscript/Flows.antt =====
-- The manuscript flows (backend/app/data/transactions/manuscript.py), each inside the transaction of
-- its caller: a raised error undoes what was written.
use ai_writing.Common.{
  ℕ, ◌+◌, Bool, false, not, Option, none, some, List, ◌++◌, Str, codes, decimal, ◌==◌, list_eq,
  nat_eq, if◌then◌else◌,
}
use ai_writing.Common.Results.{Result, ok, err, ◌>>=◌}
use ai_writing.Data.Errors.{Error, value_error}
use ai_writing.Data.RecordId.{make_record_id}
use ai_writing.Review.{accepted, pending_review, review_status_eq}
use ai_writing.Manuscript.{Proposal, Scene, Revision, Store}
use ai_writing.Manuscript.Proposals.{get_proposal, set_proposal_status, supersede_pending_for_scene}
use ai_writing.Manuscript.Scenes.{
  get_scene, get_scene_version, upsert_scene, update_scene_fields, list_scene_ids, get_revision,
  insert_revision, list_revision_ids,
}
use ai_writing.Manuscript.Jobs.{enqueue_committed_revision_jobs}

-- `ManuscriptProposalAcceptance` and `ManuscriptSceneUpdate`
pub record Draft : Type 0 where
  pub title : Str
  pub content : Str
  pub expected_scene_version : ℕ

-- `current_version + 1 if current_version is not None else 1`
abbrev pub next_version : Option ℕ → ℕ
next_version none = 1
next_version (some v) = v + 1

-- `current_version or 0`
abbrev pub version_or_zero : Option ℕ → ℕ
version_or_zero none = 0
version_or_zero (some v) = v

-- The id of a new revision.
abbrev pub revision_id : Str → Str → ℕ → List Revision → Str
revision_id project_id scene_id version t =
    make_record_id (project_id ++ codes "-revision-" ++ scene_id ++ codes "-v" ++ decimal version)
      (list_revision_ids t)

-- The id of a scene that has no row yet; `kept` is what the flow passes where there is one.
abbrev pub scene_row_id : Str → Str → Str → Option ℕ → List Scene → Str
scene_row_id kept project_id scene_id (some v) t = kept
scene_row_id kept project_id scene_id none t =
    make_record_id (project_id ++ codes "-manuscript-" ++ scene_id) (list_scene_ids t)

-- The revision with the text of a scene.
abbrev pub revision_of : Str → Scene → Str → Revision
revision_of id scene now = record {
  id = id;
  project_id = scene.project_id;
  scene_id = scene.scene_id;
  proposal_id = scene.proposal_id;
  title = scene.title;
  content = scene.content;
  version = scene.version;
  created_at = now;
}

-- `insert_revision` and `enqueue_committed_revision_jobs`
unfoldable pub file_revision : Revision → Str → Store → Result Error Store
file_revision revision now s = do
  filed ← insert_revision revision s
  ok (enqueue_committed_revision_jobs revision now filed)

-- `upsert_scene` and what follows it.
unfoldable pub commit_scene : Scene → Str → Store → Result Error Store
commit_scene scene now s = do
  scenes ← upsert_scene scene s.scenes
  file_revision
      (revision_of (revision_id scene.project_id scene.scene_id scene.version s.revisions) scene
        now)
      now (record s { scenes = scenes })

-- The title and the text of the draft, or of the proposal.
abbrev pub accepted_text : Option Draft → Proposal → Str × Str
accepted_text none p = (p.title, p.content)
accepted_text (some d) p = (d.title, d.content)

-- A draft that was begun on another version of the scene.
abbrev pub is_stale : Option Draft → Option ℕ → Bool
is_stale none current = false
is_stale (some d) current = not (d.expected_scene_version == version_or_zero current)

-- The scene row of an accepted proposal.
unfoldable pub accepted_scene : Str → Option Draft → Proposal → Str → Store → Scene
accepted_scene project_id draft p now s =
    let current = get_scene_version project_id p.scene_id s.scenes in
    record {
      id = scene_row_id (codes "manuscript-" ++ p.scene_id) project_id p.scene_id current s.scenes;
      project_id = project_id;
      scene_id = p.scene_id;
      proposal_id = p.id;
      title = (accepted_text draft p).0;
      content = (accepted_text draft p).1;
      version = next_version current;
      accepted_at = now;
    }

-- The two status writes that end the flow.
unfoldable pub mark_accepted : Str → Proposal → Str → Str → Store → Store
mark_accepted project_id p id now s = record s {
  proposals =
      supersede_pending_for_scene project_id p.scene_id id now
        (set_proposal_status project_id id accepted now s.proposals);
}

unfoldable pub accept_pending :
    Str → Str → Option Draft → Str → Proposal → Store → Result Error (Option Scene × Store)
accept_pending project_id id draft now p s =
    if is_stale draft (get_scene_version project_id p.scene_id s.scenes)
    then err (
        value_error (
          codes
            "The manuscript scene changed while this draft was being edited. Reload before accepting."))
    else do
      committed ← commit_scene (accepted_scene project_id draft p now s) now s
      ok (
        get_scene project_id p.scene_id (mark_accepted project_id p id now committed).scenes,
        mark_accepted project_id p id now committed,
      )

unfoldable pub accept_found :
    Str → Str → Option Draft → Str → Proposal → Store → Result Error (Option Scene × Store)
accept_found project_id id draft now p s =
    if p.status == accepted
    then ok (get_scene project_id p.scene_id s.scenes, s)
    else if not (p.status == pending_review)
    then ok (none, s)
    else accept_pending project_id id draft now p s

unfoldable pub accept_manuscript_proposal :
    Str → Str → Option Draft → Str → Store → Result Error (Option Scene × Store)
accept_manuscript_proposal project_id id draft now s =
    elim (get_proposal project_id id s.proposals) [
      | none ↦ ok (none, s)
      | some p ↦ accept_found project_id id draft now p s
    ]

-- The scene row with the text of an old revision.
unfoldable pub restored_scene : Str → Revision → Str → Store → Scene
restored_scene project_id r now s =
    let current = get_scene_version project_id r.scene_id s.scenes in
    record {
      id =
          scene_row_id (project_id ++ codes "-manuscript-" ++ r.scene_id) project_id r.scene_id
            current s.scenes;
      project_id = project_id;
      scene_id = r.scene_id;
      proposal_id = r.proposal_id;
      title = r.title;
      content = r.content;
      version = next_version current;
      accepted_at = now;
    }

unfoldable pub restore_found : Str → Str → Revision → Store → Result Error (Option Scene × Store)
restore_found project_id now r s = do
  committed ← commit_scene (restored_scene project_id r now s) now s
  ok (get_scene project_id r.scene_id committed.scenes, committed)

unfoldable pub restore_manuscript_revision :
    Str → Str → Str → Store → Result Error (Option Scene × Store)
restore_manuscript_revision project_id revision_id now s =
    elim (get_revision project_id revision_id s.revisions) [
      | none ↦ ok (none, s)
      | some r ↦ restore_found project_id now r s
    ]

unfoldable pub update_found :
    Str → Str → Draft → Str → Scene → Store → Result Error (Option Scene × Store)
update_found project_id scene_id draft now current s =
    if not (draft.expected_scene_version == current.version)
    then err (
        value_error (
          codes "The manuscript scene changed from v"
          ++ decimal draft.expected_scene_version
          ++ codes " to v"
          ++ decimal current.version
          ++ codes ". Review the latest text before saving."))
    else do
      let version = current.version + 1
      let written : Store = record s {
        scenes =
            update_scene_fields project_id scene_id draft.title draft.content version now s.scenes;
      }
      let revision : Revision = record {
        id = revision_id project_id scene_id version s.revisions;
        project_id = project_id;
        scene_id = scene_id;
        proposal_id = current.proposal_id;
        title = draft.title;
        content = draft.content;
        version = version;
        created_at = now;
      }
      filed ← file_revision revision now written
      ok (get_scene project_id scene_id filed.scenes, filed)

unfoldable pub update_manuscript_scene :
    Str → Str → Draft → Str → Store → Result Error (Option Scene × Store)
update_manuscript_scene project_id scene_id draft now s =
    elim (get_scene project_id scene_id s.scenes) [
      | none ↦ ok (none, s)
      | some current ↦ update_found project_id scene_id draft now current s
    ]
