-- ===== src/Tests/Manuscript.antt =====
-- A proposal from its acceptance on.
use ai_writing.Common.{
  ◌≡◌, refl, Option, none, some, [], ◌∷◌, codes, All, list_dec, list_eq, nat_eq,
}
use ai_writing.Common.Results.{Result, ok, err}
use ai_writing.Review.{ReviewStatus-discrete, pending_review}
use ai_writing.Review.Status.{get}
use ai_writing.Sql.{select_one, update, rowcount}
use ai_writing.Manuscript.{Proposal, Scene, Revision, Store}
use ai_writing.Manuscript.Proposals.{get_proposal}
use ai_writing.Manuscript.Scenes.{
  list_scene_ids, get_scene, get_scene_version, upsert_scene, insert_revision,
}
use ai_writing.Manuscript.Jobs.{
  index_key, consistency_key, writeback_key, clp_key, enqueue_committed_revision_jobs,
}
use ai_writing.Data.RecordId.{make_record_id, next_free, slug}
use ai_writing.Manuscript.Flows.{
  mark_accepted, update_manuscript_scene, file_revision, commit_scene, accepted_scene,
  accept_pending, accept_found, accept_manuscript_proposal,
}
use ai_writing.Manuscript.History.{IsHistory}
use ai_writing.Manuscript.Saves.{update_manuscript_scene_lem}
use ai_writing.Manuscript.Versions.{
  Step-HasHistory, HasHistory, here, next, accept, Reach-HasHistory,
}
use ai_writing.Outbox.Queued.{IsQueued}
use ai_writing.Manuscript.Pipeline.{file_revision-IsQueued}
use ai_writing.Manuscript.Acceptance.{
  IsAccepted, accept_manuscript_proposal_lem, accept_again, accept_sibling,
}

abbrev first : Proposal
first = record {
  id = codes "q";
  project_id = codes "p";
  scene_id = codes "s1";
  source = codes "scene_contract";
  title = codes "T";
  content = codes "C";
  context = [];
  checklist = [];
  status = pending_review;
  created_at = codes "t0";
  reviewed_at = [];
  generation_review = none;
}

abbrev second : Proposal
second = record first { id = codes "q2" }

abbrev store : Store
store = record {
  proposals = first ∷ second ∷ [];
  scenes = [];
  revisions = [];
  contracts = [];
  jobs = [];
}

-- The store after the acceptance of the first proposal.
abbrev after : Store
after = after_of (accept_manuscript_proposal (codes "p") (codes "q") none (codes "t1") store)
  where
    after_of : Result ai_writing.Data.Errors.Error (Option Scene × Store) → Store
    after_of (ok (o, s)) = s
    after_of (err e) = store

abbrev scene : Option Scene
scene = get_scene (codes "p") (codes "s1") after.scenes

first_found : get_proposal (codes "p") (codes "q") store.proposals ≡ some first
unfolding get_proposal get select_one list_dec native.Mathlib.Decide.ℕ_discrete
first_found = refl

second_found : get_proposal (codes "p") (codes "q2") store.proposals ≡ some second
unfolding get_proposal get select_one list_dec native.Mathlib.Decide.ℕ_discrete
second_found = refl

accepted_first :
    accept_manuscript_proposal (codes "p") (codes "q") none (codes "t1") store ≡ ok (scene, after)
unfolding get_proposal get select_one list_dec native.Mathlib.Decide.ℕ_discrete
    accept_manuscript_proposal accept_found ReviewStatus-discrete accept_pending commit_scene
    get_scene_version get_scene upsert_scene rowcount file_revision insert_revision update
    accepted_scene
accepted_first = refl

accept_manuscript_proposal_lem_example :
    IsAccepted (codes "p") (codes "q") none (codes "t1") first store scene after
accept_manuscript_proposal_lem_example =
    accept_manuscript_proposal_lem (codes "p") (codes "q") none (codes "t1") store first_found refl
      accepted_first

accept_again_example :
    accept_manuscript_proposal (codes "p") (codes "q") none (codes "t2") after ≡ ok (scene, after)
accept_again_example =
    accept_again (codes "p") (codes "q") none (codes "t1") store first_found refl accepted_first
      none (codes "t2")

accept_sibling_example :
    accept_manuscript_proposal (codes "p") (codes "q2") none (codes "t2") after ≡ ok (none, after)
accept_sibling_example =
    accept_sibling (codes "p") (codes "q") none (codes "t1") store first_found refl accepted_first
      (codes "q2") none (codes "t2") second_found refl refl (λ e. cc)

empty-HasHistory : HasHistory store
unfolding get_scene select_one
empty-HasHistory = record { recorded = λ p s e. absurd (cc); past = tt }

after-HasHistory : HasHistory after
after-HasHistory =
    Step-HasHistory (accept (codes "p") (codes "q") none (codes "t1") accepted_first)
      empty-HasHistory

Reach-HasHistory_example : HasHistory after
Reach-HasHistory_example =
    Reach-HasHistory empty-HasHistory
      (next here (accept (codes "p") (codes "q") none (codes "t1") accepted_first))

abbrev revision : Revision
revision = record {
  id = codes "r1";
  project_id = codes "p";
  scene_id = codes "s1";
  proposal_id = codes "q";
  title = codes "T";
  content = codes "C";
  version = 1;
  created_at = codes "t1";
}

abbrev filed : Store
filed =
    enqueue_committed_revision_jobs revision (codes "t1")
      (record store { revisions = revision ∷ [] })

filed_first : file_revision revision (codes "t1") store ≡ ok filed
unfolding file_revision insert_revision rowcount update native.Mathlib.Decide.ℕ_discrete
filed_first = refl

file_revision-IsQueued_example : All (IsQueued filed.jobs) (
    index_key (codes "r1")
    ∷ consistency_key (codes "r1")
    ∷ writeback_key (codes "r1")
    ∷ clp_key (codes "r1")
    ∷ [])
file_revision-IsQueued_example = file_revision-IsQueued revision (codes "t1") store filed_first

-- The row that the acceptance has made, and its edit.
abbrev row : Scene
row = record {
  id = codes "p-manuscript-s1";
  project_id = codes "p";
  scene_id = codes "s1";
  proposal_id = codes "q";
  title = codes "T";
  content = codes "C";
  version = 1;
  accepted_at = codes "t1";
}

row_found : get_scene (codes "p") (codes "s1") after.scenes ≡ some row
unfolding get_proposal get select_one list_dec native.Mathlib.Decide.ℕ_discrete
    accept_manuscript_proposal accept_found ReviewStatus-discrete accept_pending commit_scene
    get_scene_version get_scene upsert_scene rowcount file_revision insert_revision update
    accepted_scene mark_accepted enqueue_committed_revision_jobs make_record_id next_free
    list_scene_ids slug
row_found = refl

update_manuscript_scene_lem_example :
    (s' : Store) × (x : Scene) × (update_manuscript_scene
        (codes "p")
        (codes "s1")
        (record { title = codes "U"; content = codes "D"; expected_scene_version = 1 })
        (codes "t2")
        after
      ≡ ok (some x, s'))
    × (x.version ≡ 2)
    × (x.title ≡ codes "U")
    × (x.content ≡ codes "D")
    × IsHistory s'.scenes s'.revisions
update_manuscript_scene_lem_example =
    update_manuscript_scene_lem (codes "p") (codes "s1")
      (record { title = codes "U"; content = codes "D"; expected_scene_version = 1 }) (codes "t2")
      after after-HasHistory row_found refl
