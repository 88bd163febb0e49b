-- ===== src/Tests/Scene.antt =====
-- A batch of two scene proposals: one makes a contract, one rewrites another contract.
use ai_writing.Common.{
  ℕ, ◌≡◌, refl, true, false, Option, none, some, List, [], ◌∷◌, ◌++◌, Str, codes, ◌==◌, pos,
  list_dec, list_eq, nat_eq, All, is_empty, contains,
}
use ai_writing.Common.Results.{ok, value}
use ai_writing.Data.Json.{end}
use ai_writing.Review.{pending_review, accepted, ReviewStatus-discrete}
use ai_writing.Review.Status
use ai_writing.Sql.{select, select_one, update, rowcount, order_by, insert_sorted}
use ai_writing.Snowflake.Records.{Records}
use ai_writing.Scene.{SceneFields, SceneContract}
use ai_writing.Scene
use ai_writing.Scene.Proposals.{
  Operation, create_scene, update_scene, Operation-discrete, ProposalCreate, SceneProposal,
}
use ai_writing.Scene.Proposals
use ai_writing.Scene.Compile.{Store, read_all, accept_scene_proposals}
use ai_writing.Scene.Compile
use ai_writing.Scene.Accepted.Replayed.{ids_of}
use ai_writing.Scene.Accepted.{accept_scene_proposals_again}

abbrev fields : SceneFields
fields = record {
  chapter_id = [];
  sequence = pos 2;
  title = codes "Old";
  pov = [];
  goal = [];
  conflict = [];
  turning_point = [];
  outcome = [];
  required_canon = [];
  forbidden_facts = [];
  information_delta = [];
  character_state_delta = [];
  story_thread_actions = [];
  open_threads = [];
  source_artifact_step = 8;
}

abbrev pub contract : SceneContract
contract = record {
  id = codes "s";
  project_id = codes "p";
  fields = fields;
  plan_version = 1;
  source_record_step = 0;
  source_record_id = [];
  source_record_revision_id = [];
  manuscript_plan_version = 0;
}

abbrev making : ProposalCreate
making = record {
  operation = create_scene;
  source_record_id = [];
  source_record_revision_id = [];
  target_scene_id = [];
  expected_plan_version = 0;
  changes = end;
  sequence = pos 2;
  chapter_id = [];
  chapter_hint = [];
  title = codes "New";
  pov = [];
  goal = [];
  conflict = [];
  turning_point = [];
  outcome = [];
  required_canon_ids = [];
  required_canon_raw = [];
  forbidden_fact_refs = [];
  information_delta = [];
  character_state_delta = [];
  story_thread_actions = [];
  open_threads = [];
  source_ref = [];
  source_excerpt = [];
  warnings = [];
  blocking_errors = [];
}

-- The new contract takes the sequence of the contract that moves to 3.
abbrev moving : ProposalCreate
moving = record making {
  operation = update_scene;
  target_scene_id = codes "s";
  expected_plan_version = 1;
  sequence = pos 3;
  title = codes "Old";
}

abbrev proposal : Str → ProposalCreate → SceneProposal
proposal id c = record {
  id = id;
  project_id = codes "p";
  create = c;
  status = pending_review;
  applied_scene_id = [];
  created_at = codes "t0";
  reviewed_at = [];
}

abbrev records : Records
records = record { revisions = []; heads = [] }

abbrev tables : Store
tables = record {
  proposals = proposal (codes "a") making ∷ proposal (codes "b") moving ∷ [];
  scenes = contract ∷ [];
  chapters = [];
  records = records;
}

abbrev after : (List SceneContract × List SceneProposal) × Store
after =
    value (([], []), tables)
      (accept_scene_proposals (codes "p") (codes "b" ∷ codes "a" ∷ []) (codes "t1") tables)

accepts :
    accept_scene_proposals (codes "p") (codes "b" ∷ codes "a" ∷ []) (codes "t1") tables ≡ ok after
unfolding accept_scene_proposals Proposals.set_review Status.get read_all Proposals.get_proposal
    select_one list_dec native.Mathlib.Decide.ℕ_discrete Compile.check_open ReviewStatus-discrete
    Compile.check_all Compile.ordered order_by select insert_sorted Proposals.in_sequence
    Compile.check_one ai_writing.Common.ℤ-discrete Compile.check_targets Compile.check_source
    Operation-discrete Scene.get rowcount Compile.apply_all Compile.apply_one Compile.write_scene
    Proposals.scene_contract_input Scene.validate Scene.is_valid Proposals.merge_required_canon
    ai_writing.Canon.strip ai_writing.Common.strip_by Proposals.step_from_source_ref Scene.insert
    Scene.normalized ai_writing.Canon.is_space Compile.vacate update Compile.bind_scene
    Proposals.mark_accepted Scene.update_contract Scene.new_contract
    ai_writing.Data.RecordId.make_record_id ai_writing.Data.RecordId.next_free
    ai_writing.Data.RecordId.slug Scene.sequence_text ai_writing.Common.decimal
    ai_writing.Common.emit
accepts = refl

accept_scene_proposals_again_example :
    (qs : List SceneProposal) × (cs : List SceneContract) × (read_all
        (codes "p")
        (codes "b" ∷ codes "a" ∷ [])
        after.1.proposals
      ≡ ok qs)
    × All (λ (q : SceneProposal). q.status ≡ accepted) qs
    × (accept_scene_proposals (codes "p") (codes "b" ∷ codes "a" ∷ []) (codes "t2") (after.1)
        ≡ ok ((cs, qs), after.1))
    × All
        (λ (c : SceneContract). is_empty c.id ≡ false → contains (ids_of cs) c.id ≡ true)
        after.0.0
    × All (λ (c : SceneContract). contains (ids_of after.0.0) c.id ≡ true) cs
    × All (λ (c : SceneContract). Scene.get (codes "p") c.id after.1.scenes ≡ some c) cs
accept_scene_proposals_again_example =
    accept_scene_proposals_again (codes "p") (codes "b" ∷ codes "a" ∷ []) (codes "t1") tables
      accepts (codes "t2")
