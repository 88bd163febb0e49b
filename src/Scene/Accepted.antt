-- ===== src/Scene/Accepted.antt =====
-- After a batch every proposal that it names is accepted, and the same batch again replays it.
pub mod Batch
pub mod Contracts
pub mod Lists
pub mod Marks
pub mod Origins
pub mod Replay
pub mod Replayed
pub mod Rounds
use mathlib.Core.Option
use mathlib.Core.Path.{subst}
use ai_writing.Common.{
  ℕ, zero, suc, ◌+◌, ◌≡◌, ◌≢◌, ◌⊎◌, refl, sym, ap, ap₂, ◌∙◌, Bool, true, false, ◌&&◌, ◌||◌, not,
  Option, none, some, List, [], ◌∷◌, ◌++◌, map, Str, is_empty, str_lt, ℤ, contains, ◌==◌, ==_iff,
  list_eq, nat_eq, if◌then◌else◌, arith, inl, inr, Bool-cases, Option-cases, All, All-map,
  All-append,
}
use ai_writing.Data.Errors.{scene_sequence_conflict}
use ai_writing.Common.Results.{Result, ok, err, ◌>>=◌, ◌>>◌, >>=-eq-ok, ok_injective, err-ne-ok}
use ai_writing.Manuscript.{Chapter}
use ai_writing.Narrative.Knowledge.{order_by-All, All-order_by}
use ai_writing.Review.{ReviewStatus, pending_review, accepted, review_status_eq}
use ai_writing.Review.Status
use ai_writing.Sql.{select, select_one, update, order_by, rowcount}
use ai_writing.Sql.Laws.{updated, select_one-update, select_one_sound}
use ai_writing.Scene
use ai_writing.Scene.{SceneContract}
use ai_writing.Scene.Accepted.Batch.{
  Reads, read_all_lem, Opened, read_all_accepted, All-IsAccepted, read_accepted_same, pending-Ready,
  replayed_accepted,
}
use ai_writing.Scene.Accepted.Origins.{
  IsMade, apply_all-IsMade, accepted-IsRead, batch-Answers, replayed_origins,
}
use ai_writing.Scene.Accepted.Rounds.{Ready}
use ai_writing.Scene.Accepted.Replay.{Answers, apply_all-Answers}
use ai_writing.Scene.Accepted.Replayed.{ids_of, replayed-rows, replayed-Answers}
use ai_writing.Scene.Accepted.Lists.{check_open_lem, select-All, All-select, pending_none, no_clash}
use ai_writing.Scene.Accepted.Marks.{Open, IsAccepted, Advances, apply_all_lem}
use ai_writing.Scene.Proposals.{
  SceneProposal, get_proposal, is_pending, set_accepted, mark_accepted, scene_proposal_reviewable,
  set_review, in_sequence,
}
use ai_writing.Scene.Compile.{
  Store, read_all, is_open, check_open, ordered, already_accepted, check_all, check_targets,
  clashes, vacate, write_scene, bind_scene, apply_one, apply_all, present, replayed, read_accepted,
  outcome, accept_scene_proposals,
}

module _ (project_id : Str) where
  -- A batch of accepted proposals writes nothing.
  replay :
      (ids : List Str) (now : Str) (s : Store) (ps : List SceneProposal)
      → read_all project_id ids s.proposals ≡ ok ps
      → All (λ (p : SceneProposal). p.status ≡ accepted) ps
      → All (Reads project_id s.proposals) ps
      → accept_scene_proposals project_id ids now s ≡ ok ((replayed project_id ps s.scenes, ps), s)
  unfolding accept_scene_proposals ordered already_accepted check_all check_targets vacate order_by
      apply_all native.Mathlib.Decide.ℕ_discrete
  replay ids now s ps read statuses reads =
      let (none_pending, all_there, opened) = pending_none ps statuses in
      rw (read, opened, none_pending, no_clash project_id [] s.scenes)
        (rw (all_there, read_accepted_same project_id ps s.proposals reads) refl)

  module _ (ids : List Str) (now : Str) (s : Store)
      {x : (List SceneContract × List SceneProposal) × Store}
      (done : accept_scene_proposals project_id ids now s ≡ ok x) where
    -- The proposals that were read, and the run of the last loop.
    batch_run :
        (ps : List SceneProposal) × (scenes : List SceneContract) × (y : List SceneContract × Store)
        × (ids ≡ map (λ (p : SceneProposal). p.id) ps)
        × All (Reads project_id s.proposals) ps
        × All (λ (p : SceneProposal). is_open p ≡ true) ps
        × (apply_all project_id now (ordered ps) (record s { scenes = scenes }) ≡ ok y)
        × (outcome project_id ps (y.0) (y.1) ≡ x)
    unfolding accept_scene_proposals
    batch_run =
        let (ps, read, h1) = >>=-eq-ok (read_all project_id ids s.proposals) _ done in
        let (u, opened, h2) = >>=-eq-ok (check_open ps) _ h1 in
        let (seen, checked, h3) = >>=-eq-ok (check_all _ [] (ordered ps)) _ h2 in
        let (targets, targeted, h4) = >>=-eq-ok (check_targets project_id [] (ordered ps) s) _ h3 in
        let (v, clear, h5) =
          >>=-eq-ok
            (if rowcount (clashes project_id targets seen) s.scenes == 0
              then ok tt
              else err (scene_sequence_conflict []))
            _ h4 in
        let scenes = vacate project_id 0 (order_by str_lt targets) s.scenes in
        let (y, applied, h6) =
          >>=-eq-ok (apply_all project_id now (ordered ps) (record s { scenes = scenes })) _ h5 in
        let (same, reads) = read_all_lem project_id ids s.proposals read in
        (ps, scenes, y, same, reads, check_open_lem ps opened, applied, ok_injective h6)

  -- What such a run does to the proposals, and what it returns.
  module _ (now : Str) (s : Store) (ps : List SceneProposal) (scenes : List SceneContract)
      (y : List SceneContract × Store) (reads : All (Reads project_id s.proposals) ps)
      (are_open : All (λ (p : SceneProposal). is_open p ≡ true) ps)
      (applied : apply_all project_id now (ordered ps) (record s { scenes = scenes }) ≡ ok y) where
    abbrev before : Store
    before = record s { scenes = scenes }

    abbrev returned : List SceneContract
    returned = y.0 ++ replayed project_id (already_accepted ps) y.1.scenes

    ready : All (λ (p : SceneProposal). Ready project_id s.proposals p.id) (ordered ps)
    unfolding ordered
    ready =
        All-order_by (λ (p : SceneProposal). Ready project_id s.proposals p.id) in_sequence _
          (pending-Ready project_id s.proposals ps reads)

    -- What holds of each member of the loop's list holds of each pending proposal.
    of_ordered :
        (P : SceneProposal → Type 0)
        → All P (ordered ps)
        → All (λ (p : SceneProposal). (p.status == pending_review) ≡ true → P p) ps
    unfolding ordered
    of_ordered P h =
        select-All P (λ p. p.status == pending_review) ps (order_by-All P in_sequence _ h)

    to_ordered : (P : SceneProposal → Type 0) → All P ps → All P (ordered ps)
    unfolding ordered
    to_ordered P h =
        All-order_by P in_sequence _ (All-select P (λ p. p.status == pending_review) ps h)

    proposals-IsAccepted : All (λ (p : SceneProposal). IsAccepted project_id y.1.proposals p.id) ps
    proposals-IsAccepted =
        let (steps, marked) = apply_all_lem project_id now (ordered ps) before applied (
          to_ordered (λ (p : SceneProposal). Open project_id s.proposals p.id)
            (Opened project_id s.proposals ps reads are_open)) in
        All-IsAccepted project_id s.proposals y.1.proposals ps steps reads are_open
          (of_ordered (λ (p : SceneProposal). IsAccepted project_id y.1.proposals p.id) marked)

    returned_again :
        (P : Str → Type 0)
        → All (λ (p : SceneProposal). Answers project_id (y.1) P p.id) ps
        → All (λ (c : SceneContract). is_empty c.id ≡ false → P c.id) returned
    returned_again P answers =
        let (grows, made) = apply_all-Answers project_id now (ordered ps) before applied ready in
        All-append (λ (c : SceneContract). is_empty c.id ≡ false → P c.id) (y.0) _
          (made P (to_ordered (λ (p : SceneProposal). Answers project_id (y.1) P p.id) answers))
          (replayed_accepted project_id before (y.1) ps grows reads P answers)

    returned_first :
        All
          (λ (p : SceneProposal).
            Answers project_id (y.1) (λ id. contains (ids_of returned) id ≡ true) p.id)
          ps
    returned_first =
        let (grows, made) = apply_all-Answers project_id now (ordered ps) before applied ready in
        batch-Answers project_id before ps y (replayed project_id (already_accepted ps) y.1.scenes)
          grows reads are_open
          (of_ordered (IsMade project_id y)
            (apply_all-IsMade project_id now (ordered ps) before applied ready))
          (accepted-IsRead project_id y.1.scenes ps)

  -- What a further acceptance of a batch that has ended in `x` does.
  abbrev pub IsAcceptedAgain :
      List Str → Str → (List SceneContract × List SceneProposal) × Store → Type 0
  IsAcceptedAgain ids now' x =
      (qs : List SceneProposal) × (cs : List SceneContract) × (read_all project_id ids x.1.proposals
        ≡ ok qs)
      × All (λ (q : SceneProposal). q.status ≡ accepted) qs
      × (accept_scene_proposals project_id ids now' x.1 ≡ ok ((cs, qs), x.1))
      × All (λ (c : SceneContract). is_empty c.id ≡ false → contains (ids_of cs) c.id ≡ true) x.0.0
      × All (λ (c : SceneContract). contains (ids_of x.0.0) c.id ≡ true) cs
      × All (λ (c : SceneContract). Scene.get project_id c.id x.1.scenes ≡ some c) cs

  module _ (ids : List Str) (now : Str) (s : Store)
      {x : (List SceneContract × List SceneProposal) × Store}
      (done : accept_scene_proposals project_id ids now s ≡ ok x) where
    -- After a batch of scene proposals is accepted, the same batch is read with every proposal
    -- accepted, and a further acceptance of it changes nothing and returns these proposals with
    -- rows of the table of contracts: by their ids, each contract with a nonempty id that the
    -- first acceptance returned is among them, and each of them is among the contracts that the
    -- first acceptance returned.
    pub accept_scene_proposals_again : (now' : Str) → IsAcceptedAgain ids now' x
    accept_scene_proposals_again now' =
        let (ps, scenes, y, same, reads, are_open, applied, end) = batch_run ids now s done in
        let (qs, read, statuses, again) =
          read_all_accepted project_id ps y.1.proposals
            (proposals-IsAccepted now s ps scenes y reads are_open applied) in
        let read_again = ap (λ l. read_all project_id l y.1.proposals) same ∙ read in
        subst (IsAcceptedAgain ids now') end (
          qs,
          replayed project_id qs y.1.scenes,
          read_again,
          statuses,
          replay ids now' (y.1) qs read_again statuses again,
          returned_again now s ps scenes y reads are_open applied
              (λ id. contains (ids_of (replayed project_id qs y.1.scenes)) id ≡ true)
              (replayed-Answers project_id (y.1) ps qs read),
          replayed_origins project_id (y.1)
              (λ id.
                contains (ids_of (returned now s ps scenes y reads are_open applied)) id ≡ true)
              ps qs read (returned_first now s ps scenes y reads are_open applied),
          replayed-rows project_id y.1.scenes qs,
        )
