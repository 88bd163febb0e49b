-- ===== src/Manuscript/Versions.antt =====
-- The versions of a scene over any sequence of flows
-- (backend/app/data/transactions/manuscript.py).
use mathlib.Core.Path.{subst}
use ai_writing.Common.{
  ◌≡◌, sym, ap, Option, List, Str, inl, inr, ◌==◌, list_eq, nat_eq, Bool-cases, Option-cases,
}
use ai_writing.Common.Results.{Result, ok, ok_injective}
use ai_writing.Data.Errors.{Error}
use ai_writing.Review.{accepted, pending_review, review_status_eq}
use ai_writing.Manuscript.{Proposal, Scene, Store}
use ai_writing.Manuscript.Proposals.{get_proposal}
use ai_writing.Manuscript.Scenes.{get_scene, get_revision}
use ai_writing.Manuscript.Flows.{
  Draft, accept_found, accept_manuscript_proposal, restore_manuscript_revision,
  update_manuscript_scene,
}
use ai_writing.Manuscript.History.{IsHistory}
use ai_writing.Manuscript.Committed.{accept_pending-IsReturned, restore_found-IsReturned}
use ai_writing.Manuscript.Edits.{update_found-IsReturned}

-- One committed transaction: a flow, or any change of the proposals alone.
pub data Step (s s' : Store) : Type 0 where
  accept :
      (p id : Str) (d : Option Draft) (now : Str) {o : Option Scene}
      → accept_manuscript_proposal p id d now s ≡ ok (o, s')
      → Step s s'
  restore :
      (p id now : Str) {o : Option Scene}
      → restore_manuscript_revision p id now s ≡ ok (o, s')
      → Step s s'
  edit :
      (p sid : Str) (d : Draft) (now : Str) {o : Option Scene}
      → update_manuscript_scene p sid d now s ≡ ok (o, s')
      → Step s s'
  propose : (proposals : List Proposal) → s' ≡ record s { proposals = proposals } → Step s s'

pub data Reach (s : Store) : Store → Type 0 where
  here : Reach s s
  next : {t u : Store} → Reach s t → Step t u → Reach s u

-- The invariant of a store.
abbrev pub HasHistory : Store → Type 0
HasHistory s = IsHistory s.scenes s.revisions

unchanged :
    {o o' : Option Scene} (s : Store) {s' : Store}
    → Path (Result Error (Option Scene × Store)) (ok (o, s)) (ok (o', s'))
    → HasHistory s
    → HasHistory s'
unchanged s e h = subst HasHistory (ap (λ r. r.1) (ok_injective e)) h

accept_found-HasHistory :
    (p id : Str) (d : Option Draft) (now : Str) (q : Proposal) (s : Store) {o : Option Scene}
    {s' : Store}
    → accept_found p id d now q s ≡ ok (o, s')
    → HasHistory s
    → HasHistory s'
unfolding accept_found
accept_found-HasHistory p id d now q s e h = elim (Bool-cases (q.status == accepted)) [
  | inl yes_accepted ↦ unchanged s (rw yes_accepted at e) h
  | inr no_accepted ↦ elim (Bool-cases (q.status == pending_review)) [
    | inl pending ↦
        (accept_pending-IsReturned p id d now q s (rw (no_accepted, pending) at e)).history h
    | inr decided ↦ unchanged s (rw (no_accepted, decided) at e) h
  ]
]

pub Step-HasHistory : {s s' : Store} → Step s s' → HasHistory s → HasHistory s'
unfolding accept_manuscript_proposal restore_manuscript_revision update_manuscript_scene
Step-HasHistory {s = s} (accept p id d now e) h =
    elim (Option-cases (get_proposal p id s.proposals)) [
      | inl missing ↦ unchanged s (rw (missing, accept_manuscript_proposal) at e) h
      | inr (q, found) ↦
          accept_found-HasHistory p id d now q s (rw (found, accept_manuscript_proposal) at e) h
    ]
Step-HasHistory {s = s} (restore p id now e) h =
    elim (Option-cases (get_revision p id s.revisions)) [
      | inl missing ↦ unchanged s (rw (missing, restore_manuscript_revision) at e) h
      | inr (r, found) ↦
          (restore_found-IsReturned p now r s
              (rw (found, restore_manuscript_revision) at e)).history
            h
    ]
Step-HasHistory {s = s} (edit p sid d now e) h = elim (Option-cases (get_scene p sid s.scenes)) [
  | inl missing ↦ unchanged s (rw (missing, update_manuscript_scene) at e) h
  | inr (x, found) ↦
      (update_found-IsReturned p sid d now x s found
          (rw (found, update_manuscript_scene) at e)).history
        h
]
Step-HasHistory (propose proposals e) h = subst HasHistory (sym e) h

-- In every store reached by the manuscript flows and by changes of the proposals from a store with
-- this property, the title and content of each scene row are those of the revision of its version,
-- and no revision is newer than its scene.
pub Reach-HasHistory : {s s' : Store} → HasHistory s → Reach s s' → HasHistory s'
Reach-HasHistory h here = h
Reach-HasHistory h (next r e) = Step-HasHistory e (Reach-HasHistory h r)
