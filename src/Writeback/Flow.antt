-- ===== src/Writeback/Flow.antt =====
-- `accept_writeback_proposal` (backend/app/data/transactions/writeback.py), inside the transaction of
-- its caller. What the narrative targets write is an argument, `N` being the narrative tables.
use ai_writing.Common.{
  ◌+◌, not, Option, none, some, List, [], Str, codes, ◌==◌, list_eq, nat_eq, option_eq,
  if◌then◌else◌,
}
use ai_writing.Common.Results.{Result, ok, err, ◌>>=◌}
use ai_writing.Data.Errors.{
  Error, value_error, validation_error, writeback_target_missing, writeback_version_conflict,
}
use ai_writing.Data.Json.{Json, string, Fields, get as get_field}
use ai_writing.Review.{accepted, pending_review, review_status_eq}
use ai_writing.Canon.{CanonEntity, CanonFields, get, create, validate, apply_cas_update}
use ai_writing.Memory.{MemoryFields, MemoryRecord}
use ai_writing.Memory as Memory
use ai_writing.Writeback.{
  Target, canon_entity, memory_record, narrative_relation, story_thread, story_thread_event,
  story_thread_status, update_action, action_eq, ProposalCreate, WritebackProposal, get_writeback,
  mark_writeback_accepted, supersede_pending_for_target,
}
use ai_writing.Writeback.Apply.{validate_update_proposal, apply_canon_update}

pub record Tables (N : Type 0) : Type 0 where
  pub proposals : List WritebackProposal
  pub canon : List CanonEntity
  pub memory : List MemoryRecord
  pub narrative : N

-- A text field of a payload: a missing key takes the default, another kind of value is refused.
abbrev pub text_field : Str → Option Str → Fields → Result Error Str
text_field k default payload = typed default (get_field k payload)
  where
    typed : Option Str → Option Json → Result Error Str
    typed d (some (string s)) = ok s
    typed d (some v) = err validation_error
    typed (some s) none = ok s
    typed none none = err validation_error

-- `CanonEntityCreate.model_validate(payload)`
unfoldable pub canon_fields : Fields → Result Error CanonFields
canon_fields payload = do
  entity_type ← text_field (codes "entity_type") none payload
  name ← text_field (codes "name") none payload
  summary ← text_field (codes "summary") (some []) payload
  current_state ← text_field (codes "current_state") (some []) payload
  constraints ← text_field (codes "constraints") (some []) payload
  last_seen ← text_field (codes "last_seen") (some []) payload
  timeline_notes ← text_field (codes "timeline_notes") (some []) payload
  validate (record {
    entity_type = entity_type;
    name = name;
    summary = summary;
    current_state = current_state;
    constraints = constraints;
    last_seen = last_seen;
    timeline_notes = timeline_notes;
  })

-- `MemoryRecordCreate.model_validate(payload)`
unfoldable pub memory_fields : Fields → Result Error MemoryFields
memory_fields payload = do
  record_type ← text_field (codes "record_type") none payload
  title ← text_field (codes "title") none payload
  scope ← text_field (codes "scope") (some []) payload
  content ← text_field (codes "content") none payload
  tags ← text_field (codes "tags") (some []) payload
  source_ref ← text_field (codes "source_ref") (some []) payload
  Memory.validate (record {
    record_type = record_type;
    title = title;
    scope = scope;
    content = content;
    tags = tags;
    source_ref = source_ref;
  })

-- The write of an update on the entity that was read.
unfoldable pub write_update :
    CanonEntity
    → ProposalCreate
    → Str
    → List CanonEntity
    → Result Error (CanonEntity × List CanonEntity)
write_update current p now t = do
  updated ← apply_canon_update current p (current.version + 1) now
  (n, t') ← apply_cas_update updated current.version t
  if n == 0
      then err (writeback_version_conflict p.target_record_id p.expected_version current.version)
      else ok (updated, t')

unfoldable pub apply_found :
    ProposalCreate
    → Str
    → List CanonEntity
    → Option CanonEntity
    → Result Error (CanonEntity × List CanonEntity)
apply_found p now t none = err (writeback_target_missing p.target_record_id)
apply_found p now t (some current) =
    if not (some current.version == p.expected_version)
    then err (writeback_version_conflict p.target_record_id p.expected_version current.version)
    else write_update current p now t

-- `_apply_canon_update_proposal`
unfoldable pub apply_canon_update_proposal :
    Str → ProposalCreate → Str → List CanonEntity → Result Error (CanonEntity × List CanonEntity)
apply_canon_update_proposal project_id p now t = do
  checked ← validate_update_proposal p
  apply_found p now t (get project_id p.target_record_id t)

module _ {N : Type 0} (apply_narrative : Str → ProposalCreate → N → Result Error (Str × N)) where
  abbrev pub with_canon : Tables N → CanonEntity × List CanonEntity → Result Error (Str × Tables N)
  with_canon s (e, t) = ok (e.id, record s { canon = t })

  abbrev pub with_narrative : Tables N → Str × N → Result Error (Str × Tables N)
  with_narrative s (id, n) = ok (id, record s { narrative = n })

  -- The canon branches: an update, or a new entity.
  unfoldable pub apply_canon : Str → ProposalCreate → Str → Tables N → Result Error (Str × Tables N)
  apply_canon project_id p now s =
      if p.action == update_action
      then apply_canon_update_proposal project_id p now s.canon >>= with_canon s
      else do
        f ← canon_fields p.payload
        created ← create project_id f now s.canon
        with_canon s created

  -- An update of another target is refused by `_apply_canon_update_proposal`.
  unfoldable pub apply_update_or :
      Result Error (Str × Tables N)
      → Str
      → ProposalCreate
      → Str
      → Tables N
      → Result Error (Str × Tables N)
  apply_update_or other project_id p now s =
      if p.action == update_action
      then apply_canon_update_proposal project_id p now s.canon >>= with_canon s
      else other

  unfoldable pub apply_memory : Str → ProposalCreate → Tables N → Result Error (Str × Tables N)
  apply_memory project_id p s = do
    f ← memory_fields p.payload
    (r, t) ← Memory.create project_id f s.memory
    ok (r.id, record s { memory = t })

  -- The chain of branches on target and action, and the id of what was applied.
  unfoldable pub apply_target :
      Target → Str → ProposalCreate → Str → Tables N → Result Error (Str × Tables N)
  apply_target story_thread_status project_id p now s =
      apply_narrative project_id p s.narrative >>= with_narrative s
  apply_target story_thread project_id p now s =
      apply_narrative project_id p s.narrative >>= with_narrative s
  apply_target story_thread_event project_id p now s =
      apply_narrative project_id p s.narrative >>= with_narrative s
  apply_target canon_entity project_id p now s = apply_canon project_id p now s
  apply_target narrative_relation project_id p now s =
      apply_update_or (apply_narrative project_id p s.narrative >>= with_narrative s) project_id p
        now s
  apply_target memory_record project_id p now s =
      apply_update_or (apply_memory project_id p s) project_id p now s

  -- What an accepted update supersedes.
  unfoldable pub supersede_siblings :
      Str → Str → ProposalCreate → Str → List WritebackProposal → List WritebackProposal
  supersede_siblings project_id id p now t =
      if p.action == update_action
      then (supersede_pending_for_target project_id id p.target_record_id now t).1
      else t

  -- From the mark on.
  unfoldable pub finish_accept :
      Str
      → Str
      → ProposalCreate
      → Str
      → Str
      → Tables N
      → Result Error (Option WritebackProposal × Tables N)
  finish_accept project_id id p applied_id now s =
      let (marked, t) = mark_writeback_accepted project_id id applied_id now s.proposals in
      let t' = supersede_siblings project_id id p now t in
      if marked == 0
      then err (value_error (codes "Write-back proposal is already reviewed."))
      else ok (get_writeback project_id id t', record s { proposals = t' })

  unfoldable pub accept_pending :
      Str
      → Str
      → Str
      → WritebackProposal
      → Tables N
      → Result Error (Option WritebackProposal × Tables N)
  accept_pending project_id id now p s = do
    (applied_id, s') ← apply_target p.proposal.target project_id p.proposal now s
    finish_accept project_id id p.proposal applied_id now s'

  unfoldable pub accept_found :
      Str
      → Str
      → Str
      → WritebackProposal
      → Tables N
      → Result Error (Option WritebackProposal × Tables N)
  accept_found project_id id now p s =
      if p.status == accepted
      then ok (some p, s)
      else if not (p.status == pending_review)
      then err (value_error (codes "Write-back proposal is already reviewed."))
      else accept_pending project_id id now p s

  unfoldable pub accept_writeback_proposal :
      Str → Str → Str → Tables N → Result Error (Option WritebackProposal × Tables N)
  accept_writeback_proposal project_id id now s = elim (get_writeback project_id id s.proposals) [
    | none ↦ ok (none, s)
    | some p ↦ accept_found project_id id now p s
  ]
