-- ===== src/Tests/Writeback.antt =====
-- A canon entity, its updates and two proposals for it.
use ai_writing.Common.{
  ℕ, zero, suc, ◌≤◌, ◌≡◌, refl, ◌≢◌, true, Option, none, some, List, [], ◌∷◌, Str, codes, arith,
  list_dec, option_dec, list_eq, nat_eq, strip_by, drop_while,
}
use ai_writing.Common.Results.{Result, ok, err}
use ai_writing.Data.Errors.{Error, value_error, validation_error, integrity_error}
use ai_writing.Data.Json.{end}
use ai_writing.Review.{ReviewStatus-discrete, pending_review}
use ai_writing.Review.Status.{get}
use ai_writing.Sql.{select_one, update, rowcount}
use ai_writing.Canon.{
  CanonEntity, CanonFields, has_key, has_name, is_valid, is_space, strip, normalized, validate,
  set_entity, next_entity, apply_cas_update, Others, update_entity, create, new_entity,
  insert_entity,
}
use ai_writing.Canon as Canon
use ai_writing.Canon.Versions.{takers, rewritten, cas_once, create_lem}
use ai_writing.Canon.Edits.{IsOutcome, update_entity_lem}
use ai_writing.Writeback.{
  canon_entity, update_action, Target-discrete, WritebackAction-discrete, ProposalCreate,
  WritebackProposal, get_writeback, mark_writeback_accepted,
}
use ai_writing.Writeback.Apply.{
  check_value, check_change, check_changes, validate_update_proposal, set_field, with_field,
  with_changes, apply_canon_update,
}
use ai_writing.Writeback.Flow.{
  Tables, write_update, apply_found, apply_canon_update_proposal, apply_canon, apply_target,
  finish_accept, accept_pending, accept_found, accept_writeback_proposal,
}
use ai_writing.Writeback.Gate.{
  ensure_current, ensure_update_target_current, verdict, ensure_update_target_current_lem,
  create_blank,
}
use ai_writing.Writeback.Decisions.{
  IsAccepted, accept_writeback_proposal_lem, accept_writeback_again, accept_writeback_sibling,
}

abbrev fields : CanonFields
fields = record {
  entity_type = codes "item";
  name = codes "N";
  summary = [];
  current_state = [];
  constraints = [];
  last_seen = [];
  timeline_notes = [];
}

abbrev entity : CanonEntity
entity = record {
  id = codes "c";
  project_id = codes "p";
  fields = fields;
  version = 1;
  updated_at = codes "t0";
}

abbrev proposed : ProposalCreate
proposed = record {
  target = canon_entity;
  action = update_action;
  title = codes "T";
  rationale = [];
  payload = end;
  source_ref = [];
  target_record_id = codes "c";
  expected_version = some 1;
  changes = (codes "summary", (codes "after", codes "S") ∷ []) ∷ [];
}

abbrev first : WritebackProposal
first = record {
  id = codes "w";
  project_id = codes "p";
  proposal = proposed;
  status = pending_review;
  created_at = codes "t0";
  reviewed_at = [];
  applied_record_id = [];
}

abbrev second : WritebackProposal
second = record first { id = codes "w2" }

abbrev tables : Tables (Unit {0})
tables = record {
  proposals = first ∷ second ∷ [];
  canon = entity ∷ [];
  memory = [];
  narrative = tt;
}

abbrev no_narrative : Str → ProposalCreate → Unit {0} → Result Error (Str × Unit {0})
no_narrative project_id p n = err (value_error [])

abbrev outcome : Result Error (Option WritebackProposal × Tables (Unit {0}))
outcome = accept_writeback_proposal no_narrative (codes "p") (codes "w") (codes "t1") tables

-- What the first acceptance returns, and the tables after it.
abbrev returned : Option WritebackProposal
returned = elim outcome [ ok r ↦ r.0 | err e ↦ none ]

abbrev after : Tables (Unit {0})
after = elim outcome [ ok r ↦ r.1 | err e ↦ tables ]

first_found : get_writeback (codes "p") (codes "w") tables.proposals ≡ some first
unfolding get_writeback get select_one list_dec native.Mathlib.Decide.ℕ_discrete
first_found = refl

second_found : get_writeback (codes "p") (codes "w2") tables.proposals ≡ some second
unfolding get_writeback get select_one list_dec native.Mathlib.Decide.ℕ_discrete
second_found = refl

entity_found : Canon.get (codes "p") (codes "c") (entity ∷ []) ≡ some entity
unfolding Canon.get select_one list_dec native.Mathlib.Decide.ℕ_discrete
entity_found = refl

accepted_first :
    accept_writeback_proposal no_narrative (codes "p") (codes "w") (codes "t1") tables
    ≡ ok (returned, after)
unfolding get_writeback get Canon.get select_one list_dec option_dec
    native.Mathlib.Decide.ℕ_discrete accept_writeback_proposal accept_found ReviewStatus-discrete
    accept_pending apply_target apply_canon WritebackAction-discrete Target-discrete
    apply_canon_update_proposal validate_update_proposal check_changes check_change check_value
    apply_found write_update apply_canon_update with_changes with_field set_field validate is_valid
    normalized apply_cas_update rowcount update finish_accept mark_writeback_accepted strip strip_by
    is_space
accepted_first = refl

accept_writeback_proposal_lem_example :
    IsAccepted (codes "p") (codes "w") (codes "t1") first tables returned after
accept_writeback_proposal_lem_example =
    accept_writeback_proposal_lem no_narrative (codes "p") (codes "w") (codes "t1") tables
      first_found refl refl refl accepted_first

accept_writeback_again_example :
    accept_writeback_proposal no_narrative (codes "p") (codes "w") (codes "t2") after
    ≡ ok (returned, after)
accept_writeback_again_example =
    accept_writeback_again no_narrative (codes "p") (codes "w") (codes "t1") tables first_found refl
      refl refl accepted_first (codes "t2")

accept_writeback_sibling_example :
    accept_writeback_proposal no_narrative (codes "p") (codes "w2") (codes "t2") after
    ≡ err (value_error (codes "Write-back proposal is already reviewed."))
accept_writeback_sibling_example =
    accept_writeback_sibling no_narrative (codes "p") (codes "w") (codes "t1") tables first_found
      refl refl refl accepted_first (codes "w2") (codes "t2") second_found refl refl refl refl
      (λ e. cc)

entity-once : rowcount (has_key (codes "p") (codes "c")) (entity ∷ []) ≤ 1
unfolding rowcount
entity-once = ground arith

abbrev bumped : CanonEntity
bumped = record entity { version = 2; updated_at = codes "t1" }

bumped_free : takers bumped (entity ∷ []) ≡ 0
unfolding rowcount list_dec native.Mathlib.Decide.ℕ_discrete
bumped_free = refl

cas_once_example :
    (n : ℕ) × (n ≢ 0)
    × (t' : List CanonEntity) × (apply_cas_update bumped 1 (entity ∷ []) ≡ ok (n, t'))
    × (Canon.get (codes "p") (codes "c") t' ≡ some (set_entity bumped entity))
    × (apply_cas_update bumped 1 t' ≡ ok (0, t'))
cas_once_example =
    cas_once bumped bumped (entity ∷ []) entity-once entity_found bumped_free refl refl refl

-- Another writer gets in once, between the first read and its UPDATE.
abbrev one_writer : Others
one_writer zero t = t
one_writer (suc zero) t =
    rewritten (next_entity (codes "p") (codes "c") (normalized fields) (codes "t1") entity) 1 t
one_writer (suc (suc k)) t = t

update_entity_lem_example :
    IsOutcome one_writer
      (codes "p")
      (codes "c")
      fields
      (codes "t2")
      3
      0
      (entity ∷ [])
      (update_entity one_writer (codes "p") (codes "c") fields (codes "t2") (entity ∷ []))
update_entity_lem_example =
    update_entity_lem one_writer (codes "p") (codes "c") fields (codes "t2") (entity ∷ [])

abbrev created : CanonEntity
created = new_entity (codes "p") fields (normalized fields) (codes "t1") []

created_first : create (codes "p") fields (codes "t1") [] ≡ ok (created, created ∷ [])
unfolding create validate is_valid insert_entity rowcount list_dec native.Mathlib.Decide.ℕ_discrete
created_first = refl

create_lem_example :
    (Canon.get (codes "p") created.id (created ∷ []) ≡ some created)
    × (created.version ≡ 1)
    × (created.fields ≡ normalized fields)
    × (is_valid fields ≡ true)
    × (rowcount (has_name (codes "p") (normalized fields)) [] ≡ 0)
create_lem_example = create_lem (codes "p") fields (codes "t1") [] created_first

valid_proposal : validate_update_proposal proposed ≡ ok tt
unfolding validate_update_proposal Target-discrete check_changes check_change check_value list_dec
    native.Mathlib.Decide.ℕ_discrete
valid_proposal = refl

current_proposal : ensure_update_target_current (codes "p") proposed (entity ∷ []) ≡ ok tt
unfolding ensure_update_target_current ensure_current Canon.get select_one list_dec option_dec
    native.Mathlib.Decide.ℕ_discrete
current_proposal = refl

ensure_update_target_current_lem_example :
    (current : CanonEntity) × (Canon.get (codes "p") (codes "c") (entity ∷ []) ≡ some current)
    × (apply_canon_update_proposal (codes "p") proposed (codes "t1") (entity ∷ [])
        ≡ verdict current proposed (codes "t1") (entity ∷ []))
ensure_update_target_current_lem_example =
    ensure_update_target_current_lem (codes "p") proposed (codes "t1") (entity ∷ []) valid_proposal
      current_proposal

-- A name of one space passes the constraints.
abbrev blank : CanonFields
blank = record fields { name = codes " " }

blank_valid : validate blank ≡ ok (normalized blank)
unfolding validate is_valid list_dec native.Mathlib.Decide.ℕ_discrete
blank_valid = refl

blank_name : strip (codes " ") ≡ []
unfolding strip strip_by is_space drop_while native.Mathlib.Decide.ℕ_discrete
blank_name = refl

create_blank_example : create (codes "p") (normalized blank) (codes "t1") [] ≡ err validation_error
create_blank_example =
    create_blank (codes "p") blank (normalized blank) (codes "t1") [] blank_valid blank_name

-- The proposal that gives the entity the name of another one passes the same tests, and its
-- acceptance raises.
abbrev other_entity : CanonEntity
other_entity = record entity { id = codes "d"; fields = record fields { name = codes "M" } }

abbrev renaming : ProposalCreate
renaming = record proposed { changes = (codes "name", (codes "after", codes "M") ∷ []) ∷ [] }

renaming_current :
    ensure_update_target_current (codes "p") renaming (entity ∷ other_entity ∷ []) ≡ ok tt
unfolding ensure_update_target_current ensure_current Canon.get select_one list_dec option_dec
    native.Mathlib.Decide.ℕ_discrete
renaming_current = refl

renaming_refused :
    apply_canon_update_proposal (codes "p") renaming (codes "t1") (entity ∷ other_entity ∷ [])
    ≡ err integrity_error
unfolding apply_canon_update_proposal validate_update_proposal Target-discrete check_changes
    check_change check_value apply_found write_update apply_canon_update with_changes with_field
    set_field validate is_valid normalized strip strip_by drop_while is_space apply_cas_update
    rowcount update Canon.get select_one list_dec option_dec native.Mathlib.Decide.ℕ_discrete
renaming_refused = refl
