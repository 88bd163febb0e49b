-- ===== src/Reference.antt =====
-- Reference suggestions: the classes of backend/app/domain_models/reference.py and the reference
-- statements of `ReviewRepository` (backend/app/data/repositories/review.py). `T` is a trace of the
-- workflow and `C` the context of an editor, which the rows pass on.
use ai_writing.Common.{
  refl, Bool, true, ◌&&◌, Option, none, some, List, [], ◌∷◌, ◌++◌, map, Str, codes, str_lt, ◌==◌,
  list_eq, nat_eq, if◌then◌else◌,
}
use ai_writing.Common.Results.{Result, ok, err}
use ai_writing.Data.Errors.{Error, Action, validation_error}
use ai_writing.Data.RecordId.{make_record_id}
use ai_writing.Review.{ReviewStatus, pending_review}
use ai_writing.Review.Status.{Reviewable, get, update_status}
use ai_writing.Sql.{select, order_by}
use ai_writing.Writeback.{ProposalCreate}

-- The fields of `ReferenceEditorContext` that the suggestion compares.
pub record EditorSource (C : Type 0) : Type 0 where
  pub project_id : Str
  pub scene_id : Str
  pub context : C

-- `ReferenceSuggestionCreate`
pub record SuggestionCreate (C T : Type 0) : Type 0 where
  pub editor_context : Option (EditorSource C)
  pub suggestion_type : Str
  pub scope_type : Str
  pub scope_ref : Str
  pub title : Str
  pub content : Str
  pub rationale : Str
  pub used_context : Str
  pub canon_warnings : List Str
  pub style_notes : List Str
  pub graph_warnings : List Str
  pub proposed_writebacks : List ProposalCreate
  pub workflow_trace : List T

-- `ReferenceSuggestion`
pub record ReferenceSuggestion (C T : Type 0) : Type 0 where
  pub id : Str
  pub project_id : Str
  pub suggestion : SuggestionCreate C T
  pub status : ReviewStatus
  pub created_at : Str
  pub reviewed_at : Str

module _ {C T : Type 0} where
  -- `SET status = ?, reviewed_at = ?`
  abbrev pub set_review : ReviewStatus → Str → ReferenceSuggestion C T → ReferenceSuggestion C T
  set_review s now r = record r { status = s; reviewed_at = now }

  instance abbrev pub reference_reviewable : Reviewable (ReferenceSuggestion C T)
  reference_reviewable = record {
    id = λ r. r.id;
    project_id = λ r. r.project_id;
    status = λ r. r.status;
    set_review = set_review;
    id-set_review = λ s now r. refl;
    project_id-set_review = λ s now r. refl;
    status-set_review = λ s now r. refl;
  }

  -- `validate_editor_source`: a suggestion from an editor is about that scene of its project.
  unfoldable pub has_editor_source : Str → SuggestionCreate C T → Bool
  has_editor_source project_id s = elim s.editor_context [
    | none ↦ true
    | some source ↦
        source.project_id == project_id
        && s.scope_type == codes "scene"
        && s.scope_ref == source.scene_id
  ]

  -- `ORDER BY created_at DESC, id DESC`
  unfoldable pub list_references :
      Str → List (ReferenceSuggestion C T) → List (ReferenceSuggestion C T)
  list_references project_id t =
      order_by
        (λ a b.
          if a.created_at == b.created_at
          then str_lt b.id a.id
          else str_lt b.created_at a.created_at)
        (select (λ r. r.project_id == project_id) t)

  unfoldable pub get_reference :
      Str → Str → List (ReferenceSuggestion C T) → Option (ReferenceSuggestion C T)
  get_reference project_id id = get project_id id

  unfoldable pub create_reference :
      Str
      → SuggestionCreate C T
      → Str
      → List (ReferenceSuggestion C T)
      → Result Error (ReferenceSuggestion C T × List (ReferenceSuggestion C T))
  create_reference project_id s now t =
      let created : ReferenceSuggestion C T = record {
        id =
            make_record_id
              (project_id ++ codes "-reference-" ++ s.suggestion_type ++ codes "-" ++ s.title)
              (map (λ (r : ReferenceSuggestion C T). r.id) t);
        project_id = project_id;
        suggestion = s;
        status = pending_review;
        created_at = now;
        reviewed_at = [];
      } in
      if has_editor_source project_id s
      then ok (created, t ++ created ∷ [])
      else err validation_error

  -- Where the conditional write has met no row, the method returns `None`.
  unfoldable pub update_reference_status :
      Str
      → Str
      → ReviewStatus
      → Str
      → Action (List (ReferenceSuggestion C T)) (Option (ReferenceSuggestion C T))
  update_reference_status = update_status (codes "Reference suggestion") (λ t. ok (none, t))
