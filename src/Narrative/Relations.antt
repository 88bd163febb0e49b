-- ===== src/Narrative/Relations.antt =====
-- Relations between characters and things, each over an interval of scenes (`NarrativeRepository`,
-- backend/app/data/repositories/narrative.py).
use ai_writing.Common.{
  ℕ, ◌&&◌, List, [], ◌∷◌, ◌++◌, map, Str, codes, decimal, Option, leb, str_lt, ◌==◌, list_eq,
  nat_eq, if◌then◌else◌, Bool, Eq,
}
use ai_writing.Common.Results.{Result, ok, err}
use ai_writing.Data.Errors.{Error, value_error}
use ai_writing.Data.RecordId.{make_record_id}
use ai_writing.Sql.{select, order_by}
use ai_writing.Narrative.{ends_before}
use ai_writing.Narrative.Facts.Reads.{by_key, by_number, lasts_to}

pub data RelationStatus : Type 0 where
  planned confirmed superseded : RelationStatus

unfoldable pub RelationStatus-discrete : Discrete RelationStatus
RelationStatus-discrete = hlevel

instance abbrev pub relation_status_eq : Eq RelationStatus
relation_status_eq = record { dec = RelationStatus-discrete }

-- `NarrativeRelationCreate`; the confidence is only kept, as the text of a number.
pub record RelationFields : Type 0 where
  pub source : Str
  pub target : Str
  pub relation : Str
  pub valid_from : ℕ
  pub valid_to : Option ℕ
  pub confidence : Str
  pub source_ref : Str
  pub status : RelationStatus

pub record NarrativeRelation : Type 0 where
  pub id : Str
  pub project_id : Str
  pub fields : RelationFields

unfoldable pub new_relation : Str → RelationFields → List NarrativeRelation → NarrativeRelation
new_relation project_id f t = record {
  id =
      make_record_id
        (project_id
          ++ codes "-"
          ++ f.source
          ++ codes "-"
          ++ f.relation
          ++ codes "-"
          ++ f.target
          ++ codes "-"
          ++ decimal f.valid_from)
        (map (λ (r : NarrativeRelation). r.id) t);
  project_id = project_id;
  fields = f;
}

unfoldable pub create_relation :
    Str
    → RelationFields
    → List NarrativeRelation
    → Result Error (NarrativeRelation × List NarrativeRelation)
create_relation project_id f t =
    if ends_before f.valid_to f.valid_from
    then err (value_error (codes "valid_to cannot be before valid_from"))
    else ok (new_relation project_id f t, t ++ new_relation project_id f t ∷ [])

-- `ORDER BY valid_from, source, relation, target, id`
unfoldable pub in_listing : NarrativeRelation → NarrativeRelation → Bool
in_listing a b = by_number a.fields.valid_from b.fields.valid_from (
    by_key a.fields.source b.fields.source (
      by_key a.fields.relation b.fields.relation
        (by_key a.fields.target b.fields.target (str_lt a.id b.id))))

unfoldable pub list_relations : Str → List NarrativeRelation → List NarrativeRelation
list_relations project_id t = order_by in_listing (select (λ r. r.project_id == project_id) t)

-- `ORDER BY source, relation, target, valid_from DESC, id`
unfoldable pub in_state : NarrativeRelation → NarrativeRelation → Bool
in_state a b = by_key a.fields.source b.fields.source (
    by_key a.fields.relation b.fields.relation (
      by_key a.fields.target b.fields.target
        (by_number b.fields.valid_from a.fields.valid_from (str_lt a.id b.id))))

unfoldable pub relations_at : Str → ℕ → List NarrativeRelation → List NarrativeRelation
relations_at project_id position t = order_by in_state (
    select
      (λ r.
        r.project_id == project_id
        && r.fields.status == confirmed
        && leb r.fields.valid_from position
        && lasts_to r.fields.valid_to position)
      t)
