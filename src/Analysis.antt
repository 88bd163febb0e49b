-- ===== src/Analysis.antt =====
-- The records of analysis runs: `AnalysisRepository` (backend/app/data/repositories/analysis.py). The
-- table is UNIQUE in the project, the source, the processor and the hash of the input.
pub mod Lineage
use ai_writing.Common.{
  ℕ, ◌+◌, Bool, true, ◌&&◌, ◌||◌, Option, none, some, List, [], ◌∷◌, ◌++◌, map, Str, codes, str_lt,
  ltb, ◌==◌, list_eq, nat_eq,
}
use ai_writing.Data.Json.{Fields}
use ai_writing.Data.RecordId.{make_record_id}
use ai_writing.Sql.{select, select_one, update, limit, order_by}
use mathlib.Core.List.{reverse}

-- `AnalysisRun`; the status is its text.
pub record AnalysisRun : Type 0 where
  pub id : Str
  pub project_id : Str
  pub source_ref : Str
  pub processor : Str
  pub input_hash : Str
  pub status : Str
  pub result_json : Fields
  pub run_version : ℕ
  pub created_at : Str
  pub completed_at : Str

-- The key of a run: the project, the source, the processor and the hash of the input.
pub record RunKey : Type 0 where
  pub project_id : Str
  pub source_ref : Str
  pub processor : Str
  pub input_hash : Str

abbrev pub has_source : Str → Str → Str → AnalysisRun → Bool
has_source project_id source_ref processor r =
    r.project_id == project_id && r.source_ref == source_ref && r.processor == processor

abbrev pub has_key : RunKey → AnalysisRun → Bool
has_key k r = has_source k.project_id k.source_ref k.processor r && r.input_hash == k.input_hash

abbrev pub has_id : Str → AnalysisRun → Bool
has_id id r = r.id == id

-- `if input_hash is not None`
abbrev pub has_hash : Option Str → AnalysisRun → Bool
has_hash none r = true
has_hash (some hash) r = r.input_hash == hash

-- `ORDER BY created_at DESC, run_version DESC LIMIT 1`
unfoldable pub get : Str → Str → Str → Option Str → List AnalysisRun → Option AnalysisRun
get project_id source_ref processor input_hash t =
    select_one (λ r. true)
      (order_by
        (λ a b.
          str_lt b.created_at a.created_at
          || (a.created_at == b.created_at && ltb b.run_version a.run_version))
        (select (λ r. has_source project_id source_ref processor r && has_hash input_hash r) t))

-- `ORDER BY created_at DESC, rowid DESC LIMIT ?`
unfoldable pub list_runs : Str → ℕ → List AnalysisRun → List AnalysisRun
list_runs project_id n t = limit n (
    order_by (λ a b. str_lt b.created_at a.created_at)
      (reverse (select (λ r. r.project_id == project_id) t)))

abbrev pub set_result : Str → Fields → Str → AnalysisRun → AnalysisRun
set_result status result now r = record r {
  status = status;
  result_json = result;
  run_version = r.run_version + 1;
  completed_at = now;
}

unfoldable pub new_run : RunKey → Str → Fields → Str → List AnalysisRun → AnalysisRun
new_run k status result now t = record {
  id =
      make_record_id (codes "analysis-" ++ k.processor ++ codes "-" ++ k.source_ref)
        (map (λ (r : AnalysisRun). r.id) t);
  project_id = k.project_id;
  source_ref = k.source_ref;
  processor = k.processor;
  input_hash = k.input_hash;
  status = status;
  result_json = result;
  run_version = 1;
  created_at = now;
  completed_at = now;
}

-- The row that is read at the end, and the table.
abbrev pub read_back : Str → List AnalysisRun → Option AnalysisRun × List AnalysisRun
read_back id t = (select_one (has_id id) t, t)

unfoldable pub record_run :
    RunKey → Str → Fields → Str → List AnalysisRun → Option AnalysisRun × List AnalysisRun
record_run k status result now t = elim (select_one (has_key k) t) [
  | some existing ↦
      read_back existing.id (update (has_id existing.id) (set_result status result now) t)
  | none ↦ let new = new_run k status result now t in read_back new.id (t ++ new ∷ [])
]
