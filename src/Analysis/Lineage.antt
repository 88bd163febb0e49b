-- ===== src/Analysis/Lineage.antt =====
-- A run that is recorded again keeps its row (`AnalysisRepository.record`,
-- backend/app/data/repositories/analysis.py).
use mathlib.Core.Path.{subst}
use ai_writing.Common.{
  ◌≡◌, refl, sym, ap, ◌∙◌, Option, none, some, List, [], ◌∷◌, ◌++◌, map, Str, list_eq, nat_eq,
  arith, inl, inr, Option-cases, length,
}
use ai_writing.Data.Json.{Fields}
use ai_writing.Data.RecordId.Fresh.{make_record_id_fresh}
use ai_writing.Sql.{select_one, update}
use ai_writing.Sql.Laws.{
  select_one-update, select_one_zero, select_one-append_new, rowcount_absent, length-update,
}
use ai_writing.Analysis.{AnalysisRun, RunKey, has_key, has_id, set_result, new_run, record_run}

-- The row of a key is the one that its id reads.
abbrev pub IsNamed : RunKey → List AnalysisRun → Type 0
IsNamed k t =
    (r : AnalysisRun) → select_one (has_key k) t ≡ some r → select_one (has_id r.id) t ≡ some r

module _ (k : RunKey) (status : Str) (result : Fields) (now : Str) (t : List AnalysisRun) where
  abbrev after : List AnalysisRun
  after = (record_run k status result now t).1

  -- A first run: its row is new.
  record_first :
      select_one (has_key k) t ≡ none
      → let new = new_run k status result now t in
        ((record_run k status result now t).0 ≡ some new)
        × (select_one (has_key k) after ≡ some new)
        × (select_one (has_id new.id) after ≡ some new)
  unfolding record_run new_run
  record_first e =
      let new = new_run k status result now t in
      let unused : select_one (has_id new.id) t ≡ none = select_one_zero (has_id new.id) t (
        rowcount_absent (λ (r : AnalysisRun). r.id) new.id t
          (make_record_id_fresh _ (map (λ (r : AnalysisRun). r.id) t))) in
      let back = select_one-append_new (has_id new.id) t new unused (ground arith) in
      let runs : record_run k status result now t ≡ (some new, t ++ new ∷ []) =
        rw (e, record_run) (ap (λ o. (o, t ++ new ∷ [])) back) in
      subst
        (λ (x : Option AnalysisRun × List AnalysisRun).
          (x.0 ≡ some new)
          × (select_one (has_key k) x.1 ≡ some new)
          × (select_one (has_id new.id) x.1 ≡ some new))
        (sym runs) (refl, select_one-append_new (has_key k) t new e (ground arith), back)

  -- A run again: its row has the next version.
  record_next :
      (r : AnalysisRun)
      → select_one (has_key k) t ≡ some r
      → select_one (has_id r.id) t ≡ some r
      → ((record_run k status result now t).0 ≡ some (set_result status result now r))
        × (select_one (has_key k) after ≡ some (set_result status result now r))
        × (select_one (has_id r.id) after ≡ some (set_result status result now r))
        × (length after ≡ length t)
  unfolding record_run
  record_next r e named =
      let set = set_result status result now in
      let by_id : select_one (has_id r.id) (update (has_id r.id) set t) ≡ some (set r) =
        select_one-update (has_id r.id) (has_id r.id) set t (λ x. refl) ∙ ground (arith, named) in
      let by_key : select_one (has_key k) (update (has_id r.id) set t) ≡ some (set r) =
        select_one-update (has_key k) (has_id r.id) set t (λ x. refl) ∙ ground (arith, e) in
      let runs : record_run k status result now t ≡ (some (set r), update (has_id r.id) set t) =
        rw (e, record_run) (ap (λ o. (o, update (has_id r.id) set t)) by_id) in
      subst
        (λ (x : Option AnalysisRun × List AnalysisRun).
          (x.0 ≡ some (set r))
          × (select_one (has_key k) x.1 ≡ some (set r))
          × (select_one (has_id r.id) x.1 ≡ some (set r))
          × (length x.1 ≡ length t))
        (sym runs) (refl, by_key, by_id, length-update (has_id r.id) set t)

-- A run that is recorded twice, where the row of its key is the one that its id reads, keeps its id and
-- its row the second time, with the next version and the second result.
record_run_again :
    (k : RunKey) (status status' : Str) (result result' : Fields) (now now' : Str)
    (t : List AnalysisRun)
    → IsNamed k t
    → (r : AnalysisRun) × ((record_run k status result now t).0 ≡ some r)
      × ((record_run k status' result' now' (record_run k status result now t).1).0
          ≡ some (set_result status' result' now' r))
      × (length ((record_run k status' result' now' (record_run k status result now t).1).1)
          ≡ length ((record_run k status result now t).1))
record_run_again k status status' result result' now now' t named =
    elim (Option-cases (select_one (has_key k) t)) [
      | inl e ↦
          let new = new_run k status result now t in
          let (returned, by_key, by_id) = record_first k status result now t e in
          let (again, kept, read, same) =
            record_next k status' result' now' ((record_run k status result now t).1) new by_key
              by_id in
          (new, returned, again, same)
      | inr (r, e) ↦
          let next = set_result status result now r in
          let (returned, by_key, by_id, size) = record_next k status result now t r e (named r e) in
          let (again, kept, read, same) =
            record_next k status' result' now' ((record_run k status result now t).1) next by_key
              by_id in
          (next, returned, again, same)
    ]
