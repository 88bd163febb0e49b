-- ===== src/Projects.antt =====
-- The projects and the step that each has come to (backend/app/data/repositories/projects.py).
use ai_writing.Common.{
  ℕ, ◌+◌, Bool, not, Option, List, [], ◌∷◌, ◌++◌, map, Str, ltb, leb, ◌==◌, list_eq, nat_eq,
  if◌then◌else◌,
}
use ai_writing.Data.RecordId.{make_record_id}
use ai_writing.Sql.{select_one, update, rowcount}

-- `ProjectSummary`
pub record Project : Type 0 where
  pub id : Str
  pub title : Str
  pub premise : Str
  pub current_step : ℕ

abbrev pub is_project : Str → Project → Bool
is_project id p = p.id == id

unfoldable pub make_project_id : Str → List Project → Str
make_project_id title t = make_record_id title (map (λ (p : Project). p.id) t)

unfoldable pub create : Str → Str → List Project → Project × List Project
create title premise t =
    let created : Project = record {
      id = make_project_id title t;
      title = title;
      premise = premise;
      current_step = 1;
    } in
    (created, t ++ created ∷ [])

unfoldable pub get : Str → List Project → Option Project
get id = select_one (is_project id)

unfoldable pub exists : Str → List Project → Bool
exists id t = not (rowcount (is_project id) t == 0)

-- `min(completed_step + 1, 10)`
abbrev pub next_step : ℕ → ℕ
next_step completed = if leb (completed + 1) 10 then completed + 1 else 10

-- `current_step = MAX(current_step, ?)`
abbrev pub set_step : ℕ → Project → Project
set_step next p = record p {
  current_step = if ltb p.current_step next then next else p.current_step;
}

unfoldable pub advance_current_step : Str → ℕ → List Project → Option Project × List Project
advance_current_step id completed t =
    let t' = update (is_project id) (set_step (next_step completed)) t in (get id t', t')
