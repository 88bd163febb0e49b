-- ===== src/Snowflake/Dependencies.antt =====
-- Which steps a step feeds (backend/app/snowflake/dependencies.py).
pub mod Closure
use ai_writing.Common.{
  ℕ, zero, suc, Bool, true, false, ◌&&◌, not, Option, none, some, List, [], ◌∷◌, ◌++◌, Str, ltb,
  is_empty, contains, ◌==◌, nat_eq, if◌then◌else◌,
}
use ai_writing.Common.Results.{Result, ok, err, ◌>>=◌, ◌>>◌}
use ai_writing.Data.Errors.{Error}
use ai_writing.Sql.{order_by, select_one}
use ai_writing.Snowflake.Steps.{StepSpec, snowflake_step_specs, get_step_spec}

-- `for spec in SNOWFLAKE_STEP_SPECS`: the set and the stack, the last pushed step first.
unfoldable pub visit : ℕ → List StepSpec → List ℕ × List ℕ → List ℕ × List ℕ
visit current [] state = state
visit current (spec ∷ specs) (affected, frontier) = visit current specs (
    if contains spec.dependencies current && not (contains affected spec.number)
    then (spec.number ∷ affected, spec.number ∷ frontier)
    else (affected, frontier))

-- `while frontier`, on fuel. A step is pushed once at most, so that one round for each step and one
-- more are enough: `downstream_steps_lem` shows that the stack is empty at the end.
unfoldable pub explore : ℕ → List StepSpec → List ℕ × List ℕ → List ℕ × List ℕ
explore zero specs state = state
explore (suc fuel) specs (affected, []) = (affected, [])
explore (suc fuel) specs (affected, current ∷ frontier) =
    explore fuel specs (visit current specs (affected, frontier))

-- `sorted`
unfoldable pub sorted : List ℕ → List ℕ
sorted steps = order_by (λ a b. ltb a b) steps

unfoldable pub downstream_steps : ℕ → Result Error (List ℕ)
downstream_steps step_number = do
  spec ← get_step_spec step_number
  ok (sorted ((explore 11 snowflake_step_specs ([], step_number ∷ [])).0))

-- A mapping from steps to the ids of their accepted heads.
abbrev pub Heads : Type 0
Heads = List (ℕ × Str)

abbrev pub head_of : ℕ → Heads → Str
head_of step [] = []
head_of step ((k, id) ∷ heads) = if k == step then id else head_of step heads

-- `{str(dependency): accepted_heads[dependency] for … if accepted_heads.get(dependency)}`
unfoldable pub snapshot_of : List ℕ → Heads → Heads
snapshot_of [] heads = []
snapshot_of (step ∷ steps) heads =
    let rest = snapshot_of steps heads in
    if is_empty (head_of step heads) then rest else (step, head_of step heads) ∷ rest

unfoldable pub upstream_snapshot : ℕ → Heads → Result Error Heads
upstream_snapshot step_number heads = do
  spec ← get_step_spec step_number
  ok (snapshot_of spec.dependencies heads)
