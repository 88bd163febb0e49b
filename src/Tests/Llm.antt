-- ===== src/Tests/Llm.antt =====
-- A run over two profiles.
use ai_writing.Common.{
  ◌≤◌, ◌*◌, ◌≡◌, refl, Bool, true, false, none, some, [], ◌∷◌, Str, codes, length, All, list_dec,
  list_eq, nat_eq,
}
use ai_writing.Sql.{select_one}
use ai_writing.Llm.{ModelProfile, ModelRequest, timeout}
use ai_writing.Llm.Catalog.{Profiles, get, candidates, candidate_ids, resolve}
use ai_writing.Llm.Catalog.Candidates.{IsNew, IsKnown, candidates_lem}
use ai_writing.Llm.Registry.{gateway}
use ai_writing.Llm.Attempts.{Options}
use ai_writing.Llm.Runtime.{Runtime, Completion, refused, returned}
use ai_writing.Llm.Execute.{execute}
use ai_writing.Llm.Execute.Report.{IsReported, execute-IsReported}
use ai_writing.Llm.Execute.Bounds.{execute_bound}

abbrev profile_a : ModelProfile
profile_a = record {
  id = codes "a";
  label = codes "A";
  provider_id = codes "x";
  model_id = codes "m";
  capabilities = record { text_generation = true; max_completion_tokens = 0 };
  fallback_profile_ids = codes "b" ∷ [];
}

abbrev profile_b : ModelProfile
profile_b = record profile_a { id = codes "b"; fallback_profile_ids = [] }

abbrev catalog : Profiles
catalog = profile_a ∷ profile_b ∷ []

-- A provider that answers from its second call on; a gateway is its provider's name.
abbrev runtime : Runtime Str Str Bool
runtime = record {
  catalog = catalog;
  registry = λ name. some (λ model. gateway name);
  has_recorder = true;
  provider_of = λ g. g;
  complete = λ g request warm. (answer warm, true);
  compile_repair_prompt = λ prompt content problem. prompt;
  prompt_id = λ prompt. prompt;
}
  where
    answer : Bool → Completion
    answer true = returned (record {
      content = codes "text";
      provider_id = codes "x";
      model_id = codes "m";
      finish_reason = none;
      usage = record { input_tokens = some 3; output_tokens = none };
    })
    answer false = refused (record {
      code = timeout;
      safe_message = codes "Timed out.";
      provider_id = codes "x";
      retryable = true;
    })

abbrev options : Options
options = record { model_profile = codes "a"; allow_fallback = true; allow_repair = true }

abbrev request : ModelRequest Str
request = record {
  prompt = codes "prompt";
  max_output_tokens = none;
  metadata = (codes "project_id", codes "p") ∷ [];
}

a_found : get (codes "a") catalog ≡ some profile_a
unfolding get select_one list_dec native.Mathlib.Decide.ℕ_discrete
a_found = refl

both : candidates catalog (codes "a") true ≡ some (profile_a ∷ profile_b ∷ [])
unfolding candidates candidate_ids resolve get select_one list_dec native.Mathlib.Decide.ℕ_discrete
both = refl

candidates_lem_example :
    IsNew [] (profile_a ∷ profile_b ∷ [])
    × All (IsKnown catalog) (profile_a ∷ profile_b ∷ [])
    × (true ≡ false → length (profile_a ∷ profile_b ∷ []) ≤ 1)
candidates_lem_example = candidates_lem catalog (codes "a") true both

execute-IsReported_example :
    IsReported {V = Str} runtime options
      (some (λ text. some text))
      (execute runtime options (some (λ text. some text)) request false)
execute-IsReported_example =
    execute-IsReported runtime options (some (λ text. some text)) request false

execute_bound_example :
    length (execute {V = Str} runtime options (some (λ text. some text)) request false).attempts
    ≤ 2 * 2
execute_bound_example = execute_bound runtime options (some (λ text. some text)) request false both
