-- ===== src/Llm/Execute.antt =====
-- `ModelRuntime.execute` (backend/app/llm/runtime.py): one run over the candidates, with a repair
-- attempt and fallback.
pub mod Trail
pub mod Report
pub mod Bounds
use ai_writing.Common.{
  ℕ, suc, zero, ◌+◌, Bool, true, false, not, ◌&&◌, ◌||◌, Option, none, some, List, [], ◌∷◌, ◌++◌,
  Str, codes, ◌==◌, list_eq, nat_eq, is_empty, if◌then◌else◌,
}
use ai_writing.Common.Results.{Result, ok, err}
use ai_writing.Llm.{
  GatewayError, ErrorCode, configuration, not_configured, execution, invalid_response,
  is_configuration_error, is_fallback_code, ModelRequest, ModelResult, ModelProfile, supports,
}
use ai_writing.Llm.Catalog.{Profiles, candidates}
use ai_writing.Llm.Registry.{Registry, create}
use ai_writing.Llm.Attempts.{
  Options, Kind, primary, fallback, repair, Attempt, RunUpdate, Execution, Loop, Ending, return,
  continue, break, record_error, record_success, add_tokens, success, failure_update,
}
use ai_writing.Llm.Runtime.{
  Completion, returned, refused, crashed, Runtime, Attempted, with_entry, entry, crash_error,
  invalid_error, policy_error, is_invalid_response, Validator, validated, Raised, gateway_raised,
  missing_project, Outcome, nothing_tried, unknown_profile, start, count_fallback,
  has_configured_gateway,
}

module _ {P G V W : Type 0} (rt : Runtime P G W) (options : Options) (validator : Validator V) where
  -- `_attempt`
  unfoldable pub attempt : G → ModelRequest P → W → Attempted V × W
  attempt g request w =
      let (completion, w') = rt.complete g request w in
      elim completion [
        | refused e ↦ (record { result = none; value = none; error = some e }, w')
        | crashed ↦ (
          record { result = none; value = none; error = some (crash_error (rt.provider_of g)) },
          w',
        )
        | returned r ↦ (validated validator r, w')
      ]

  -- The last test of the loop's body.
  unfoldable pub after_error : Loop W → Ending V × Loop W
  after_error l = (
    if not options.allow_fallback || not (is_fallback_code l.last_error.code)
        then break
        else continue,
    l,
  )

  -- `if error is None and result is not None`: the run returns, or the error is recorded and the
  -- body goes on as `on_error` says.
  unfoldable pub settle :
      Kind
      → ModelProfile
      → Option ModelResult
      → Option V
      → Option GatewayError
      → (Loop W → Ending V × Loop W)
      → Loop W
      → Ending V × Loop W
  settle kind profile (some r) value none on_error l =
      let l' = record_success kind profile r l in (success profile r value l', l')
  settle kind profile none value none on_error l =
      on_error (record_error kind profile l.last_error none l)
  settle kind profile r value (some e) on_error l = on_error (record_error kind profile e r l)

  -- The repair attempt on an answer that has failed validation.
  unfoldable pub try_repair :
      G → ModelRequest P → ModelProfile → ModelResult → Loop W → Ending V × Loop W
  try_repair g request profile invalid l =
      let repair_request : ModelRequest P = record request {
        prompt = rt.compile_repair_prompt request.prompt invalid.content l.last_error.safe_message;
        metadata = with_entry (codes "repair_for") (rt.prompt_id request.prompt) request.metadata;
      } in
      let (a, w) = attempt g repair_request l.world in
      settle repair profile a.result a.value a.error after_error
        (add_tokens a.result (record l { repair_count = l.repair_count + 1; world = w }))

  -- After a failed first attempt: `result` is what the provider has answered, if it has.
  unfoldable pub maybe_repair :
      G → ModelRequest P → ModelProfile → Option ModelResult → Loop W → Ending V × Loop W
  maybe_repair g request profile none l = after_error l
  maybe_repair g request profile (some r) l =
      if is_invalid_response l.last_error.code && options.allow_repair
      then try_repair g request profile r l
      else after_error l

  unfoldable pub with_gateway :
      Kind → G → ModelRequest P → ModelProfile → Loop W → Ending V × Loop W
  with_gateway kind g request profile l =
      let (a, w) = attempt g request l.world in
      settle kind profile a.result a.value a.error (maybe_repair g request profile a.result)
        (add_tokens a.result (record l { world = w }))

  -- The body of the loop for one candidate, after `fallback_count` has been counted.
  unfoldable pub try_profile : Kind → ModelRequest P → ModelProfile → Loop W → Ending V × Loop W
  try_profile kind request profile l =
      if not (supports profile.capabilities request)
      then (continue, record_error kind profile (policy_error profile) none l)
      else elim (create rt.registry profile.provider_id
          (if is_empty profile.model_id then none else some profile.model_id)) [
            | err e ↦ after_error (record_error kind profile e none l)
            | ok g ↦ with_gateway kind g request profile l
          ]

  -- `for candidate_index, profile in enumerate(candidates)`, from a candidate on: every one but the
  -- first is a fallback. `none` is a loop that ends with no return.
  unfoldable pub try_rest :
      Kind → ModelRequest P → List ModelProfile → Loop W → Option (Execution V × RunUpdate) × Loop W
  try_rest kind request [] l = (none, l)
  try_rest kind request (profile ∷ rest) l =
      let (ending, l') = try_profile kind request profile (count_fallback kind l) in
      elim ending [
        | return e u ↦ (some (e, u), l')
        | continue ↦ try_rest fallback request rest l'
        | break ↦ (none, l')
      ]

  -- The recorder is told that the run has ended, and the last error is raised.
  unfoldable pub conclude : Option (Execution V × RunUpdate) → Loop W → Outcome V W
  conclude (some (e, u)) l = record {
    result = ok e;
    attempts = l.attempts;
    finished = if rt.has_recorder then u ∷ [] else [];
    world = l.world;
  }
  conclude none l = record {
    result = err (gateway_raised l.last_error);
    attempts = l.attempts;
    finished = if rt.has_recorder then failure_update l ∷ [] else [];
    world = l.world;
  }

  -- `execute`: an unknown profile and a recorded run without a project are refused at once.
  unfoldable pub execute : ModelRequest P → W → Outcome V W
  execute request w = elim (candidates rt.catalog options.model_profile options.allow_fallback) [
    | none ↦ nothing_tried (gateway_raised unknown_profile) w
    | some profiles ↦
        if rt.has_recorder && is_empty (entry (codes "project_id") request.metadata)
        then nothing_tried missing_project w
        else (let (done, l) = try_rest primary request profiles (start w) in conclude done l)
  ]
