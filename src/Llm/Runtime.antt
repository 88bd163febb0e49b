-- ===== src/Llm/Runtime.antt =====
-- What a run of `ModelRuntime` (backend/app/llm/runtime.py) calls and returns: its parts, the errors
-- it makes of a failed attempt, and `has_configured_gateway`. `P` is a compiled prompt, `G` a gateway,
-- `V` a validated value and `W` the state of the providers.
use ai_writing.Common.{
  ◌+◌, Bool, true, false, Option, none, some, List, [], ◌∷◌, Str, codes, ◌==◌, list_eq, nat_eq,
  is_empty, if◌then◌else◌,
}
use ai_writing.Common.Results.{Result, ok, err}
use ai_writing.Llm.{
  GatewayError, ErrorCode, configuration, not_configured, execution, invalid_response,
  is_configuration_error, ModelRequest, ModelResult, ModelProfile,
}
use ai_writing.Llm.Catalog.{Profiles}
use ai_writing.Llm.Registry.{Registry, create}
use ai_writing.Llm.Attempts.{Kind, fallback, Attempt, RunUpdate, Execution, Loop}

-- What `gateway.complete` does: any exception but a `ModelGatewayError` is `crashed`.
pub data Completion : Type 0 where
  returned : ModelResult → Completion
  refused : GatewayError → Completion
  crashed : Completion

-- The runtime's parts, and what it calls of other components: the gateways, the repair prompt
-- (backend/app/prompts/creative.py) and the fields of a prompt.
pub record Runtime (P G W : Type 0) : Type 0 where
  pub catalog : Profiles
  pub registry : Registry G
  pub has_recorder : Bool
  pub provider_of : G → Str
  pub complete : G → ModelRequest P → W → Completion × W
  pub compile_repair_prompt : P → Str → Str → P
  pub prompt_id : P → Str

-- What `_attempt` returns: the result, the validated value and the error.
pub record Attempted (V : Type 0) : Type 0 where
  pub result : Option ModelResult
  pub value : Option V
  pub error : Option GatewayError

-- `d | {key: value}`
abbrev pub with_entry : Str → Str → List (Str × Str) → List (Str × Str)
with_entry k v [] = (k, v) ∷ []
with_entry k v ((j, w) ∷ d) = if j == k then (k, v) ∷ d else (j, w) ∷ with_entry k v d

abbrev pub entry : Str → List (Str × Str) → Str
entry k [] = []
entry k ((j, w) ∷ d) = if j == k then w else entry k d

unfoldable pub crash_error : Str → GatewayError
crash_error provider = record {
  code = execution;
  safe_message = codes "Model provider request failed.";
  provider_id = provider;
  retryable = false;
}

unfoldable pub invalid_error : ModelResult → GatewayError
invalid_error r = record {
  code = invalid_response;
  safe_message = codes "Model response failed local validation.";
  provider_id = r.provider_id;
  retryable = false;
}

unfoldable pub policy_error : ModelProfile → GatewayError
policy_error profile = record {
  code = configuration;
  safe_message = codes "Selected model does not satisfy the generation policy.";
  provider_id = profile.provider_id;
  retryable = false;
}

abbrev pub is_invalid_response : ErrorCode → Bool
is_invalid_response invalid_response = true
is_invalid_response _ = false

-- A validator that raises is `none`; a run may have no validator.
abbrev pub Validator : Type 0 → Type 0
Validator V = Option (Str → Option V)

unfoldable pub validated : {V : Type 0} → Validator V → ModelResult → Attempted V
validated none r = record { result = some r; value = none; error = none }
validated (some check) r = elim (check r.content) [
  | none ↦ record { result = some r; value = none; error = some (invalid_error r) }
  | some v ↦ record { result = some r; value = some v; error = none }
]

pub data Raised : Type 0 where
  gateway_raised : GatewayError → Raised
  missing_project : Raised

-- What a run leaves: its result, its attempts in order (a recorder, where there is one, is told of each),
-- the end of the run if a recorder is told of it, and the providers.
pub record Outcome (V W : Type 0) : Type 0 where
  pub result : Result Raised (Execution V)
  pub attempts : List Attempt
  pub finished : List RunUpdate
  pub world : W

abbrev pub nothing_tried : {V W : Type 0} → Raised → W → Outcome V W
nothing_tried e w = record { result = err e; attempts = []; finished = []; world = w }

unfoldable pub unknown_profile : GatewayError
unknown_profile = record {
  code = configuration;
  safe_message = codes "Selected model profile is not available.";
  provider_id = [];
  retryable = false;
}

-- The local variables before the loop.
unfoldable pub start : {W : Type 0} → W → Loop W
start w = record {
  attempt_index = 0;
  repair_count = 0;
  fallback_count = 0;
  input_tokens = 0;
  output_tokens = 0;
  last_error = record {
    code = not_configured;
    safe_message = codes "No compatible model gateway is configured.";
    provider_id = [];
    retryable = false;
  };
  attempts = [];
  world = w;
}

abbrev pub count_fallback : {W : Type 0} → Kind → Loop W → Loop W
count_fallback fallback l = record l { fallback_count = l.fallback_count + 1 }
count_fallback _ l = l

-- `has_configured_gateway`, over the profiles that are left.
unfoldable pub has_configured_gateway : {G : Type 0} → Registry G → Profiles → Bool
has_configured_gateway registry [] = false
has_configured_gateway registry (p ∷ ps) =
    let rest = has_configured_gateway registry ps in
    elim (create registry p.provider_id (if is_empty p.model_id then none else some p.model_id)) [
      | ok g ↦ true
      | err e ↦ if is_configuration_error e.code then rest else true
    ]
