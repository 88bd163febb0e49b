-- ===== src/Llm/Attempts.antt =====
-- What a run of `ModelRuntime` (backend/app/llm/runtime.py) keeps and what it tells the recorder.
-- `V` is a validated value and `W` the state of the providers.
use ai_writing.Common.{
  ℕ, ◌+◌, Bool, false, Option, none, some, List, [], ◌∷◌, ◌++◌, Str, nat_eq, is_empty,
  if◌then◌else◌,
}
use ai_writing.Llm.{GatewayError, ErrorCode, ModelResult, ModelProfile, or_zero}

pub record Options : Type 0 where
  pub model_profile : Str
  pub allow_fallback : Bool
  pub allow_repair : Bool

pub data Kind : Type 0 where
  primary fallback repair : Kind

pub data Status : Type 0 where
  succeeded failed : Status

-- `GenerationAttemptCreate`
pub record Attempt : Type 0 where
  pub attempt_index : ℕ
  pub attempt_kind : Kind
  pub profile_id : Str
  pub provider : Str
  pub model : Str
  pub status : Status
  pub error_code : Option ErrorCode
  pub retryable : Bool
  pub finish_reason : Str
  pub input_tokens : Option ℕ
  pub output_tokens : Option ℕ

-- `GenerationRunUpdate`
pub record RunUpdate : Type 0 where
  pub status : Status
  pub final_profile_id : Str
  pub provider : Str
  pub model : Str
  pub error_code : Option ErrorCode
  pub safe_error : Str
  pub attempt_count : ℕ
  pub repair_count : ℕ
  pub fallback_count : ℕ
  pub input_tokens : ℕ
  pub output_tokens : ℕ

-- `ModelExecution`, with the result of its completion.
pub record Execution (V : Type 0) : Type 0 where
  pub result : ModelResult
  pub attempt_count : ℕ
  pub repair_count : ℕ
  pub fallback_count : ℕ
  pub validated_value : Option V

-- The local variables of `execute`, the attempts as the recorder has them, and the providers.
pub record Loop (W : Type 0) : Type 0 where
  pub attempt_index : ℕ
  pub repair_count : ℕ
  pub fallback_count : ℕ
  pub input_tokens : ℕ
  pub output_tokens : ℕ
  pub last_error : GatewayError
  pub attempts : List Attempt
  pub world : W

-- How the body of the loop ends: by `return`, `continue` or `break`.
pub data Ending (V : Type 0) : Type 0 where
  return : Execution V → RunUpdate → Ending V
  continue : Ending V
  break : Ending V

-- `a or b` on texts.
abbrev pub or_text : Str → Str → Str
or_text a b = if is_empty a then b else a

abbrev pub or_empty : Option Str → Str
or_empty none = []
or_empty (some s) = s

abbrev pub error_attempt : ℕ → Kind → ModelProfile → GatewayError → Option ModelResult → Attempt
error_attempt i kind profile e none = record {
  attempt_index = i;
  attempt_kind = kind;
  profile_id = profile.id;
  provider = or_text e.provider_id profile.provider_id;
  model = profile.model_id;
  status = failed;
  error_code = some e.code;
  retryable = e.retryable;
  finish_reason = [];
  input_tokens = none;
  output_tokens = none;
}
error_attempt i kind profile e (some r) = record {
  attempt_index = i;
  attempt_kind = kind;
  profile_id = profile.id;
  provider = or_text e.provider_id profile.provider_id;
  model = r.model_id;
  status = failed;
  error_code = some e.code;
  retryable = e.retryable;
  finish_reason = or_empty r.finish_reason;
  input_tokens = r.usage.input_tokens;
  output_tokens = r.usage.output_tokens;
}

abbrev pub success_attempt : ℕ → Kind → ModelProfile → ModelResult → Attempt
success_attempt i kind profile r = record {
  attempt_index = i;
  attempt_kind = kind;
  profile_id = profile.id;
  provider = r.provider_id;
  model = r.model_id;
  status = succeeded;
  error_code = none;
  retryable = false;
  finish_reason = or_empty r.finish_reason;
  input_tokens = r.usage.input_tokens;
  output_tokens = r.usage.output_tokens;
}

module _ {W : Type 0} where
  -- `attempt_index += 1`, `last_error = …` and `_record_error_attempt`.
  unfoldable pub record_error :
      Kind → ModelProfile → GatewayError → Option ModelResult → Loop W → Loop W
  record_error kind profile e r l = record l {
    attempt_index = l.attempt_index + 1;
    last_error = e;
    attempts = l.attempts ++ error_attempt (l.attempt_index + 1) kind profile e r ∷ [];
  }

  -- `attempt_index += 1` and `_record_success_attempt`.
  unfoldable pub record_success : Kind → ModelProfile → ModelResult → Loop W → Loop W
  record_success kind profile r l = record l {
    attempt_index = l.attempt_index + 1;
    attempts = l.attempts ++ success_attempt (l.attempt_index + 1) kind profile r ∷ [];
  }

  unfoldable pub add_tokens : Option ModelResult → Loop W → Loop W
  add_tokens none l = l
  add_tokens (some r) l = record l {
    input_tokens = l.input_tokens + or_zero r.usage.input_tokens;
    output_tokens = l.output_tokens + or_zero r.usage.output_tokens;
  }

  -- `_success`
  unfoldable pub success : {V : Type 0} → ModelProfile → ModelResult → Option V → Loop W → Ending V
  success profile r value l =
      return
        (record {
          result = r;
          attempt_count = l.attempt_index;
          repair_count = l.repair_count;
          fallback_count = l.fallback_count;
          validated_value = value;
        })
        (record {
          status = succeeded;
          final_profile_id = profile.id;
          provider = r.provider_id;
          model = r.model_id;
          error_code = none;
          safe_error = [];
          attempt_count = l.attempt_index;
          repair_count = l.repair_count;
          fallback_count = l.fallback_count;
          input_tokens = l.input_tokens;
          output_tokens = l.output_tokens;
        })

  -- `GenerationRunUpdate(status="failed", …)` after the loop.
  unfoldable pub failure_update : Loop W → RunUpdate
  failure_update l = record {
    status = failed;
    final_profile_id = [];
    provider = [];
    model = [];
    error_code = some l.last_error.code;
    safe_error = l.last_error.safe_message;
    attempt_count = l.attempt_index;
    repair_count = l.repair_count;
    fallback_count = l.fallback_count;
    input_tokens = l.input_tokens;
    output_tokens = l.output_tokens;
  }
