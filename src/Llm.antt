-- ===== src/Llm.antt =====
-- Model calls at the provider boundary: requests, results and errors (backend/app/llm/gateway.py)
-- and the profiles with their capabilities (backend/app/llm/capabilities.py). `P` is the compiled
-- prompt, which the runtime passes on. Durations and time stamps are left out.
pub mod Catalog
pub mod Registry
pub mod Attempts
pub mod Runtime
pub mod Execute
use ai_writing.Common.{
  ℕ, ◌≡◌, Bool, true, false, not, ◌&&◌, Option, none, some, List, Str, Eq, ltb, ◌==◌, nat_eq,
  if◌then◌else◌,
}

pub data ErrorCode : Type 0 where
  not_configured configuration sdk_unavailable authentication rate_limit timeout : ErrorCode
  unavailable context_overflow output_truncated empty_response invalid_response : ErrorCode
  execution : ErrorCode

-- `ModelGatewayError`
pub record GatewayError : Type 0 where
  pub code : ErrorCode
  pub safe_message : Str
  pub provider_id : Str
  pub retryable : Bool

unfoldable pub is_configuration_error : ErrorCode → Bool
is_configuration_error not_configured = true
is_configuration_error configuration = true
is_configuration_error sdk_unavailable = true
is_configuration_error _ = false

-- `code in FALLBACK_ERROR_CODES` (backend/app/llm/runtime.py): all codes but one.
unfoldable pub is_fallback_code : ErrorCode → Bool
is_fallback_code authentication = false
is_fallback_code _ = true

pub record ModelRequest (P : Type 0) : Type 0 where
  pub prompt : P
  pub max_output_tokens : Option ℕ
  pub metadata : List (Str × Str)

pub record TokenUsage : Type 0 where
  pub input_tokens : Option ℕ
  pub output_tokens : Option ℕ

pub record ModelResult : Type 0 where
  pub content : Str
  pub provider_id : Str
  pub model_id : Str
  pub finish_reason : Option Str
  pub usage : TokenUsage

-- The capabilities that `supports` reads; the others describe the model to the author.
pub record ModelCapabilities : Type 0 where
  pub text_generation : Bool
  pub max_completion_tokens : ℕ

abbrev pub or_zero : Option ℕ → ℕ
or_zero none = 0
or_zero (some n) = n

unfoldable pub supports : {P : Type 0} → ModelCapabilities → ModelRequest P → Bool
supports c request =
    let requested = or_zero request.max_output_tokens in
    if not c.text_generation
    then false
    else if not (c.max_completion_tokens == 0) && ltb c.max_completion_tokens requested
    then false
    else true

pub record ModelProfile : Type 0 where
  pub id : Str
  pub label : Str
  pub provider_id : Str
  pub model_id : Str
  pub capabilities : ModelCapabilities
  pub fallback_profile_ids : List Str
