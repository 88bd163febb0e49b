-- ===== src/Llm/Registry.antt =====
-- `ModelGatewayRegistry` and `resolve_default_model_gateway` (backend/app/llm/registry.py). The
-- factories and the gateways that they make belong to the provider adapters and are parameters.
use ai_writing.Common.{
  false, Option, none, some, List, [], ◌∷◌, ◌++◌, Str, codes, is_empty, if◌then◌else◌,
}
use ai_writing.Common.Results.{Result, ok, err}
use ai_writing.Llm.{GatewayError, not_configured, configuration, is_configuration_error}

-- What a factory does: it makes a gateway, returns None, or raises one of the two exceptions that
-- `create` handles.
pub data Made (G : Type 0) : Type 0 where
  gateway : G → Made G
  no_gateway : Made G
  gateway_error : GatewayError → Made G
  value_error : Made G

-- The dict of factories: `none` for a name that is not registered.
abbrev pub Registry : Type 0 → Type 0
Registry G = Str → Option (Option Str → Made G)

abbrev join_names : List Str → Str
join_names [] = []
join_names (n ∷ []) = n
join_names (n ∷ m ∷ ns) = n ++ codes "," ++ join_names (m ∷ ns)

-- `"; ".join(problems) if problems else None`, for problems joined as they come.
abbrev joined : Str → Option Str
joined s = if is_empty s then none else some s

abbrev with_problem : Str → Str → Str
with_problem problems line = if is_empty problems then line else problems ++ codes "; " ++ line

module _ {G : Type 0} where
  -- The exception that `create` raises for what the factory of `name` has done.
  unfoldable pub made_gateway : Str → Made G → Result GatewayError G
  made_gateway name (gateway g) = ok g
  made_gateway name (gateway_error e) = err e
  made_gateway name value_error = err (record {
    code = configuration;
    safe_message = codes "Model gateway '" ++ name ++ codes "' configuration is invalid.";
    provider_id = name;
    retryable = false;
  })
  made_gateway name no_gateway = err (record {
    code = not_configured;
    safe_message = codes "Model gateway '" ++ name ++ codes "' is not configured.";
    provider_id = name;
    retryable = false;
  })

  unfoldable pub create : Registry G → Str → Option Str → Result GatewayError G
  create registry name model_id = elim (registry name) [
    | none ↦ err (record {
      code = not_configured;
      safe_message = codes "Model gateway '" ++ name ++ codes "' is not registered.";
      provider_id = name;
      retryable = false;
    })
    | some factory ↦ made_gateway name (factory model_id)
  ]

  -- `configuration_problem`: any error that is no configuration error is raised on.
  unfoldable pub configuration_problem :
      Registry G → Str → Option Str → Result GatewayError (Option Str)
  configuration_problem registry name model_id = elim (create registry name model_id) [
    | ok g ↦ ok none
    | err e ↦ if is_configuration_error e.code then ok (some e.safe_message) else err e
  ]

  resolve_from : Registry G → List Str → Str → List Str → Result GatewayError (G × Option Str)
  resolve_from registry priority problems [] = err (record {
    code = not_configured;
    safe_message = codes "No remote model gateway is configured.";
    provider_id = join_names priority;
    retryable = false;
  })
  resolve_from registry priority problems (name ∷ names) = elim (create registry name none) [
    | ok g ↦ ok (g, joined problems)
    | err e ↦
        if is_configuration_error e.code
        then resolve_from registry priority
            (with_problem problems (name ++ codes ": " ++ e.safe_message)) names
        else err e
  ]

  -- The first gateway of the list that can be made, with the problems of those before it.
  unfoldable pub resolve_default_model_gateway :
      Registry G → List Str → Result GatewayError (G × Option Str)
  unfolding resolve_from
  resolve_default_model_gateway registry priority = resolve_from registry priority [] priority
