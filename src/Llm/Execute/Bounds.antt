-- ===== src/Llm/Execute/Bounds.antt =====
-- How many attempts a run makes.
use ai_writing.Common.{
  ℕ, ◌+◌, ◌*◌, ◌≤◌, ◌≡◌, refl, inl, inr, ◌&&◌, Option, none, some, List, [], ◌∷◌, codes, is_empty,
  arith, ap, length, length-append, Bool-cases, if◌then◌else◌,
}
use ai_writing.Common.Results.{Result, ok, err}
use ai_writing.Llm.{GatewayError, ModelRequest, ModelResult, ModelProfile, supports}
use ai_writing.Llm.Catalog.{candidates}
use ai_writing.Llm.Registry.{create}
use ai_writing.Llm.Attempts.{
  Options, Kind, fallback, primary, repair, RunUpdate, Execution, Loop, Ending, return, continue,
  break, record_error, record_success, add_tokens, success_attempt, error_attempt,
}
use ai_writing.Llm.Runtime.{Runtime, Validator, count_fallback, start, entry, is_invalid_response}
use ai_writing.Llm.Execute.{
  after_error, settle, try_repair, maybe_repair, with_gateway, try_profile, try_rest, conclude,
  execute,
}

module _ {P G V W : Type 0} (rt : Runtime P G W) (options : Options) (validator : Validator V) where
  -- No more than `n` attempts have been made by the end of the body.
  abbrev Within : ℕ → Ending V × Loop W → Type 0
  Within n x = length x.1.attempts ≤ n

  abbrev Spent : ℕ → Option (Execution V × RunUpdate) × Loop W → Type 0
  Spent n x = length x.1.attempts ≤ n

  settle_le :
      (kind : Kind) (p : ModelProfile) (r : Option ModelResult) (value : Option V)
      (error : Option GatewayError) (on_error : Loop W → Ending V × Loop W) (l : Loop W) (k : ℕ)
      → ((l' : Loop W) → Within (length l'.attempts + k) (on_error l'))
      → Within
          (length l.attempts + 1 + k)
          (settle rt options validator kind p r value error on_error l)
  unfolding settle record_success record_error
  settle_le kind p (some r) value none on_error l k h =
      omega (arith, length-append l.attempts (success_attempt (l.attempt_index + 1) kind p r ∷ []))
  settle_le kind p none value none on_error l k h = omega (
    arith,
    h (record_error kind p l.last_error none l),
    length-append l.attempts (error_attempt (l.attempt_index + 1) kind p l.last_error none ∷ []),
  )
  settle_le kind p none value (some e) on_error l k h = omega (
    arith,
    h (record_error kind p e none l),
    length-append l.attempts (error_attempt (l.attempt_index + 1) kind p e none ∷ []),
  )
  settle_le kind p (some r) value (some e) on_error l k h = omega (
    arith,
    h (record_error kind p e (some r) l),
    length-append l.attempts (error_attempt (l.attempt_index + 1) kind p e (some r) ∷ []),
  )

  after_error_le :
      (l : Loop W) → Within (length l.attempts + 0) (after_error rt options validator l)
  unfolding after_error
  after_error_le l = omega arith

  add_tokens_index :
      (r : Option ModelResult) (l : Loop W) → length (add_tokens r l).attempts ≡ length l.attempts
  unfolding add_tokens
  add_tokens_index none l = refl
  add_tokens_index (some r) l = refl

  try_repair_le :
      (g : G) (request : ModelRequest P) (p : ModelProfile) (r : ModelResult) (l : Loop W)
      → Within (length l.attempts + 1) (try_repair rt options validator g request p r l)
  unfolding try_repair
  try_repair_le g request p r l = omega (
    arith,
    settle_le repair p _ _ _ (after_error rt options validator) _ 0 after_error_le,
    add_tokens_index _ _,
  )

  maybe_repair_le :
      (g : G) (request : ModelRequest P) (p : ModelProfile) (r : Option ModelResult) (l : Loop W)
      → Within (length l.attempts + 1) (maybe_repair rt options validator g request p r l)
  unfolding maybe_repair
  maybe_repair_le g request p none l = omega (arith, after_error_le l)
  maybe_repair_le g request p (some r) l =
      elim (Bool-cases (is_invalid_response l.last_error.code && options.allow_repair)) [
        | inl e ↦ rw e (try_repair_le g request p r l)
        | inr e ↦ rw e (omega (arith, after_error_le l))
      ]

  with_gateway_le :
      (kind : Kind) (g : G) (request : ModelRequest P) (p : ModelProfile) (l : Loop W)
      → Within (length l.attempts + 2) (with_gateway rt options validator kind g request p l)
  unfolding with_gateway
  with_gateway_le kind g request p l = omega (
    arith,
    settle_le kind p _ _ _ (maybe_repair rt options validator g request p _) _ 1
        (maybe_repair_le g request p _),
    add_tokens_index _ _,
  )

  try_profile_le :
      (kind : Kind) (request : ModelRequest P) (p : ModelProfile) (l : Loop W)
      → Within (length l.attempts + 2) (try_profile rt options validator kind request p l)
  unfolding try_profile record_error
  try_profile_le kind request p l = elim (Bool-cases (supports p.capabilities request)) [
    | inr e ↦ rw e (omega (arith, length-append l.attempts _))
    | inl e ↦ rw e (
        made (
          create rt.registry p.provider_id (if is_empty p.model_id then none else some p.model_id)))
  ]
    where
      made :
          (m : Result GatewayError G)
          → Within (length l.attempts + 2) (elim m [
            | err e ↦ after_error rt options validator (record_error kind p e none l)
            | ok g ↦ with_gateway rt options validator kind g request p l
          ])
      made (err e) = omega (
        arith,
        after_error_le (record_error kind p e none l),
        length-append l.attempts (error_attempt (l.attempt_index + 1) kind p e none ∷ []),
      )
      made (ok g) = with_gateway_le kind g request p l

  count_fallback_index :
      (kind : Kind) (l : Loop W) → length (count_fallback kind l).attempts ≡ length l.attempts
  count_fallback_index primary l = refl
  count_fallback_index repair l = refl
  count_fallback_index fallback l = refl

  after_body_le :
      (rest : Loop W → Option (Execution V × RunUpdate) × Loop W) (x : Ending V × Loop W) (n k : ℕ)
      → Within n x
      → ((l : Loop W) → length (rest l).1.attempts ≤ length l.attempts + k)
      → Spent
          (n + k)
          (elim x.0 [ return e u ↦ (some (e, u), x.1) | continue ↦ rest x.1 | break ↦ (none, x.1) ])
  after_body_le rest (return e u, l) n k h b = omega arith
  after_body_le rest (continue, l) n k h b = omega (arith, b l)
  after_body_le rest (break, l) n k h b = omega arith

  try_rest_le :
      (kind : Kind) (request : ModelRequest P) (rest : List ModelProfile) (l : Loop W)
      → length (try_rest rt options validator kind request rest l).1.attempts
        ≤ length l.attempts + 2 * length rest
  unfolding try_rest
  try_rest_le kind request [] l = omega arith
  try_rest_le kind request (p ∷ rest) l = omega (
    arith,
    after_body_le (try_rest rt options validator fallback request rest)
        (try_profile rt options validator kind request p (count_fallback kind l))
        (length (count_fallback kind l).attempts + 2) (2 * length rest)
        (try_profile_le kind request p (count_fallback kind l)) (try_rest_le fallback request rest),
    count_fallback_index kind l,
  )

  conclude_attempts :
      (done : Option (Execution V × RunUpdate)) (l : Loop W)
      → (conclude rt options validator done l).attempts ≡ l.attempts
  unfolding conclude
  conclude_attempts none l = refl
  conclude_attempts (some d) l = refl

  -- Where the catalog has candidates for the options, a run makes at most twice as many attempts
  -- as there are candidates.
  pub execute_bound :
      (request : ModelRequest P) (w : W) {profiles : List ModelProfile}
      → candidates rt.catalog options.model_profile options.allow_fallback ≡ some profiles
      → length (execute rt options validator request w).attempts ≤ 2 * length profiles
  unfolding execute start
  execute_bound request w {profiles = profiles} found =
      rw (found, execute)
        (elim (Bool-cases
          (rt.has_recorder && is_empty (entry (codes "project_id") request.metadata))) [
            | inl e ↦ rw e (omega arith)
            | inr e ↦ rw e (
                omega (
                  arith,
                  ap length (
                      conclude_attempts
                        (try_rest rt options validator primary request profiles (start w)).0
                        (try_rest rt options validator primary request profiles (start w)).1),
                  try_rest_le primary request profiles (start w),
                ))
          ])
