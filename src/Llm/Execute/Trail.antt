-- ===== src/Llm/Execute/Trail.antt =====
-- What a run has recorded (`ModelRuntime.execute`, backend/app/llm/runtime.py): the attempts while
-- none has succeeded, and the attempts of a run that returns.
use ai_writing.Common.{
  ℕ, suc, ◌+◌, ◌≡◌, refl, inl, inr, not, ◌&&◌, ◌||◌, Option, none, some, List, [], ◌∷◌, ◌++◌,
  is_empty, if◌then◌else◌, arith, length, length-append, All, All-append, Bool-cases,
}
use ai_writing.Common.Results.{Result, ok, err}
use ai_writing.Llm.{
  GatewayError, is_fallback_code, ModelRequest, ModelResult, ModelProfile, supports,
}
use ai_writing.Llm.Registry.{create}
use ai_writing.Llm.Attempts.{
  Options, Kind, primary, fallback, repair, Attempt, Status, succeeded, failed, RunUpdate,
  Execution, Loop, Ending, return, continue, break, record_error, record_success, add_tokens,
  success, error_attempt,
}
use ai_writing.Llm.Runtime.{
  Runtime, Validator, validated, count_fallback, policy_error, is_invalid_response,
}
use ai_writing.Llm.Execute.{
  attempt, after_error, settle, try_repair, maybe_repair, with_gateway, try_profile, try_rest,
}

-- The attempts are numbered from `n + 1` on.
abbrev pub IsNumbered : ℕ → List Attempt → Type 0
IsNumbered n [] = Unit
IsNumbered n (a ∷ xs) = (a.attempt_index ≡ suc n) × IsNumbered (suc n) xs

IsNumbered-append :
    (n : ℕ) (xs : List Attempt) (a : Attempt)
    → IsNumbered n xs
    → a.attempt_index ≡ suc (n + length xs)
    → IsNumbered n (xs ++ a ∷ [])
IsNumbered-append n [] a h e = (omega arith, tt)
IsNumbered-append n (b ∷ xs) a h e = (h.0, IsNumbered-append (suc n) xs a h.1 (omega arith))

abbrev pub HasStatus : Status → Attempt → Type 0
HasStatus s a = a.status ≡ s

-- What has been recorded while no attempt has succeeded.
pub record IsFailing {W : Type 0} (l : Loop W) : Type 0 where
  pub numbered : IsNumbered 0 l.attempts
  pub counted : length l.attempts ≡ l.attempt_index
  pub failing : All (HasStatus failed) l.attempts

-- What has been recorded when the run returns.
pub record IsReturned {V : Type 0} (validator : Validator V) (e : Execution V) (u : RunUpdate)
    (xs : List Attempt) : Type 0 where
  pub numbered : IsNumbered 0 xs
  pub counted : length xs ≡ e.attempt_count
  pub before : List Attempt
  pub last : Attempt
  pub split : xs ≡ before ++ last ∷ []
  pub failing : All (HasStatus failed) before
  pub succeeding : last.status ≡ succeeded
  pub accepted :
      validated validator e.result
      ≡ record { result = some e.result; value = e.validated_value; error = none }
  pub told : u.status ≡ succeeded
  pub told_count : u.attempt_count ≡ e.attempt_count

error_attempt_lem :
    (i : ℕ) (kind : Kind) (p : ModelProfile) (e : GatewayError) (r : Option ModelResult)
    → ((error_attempt i kind p e r).attempt_index ≡ i)
      × ((error_attempt i kind p e r).status ≡ failed)
error_attempt_lem i kind p e none = (refl, refl)
error_attempt_lem i kind p e (some r) = (refl, refl)

module _ {P G V W : Type 0} (rt : Runtime P G W) (options : Options) (validator : Validator V) where
  abbrev Post : Ending V × Loop W → Type 0
  Post (return e u, l) = IsReturned validator e u l.attempts
  Post (continue, l) = IsFailing l
  Post (break, l) = IsFailing l

  record_error-IsFailing :
      (kind : Kind) (p : ModelProfile) (e : GatewayError) (r : Option ModelResult) (l : Loop W)
      → IsFailing l
      → IsFailing (record_error kind p e r l)
  unfolding record_error
  record_error-IsFailing kind p e r l h = record {
    numbered =
        IsNumbered-append 0 l.attempts _ h.numbered
          (omega (arith, (error_attempt_lem (l.attempt_index + 1) kind p e r).0, h.counted));
    counted = omega (
      arith,
      length-append l.attempts (error_attempt (l.attempt_index + 1) kind p e r ∷ []),
      h.counted,
    );
    failing =
        All-append (HasStatus failed) l.attempts _ h.failing
          ((error_attempt_lem (l.attempt_index + 1) kind p e r).1, tt);
  }

  add_tokens-IsFailing :
      (r : Option ModelResult) (l : Loop W) → IsFailing l → IsFailing (add_tokens r l)
  unfolding add_tokens
  add_tokens-IsFailing none l h = h
  add_tokens-IsFailing (some r) l h = record {
    numbered = h.numbered;
    counted = h.counted;
    failing = h.failing;
  }

  success-Post :
      (kind : Kind) (p : ModelProfile) (r : ModelResult) (value : Option V) (l : Loop W)
      → IsFailing l
      → validated validator r ≡ record { result = some r; value = value; error = none }
      → Post (success p r value (record_success kind p r l), record_success kind p r l)
  unfolding success record_success
  success-Post kind p r value l h fits = record {
    numbered = IsNumbered-append 0 l.attempts _ h.numbered (omega arith);
    counted = omega (arith, length-append l.attempts _, h.counted);
    before = l.attempts;
    last = _;
    split = refl;
    failing = h.failing;
    succeeding = refl;
    accepted = fits;
    told = refl;
    told_count = refl;
  }

  settle-Post :
      (kind : Kind) (p : ModelProfile) (r : Option ModelResult) (value : Option V)
      (error : Option GatewayError) (on_error : Loop W → Ending V × Loop W) (l : Loop W)
      → IsFailing l
      → ((l' : Loop W) → IsFailing l' → Post (on_error l'))
      → ((x : ModelResult)
          → r ≡ some x
          → error ≡ none
          → validated validator x ≡ record { result = some x; value = value; error = none })
      → Post (settle rt options validator kind p r value error on_error l)
  unfolding settle
  settle-Post kind p (some r) value none on_error l h k fits =
      success-Post kind p r value l h (fits r refl refl)
  settle-Post kind p none value none on_error l h k fits =
      k _ (record_error-IsFailing kind p l.last_error none l h)
  settle-Post kind p none value (some e) on_error l h k fits =
      k _ (record_error-IsFailing kind p e none l h)
  settle-Post kind p (some r) value (some e) on_error l h k fits =
      k _ (record_error-IsFailing kind p e (some r) l h)

  -- An attempt without an error has an answer that the validator accepts.
  validated-attempt :
      (g : G) (request : ModelRequest P) (w : W) (x : ModelResult)
      → (attempt rt options validator g request w).0.result ≡ some x
      → (attempt rt options validator g request w).0.error ≡ none
      → validated validator x ≡ record {
        result = some x;
        value = (attempt rt options validator g request w).0.value;
        error = none;
      }
  unfolding attempt validated
  validated-attempt g request w x h e = ground arith

  after_error-Post : (l : Loop W) → IsFailing l → Post (after_error rt options validator l)
  unfolding after_error
  after_error-Post l h =
      elim (Bool-cases (not options.allow_fallback || not (is_fallback_code l.last_error.code))) [
        | inl e ↦ rw e h
        | inr e ↦ rw e h
      ]

  try_repair-Post :
      (g : G) (request : ModelRequest P) (p : ModelProfile) (r : ModelResult) (l : Loop W)
      → IsFailing l
      → Post (try_repair rt options validator g request p r l)
  unfolding try_repair
  try_repair-Post g request p r l h =
      settle-Post repair p _ _ _ (after_error rt options validator) _
        (add_tokens-IsFailing _ _
          (record { numbered = h.numbered; counted = h.counted; failing = h.failing }))
        after_error-Post (validated-attempt g _ l.world)

  maybe_repair-Post :
      (g : G) (request : ModelRequest P) (p : ModelProfile) (r : Option ModelResult) (l : Loop W)
      → IsFailing l
      → Post (maybe_repair rt options validator g request p r l)
  unfolding maybe_repair
  maybe_repair-Post g request p none l h = after_error-Post l h
  maybe_repair-Post g request p (some r) l h =
      elim (Bool-cases (is_invalid_response l.last_error.code && options.allow_repair)) [
        | inl e ↦ rw e (try_repair-Post g request p r l h)
        | inr e ↦ rw e (after_error-Post l h)
      ]

  with_gateway-Post :
      (kind : Kind) (g : G) (request : ModelRequest P) (p : ModelProfile) (l : Loop W)
      → IsFailing l
      → Post (with_gateway rt options validator kind g request p l)
  unfolding with_gateway
  with_gateway-Post kind g request p l h =
      settle-Post kind p _ _ _ (maybe_repair rt options validator g request p _) _
        (add_tokens-IsFailing _ _
          (record { numbered = h.numbered; counted = h.counted; failing = h.failing }))
        (maybe_repair-Post g request p _) (validated-attempt g request l.world)

  try_profile-Post :
      (kind : Kind) (request : ModelRequest P) (p : ModelProfile) (l : Loop W)
      → IsFailing l
      → Post (try_profile rt options validator kind request p l)
  unfolding try_profile
  try_profile-Post kind request p l h = elim (Bool-cases (supports p.capabilities request)) [
    | inr e ↦ rw e (record_error-IsFailing kind p (policy_error p) none l h)
    | inl e ↦ rw e (
        made (
          create rt.registry p.provider_id (if is_empty p.model_id then none else some p.model_id)))
  ]
    where
      made :
          (m : Result GatewayError G)
          → Post (elim m [
            | err e ↦ after_error rt options validator (record_error kind p e none l)
            | ok g ↦ with_gateway rt options validator kind g request p l
          ])
      made (err e) = after_error-Post _ (record_error-IsFailing kind p e none l h)
      made (ok g) = with_gateway-Post kind g request p l h

  -- What the loop leaves: a return, or nothing but failed attempts.
  abbrev pub Done : Option (Execution V × RunUpdate) × Loop W → Type 0
  Done (some (e, u), l) = IsReturned validator e u l.attempts
  Done (none, l) = IsFailing l

  count_fallback-IsFailing :
      (kind : Kind) (l : Loop W) → IsFailing l → IsFailing (count_fallback kind l)
  count_fallback-IsFailing primary l h = h
  count_fallback-IsFailing repair l h = h
  count_fallback-IsFailing fallback l h = record {
    numbered = h.numbered;
    counted = h.counted;
    failing = h.failing;
  }

  -- What the end of the body does to the loop.
  after_body :
      (rest : Loop W → Option (Execution V × RunUpdate) × Loop W) (x : Ending V × Loop W)
      → Post x
      → ((l : Loop W) → IsFailing l → Done (rest l))
      → Done
          (elim x.0 [ return e u ↦ (some (e, u), x.1) | continue ↦ rest x.1 | break ↦ (none, x.1) ])
  after_body rest (return e u, l) h k = h
  after_body rest (continue, l) h k = k l h
  after_body rest (break, l) h k = h

  pub try_rest-Done :
      (kind : Kind) (request : ModelRequest P) (rest : List ModelProfile) (l : Loop W)
      → IsFailing l
      → Done (try_rest rt options validator kind request rest l)
  unfolding try_rest
  try_rest-Done kind request [] l h = h
  try_rest-Done kind request (p ∷ rest) l h =
      after_body (try_rest rt options validator fallback request rest) _
        (try_profile-Post kind request p _ (count_fallback-IsFailing kind l h))
        (try_rest-Done fallback request rest)
