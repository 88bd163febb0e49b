-- ===== src/Snowflake/Dependencies/Closure.antt =====
-- The downstream steps of a step are the steps that it feeds, directly or through others.
use mathlib.Core.Path.{subst}
use mathlib.Core.Option.{some-injective}
use ai_writing.Common.{
  ℕ, zero, suc, ◌≡◌, refl, sym, ap, ◌∙◌, ◌↔◌, ◌⊎◌, inl, inr, Bool, true, false, ◌&&◌, ◌||◌, not,
  some, List, [], ◌∷◌, contains, ◌==◌, ==_iff, nat_eq, arith, All, Bool-cases, Option-cases,
}
use ai_writing.Common.Results.{ok, ok_injective, err-ne-ok, >>=-eq-ok}
use ai_writing.Sql.{select_one, order_by, insert_sorted}
use ai_writing.Snowflake.Steps.{StepSpec, snowflake_step_specs, get_step_spec}
use ai_writing.Snowflake.Dependencies.{visit, explore, sorted, downstream_steps}

-- The specification of `t` lists the step `s`.
abbrev pub DependsOn : ℕ → ℕ → Type 0
DependsOn t s =
    (spec : StepSpec) × (get_step_spec t ≡ ok spec) × (contains spec.dependencies s ≡ true)

pub data Feeds (s : ℕ) : ℕ → Type 0 where
  direct : {t : ℕ} → DependsOn t s → Feeds s t
  through : {u t : ℕ} → Feeds s u → DependsOn t u → Feeds s t

-- A step on the stack: the step itself, or one that it feeds.
abbrev Pushed : ℕ → ℕ → Type 0
Pushed s u = (u ≡ s) ⊎ Feeds s u

Feeds-of_Pushed : {s u t : ℕ} → Pushed s u → DependsOn t u → Feeds s t
Feeds-of_Pushed {t = t} (inl e) d = direct (subst (DependsOn t) e d)
Feeds-of_Pushed (inr f) d = through f d

abbrev AreFed : ℕ → List ℕ × List ℕ → Type 0
AreFed s state = All (Feeds s) (state.0) × All (Pushed s) (state.1)

visit-AreFed :
    (s current : ℕ) (specs : List StepSpec) (state : List ℕ × List ℕ)
    → All (λ (spec : StepSpec). get_step_spec spec.number ≡ ok spec) specs
    → Pushed s current
    → AreFed s state
    → AreFed s (visit current specs state)
unfolding visit
visit-AreFed s current [] state known p fed = fed
visit-AreFed s current (spec ∷ specs) (affected, frontier) known p fed =
    elim (Bool-cases (contains spec.dependencies current && not (contains affected spec.number))) [
      | inl e ↦
          let new : Feeds s spec.number = Feeds-of_Pushed p (spec, known.0, ground arith) in
          rw (e, visit) (visit-AreFed s current specs _ known.1 p ((new, fed.0), (inr new, fed.1)))
      | inr e ↦ rw (e, visit) (visit-AreFed s current specs _ known.1 p fed)
    ]

explore-AreFed :
    (fuel s : ℕ) (specs : List StepSpec) (state : List ℕ × List ℕ)
    → All (λ (spec : StepSpec). get_step_spec spec.number ≡ ok spec) specs
    → AreFed s state
    → AreFed s (explore fuel specs state)
unfolding explore
explore-AreFed zero s specs state known fed = fed
explore-AreFed (suc fuel) s specs (affected, []) known fed = fed
explore-AreFed (suc fuel) s specs (affected, current ∷ frontier) known fed =
    explore-AreFed fuel s specs _ known
      (visit-AreFed s current specs (affected, frontier) known (fed.1.0) (fed.0, fed.1.1))

contains-insert_sorted :
    (before : ℕ → ℕ → Bool) (x : ℕ) (l : List ℕ) (t : ℕ)
    → contains (insert_sorted before x l) t ≡ contains (x ∷ l) t
unfolding insert_sorted
contains-insert_sorted before x [] t = refl
contains-insert_sorted before x (y ∷ l) t = ground (arith, contains-insert_sorted before x l t)

contains-order_by :
    (before : ℕ → ℕ → Bool) (l : List ℕ) (t : ℕ) → contains (order_by before l) t ≡ contains l t
unfolding order_by
contains-order_by before [] t = refl
contains-order_by before (x ∷ l) t =
    ground
      (arith, contains-insert_sorted before x (order_by before l) t, contains-order_by before l t)

contains-All : (P : ℕ → Type 0) (l : List ℕ) (t : ℕ) → contains l t ≡ true → All P l → P t
contains-All P [] t h all = cc
contains-All P (x ∷ l) t h all = elim (Bool-cases (x == t)) [
  | inl e ↦ subst P ((==_iff x t).0 e) (all.0)
  | inr e ↦ let h' : contains l t ≡ true = ground arith in contains-All P l t h' (all.1)
]

-- Every member of the list depends on none but what is in it: what `explore` should reach.
any_in : List ℕ → List ℕ → Bool
any_in l [] = false
any_in l (d ∷ deps) = contains l d || any_in l deps

is_closed : ℕ → List ℕ → List StepSpec → Bool
is_closed s l [] = true
is_closed s l (spec ∷ specs) =
    (not (contains spec.dependencies s || any_in l spec.dependencies) || contains l spec.number)
    && is_closed s l specs

reached : ℕ → List ℕ
reached s = (explore 11 snowflake_step_specs ([], s ∷ [])).0

any_in_sound :
    (l deps : List ℕ) (u : ℕ) → contains l u ≡ true → contains deps u ≡ true → any_in l deps ≡ true
unfolding any_in
any_in_sound l [] u h k = cc
any_in_sound l (d ∷ deps) u h k = elim (Bool-cases (d == u)) [
  | inl e ↦ rw (ap (contains l) ((==_iff d u).0 e) ∙ h) refl
  | inr e ↦ ground (arith, any_in_sound l deps u h)
]

-- In a closed list the specification of a step that depends on a member is listed.
is_closed_sound :
    (s : ℕ) (l : List ℕ) (specs : List StepSpec) (t : ℕ) (spec : StepSpec)
    → is_closed s l specs ≡ true
    → select_one (λ (x : StepSpec). x.number == t) specs ≡ some spec
    → (contains spec.dependencies s || any_in l spec.dependencies) ≡ true
    → contains l t ≡ true
unfolding is_closed select_one
is_closed_sound s l [] t spec closed there fed = cc
is_closed_sound s l (x ∷ specs) t spec closed there fed = elim (Bool-cases (x.number == t)) [
  | inl e ↦
      let same : x ≡ spec = some-injective x spec (rw e at there) in
      let fed' : (contains x.dependencies s || any_in l x.dependencies) ≡ true =
        subst (λ (y : StepSpec). (contains y.dependencies s || any_in l y.dependencies) ≡ true)
          (sym same) fed in
      let listed : contains l x.number ≡ true = ground arith in
      ap (contains l) (sym ((==_iff x.number t).0 e)) ∙ listed
  | inr e ↦ is_closed_sound s l specs t spec (ground arith) (rw e at there) fed
]

get_step_spec-eq-ok :
    (t : ℕ) {spec : StepSpec}
    → get_step_spec t ≡ ok spec
    → select_one (λ (x : StepSpec). x.number == t) snowflake_step_specs ≡ some spec
unfolding get_step_spec
get_step_spec-eq-ok t h =
    elim (Option-cases (select_one (λ (x : StepSpec). x.number == t) snowflake_step_specs)) [
      | inl e ↦ absurd (err-ne-ok (rw e at h))
      | inr (spec, e) ↦ e ∙ ap some (ok_injective (rw e at h))
    ]

-- What is so for the number of each specification is so for every step.
every_step :
    (P : ℕ → Type 0) (specs : List StepSpec) (t : ℕ) {spec : StepSpec}
    → All (λ (x : StepSpec). P x.number) specs
    → select_one (λ (x : StepSpec). x.number == t) specs ≡ some spec
    → P t
unfolding select_one
every_step P [] t all h = cc
every_step P (x ∷ specs) t all h = elim (Bool-cases (x.number == t)) [
  | inl e ↦ subst P ((==_iff x.number t).0 e) (all.0)
  | inr e ↦ every_step P specs t (all.1) (rw e at h)
]

known_specs : All (λ (spec : StepSpec). get_step_spec spec.number ≡ ok spec) snowflake_step_specs
unfolding get_step_spec snowflake_step_specs select_one native.Mathlib.Decide.ℕ_discrete
known_specs = (refl, (refl, (refl, (refl, (refl, (refl, (refl, (refl, (refl, (refl, tt))))))))))

-- The loop has emptied its stack, and what it has reached is closed and leaves out the step itself.
IsExplored : ℕ → Type 0
IsExplored s =
    ((explore 11 snowflake_step_specs ([], s ∷ [])).1 ≡ [])
    × (is_closed s (reached s) snowflake_step_specs ≡ true)
    × (contains (reached s) s ≡ false)

explored : All (λ (spec : StepSpec). IsExplored spec.number) snowflake_step_specs
unfolding snowflake_step_specs IsExplored explore visit is_closed reached any_in
    native.Mathlib.Decide.ℕ_discrete
explored = (
  (refl, refl, refl),
  (
    (refl, refl, refl),
    (
      (refl, refl, refl),
      (
        (refl, refl, refl),
        (
          (refl, refl, refl),
          (
            (refl, refl, refl),
            (
              (refl, refl, refl),
              ((refl, refl, refl), ((refl, refl, refl), ((refl, refl, refl), tt))),
            ),
          ),
        ),
      ),
    ),
  ),
)

reached_complete :
    (s : ℕ)
    → is_closed s (reached s) snowflake_step_specs ≡ true
    → {t : ℕ} → Feeds s t
    → contains (reached s) t ≡ true
reached_complete s closed {t} (direct (spec, known, listed)) =
    is_closed_sound s (reached s) snowflake_step_specs t spec closed (get_step_spec-eq-ok t known)
      (ground arith)
reached_complete s closed {t} (through {u} f (spec, known, listed)) =
    is_closed_sound s (reached s) snowflake_step_specs t spec closed (get_step_spec-eq-ok t known) (
      ground
        (arith, any_in_sound (reached s) spec.dependencies u (reached_complete s closed f) listed))

-- The downstream steps of each of the ten steps are exactly the steps that it feeds, that is,
-- those whose dependencies list it or list a step that it feeds, and the search ends with an empty
-- stack.
pub downstream_steps_lem :
    (s : ℕ) {spec : StepSpec}
    → get_step_spec s ≡ ok spec
    → (l : List ℕ) × (downstream_steps s ≡ ok l)
      × ((t : ℕ) → (contains l t ≡ true) ↔ Feeds s t)
      × ((explore 11 snowflake_step_specs ([], s ∷ [])).1 ≡ [])
unfolding downstream_steps sorted reached IsExplored
downstream_steps_lem s known =
    let there = get_step_spec-eq-ok s known in
    let (empty, closed, apart) = every_step IsExplored snowflake_step_specs s explored there in
    let fed =
      (explore-AreFed 11 s snowflake_step_specs ([], s ∷ []) known_specs (tt, (inl refl, tt))).0 in
    (
      sorted (reached s),
      rw known refl,
      λ t. (
        λ h. contains-All (Feeds s) (reached s) t (sym (contains-order_by _ (reached s) t) ∙ h) fed,
        λ f. contains-order_by _ (reached s) t ∙ reached_complete s closed f,
      ),
      empty,
    )

-- No step feeds itself.
pub downstream_steps_apart : (s : ℕ) {l : List ℕ} → downstream_steps s ≡ ok l → contains l s ≡ false
unfolding downstream_steps sorted reached IsExplored
downstream_steps_apart s {l} h =
    let (spec, known, e) = >>=-eq-ok (get_step_spec s) _ h in
    let there = get_step_spec-eq-ok s known in
    let (empty, closed, apart) = every_step IsExplored snowflake_step_specs s explored there in
    subst (λ (l : List ℕ). contains l s ≡ false) (ok_injective e)
      (contains-order_by _ (reached s) s ∙ apart)

pub downstream_steps-Feeds :
    (s : ℕ) {l : List ℕ} → downstream_steps s ≡ ok l → (t : ℕ) → (contains l t ≡ true) ↔ Feeds s t
unfolding downstream_steps
downstream_steps-Feeds s {l} h t =
    let (spec, known, e) = >>=-eq-ok (get_step_spec s) _ h in
    let (l', ok_l', fed, empty) = downstream_steps_lem s known in
    let same : l' ≡ l = ok_injective (sym ok_l' ∙ h) in
    subst (λ (l : List ℕ). (contains l t ≡ true) ↔ Feeds s t) same (fed t)
