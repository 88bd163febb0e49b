-- ===== src/Sql/Laws.antt =====
-- What the statements on a table do to later reads of it.
use mathlib.Core.Option
use mathlib.Core.Option.{some-injective}
use mathlib.Core.Path.{subst}
use ai_writing.Common.{
  ℕ, zero, suc, ◌+◌, ◌≤◌, ◌≡◌, refl, ap, ◌∙◌, ◌≢◌, Bool, true, false, ◌&&◌, ◌||◌, Option, none,
  some, List, [], ◌∷◌, ◌++◌, arith, if◌then◌else◌, All, Bool-cases, inl, inr, length, Str, map,
  contains, ◌==◌, list_eq, nat_eq,
}
use ai_writing.Sql.{select_one, update, rowcount, limit}

module _ {ℓ} {A : Type ℓ} where
  -- A row as the UPDATE leaves it.
  abbrev pub updated : (A → Bool) → (A → A) → A → A
  updated p f a = if p a then f a else a

  -- A row that passes a further test.
  abbrev pub keep : (A → Bool) → Option A → Option A
  keep q none = none
  keep q (some a) = if q a then some a else none

  abbrev pub or_else : Option A → Option A → Option A
  or_else none b = b
  or_else (some a) b = some a

  -- A read by a test that the UPDATE does not change finds the same row, updated.
  pub select_one-update :
      (q p : A → Bool) (f : A → A) (t : List A)
      → ((a : A) → q (f a) ≡ q a)
      → select_one q (update p f t) ≡ Option.map (updated p f) (select_one q t)
  unfolding select_one update
  select_one-update q p f [] same = refl
  select_one-update q p f (x ∷ xs) same = ground (arith, same x, select_one-update q p f xs same)

  pub select_one_sound : (q : A → Bool) (t : List A) {a : A} → select_one q t ≡ some a → q a ≡ true
  unfolding select_one
  select_one_sound q [] h = cc
  select_one_sound q (x ∷ xs) {a = a} h = ground (arith, select_one_sound q xs {a = a})

  pub select_one_miss :
      (q : A → Bool) (t : List A) → select_one q t ≡ none → All (λ a. q a ≡ false) t
  unfolding select_one
  select_one_miss q [] h = tt
  select_one_miss q (x ∷ xs) h = ground (arith, select_one_miss q xs)

  -- The rowcount is not 0 where a row that passes the test can be read.
  pub rowcount_pos :
      (p q : A → Bool) (t : List A) {a : A}
      → select_one q t ≡ some a
      → p a ≡ true
      → rowcount p t ≢ 0
  unfolding select_one rowcount
  rowcount_pos p q [] h e = cc
  rowcount_pos p q (x ∷ xs) {a = a} h e = ground (arith, rowcount_pos p q xs {a = a})

  pub rowcount_zero : (p : A → Bool) (t : List A) → select_one p t ≡ none → rowcount p t ≡ 0
  unfolding select_one rowcount
  rowcount_zero p [] h = refl
  rowcount_zero p (x ∷ xs) h = ground (arith, rowcount_zero p xs)

  pub select_one_zero : (p : A → Bool) (t : List A) → rowcount p t ≡ 0 → select_one p t ≡ none
  unfolding select_one rowcount
  select_one_zero p [] h = refl
  select_one_zero p (x ∷ xs) h = ground (arith, select_one_zero p xs)

  -- Where the key names one row at most, a further test filters that row.
  pub select_one-and :
      (k q : A → Bool) (t : List A)
      → rowcount k t ≤ 1
      → select_one (λ a. k a && q a) t ≡ keep q (select_one k t)
  unfolding select_one rowcount
  select_one-and k q [] h = refl
  select_one-and k q (x ∷ xs) h = ground (arith, select_one-and k q xs, select_one_zero k xs)

  pub rowcount-le :
      (p q : A → Bool) (t : List A)
      → ((a : A) → p a ≡ true → q a ≡ true)
      → rowcount p t ≤ rowcount q t
  unfolding rowcount
  rowcount-le p q [] h = omega arith
  rowcount-le p q (x ∷ xs) h = ground (arith, h x, rowcount-le p q xs h)

  pub rowcount-update :
      (q p : A → Bool) (f : A → A) (t : List A)
      → ((a : A) → q (f a) ≡ q a)
      → rowcount q (update p f t) ≡ rowcount q t
  unfolding rowcount update
  rowcount-update q p f [] same = refl
  rowcount-update q p f (x ∷ xs) same = ground (arith, same x, rowcount-update q p f xs same)

  pub select_one-append :
      (q : A → Bool) (s t : List A)
      → select_one q (s ++ t) ≡ or_else (select_one q s) (select_one q t)
  unfolding select_one
  select_one-append q [] t = refl
  select_one-append q (x ∷ xs) t = ground (arith, select_one-append q xs t)

  pub rowcount-append :
      (q : A → Bool) (s t : List A) → rowcount q (s ++ t) ≡ rowcount q s + rowcount q t
  unfolding rowcount
  rowcount-append q [] t = omega arith
  rowcount-append q (x ∷ xs) t = ground (arith, rowcount-append q xs t)

  pub length-update : (p : A → Bool) (f : A → A) (t : List A) → length (update p f t) ≡ length t
  unfolding update
  length-update p f [] = refl
  length-update p f (x ∷ xs) = omega (arith, length-update p f xs)

  pub length-limit : (n : ℕ) (xs : List A) → length (limit n xs) ≤ n
  unfolding limit
  length-limit zero xs = omega arith
  length-limit (suc n) [] = omega arith
  length-limit (suc n) (x ∷ xs) = omega (arith, length-limit n xs)

  -- Two WHERE clauses that agree select the same row.
  pub select_one_congr :
      (p q : A → Bool) (t : List A) → ((a : A) → p a ≡ q a) → select_one p t ≡ select_one q t
  unfolding select_one
  select_one_congr p q [] h = refl
  select_one_congr p q (x ∷ xs) h = ground (arith, h x, select_one_congr p q xs h)

module _ {ℓ κ} {A : Type ℓ} where
  pub All-update :
      (P : A → Type κ) (p : A → Bool) (f : A → A) (t : List A)
      → ((a : A) → P a → p a ≡ true → P (f a))
      → All P t
      → All P (update p f t)
  unfolding update
  All-update P p f [] keeps h = tt
  All-update P p f (x ∷ xs) keeps h = elim (Bool-cases (p x)) [
    | inl e ↦ rw e (keeps x h.0 e, All-update P p f xs keeps h.1)
    | inr e ↦ rw e (h.0, All-update P p f xs keeps h.1)
  ]

  pub select_one-All :
      (P : A → Type κ) (q : A → Bool) (t : List A) {a : A} → All P t → select_one q t ≡ some a → P a
  unfolding select_one
  select_one-All P q [] h e = cc
  select_one-All P q (x ∷ xs) h e = elim (Bool-cases (q x)) [
    | inl p ↦ subst P (some-injective x _ (rw p at e)) h.0
    | inr p ↦ select_one-All P q xs h.1 (rw p at e)
  ]

module _ {ℓ} {A : Type ℓ} (q : A → Bool) (t : List A) (b : A) where
  -- A new row does not hide a row that is there.
  pub select_one-append_old :
      {a : A} → select_one q t ≡ some a → select_one q (t ++ b ∷ []) ≡ some a
  select_one-append_old h =
      select_one-append q t (b ∷ []) ∙ ap (λ o. or_else o (select_one q (b ∷ []))) h

  pub select_one-append_new :
      select_one q t ≡ none → q b ≡ true → select_one q (t ++ b ∷ []) ≡ some b
  unfolding select_one
  select_one-append_new h e = ground (arith, select_one-append q t (b ∷ []))

module _ {ℓ} {A : Type ℓ} where
  -- Where no row passes either test, none passes one or the other.
  pub rowcount-or :
      (p q : A → Bool) (t : List A)
      → rowcount p t ≡ 0
      → rowcount q t ≡ 0
      → rowcount (λ a. p a || q a) t ≡ 0
  unfolding rowcount
  rowcount-or p q [] h k = refl
  rowcount-or p q (x ∷ xs) h k = ground (arith, rowcount-or p q xs)

module _ {ℓ} {A : Type ℓ} (key : A → Str) where
  -- No row has a key that is not among the keys.
  pub rowcount_absent :
      (x : Str) (t : List A) → contains (map key t) x ≡ false → rowcount (λ r. key r == x) t ≡ 0
  unfolding rowcount
  rowcount_absent x [] h = refl
  rowcount_absent x (r ∷ t) h = ground (arith, rowcount_absent x t)
