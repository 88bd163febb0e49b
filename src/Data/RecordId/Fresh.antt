-- ===== src/Data/RecordId/Fresh.antt =====
-- The loop of `make_record_id` ends, and its result is new.
use ai_writing.Common.{
  ℕ, zero, suc, ◌+◌, ◌≤◌, ◌<◌, ◌≡◌, refl, ◌≢◌, sym, ap, ◌∙◌, true, false, List, [], ◌∷◌, ◌++◌, inl,
  inr, Str, ◌==◌, contains, length, length-append, decimal, decimal-injective, if◌then◌else◌,
  list_eq, nat_eq, Bool-cases, arith,
}
use mathlib.Core.List.{tail-eq_of_cons-eq}
use ai_writing.Data.RecordId.{suffixed, next_free, slug, make_record_id}

-- The candidates in the order in which the loop tries them.
candidate : Str → ℕ → Str
candidate base zero = base
candidate base (suc n) = suffixed base (n + 2)

append-cancel : (s t u : Str) → s ++ t ≡ s ++ u → t ≡ u
append-cancel [] t u h = h
append-cancel (c ∷ s) t u h = append-cancel s t u (tail-eq_of_cons-eq h)

base-ne-suffixed : (base : Str) (n : ℕ) → base ≢ suffixed base n
base-ne-suffixed base n h = omega (arith, ap length h, length-append base (b'-' ∷ decimal n))

candidate-injective : (base : Str) (m n : ℕ) → candidate base m ≡ candidate base n → m ≡ n
unfolding candidate
candidate-injective base zero zero h = refl
candidate-injective base zero (suc n) h = absurd (base-ne-suffixed base (n + 2) h)
candidate-injective base (suc m) zero h = absurd (base-ne-suffixed base (m + 2) (sym h))
candidate-injective base (suc m) (suc n) h = omega (
  arith,
  decimal-injective (m + 2) (n + 2)
      (tail-eq_of_cons-eq (append-cancel base (b'-' ∷ decimal (m + 2)) (b'-' ∷ decimal (n + 2)) h)),
)

-- The ids other than one.
without : Str → List Str → List Str
without x [] = []
without x (y ∷ ys) = let rest = without x ys in if x == y then rest else y ∷ rest

contains-without : (x y : Str) (ys : List Str) → x ≢ y → contains (without x ys) y ≡ contains ys y
unfolding without
contains-without x y [] ne = refl
contains-without x y (z ∷ zs) ne = ground (arith, contains-without x y zs ne)

length-without-le : (x : Str) (ys : List Str) → length (without x ys) ≤ length ys
unfolding without
length-without-le x [] = omega arith
length-without-le x (y ∷ ys) = ground (arith, length-without-le x ys)

length-without :
    (x : Str) (ys : List Str) → contains ys x ≡ true → length (without x ys) < length ys
unfolding without
length-without x [] h = cc
length-without x (y ∷ ys) h = ground (arith, length-without x ys, length-without-le x ys)

-- The loop, by the number of the candidate that it is at.
search : ℕ → Str → List Str → ℕ → Str
search zero base existing n = candidate base n
search (suc fuel) base existing n =
    let rest = search fuel base existing (suc n) in
    if contains existing (candidate base n) then rest else candidate base n

next_free-eq-search :
    (fuel : ℕ) (base : Str) (existing : List Str) (n : ℕ)
    → next_free fuel base existing (candidate base n) (n + 2) ≡ search fuel base existing n
unfolding next_free search candidate
next_free-eq-search zero base existing n = refl
next_free-eq-search (suc fuel) base existing n =
    ap (λ r. if contains existing (candidate base n) then r else candidate base n)
      (ap (next_free fuel base existing (suffixed base (n + 2))) (omega arith)
        ∙ next_free-eq-search fuel base existing (suc n))

-- Leaving out an earlier candidate changes nothing.
search-without :
    (fuel : ℕ) (base : Str) (existing : List Str) (m n : ℕ)
    → m < n
    → search fuel base (without (candidate base m) existing) n ≡ search fuel base existing n
unfolding search
search-without zero base existing m n h = refl
search-without (suc fuel) base existing m n h = ground (
  arith,
  candidate-injective base m n,
  contains-without (candidate base m) (candidate base n) existing,
  search-without fuel base existing m (suc n),
)

-- The result is a candidate, at or after the one that the search begins with.
search-candidate :
    (fuel : ℕ) (base : Str) (existing : List Str) (n : ℕ)
    → (j : ℕ) × (n ≤ j) × (search fuel base existing n ≡ candidate base j)
unfolding search
search-candidate zero base existing n = (n, omega arith, refl)
search-candidate (suc fuel) base existing n =
    elim (Bool-cases (contains existing (candidate base n))) [
      | inl taken ↦
          let (j, le, e) = search-candidate fuel base existing (suc n) in
          (j, omega arith, rw taken e)
      | inr free ↦ (n, omega arith, rw free)
    ]

search_fresh :
    (fuel : ℕ) (base : Str) (existing : List Str) (n : ℕ)
    → length existing < fuel
    → contains existing (search fuel base existing n) ≡ false
unfolding search
search_fresh zero base existing n h = elim h [ ]
search_fresh (suc fuel) base existing n h =
    elim (Bool-cases (contains existing (candidate base n))) [
      | inr free ↦ rw free free
      | inl taken ↦
          let c = candidate base n in
          let (j, le, e) = search-candidate fuel base existing (suc n) in
          let apart : c ≢ search fuel base existing (suc n) =
            λ same. absurd (omega (arith, candidate-injective base n j (same ∙ e))) in
          rw taken (
            sym (contains-without c (search fuel base existing (suc n)) existing apart)
            ∙ (rw (← search-without fuel base existing n (suc n) (omega arith)) (
                search_fresh fuel base (without c existing) (suc n)
                  (omega (arith, length-without c existing taken)))))
    ]

-- The id that make_record_id returns is not among the existing ids.
pub make_record_id_fresh :
    (title : Str) (existing : List Str) → contains existing (make_record_id title existing) ≡ false
unfolding make_record_id candidate
make_record_id_fresh title existing =
    ap (contains existing) (next_free-eq-search (suc (length existing)) (slug title) existing 0)
    ∙ search_fresh (suc (length existing)) (slug title) existing 0 (omega arith)
