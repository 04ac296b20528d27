-- ===== src/Shared/Updates.antt =====
-- Updates of a list at an index and of a function at a number, and counts of a list's elements.
use Prim.Native.Nat.{ℕ, zero, suc, ◌+◌}
use mathlib.Core.Path.{◌≡◌, refl, ap}
use mathlib.Core.Logic.{◌≢◌, ◌⊎◌, inl, inr}
use mathlib.Core.Bool.{Bool, true, false}
use mathlib.Core.Option.{Option, none, some}
use mathlib.Core.List.{List, [], ◌∷◌, ◌++◌}
use native.Mathlib.Omega.{arith}
use eventsourcing.Shared.Tests.{if◌then◌else◌, if_cases}
use eventsourcing.Shared.Keys.{◌==◌, nat_eq}
use eventsourcing.Shared.Lists.{get_elem?}

abbrev pub set_elem : {C : Type 0} → List C → ℕ → C → List C
set_elem [] i c = []
set_elem (x ∷ xs) zero c = c ∷ xs
set_elem (x ∷ xs) (suc i) c = x ∷ set_elem xs i c

abbrev pub update : {V : Type 0} → (ℕ → V) → ℕ → V → ℕ → V
update f k v j = if k == j then v else f j

abbrev pub bit : Bool → ℕ
bit b = if b then 1 else 0

module _ {C : Type 0} where
  abbrev pub count : (C → Bool) → List C → ℕ
  count p [] = 0
  count p (x ∷ xs) = bit (p x) + count p xs

  pub count-set_elem :
      (p : C → Bool) (xs : List C) (i : ℕ) {x : C} (y : C)
      → get_elem? xs i ≡ some x
      → count p (set_elem xs i y) + bit (p x) ≡ count p xs + bit (p y)
  count-set_elem p [] i y h = cc
  count-set_elem p (x ∷ xs) zero y h = ground (arith, h)
  count-set_elem p (x ∷ xs) (suc i) y h = omega (arith, count-set_elem p xs i y h)

  pub count-append :
      (p : C → Bool) (xs : List C) (y : C) → count p (xs ++ y ∷ []) ≡ count p xs + bit (p y)
  count-append p [] y = omega arith
  count-append p (x ∷ xs) y = omega (arith, count-append p xs y)

  pub count-get :
      (p : C → Bool) (xs : List C) (i : ℕ) (x : C)
      → get_elem? xs i ≡ some x
      → p x ≡ true
      → 0 ≢ count p xs
  count-get p [] i x h t e = cc
  count-get p (y ∷ xs) zero x h t e = ground (arith, h, t, e)
  count-get p (y ∷ xs) (suc i) x h t e = count-get p xs i x h t (omega (arith, e))

  -- A caller after an update of the i-th is the new one, or one as it was.
  pub get-set_elem :
      (xs : List C) (i j : ℕ) (y : C) {z : C}
      → get_elem? (set_elem xs i y) j ≡ some z
      → ((i ≡ j) × (z ≡ y)) ⊎ (((i == j) ≡ false) × (get_elem? xs j ≡ some z))
  get-set_elem [] i j y h = cc
  get-set_elem (x ∷ xs) zero zero y h = inl (refl, ground (arith, h))
  get-set_elem (x ∷ xs) zero (suc j) y h = inr (ground arith, h)
  get-set_elem (x ∷ xs) (suc i) zero y h = inr (ground arith, h)
  get-set_elem (x ∷ xs) (suc i) (suc j) y h = elim (get-set_elem xs i j y h) [
    | inl (e, n) ↦ inl (ap suc e, n)
    | inr (e, o) ↦ inr (ground (arith, e), o)
  ]

  pub get-append :
      (xs : List C) (j : ℕ) (y : C) {z : C}
      → get_elem? (xs ++ y ∷ []) j ≡ some z
      → (z ≡ y) ⊎ (get_elem? xs j ≡ some z)
  get-append [] zero y h = inl (ground (arith, h))
  get-append [] (suc j) y h = cc
  get-append (x ∷ xs) zero y h = inr h
  get-append (x ∷ xs) (suc j) y h = get-append xs j y h

pub update_cases {κ} :
    {V : Type 0} (P : V → Type κ) (f : ℕ → V) (k j : ℕ) (v : V)
    → (k ≡ j → P v)
    → ((k == j) ≡ false → P (f j))
    → P (update f k v j)
update_cases P f k j v here there =
    if_cases P (k == j) v (f j) (λ e. here ((nat_eq.equal_iff k j).1 e)) there

pub match_cases {κ} :
    {C D : Type 0} (P : D → Type κ) (o : Option C) (d : D) (f : C → D)
    → (o ≡ none → P d)
    → ((c : C) → o ≡ some c → P (f c))
    → P (elim o [ none ↦ d | some c ↦ f c ])
match_cases P none d f left right = left refl
match_cases P (some c) d f left right = right c refl
