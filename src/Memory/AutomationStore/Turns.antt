-- ===== src/Memory/AutomationStore/Turns.antt =====
-- The order in which Acquire goes through its candidates.
use mathlib.Core.List.{Permᴰ}
use mathlib.Core.List.Permᴰ
use text.Mathlib.TextPositions.{compare_refl}
use eventsourcing.Shared.{
  ℕ, ◌≡◌, ◌<◌, ◌≤◌, refl, ◌⊎◌, inl, inr, String, string_eq, nat_eq, Bool, true, false, List, [],
  ◌∷◌, ◌==◌, length, keep, All, ltb, if_cases, arith, eq_iff, Bool-cases, subst, sym,
}
use eventsourcing.Memory.AutomationStore.Rounds.{
  All-mono, In, All-In, waiting_longer, rank-eq, Turn, group_turn-Turn,
}
use eventsourcing.Memory.AutomationStore.{
  Cand, sorted, insert, goes_first, rank, group_turn, waited, waits_longer,
}

-- Each element is related to all that are behind it.
abbrev pub AllAhead {κ} : {C : Type 0} → (C → C → Type κ) → List C → Type κ
AllAhead R [] = Unit
AllAhead R (c ∷ cs) = All (R c) cs × AllAhead R cs

module _ {C : Type 0} (less : C → C → Bool) where
  insert-Permᴰ : (x : C) (xs : List C) → Permᴰ (insert less x xs) (x ∷ xs)
  unfolding insert
  insert-Permᴰ x [] = Permᴰ.refl (x ∷ [])
  insert-Permᴰ x (y ∷ ys) =
      if_cases (λ l. Permᴰ l (x ∷ y ∷ ys)) (less y x) _ _
        (λ _. Permᴰ.trans (Permᴰ.cons refl (insert-Permᴰ x ys)) (Permᴰ.swap refl refl))
        (λ _. Permᴰ.refl (x ∷ y ∷ ys))

  pub sorted-Permᴰ : (xs : List C) → Permᴰ (sorted less xs) xs
  unfolding sorted
  sorted-Permᴰ [] = Permᴰ.nil
  sorted-Permᴰ (x ∷ xs) =
      Permᴰ.trans (insert-Permᴰ x (sorted less xs)) (Permᴰ.cons refl (sorted-Permᴰ xs))

  insert-All {κ} :
      (P : C → Type κ) (x : C) (xs : List C) → P x → All P xs → All P (insert less x xs)
  unfolding insert
  insert-All P x [] p a = (p, tt)
  insert-All P x (y ∷ ys) p (q, a) =
      if_cases (All P) (less y x) _ _ (λ _. (q, insert-All P x ys p a)) (λ _. (p, (q, a)))

  sorted-All {κ} : (P : C → Type κ) (xs : List C) → All P xs → All P (sorted less xs)
  unfolding sorted
  sorted-All P [] a = tt
  sorted-All P (x ∷ xs) (p, a) = insert-All P x (sorted less xs) p (sorted-All P xs a)

  module _ {κ} (R : C → C → Type κ) (joins : (a b c : C) → R a b → R b c → R a c)
      (ahead : (a b : C) → less a b ≡ true → R a b)
      (behind : (a b : C) → less b a ≡ false → R a b) where
    insert-AllAhead : (x : C) (ys : List C) → AllAhead R ys → AllAhead R (insert less x ys)
    unfolding insert
    insert-AllAhead x [] o = (tt, tt)
    insert-AllAhead x (y ∷ ys) (a, o) =
        if_cases (AllAhead R) (less y x) _ _
          (λ h. (insert-All (R y) x ys (ahead y x h) a, insert-AllAhead x ys o))
          (λ h.
            let r = behind x y h in ((r, All-mono (R y) (R x) ys (λ z. joins x y z r) a), (a, o)))

    sorted-AllAhead : (xs : List C) → AllAhead R (sorted less xs)
    unfolding sorted
    sorted-AllAhead [] = tt
    sorted-AllAhead (x ∷ xs) = insert-AllAhead x (sorted less xs) (sorted-AllAhead xs)

-- Fewer of a list pass a narrower test, and fewer still if an element passes only the wider one.
keep-le :
    (p q g : Cand → Bool) (xs : List Cand)
    → ((x : Cand) → p x ≡ true → q x ≡ true)
    → length (keep p (keep g xs)) ≤ length (keep q (keep g xs))
keep-le p q g [] h = omega arith
keep-le p q g (x ∷ xs) h = ground (arith, h x, keep-le p q g xs h)

keep-lt :
    (p q g : Cand → Bool) (xs : List Cand) (c : Cand)
    → ((x : Cand) → p x ≡ true → q x ≡ true)
    → In c xs
    → g c ≡ true
    → p c ≡ false
    → q c ≡ true
    → length (keep p (keep g xs)) < length (keep q (keep g xs))
keep-lt p q g [] c h i k n y = absurd i
keep-lt p q g (x ∷ xs) c h (inl e) k n y =
    subst (λ (z : Cand). length (keep p (keep g (z ∷ xs))) < length (keep q (keep g (z ∷ xs))))
      (sym e) (ground (arith, k, n, y, keep-le p q g xs h))
keep-lt p q g (x ∷ xs) c h (inr i) k n y = ground (arith, h x, keep-lt p q g xs c h i k n y)

-- A key that waits longer has a smaller rank in their group.
rank-lt :
    (cands : List Cand) (a b : Cand)
    → In b cands
    → a.1.group ≡ b.1.group
    → waited b.1 < waited a.1
    → rank cands b < rank cands a
rank-lt cands a b i same longer =
    subst
      (λ (g : String).
        rank cands b < length (keep (λ d. waits_longer d a) (keep (λ c. c.1.group == g) cands)))
      (sym same)
      (keep-lt (λ d. waits_longer d b) (λ d. waits_longer d a) (λ c. c.1.group == b.1.group) cands b
        (λ x h. ground (arith, h, longer)) i (ground (arith, eq_iff b.1.group b.1.group))
        (ground (arith, compare_refl b.0)) (ground (arith, longer)))

-- a is in an earlier round than b, or in the same one with a turn of its group that is not later. The
-- round of a key is the number of its group's keys that have waited longer.
abbrev Round : List Cand → Cand → Cand → Type 0
Round cands a b =
    (rank cands a < rank cands b)
    ⊎ ((rank cands a ≡ rank cands b) × (group_turn cands a.1.group ≤ group_turn cands b.1.group))

-- What holds of a candidate a in front of another, b: fewer keys of its group have waited longer, or
-- as many, and its group's turn is not later; and of their group, a has waited as long.
pub record Ahead (cands : List Cand) (a b : Cand) : Type 0 where
  pub round :
      (waiting_longer cands a < waiting_longer cands b)
      ⊎ ((waiting_longer cands a ≡ waiting_longer cands b)
          × ((t : ℕ) × (u : ℕ) × Turn cands a.1.group t × Turn cands b.1.group u × (t ≤ u)))
  pub in_group : a.1.group ≡ b.1.group → waited a.1 ≤ waited b.1

module _ (cands : List Cand) where
  Round-ahead : (a b : Cand) → goes_first cands a b ≡ true → Round cands a b
  Round-ahead a b h = elim (Bool-cases (rank cands a == rank cands b)) [
    | inl same ↦ inr (ground (arith, same), ground (arith, h, same))
    | inr other ↦ inl (ground (arith, h, other))
  ]

  Round-behind : (a b : Cand) → goes_first cands b a ≡ false → Round cands a b
  Round-behind a b h = elim (Bool-cases (rank cands b == rank cands a)) [
    | inl same ↦ inr (ground (arith, same), ground (arith, h, same))
    | inr other ↦ inl (ground (arith, h, other))
  ]

  Round-joins : (a b c : Cand) → Round cands a b → Round cands b c → Round cands a c
  Round-joins a b c (inl p) (inl q) = inl (omega arith)
  Round-joins a b c (inl p) (inr q) = inl (omega arith)
  Round-joins a b c (inr p) (inl q) = inl (omega arith)
  Round-joins a b c (inr p) (inr q) = inr (omega arith, omega arith)

  rank-le : (a b : Cand) → Round cands a b → rank cands a ≤ rank cands b
  rank-le a b (inl p) = omega arith
  rank-le a b (inr p) = omega arith

  Round-Ahead : (a b : Cand) → In a cands → In b cands → Round cands a b → Ahead cands a b
  Round-Ahead a b ia i r = record {
    round = elim r [
      | inl less ↦ inl (omega (arith, less, rank-eq cands a, rank-eq cands b))
      | inr (same, turns) ↦ inr (
        omega (arith, same, rank-eq cands a, rank-eq cands b),
        (
          group_turn cands a.1.group,
          group_turn cands b.1.group,
          group_turn-Turn a cands ia,
          group_turn-Turn b cands i,
          turns,
        ),
      )
    ];
    in_group = λ same. elim (Bool-cases (ltb (waited b.1) (waited a.1))) [
      | inl sooner ↦
          absurd (omega (arith, rank-le a b r, rank-lt cands a b i same (ground (arith, sooner))))
      | inr no_sooner ↦ ground (arith, no_sooner)
    ];
  }

  each-Ahead :
      (a : Cand) (xs : List Cand)
      → In a cands
      → All (λ c. In c cands) xs
      → All (Round cands a) xs
      → All (Ahead cands a) xs
  each-Ahead a [] ia i r = tt
  each-Ahead a (x ∷ xs) ia (i, is) (r, rs) = (Round-Ahead a x ia i r, each-Ahead a xs ia is rs)

  All-Ahead :
      (xs : List Cand)
      → All (λ c. In c cands) xs
      → AllAhead (Round cands) xs
      → AllAhead (Ahead cands) xs
  All-Ahead [] i o = tt
  All-Ahead (x ∷ xs) (i, is) (r, o) = (each-Ahead x xs i is r, All-Ahead xs is o)

  pub sorted-Ahead : AllAhead (Ahead cands) (sorted (goes_first cands) cands)
  sorted-Ahead =
      All-Ahead (sorted (goes_first cands) cands)
        (sorted-All (goes_first cands) (λ c. In c cands) cands (All-In cands))
        (sorted-AllAhead (goes_first cands) (Round cands) Round-joins Round-ahead Round-behind
          cands)
