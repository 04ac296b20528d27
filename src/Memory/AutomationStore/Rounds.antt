-- ===== src/Memory/AutomationStore/Rounds.antt =====
-- The rounds and turns by which Acquire orders its candidates, described without its sort.
use eventsourcing.Shared.{
  ℕ, ◌≡◌, ◌≢◌, ◌≤◌, min, refl, sym, subst, ◌⊎◌, inl, inr, String, string_eq, nat_eq, true, ◌&&◌,
  ◌||◌, List, [], ◌∷◌, ◌==◌, length, keep, All, ltb, arith, if_cases, eq_iff, Bool-cases, count,
}
use eventsourcing.Memory.AutomationStore.{
  Cand, rank, group_turn, waited, waits_longer, before, latest_served, earliest_seen, first_turn,
}

pub All-mono {κ ι} :
    {C : Type 0} (P : C → Type κ) (Q : C → Type ι) (xs : List C)
    → ((x : C) → P x → Q x)
    → All P xs
    → All Q xs
All-mono P Q [] f a = tt
All-mono P Q (x ∷ xs) f (p, a) = (f x p, All-mono P Q xs f a)

abbrev pub In : Cand → List Cand → Type 0
In c [] = ⊥
In c (x ∷ xs) = (x ≡ c) ⊎ In c xs

pub All-In : (xs : List Cand) → All (λ c. In c xs) xs
All-In [] = tt
All-In (x ∷ xs) =
    (inl refl, All-mono (λ c. In c xs) (λ c. In c (x ∷ xs)) xs (λ c h. inr h) (All-In xs))

-- How many keys of its group have waited longer than the candidate's, or as long with a lesser key.
abbrev pub waiting_longer : List Cand → Cand → ℕ
waiting_longer cands c =
    count
      (λ d.
        d.1.group == c.1.group
        && (ltb (waited d.1) (waited c.1) || (waited d.1 == waited c.1 && before d.0 c.0)))
      cands

rank_of :
    (c : Cand) (cands : List Cand)
    → length (keep (λ d. waits_longer d c) (keep (λ d. d.1.group == c.1.group) cands))
      ≡ waiting_longer cands c
rank_of c [] = refl
rank_of c (d ∷ cands) = ground (arith, rank_of c cands)

pub rank-eq : (cands : List Cand) (c : Cand) → rank cands c ≡ waiting_longer cands c
rank-eq cands c = rank_of c cands

-- The last time at which a member of a group was served.
pub record LastServed (members : List Cand) (t : ℕ) : Type 0 where
  pub some_served : t ≢ 0
  pub latest : All (λ c. c.1.last_served ≤ t) members
  pub at : (c : Cand) × In c members × (c.1.last_served ≡ t)

-- No member has been served, and this is the first time at which one was seen.
pub record FirstSeen (members : List Cand) (t : ℕ) : Type 0 where
  pub unserved : All (λ c. c.1.last_served ≡ 0) members
  pub earliest : All (λ c. t ≤ c.1.first_seen) members
  pub at : (c : Cand) × In c members × (c.1.first_seen ≡ t)

-- The turn of the group g.
abbrev pub Turn : List Cand → String → ℕ → Type 0
Turn cands g t =
    LastServed (keep (λ c. c.1.group == g) cands) t ⊎ FirstSeen (keep (λ c. c.1.group == g) cands) t

latest_served_bounds : (ms : List Cand) → All (λ c. c.1.last_served ≤ latest_served ms) ms
latest_served_bounds [] = tt
latest_served_bounds (c ∷ cs) = (
  omega arith,
  All-mono (λ d. d.1.last_served ≤ latest_served cs) (λ d. d.1.last_served ≤ latest_served (c ∷ cs))
      cs (λ d h. omega arith) (latest_served_bounds cs),
)

latest_served_found :
    (ms : List Cand)
    → latest_served ms ≢ 0
    → (c : Cand) × In c ms × (c.1.last_served ≡ latest_served ms)
latest_served_found [] h = absurd (h refl)
latest_served_found (c ∷ cs) h = elim (Bool-cases (ltb c.1.last_served (latest_served cs))) [
  | inl less ↦
      let (d, i, e) = latest_served_found cs (λ z. ground (arith, less, z)) in
      (d, inr i, ground (arith, less, e))
  | inr no_less ↦ (c, inl refl, ground (arith, no_less))
]

earliest_seen_bounds :
    (t : ℕ) (ms : List Cand)
    → (earliest_seen t ms ≤ t) × All (λ c. earliest_seen t ms ≤ c.1.first_seen) ms
earliest_seen_bounds t [] = (omega arith, tt)
earliest_seen_bounds t (c ∷ cs) =
    let (below, all) = earliest_seen_bounds (min c.1.first_seen t) cs in
    (omega (arith, below), (omega (arith, below), all))

earliest_seen_found :
    (t : ℕ) (ms : List Cand)
    → (earliest_seen t ms ≡ t) ⊎ ((c : Cand) × In c ms × (c.1.first_seen ≡ earliest_seen t ms))
earliest_seen_found t [] = inl refl
earliest_seen_found t (c ∷ cs) = elim (earliest_seen_found (min c.1.first_seen t) cs) [
  | inr (d, i, e) ↦ inr (d, inr i, e)
  | inl e ↦ elim (Bool-cases (ltb c.1.first_seen t)) [
    | inl less ↦ inr (c, inl refl, ground (arith, less, e))
    | inr no_less ↦ inl (ground (arith, no_less, e))
  ]
]

unserved_of : (ms : List Cand) → latest_served ms ≡ 0 → All (λ c. c.1.last_served ≡ 0) ms
unserved_of ms z =
    All-mono (λ c. c.1.last_served ≤ latest_served ms) (λ c. c.1.last_served ≡ 0) ms
      (λ c h. omega (arith, z)) (latest_served_bounds ms)

first_turn-FirstSeen :
    (a : Cand) (ms : List Cand) → In a ms → latest_served ms ≡ 0 → FirstSeen ms (first_turn ms)
first_turn-FirstSeen a [] i z = absurd i
first_turn-FirstSeen a (c ∷ cs) i z =
    let (below, all) = earliest_seen_bounds c.1.first_seen cs in
    record {
      unserved = unserved_of (c ∷ cs) z;
      earliest = (below, all);
      at = elim (earliest_seen_found c.1.first_seen cs) [
        | inl e ↦ (c, inl refl, sym e)
        | inr (d, j, e) ↦ (d, inr j, e)
      ];
    }

In-keep :
    (a : Cand) (g : String) (cands : List Cand)
    → a.1.group ≡ g
    → In a cands
    → In a (keep (λ c. c.1.group == g) cands)
In-keep a g [] e i = i
In-keep a g (x ∷ xs) e (inl same) =
    subst (λ (z : Cand). In a (keep (λ c. c.1.group == g) (z ∷ xs))) (sym same)
      (let here : (a.1.group == g) ≡ true = ground (arith, eq_iff a.1.group g, e) in
        rw (here) (inl refl))
In-keep a g (x ∷ xs) e (inr i) =
    if_cases (λ (l : List Cand). In a l) (x.1.group == g) _ _ (λ _. inr (In-keep a g xs e i))
      (λ _. In-keep a g xs e i)

pub group_turn-Turn :
    (a : Cand) (cands : List Cand) → In a cands → Turn cands a.1.group (group_turn cands a.1.group)
group_turn-Turn a cands i =
    let g = a.1.group in
    let ms = keep (λ (c : Cand). c.1.group == g) cands in
    elim (Bool-cases (latest_served ms == 0)) [
      | inl none_served ↦
          rw (none_served) (
            inr
              (first_turn-FirstSeen a ms (In-keep a g cands refl i) (ground (arith, none_served))))
      | inr served ↦ rw (served) (
          inl (record {
            some_served = ground (arith, served);
            latest = latest_served_bounds ms;
            at = latest_served_found ms (ground (arith, served));
          }))
    ]
