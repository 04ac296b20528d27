-- ===== src/CommandBus/Onward.antt =====
-- What a step keeps of a caller whose command was enqueued.
use eventsourcing.Shared.{
  get-append, get-set_elem, set_elem, ℕ, zero, suc, ◌≡◌, refl, sym, ap, ◌∙◌, subst, string_eq, Bool,
  true, false, not, Option, none, some, List, [], ◌∷◌, ◌++◌, ◌==◌, nat_eq, get_elem?, arith, inl,
  inr, Bool-cases,
}
use eventsourcing.CommandBus.{
  Caller, Progress, entering, waiting, returned, Reply, Handled, succeeds, fails, panics, reply_of,
  bus_closed,
}

-- The reply says that the bus is closed.
abbrev pub is_closed : {X : Type 0} → Reply X → Bool
is_closed r = elim r.error [ none ↦ false | some e ↦ elim e [ bus_closed ↦ true | _ ↦ false ] ]

-- The command was enqueued, and Dispatch has not said that the bus is closed.
abbrev pub went_in : {A X : Type 0} → Caller A X → Bool
went_in c = elim c.progress [ entering ↦ false | waiting ↦ true | returned r ↦ not (is_closed r) ]

abbrev pub clean : {A X : Type 0} → Caller A X → Bool
clean c = elim c.reply [ none ↦ true | some r ↦ not (is_closed r) ]

pub reply_of-clean : {X : Type 0} (x : Handled X) → is_closed (reply_of x) ≡ false
reply_of-clean (succeeds r) = refl
reply_of-clean (fails r e) = refl
reply_of-clean (panics e) = refl

pub entering_out :
    {X : Type 0} (p : Progress X)
    → elim p [ entering ↦ true | _ ↦ false ] ≡ true
    → elim p [ entering ↦ false | waiting ↦ true | returned r ↦ not (is_closed r) ] ≡ false
entering_out entering h = refl
entering_out waiting h = absurd (ground (arith, h))
entering_out (returned r) h = absurd (ground (arith, h))

module _ {A X : Type 0} where
  unfoldable pub Clean : List (Caller A X) → Type 0
  Clean cs = (i : ℕ) (c : Caller A X) → get_elem? cs i ≡ some c → clean c ≡ true

  unfoldable pub InAt : List (Caller A X) → ℕ → Type 0
  InAt cs i = (c : Caller A X) × (get_elem? cs i ≡ some c) × (went_in c ≡ true)

  -- Callers that went in stay so.
  pub record Onward (cs cs' : List (Caller A X)) : Type 0 where
    pub stays : (j : ℕ) → InAt cs j → InAt cs' j
    pub cleanly : Clean cs'

  pub get-set_same :
      (cs : List (Caller A X)) (i : ℕ) {x : Caller A X} (y : Caller A X)
      → get_elem? cs i ≡ some x
      → get_elem? (set_elem cs i y) i ≡ some y
  get-set_same [] i y h = cc
  get-set_same (c ∷ cs) zero y h = refl
  get-set_same (c ∷ cs) (suc i) y h = get-set_same cs i y h

  get-set_other :
      (cs : List (Caller A X)) (i j : ℕ) (y : Caller A X)
      → (i == j) ≡ false
      → get_elem? (set_elem cs i y) j ≡ get_elem? cs j
  get-set_other [] i j y h = refl
  get-set_other (c ∷ cs) zero zero y h = absurd (ground (arith, h))
  get-set_other (c ∷ cs) zero (suc j) y h = refl
  get-set_other (c ∷ cs) (suc i) zero y h = refl
  get-set_other (c ∷ cs) (suc i) (suc j) y h = get-set_other cs i j y (ground (arith, h))

  get-first :
      (cs : List (Caller A X)) (j : ℕ) {z : Caller A X} (y : Caller A X)
      → get_elem? cs j ≡ some z
      → get_elem? (cs ++ y ∷ []) j ≡ some z
  get-first [] j y h = cc
  get-first (c ∷ cs) zero y h = h
  get-first (c ∷ cs) (suc j) y h = get-first cs j y h

  pub same-Onward : (cs : List (Caller A X)) → Clean cs → Onward cs cs
  same-Onward cs all = record { stays = λ j h. h; cleanly = all }

  pub append-Onward :
      (cs : List (Caller A X)) (y : Caller A X)
      → clean y ≡ true
      → Clean cs
      → Onward cs (cs ++ y ∷ [])
  unfolding Clean InAt
  append-Onward cs y fresh all = record {
    stays = λ j (z, at, went). (z, get-first cs j y at, went);
    cleanly = λ j z at. elim (get-append cs j y at) [
      | inl new ↦ subst (λ (c : Caller A X). clean c ≡ true) (sym new) fresh
      | inr old ↦ all j z old
    ];
  }

  pub set-Onward :
      (cs : List (Caller A X)) (i : ℕ) (x y : Caller A X)
      → get_elem? cs i ≡ some x
      → clean y ≡ true
      → (went_in x ≡ true → went_in y ≡ true)
      → Clean cs
      → Onward cs (set_elem cs i y)
  unfolding Clean InAt
  set-Onward cs i x y at fresh goes all = record {
    stays = λ j (z, old, went). elim (Bool-cases (i == j)) [
      | inl e ↦
          let here : i ≡ j = (nat_eq.equal_iff i j).1 e in
          let it : some x ≡ some z = sym at ∙ ap (get_elem? cs) here ∙ old in
          let went_x : went_in x ≡ true =
            ap
              (λ (o : Option (Caller A X)). elim o as (λ _. Bool) [
                | none ↦ true
                | some c ↦ went_in c
              ])
              it
            ∙ went in
          subst (InAt (set_elem cs i y)) here (y, get-set_same cs i y at, goes went_x)
      | inr other ↦ (z, get-set_other cs i j y other ∙ old, went)
    ];
    cleanly = λ j z now. elim (get-set_elem cs i j y now) [
      | inl (_, new) ↦ subst (λ (c : Caller A X). clean c ≡ true) (sym new) fresh
      | inr (_, old) ↦ all j z old
    ];
  }
