-- ===== src/Projection/Quotas/Shedding.antt =====
-- Which segment an instance over its quota gives up.
use eventsourcing.Shared.{
  ℕ, zero, suc, ◌+◌, ◌-◌, ◌≤◌, ◌<◌, ◌≡◌, refl, sym, ap, ◌∙◌, ◌⊎◌, inl, inr, Bool, true, false, List,
  [], ◌∷◌, nat_eq, ◌==◌, length, Bool-cases, arith,
}
use eventsourcing.Projection.Quotas.{
  Runner, shed_grace, is_reserved, shed_from, should_shed, unreserve,
}
use eventsourcing.Projection.Quotas.Reserving.{count, count-give}

reserved_one :
    (bs : List Bool) → 0 < count bs → (i : ℕ) × (i < length bs) × (is_reserved bs i ≡ true)
reserved_one [] h = absurd (omega (arith, h))
reserved_one (true ∷ bs) h = (0, omega arith, refl)
reserved_one (false ∷ bs) h =
    let (i, within, mine) = reserved_one bs h in (suc i, omega (arith, within), mine)

-- The one segment that the loop from n down finds.
record Last (n : ℕ) (bs : List Bool) : Type 0 where
  seg : ℕ
  found : shed_from n bs seg ≡ true
  only : (j : ℕ) → shed_from n bs j ≡ true → j ≡ seg
  mine :
      (is_reserved bs seg ≡ true)
      ⊎ ((seg ≡ 0) × ((i : ℕ) → 0 < i → i ≤ n → is_reserved bs i ≡ false))

shed_from-Last : (n : ℕ) (bs : List Bool) → Last n bs
unfolding shed_from
shed_from-Last zero bs = record {
  seg = 0;
  found = refl;
  only = λ j h. ground (arith, h);
  mine = inr (refl, λ i pos le. absurd (omega (arith, pos, le)));
}
shed_from-Last (suc n) bs =
    let rest = shed_from-Last n bs in
    elim (Bool-cases (is_reserved bs (suc n))) [
      | inl mine ↦ record {
        seg = suc n;
        found = ground (arith, mine);
        only = λ j h. ground (arith, mine, h);
        mine = inl mine;
      }
      | inr other ↦ record {
        seg = rest.seg;
        found = ground (arith, other, rest.found);
        only = λ j h. rest.only j (ground (arith, other, h));
        mine = elim rest.mine [
          | inl here ↦ inl here
          | inr (first, none_above) ↦ inr (
            first,
            λ i pos le. elim (Bool-cases (i == suc n)) [
              | inl top ↦ ap (is_reserved bs) (ground (arith, top)) ∙ other
              | inr below ↦ none_above i pos (ground (arith, below, le))
            ],
          )
        ];
      }
    ]

-- What an instance over its quota does.
pub record Sheds (r : Runner) : Type 0 where
  pub seg : ℕ
  pub sheds : should_shed r seg ≡ true
  pub only : (j : ℕ) → should_shed r j ≡ true → j ≡ seg
  pub mine : is_reserved r.reserved seg ≡ true
  pub fewer : (unreserve r seg).held + 1 ≡ r.held
  pub counted : (unreserve r seg).held ≡ count (unreserve r seg).reserved

-- An instance that holds more than its quota, whose last heartbeat succeeded and whose instances have
-- not changed for the grace, sheds: exactly one of its segments is told to, it is one that the
-- instance holds, and once it is given up the instance holds one fewer and counts right. So it comes
-- down to its quota one segment at a time.
pub should_shed-Sheds :
    (r : Runner)
    → r.instances_ok ≡ true
    → shed_grace ≤ r.stable
    → r.quota < r.held
    → r.held ≡ count r.reserved
    → Sheds r
unfolding should_shed unreserve
should_shed-Sheds r ok_ stable over counted =
    let last = shed_from-Last (length r.reserved - 1) r.reserved in
    let (i, within, held_) = reserved_one r.reserved (omega (arith, over, counted)) in
    let asks : (j : ℕ) → should_shed r j ≡ shed_from (length r.reserved - 1) r.reserved j =
      λ j. ground (arith, ok_, stable, over) in
    let mine : is_reserved r.reserved last.seg ≡ true = elim last.mine [
      | inl here ↦ here
      | inr (first, none_above) ↦ elim (Bool-cases (i == 0)) [
        | inl zeroth ↦ ap (is_reserved r.reserved) (ground (arith, first, zeroth)) ∙ held_
        | inr above ↦
            absurd
              (ground (arith, held_, none_above i (ground (arith, above)) (omega (arith, within))))
      ]
    ] in
    record {
      seg = last.seg;
      sheds = asks last.seg ∙ last.found;
      only = λ j h. last.only j (sym (asks j) ∙ h);
      mine = mine;
      fewer = ground (arith, mine, over);
      counted = ground (arith, mine, counted, count-give r.reserved last.seg mine);
    }
