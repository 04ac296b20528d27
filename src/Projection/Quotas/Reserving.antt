-- ===== src/Projection/Quotas/Reserving.antt =====
-- What the loops of an instance hold together.
use eventsourcing.Shared.{
  ℕ, zero, suc, ◌+◌, ◌≤◌, ◌<◌, max, ◌≡◌, refl, sym, subst, Bool, true, false, not, ◌||◌, List, [],
  ◌∷◌, leb, length, if◌then◌else◌, if_cases, arith,
}
use eventsourcing.Projection.Quotas.{Runner, is_reserved, set_reserved, reserve, unreserve}

abbrev pub count : List Bool → ℕ
count [] = 0
count (b ∷ bs) = if b then suc (count bs) else count bs

pub count-take :
    (bs : List Bool) (i : ℕ)
    → i < length bs
    → is_reserved bs i ≡ false
    → count (set_reserved bs i true) ≡ count bs + 1
unfolding set_reserved
count-take [] i in_range h = absurd (omega (arith, in_range))
count-take (b ∷ bs) zero in_range h = ground (arith, h)
count-take (b ∷ bs) (suc i) in_range h =
    ground (arith, h, count-take bs i (omega (arith, in_range)) h)

pub count-give :
    (bs : List Bool) (i : ℕ)
    → is_reserved bs i ≡ true
    → count (set_reserved bs i false) + 1 ≡ count bs
unfolding set_reserved
count-give [] i h = absurd (ground (arith, h))
count-give (b ∷ bs) zero h = ground (arith, h)
count-give (b ∷ bs) (suc i) h = ground (arith, h, count-give bs i h)

length-set_reserved : (bs : List Bool) (i : ℕ) (b : Bool) → length (set_reserved bs i b) ≡ length bs
unfolding set_reserved
length-set_reserved [] i b = refl
length-set_reserved (x ∷ xs) zero b = refl
length-set_reserved (x ∷ xs) (suc i) b = omega (arith, length-set_reserved xs i b)

-- What one of the loops does between two heartbeats: it asks for its segment, or gives it back.
pub data Turn : Type 0 where
  takes gives : ℕ → Turn

abbrev pub turn : Turn → Runner → Runner
turn (takes seg) r = (reserve r seg).1
turn (gives seg) r = unreserve r seg

unfoldable pub run : List Turn → Runner → Runner
run [] r = r
run (t ∷ ts) r = run ts (turn t r)

abbrev pub segment_of : Turn → ℕ
segment_of (takes seg) = seg
segment_of (gives seg) = seg

-- Every turn is of one of n segments.
unfoldable pub Within : ℕ → List Turn → Type 0
Within n [] = Unit
Within n (t ∷ ts) = (segment_of t < n) × Within n ts

-- The runner r has come to r' with its count right and no more held than its quota or than before.
pub record Bounded (r r' : Runner) : Type 0 where
  pub counted : r'.held ≡ count r'.reserved
  pub bound : r'.held ≤ max r.held r.quota
  pub segments : length r'.reserved ≡ length r.reserved
  pub quota : r'.quota ≡ r.quota

reserve-Bounded :
    (r : Runner) (seg : ℕ)
    → seg < length r.reserved
    → r.held ≡ count r.reserved
    → Bounded r (reserve r seg).1
unfolding reserve
reserve-Bounded r seg in_range counted =
    if_cases (λ (x : Bool × Runner). Bounded r x.1) (is_reserved r.reserved seg) _ _
      (λ mine. record { counted = counted; bound = ground arith; segments = refl; quota = refl })
      (λ free.
        if_cases (λ (x : Bool × Runner). Bounded r x.1) (not r.instances_ok || leb r.quota r.held) _
          _
          (λ refused. record {
            counted = counted;
            bound = ground arith;
            segments = refl;
            quota = refl;
          })
          (λ granted. record {
            counted = omega (arith, counted, count-take r.reserved seg in_range free);
            bound = ground (arith, granted);
            segments = length-set_reserved r.reserved seg true;
            quota = refl;
          }))

unreserve-Bounded : (r : Runner) (seg : ℕ) → r.held ≡ count r.reserved → Bounded r (unreserve r seg)
unfolding unreserve
unreserve-Bounded r seg counted =
    if_cases (Bounded r) (is_reserved r.reserved seg) _ _
      (λ mine. record {
        counted = omega (arith, counted, count-give r.reserved seg mine);
        bound = ground arith;
        segments = length-set_reserved r.reserved seg false;
        quota = refl;
      })
      (λ other. record { counted = counted; bound = ground arith; segments = refl; quota = refl })

turn-Bounded :
    (r : Runner) (t : Turn)
    → segment_of t < length r.reserved
    → r.held ≡ count r.reserved
    → Bounded r (turn t r)
turn-Bounded r (takes seg) in_range counted = reserve-Bounded r seg in_range counted
turn-Bounded r (gives seg) in_range counted = unreserve-Bounded r seg counted

-- However the loops of an instance take turns between two heartbeats, each at its own segment, the
-- instance counts exactly the segments that are reserved, and it holds no more than its quota, or
-- than it held when its quota went down.
pub run-Bounded :
    (turns : List Turn) (r : Runner)
    → Within (length r.reserved) turns
    → r.held ≡ count r.reserved
    → Bounded r (run turns r)
unfolding run Within
run-Bounded [] r within counted = record {
  counted = counted;
  bound = ground arith;
  segments = refl;
  quota = refl;
}
run-Bounded (t ∷ ts) r (in_range, within) counted =
    let first = turn-Bounded r t in_range counted in
    let rest =
      run-Bounded ts (turn t r) (subst (λ (n : ℕ). Within n ts) (sym first.segments) within)
        first.counted in
    record {
      counted = rest.counted;
      bound = ground (arith, rest.bound, first.bound, first.quota);
      segments = omega (arith, rest.segments, first.segments);
      quota = omega (arith, rest.quota, first.quota);
    }
