-- ===== src/Projection/Quotas.antt =====
-- projection/instances.go: how many segments an instance should hold, and how its loops reserve and
-- give up segments to hold so many. The runner is what its mutex guards of it.
pub mod Shares
pub mod Reserving
pub mod Shedding
use Prim.Native.Nat.{Ordering}
use Prim.Native.String.{compare, ◌++◌}
use eventsourcing.Shared.{
  ℕ, zero, suc, ◌+◌, ◌-◌, ◌/◌, ◌%◌, max, String, Bool, true, false, not, ◌&&◌, ◌||◌, Option, none,
  some, List, [], ◌∷◌, ◌==◌, string_eq, nat_eq, leb, ltb, length, get_elem?, keep, if◌then◌else◌,
}
use eventsourcing.Projection.{Instance}

-- The part of `Runner` that the quotas are about: which segments are reserved, by number, and what
-- the last heartbeats found.
pub record Runner : Type 0 where
  pub owner : String
  pub reserved : List Bool
  pub held : ℕ
  pub quota : ℕ
  pub instances_ok : Bool
  pub stable : ℕ
  pub membership : String

abbrev pub shed_grace : ℕ
shed_grace = 2

abbrev digit : ℕ → String
digit n =
    elim (get_elem? {A = String} ("0" ∷ "1" ∷ "2" ∷ "3" ∷ "4" ∷ "5" ∷ "6" ∷ "7" ∷ "8" ∷ "9" ∷ [])
      n) [ none ↦ "" | some d ↦ d ]

-- The last digits of n, at most as many as the fuel; n has at most n + 1.
digits : ℕ → ℕ → String
digits zero n = ""
digits (suc fuel) n =
    let high = digits fuel (n / 10) in if ltb n 10 then digit n else high ++ digit (n % 10)

-- `strconv.Itoa`
itoa : ℕ → String
unfolding digits
itoa n = digits (n + 1) n

unfoldable pub membership : List Instance → String
unfolding itoa
membership [] = ""
membership (m ∷ ms) = m.owner ++ "\0" ++ itoa m.version ++ "\0" ++ membership ms

-- The largest version, and 0 without an instance.
abbrev pub top_version : List Instance → ℕ
top_version [] = 0
top_version (m ∷ ms) = max m.version (top_version ms)

-- The order of the sort: more segments first, then by owner.
abbrev pub before : Instance → Instance → Bool
before a b =
    if a.segments == b.segments
    then elim (compare a.owner b.owner) [ Ordering.gt ↦ false | _ ↦ true ]
    else ltb b.segments a.segments

unfoldable pub insert : Instance → List Instance → List Instance
insert a [] = a ∷ []
insert a (b ∷ bs) = let rest = insert a bs in if before a b then a ∷ b ∷ bs else b ∷ rest

-- `slices.SortFunc`
unfoldable pub sorted : List Instance → List Instance
sorted [] = []
sorted (m ∷ ms) = insert m (sorted ms)

abbrev pub live_instances : List Instance → List Instance
live_instances ms = keep (λ m. m.version == top_version ms) ms

-- `slices.IndexFunc`, counted from n
unfoldable pub index_from : ℕ → List Instance → String → Option ℕ
index_from n [] owner = none
index_from n (m ∷ ms) owner =
    let rest = index_from (suc n) ms owner in if m.owner == owner then some n else rest

-- The i-th of n instances takes segments / n, and the first of them one more each.
abbrev pub share : ℕ → ℕ → Option ℕ → ℕ
share segments n none = 0
share segments n (some i) = if ltb i (segments % n) then segments / n + 1 else segments / n

unfoldable pub quota : List Instance → String → ℕ → ℕ
quota instances owner segments =
    let live = sorted (live_instances instances) in
    share segments (length live) (index_from 0 live owner)

-- Without the instances, when the store's heartbeat failed. Also whether the runner is over its quota
-- and wakes its loops.
unfoldable pub heartbeat : Option (List Instance) → Runner → Bool × Runner
unfolding quota membership
heartbeat none r = (false, record r { instances_ok = false })
heartbeat (some instances) r =
    let stable = if membership instances == r.membership then r.stable + 1 else 0 in
    let quota = quota instances r.owner (length r.reserved) in
    (
      ltb quota r.held && leb shed_grace stable,
      record r {
        membership = membership instances;
        stable = stable;
        quota = quota;
        instances_ok = true;
      },
    )

unfoldable pub set_reserved : List Bool → ℕ → Bool → List Bool
set_reserved [] i b = []
set_reserved (x ∷ xs) zero b = b ∷ xs
set_reserved (x ∷ xs) (suc i) b = x ∷ set_reserved xs i b

abbrev pub is_reserved : List Bool → ℕ → Bool
is_reserved xs i = elim (get_elem? xs i) [ none ↦ false | some b ↦ b ]

-- For a segment of the runner, which it is never called without.
unfoldable pub reserve : Runner → ℕ → Bool × Runner
reserve r seg =
    if is_reserved r.reserved seg
    then (true, r)
    else if not r.instances_ok || leb r.quota r.held
    then (false, r)
    else (true, record r { reserved = set_reserved r.reserved seg true; held = r.held + 1 })

unfoldable pub unreserve : Runner → ℕ → Runner
unreserve r seg =
    if is_reserved r.reserved seg
    then record r { reserved = set_reserved r.reserved seg false; held = r.held - 1 }
    else r

-- The loop over the segments from number i down to 1.
unfoldable pub shed_from : ℕ → List Bool → ℕ → Bool
shed_from zero reserved seg = seg == 0
shed_from (suc i) reserved seg =
    let rest = shed_from i reserved seg in
    if is_reserved reserved (suc i) then suc i == seg else rest

unfoldable pub should_shed : Runner → ℕ → Bool
unfolding shed_from
should_shed r seg =
    if not r.instances_ok || ltb r.stable shed_grace || leb r.held r.quota
    then false
    else shed_from (length r.reserved - 1) r.reserved seg
