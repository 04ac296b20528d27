-- ===== src/Projection/Quotas/Shares.antt =====
-- The quotas that the instances compute add up to the segments.
use native.Mathlib.Nat.{mod-add-div, mod-lt, suc-mul}
use eventsourcing.Shared.{
  ℕ, zero, suc, ◌+◌, ◌-◌, ◌*◌, ◌/◌, ◌%◌, ◌<◌, min, ◌≡◌, refl, ap, sym, ◌∙◌, ◌⊎◌, String, Bool, true,
  false, ◌||◌, Option, none, some, List, [], ◌∷◌, ◌==◌, string_eq, nat_eq, length, any, keep,
  if◌then◌else◌, arith, eq_iff, if_cases, Bool-cases, beq_refl, inl, inr,
}
use eventsourcing.Projection.{Instance}
use eventsourcing.Projection.Quotas.{
  before, insert, sorted, live_instances, top_version, index_from, share, quota,
}

abbrev pub total : (Instance → ℕ) → List Instance → ℕ
total f [] = 0
total f (m ∷ ms) = f m + total f ms

abbrev pub has_owner : List Instance → String → Bool
has_owner ms owner = any (λ m. m.owner == owner) ms

-- An instance's owner is its own.
unfoldable pub OneEach : List Instance → Type 0
OneEach [] = Unit
OneEach (m ∷ ms) = (has_owner ms m.owner ≡ false) × OneEach ms

total-insert :
    (f : Instance → ℕ) (m : Instance) (ms : List Instance)
    → total f (insert m ms) ≡ f m + total f ms
unfolding insert
total-insert f m [] = refl
total-insert f m (x ∷ xs) = ground (arith, total-insert f m xs)

total-sorted : (f : Instance → ℕ) (ms : List Instance) → total f (sorted ms) ≡ total f ms
unfolding sorted
total-sorted f [] = refl
total-sorted f (m ∷ ms) = omega (arith, total-insert f m (sorted ms), total-sorted f ms)

length-insert : (m : Instance) (ms : List Instance) → length (insert m ms) ≡ suc (length ms)
unfolding insert
length-insert m [] = refl
length-insert m (x ∷ xs) = ground (arith, length-insert m xs)

length-sorted : (ms : List Instance) → length (sorted ms) ≡ length ms
unfolding sorted
length-sorted [] = refl
length-sorted (m ∷ ms) = omega (arith, length-insert m (sorted ms), length-sorted ms)

has_owner-insert :
    (m : Instance) (ms : List Instance) (o : String)
    → has_owner (insert m ms) o ≡ (m.owner == o || has_owner ms o)
unfolding insert
has_owner-insert m [] o = refl
has_owner-insert m (x ∷ xs) o = ground (arith, has_owner-insert m xs o)

has_owner-sorted : (ms : List Instance) (o : String) → has_owner (sorted ms) o ≡ has_owner ms o
unfolding sorted
has_owner-sorted [] o = refl
has_owner-sorted (m ∷ ms) o =
    ground (arith, has_owner-insert m (sorted ms) o, has_owner-sorted ms o)

insert-OneEach :
    (m : Instance) (ms : List Instance)
    → has_owner ms m.owner ≡ false
    → OneEach ms
    → OneEach (insert m ms)
unfolding insert OneEach
insert-OneEach m [] free each = (refl, tt)
insert-OneEach m (x ∷ xs) free (alone, each) =
    if_cases OneEach (before m x) _ _ (λ first. (free, (alone, each)))
      (λ later. (
        ground (
          arith,
          has_owner-insert m xs x.owner,
          eq_iff m.owner x.owner,
          eq_iff x.owner m.owner,
          free,
          alone,
        ),
        insert-OneEach m xs (ground (arith, free)) each,
      ))

sorted-OneEach : (ms : List Instance) → OneEach ms → OneEach (sorted ms)
unfolding sorted OneEach
sorted-OneEach [] each = tt
sorted-OneEach (m ∷ ms) (alone, each) =
    insert-OneEach m (sorted ms) (has_owner-sorted ms m.owner ∙ alone) (sorted-OneEach ms each)

has_owner-keep :
    (p : Instance → Bool) (ms : List Instance) (o : String)
    → has_owner ms o ≡ false
    → has_owner (keep p ms) o ≡ false
has_owner-keep p [] o h = refl
has_owner-keep p (m ∷ ms) o h = ground (arith, has_owner-keep p ms o, h)

keep-OneEach : (p : Instance → Bool) (ms : List Instance) → OneEach ms → OneEach (keep p ms)
unfolding OneEach
keep-OneEach p [] each = tt
keep-OneEach p (m ∷ ms) (alone, each) =
    if_cases OneEach (p m) _ _ (λ kept. (has_owner-keep p ms m.owner alone, keep-OneEach p ms each))
      (λ dropped. keep-OneEach p ms each)

-- The quotas of the instances in a sorted list from its k-th on.
total_cong :
    (f g : Instance → ℕ) (ms : List Instance)
    → ((m : Instance) → has_owner ms m.owner ≡ true → f m ≡ g m)
    → total f ms ≡ total g ms
total_cong f g [] same = refl
total_cong f g (m ∷ ms) same = omega (
  arith,
  same m (ground (arith, eq_iff m.owner m.owner)),
  total_cong f g ms (λ x h. same x (ground (arith, h))),
)

other_owner :
    (x m : Instance) (ms : List Instance)
    → has_owner ms x.owner ≡ false
    → has_owner ms m.owner ≡ true
    → (x.owner == m.owner) ≡ false
other_owner x m ms h hm = elim (Bool-cases (x.owner == m.owner)) [
  | inl e ↦
      let same : x.owner ≡ m.owner = (string_eq.equal_iff x.owner m.owner).1 e in
      absurd (ground (arith, h, hm, ap (has_owner ms) same))
  | inr e ↦ e
]

-- The shares of the places from the k-th on, n of them.
abbrev shares : (ℕ → ℕ) → ℕ → ℕ → ℕ
shares g k zero = 0
shares g k (suc n) = g k + shares g (suc k) n

module _ (segments all : ℕ) where
  abbrev part : ℕ → ℕ
  part i = share segments all (some i)

  total-index_from :
      (k : ℕ) (ms : List Instance)
      → OneEach ms
      → total (λ m. share segments all (index_from k ms m.owner)) ms ≡ shares part k (length ms)
  unfolding index_from OneEach
  total-index_from k [] each = refl
  total-index_from k (x ∷ xs) (alone, each) = omega (
    arith,
    ap (λ (b : Bool). share segments all (if b then some k else index_from (suc k) xs x.owner))
        (beq_refl x.owner),
    total_cong (λ m. share segments all (index_from k (x ∷ xs) m.owner))
        (λ m. share segments all (index_from (suc k) xs m.owner)) xs
        (λ m h. rw (other_owner x m xs alone h) refl),
    total-index_from (suc k) xs each,
  )

  shares_lem : (k n : ℕ) → shares part k n ≡ n * (segments / all) + (min n (segments % all - k))
  shares_lem k zero = ground arith
  shares_lem k (suc n) = ground (arith, suc-mul n (segments / all), shares_lem (suc k) n)

share-none : (segments n : ℕ) {i : Option ℕ} → i ≡ none → share segments n i ≡ 0
share-none segments n h = ap (share segments n) h

index_from-none :
    (k : ℕ) (ms : List Instance) (o : String) → has_owner ms o ≡ false → index_from k ms o ≡ none
unfolding index_from
index_from-none k [] o h = refl
index_from-none k (m ∷ ms) o h = ground (arith, h, index_from-none (suc k) ms o)

abbrev In : Instance → List Instance → Type 0
In m [] = ⊥
In m (x ∷ xs) = (m ≡ x) ⊎ In m xs

In-has_owner : (m : Instance) (ms : List Instance) → In m ms → has_owner ms m.owner ≡ true
In-has_owner m [] i = absurd i
In-has_owner m (x ∷ xs) (inl e) =
    ground (arith, beq_refl m.owner, ap (λ (y : Instance). y.owner == m.owner) e)
In-has_owner m (x ∷ xs) (inr i) = ground (arith, In-has_owner m xs i)

module _ (p : Instance → Bool) where
  -- An instance that is not kept leaves its owner without one.
  dropped_owner :
      (m : Instance) (ms : List Instance)
      → OneEach ms
      → In m ms
      → p m ≡ false
      → has_owner (keep p ms) m.owner ≡ false
  unfolding OneEach
  dropped_owner m [] each i out = absurd i
  dropped_owner m (x ∷ xs) (alone, each) (inl e) out =
      let gone : p x ≡ false = sym (ap p e) ∙ out in
      let free : has_owner (keep p xs) m.owner ≡ false =
        ap (λ (y : Instance). has_owner (keep p xs) y.owner) e
        ∙ has_owner-keep p xs x.owner alone in
      ground (arith, gone, free)
  dropped_owner m (x ∷ xs) (alone, each) (inr i) out =
      ground (arith, other_owner x m xs alone (In-has_owner m xs i), dropped_owner m xs each i out)

  total-keep :
      (f : Instance → ℕ) (ms : List Instance)
      → ((m : Instance) → In m ms → p m ≡ false → f m ≡ 0)
      → total f (keep p ms) ≡ total f ms
  total-keep f [] zeros = refl
  total-keep f (x ∷ xs) zeros =
      ground (arith, zeros x (inl refl), total-keep f xs (λ m i. zeros m (inr i)))

keep_top :
    (v : ℕ) (ms : List Instance)
    → top_version ms ≡ v
    → 0 < v
    → 0 < length (keep (λ m. m.version == v) ms)
keep_top v [] top pos = omega (arith, top, pos)
keep_top v (m ∷ ms) top pos = ground (arith, top, pos, keep_top v ms)

-- Some instance has the top version.
live_some : (m : Instance) (ms : List Instance) → 0 < length (live_instances (m ∷ ms))
live_some m ms = ground (arith, keep_top (top_version (m ∷ ms)) ms)

-- The quotas that the instances of a heartbeat compute, each for itself and from the same instances,
-- add up to the segments: a segment is within the quota of exactly one, whatever the versions of the
-- instances and what they hold. There is an instance, and no owner has two.
pub total-quota :
    (m : Instance) (ms : List Instance) (segments : ℕ)
    → OneEach (m ∷ ms)
    → total (λ i. quota (m ∷ ms) i.owner segments) (m ∷ ms) ≡ segments
unfolding quota
total-quota m ms segments each =
    let all = m ∷ ms in
    let p = λ (i : Instance). i.version == top_version all in
    let live = live_instances all in
    let n = length (sorted live) in
    let f = λ (i : Instance). share segments n (index_from 0 (sorted live) i.owner) in
    omega (
      arith,
      total-keep p f all (λ i mem out. share-none segments n (
          index_from-none 0 (sorted live) i.owner
            (has_owner-sorted live i.owner ∙ dropped_owner p i all each mem out))),
      total-sorted f live,
      total-index_from segments n 0 (sorted live) (sorted-OneEach live (keep-OneEach p all each)),
      shares_lem segments n 0 n,
      mod-add-div segments n,
      mod-lt segments {m = n} (omega (arith, length-sorted live, live_some m ms)),
    )
