-- ===== src/Memory/AutomationStore/Leases.antt =====
-- What a grant takes from the lease before it.
use eventsourcing.Shared.{
  ℕ, ◌+◌, ◌≡◌, ◌≢◌, refl, sym, ap, ◌∙◌, String, string_eq, nat_eq, Bool, true, false, ◌&&◌, ◌||◌,
  Option, none, some, List, [], ◌∷◌, ◌++◌, ◌==◌, length, any, ltb, if_cases, incr64, incr64_ne,
  arith, Bool-cases, inl, inr,
}
use eventsourcing.Automation.{Candidate, SegmentLease, ReleaseRequest, AcquireResult}
use eventsourcing.Memory.AutomationStore.Candidates.{get-put_row}
use eventsourcing.Memory.AutomationStore.{
  AutomationStore, Cand, LocalRow, is_paused, held_at, grant, acquire, gather, sorted, insert,
  goes_first, lease_of, granted_row, put_row, get_row, row, grouped, is_mine, renew, release,
  renew_row, release_row,
}

any_snoc :
    {C : Type 0} (p : C → Bool) (xs : List C) (y : C) → any p (xs ++ y ∷ []) ≡ (any p xs || p y)
any_snoc p [] y = ground arith
any_snoc p (x ∷ xs) y = ground (arith, any_snoc p xs y)

abbrev pub has_key : String → List SegmentLease → Bool
has_key k ls = any (λ l. l.key == k) ls

module _ (name k : String) where
  -- The row of the key k is held, or was last, under an owner and an epoch.
  record Under (s : AutomationStore) (owner : String) (epoch : ℕ) : Type 0 where
    found : LocalRow
    at : get_row s name k ≡ some found
    owned : found.owner ≡ owner
    since : found.epoch ≡ epoch

  -- So is every candidate of that key.
  unfoldable AllUnder : String → ℕ → List Cand → Type 0
  AllUnder owner epoch [] = Unit
  AllUnder owner epoch (c ∷ cs) =
      (c.0 ≡ k → (c.1.owner ≡ owner) × (c.1.epoch ≡ epoch)) × AllUnder owner epoch cs

  put-Under :
      (key : String) (r : LocalRow) (s : AutomationStore) (owner : String) (epoch : ℕ)
      → (key ≡ k → (r.owner ≡ owner) × (r.epoch ≡ epoch))
      → ((key == k) ≡ false → Under s owner epoch)
      → Under (put_row name key r s) owner epoch
  put-Under key r s owner epoch here there = elim (Bool-cases (key == k)) [
    | inl e ↦
        let (o, n) = here ((string_eq.equal_iff key k).1 e) in
        record { found = r; at = rw (get-put_row name key k r s, e) refl; owned = o; since = n }
    | inr e ↦
        let u = there e in
        record {
          found = u.found;
          at = rw (get-put_row name key k r s, e) u.at;
          owned = u.owned;
          since = u.since;
        }
  ]

  insert-AllUnder :
      (less : Cand → Cand → Bool) (x : Cand) (ys : List Cand) (o : String) (n : ℕ)
      → (x.0 ≡ k → (x.1.owner ≡ o) × (x.1.epoch ≡ n))
      → AllUnder o n ys
      → AllUnder o n (insert less x ys)
  unfolding insert AllUnder
  insert-AllUnder less x [] o n h all = (h, tt)
  insert-AllUnder less x (y ∷ ys) o n h (first, all) =
      if_cases (AllUnder o n) (less y x) _ _ (λ _. (first, insert-AllUnder less x ys o n h all))
        (λ _. (h, (first, all)))

  sorted-AllUnder :
      (less : Cand → Cand → Bool) (xs : List Cand) (o : String) (n : ℕ)
      → AllUnder o n xs
      → AllUnder o n (sorted less xs)
  unfolding sorted AllUnder
  sorted-AllUnder less [] o n all = tt
  sorted-AllUnder less (x ∷ xs) o n (first, all) =
      insert-AllUnder less x (sorted less xs) o n first (sorted-AllUnder less xs o n all)

  gather-Under :
      (now : ℕ) (cs : List Candidate) (seen : List String) (s : AutomationStore) (o : String)
      (n : ℕ)
      → Under s o n
      → AllUnder o n (gather now name cs seen s).0 × Under (gather now name cs seen s).1 o n
  unfolding gather AllUnder
  gather-Under now [] seen s o n u = (tt, u)
  gather-Under now (c ∷ cs) seen s o n u =
      let r = grouped c (row s name c.key now) in
      let s' = put_row name c.key r s in
      let mine : c.key ≡ k → (r.owner ≡ o) × (r.epoch ≡ n) = λ e.
        rw (ap (get_row s name) e ∙ u.at, row)
          (if_cases (λ (r : LocalRow). (r.owner ≡ o) × (r.epoch ≡ n)) (c.group == "") _ _
            (λ _. (u.owned, u.since)) (λ _. (u.owned, u.since))) in
      let rest =
        gather-Under now cs (c.key ∷ seen) s' o n (put-Under c.key r s o n mine (λ _. u)) in
      if_cases (λ (x : List Cand × AutomationStore). AllUnder o n x.0 × Under x.1 o n)
        (any (λ j. j == c.key) seen) _ _ (λ _. gather-Under now cs seen s o n u)
        (λ _. ((mine, rest.0), rest.1))

  module _ (now : ℕ) (owner : String) (limit ttl : ℕ) (o : String) (n : ℕ) where
    -- The key's row as the loop leaves it: the caller's once the key is granted, as it was before.
    abbrev Turns : AcquireResult → AutomationStore → Type 0
    Turns res s =
        (has_key k res.granted ≡ true → Under s owner (incr64 n))
        × (has_key k res.granted ≡ false → Under s o n)

    taken-Turns :
        (c : Cand) (res : AcquireResult) (m : ℕ) (s : AutomationStore)
        → (c.0 ≡ k → (c.1.owner ≡ o) × (c.1.epoch ≡ n))
        → Turns res s
        → Turns
            (record res { granted = res.granted ++ lease_of name owner c ∷ []; active = m })
            (put_row name c.0 (granted_row now owner ttl c.1) s)
    taken-Turns c res m s same (took, kept) =
        let more =
          any_snoc (λ (l : SegmentLease). l.key == k) res.granted (lease_of name owner c) in
        (
          (λ h.
              put-Under c.0 (granted_row now owner ttl c.1) s owner (incr64 n)
                (λ e. (refl, ap incr64 (same e).1))
                (λ other. took (ground (arith, h, more, other)))),
          (λ h.
              put-Under c.0 (granted_row now owner ttl c.1) s o n
                (λ e. absurd (ground (arith, h, more, (string_eq.equal_iff c.0 k).0 e)))
                (λ other. kept (ground (arith, h, more)))),
        )

    grant-Turns :
        (cs : List Cand) (res : AcquireResult) (s : AutomationStore)
        → AllUnder o n cs
        → Turns res s
        → Turns
            (grant now name owner limit ttl cs res s).0
            (grant now name owner limit ttl cs res s).1
    unfolding grant AllUnder
    grant-Turns [] res s all turns = turns
    grant-Turns (c ∷ cs) res s (same, all) turns =
        let P = λ (x : AcquireResult × AutomationStore). Turns x.0 x.1 in
        if_cases P (is_paused c.1 now) _ _ (λ _. grant-Turns cs res s all turns)
          (λ _.
            if_cases P (held_at c.1 now) _ _
              (λ _. grant-Turns cs (record res { active = res.active + 1 }) s all turns)
              (λ _.
                if_cases P (ltb (length res.granted) limit) _ _
                  (λ _. grant-Turns cs _ _ all (taken-Turns c res (res.active + 1) s same turns))
                  (λ _.
                    grant-Turns cs
                      (record res { active = res.active + 1; eligible = res.eligible + 1 }) s all
                      turns)))

    acquire-Turns :
        (candidates : List Candidate) (s : AutomationStore)
        → Under s o n
        → Turns
            (acquire now name owner limit ttl candidates s).0
            (acquire now name owner limit ttl candidates s).1
    unfolding acquire
    acquire-Turns candidates s u =
        let x = gather now name candidates [] s in
        let (all, kept) = gather-Under now candidates [] s o n u in
        grant-Turns (sorted (goes_first x.0) x.0)
          (record { granted = []; active = 0; eligible = 0 }) x.1
          (sorted-AllUnder (goes_first x.0) x.0 o n all)
          ((λ h. absurd (ground (arith, h))), λ _. kept)

match_none :
    {C D : Type 0} (o : Option C) (d : D) (f : C → D)
    → o ≡ none
    → elim o [ none ↦ d | some c ↦ f c ] ≡ d
match_none none d f h = refl
match_none (some c) d f h = absurd (ground (arith, h))

not_mine : (r : LocalRow) (l : SegmentLease) → r.epoch ≢ l.epoch → is_mine r l ≡ false
not_mine r l stale = elim (Bool-cases (is_mine r l)) [
  | inl mine ↦ absurd (stale (ground (arith, mine)))
  | inr other ↦ other
]

renew_row-none :
    (now ttl : ℕ) (l : SegmentLease) (r : LocalRow)
    → is_mine r l ≡ false
    → renew_row now ttl l (some r) ≡ none
renew_row-none now ttl l r other =
    if_cases (λ (o : Option LocalRow). o ≡ none) (is_mine r l && ltb now r.lease_until) _ _
      (λ mine. absurd (ground (arith, mine, other))) (λ _. refl)

release_row-none :
    (now : ℕ) (q : ReleaseRequest) (r : LocalRow)
    → is_mine r q.lease ≡ false
    → release_row now q (some r) ≡ none
release_row-none now q r other =
    if_cases (λ (o : Option LocalRow). o ≡ none) (is_mine r q.lease) _ _
      (λ mine. absurd (ground (arith, mine, other))) (λ _. refl)

refused :
    (s : AutomationStore) (q : ReleaseRequest) (o : String) (n now ttl : ℕ)
    → Under q.lease.name q.lease.key s o n
    → n ≢ q.lease.epoch
    → (renew now ttl (q.lease ∷ []) s ≡ (q.lease ∷ [], s))
      × (release now (q ∷ []) s ≡ (q.lease ∷ [], s))
unfolding renew release
refused s q o n now ttl u stale =
    let l = q.lease in
    let other = not_mine u.found l (λ e. stale (sym u.since ∙ e)) in
    (
      match_none (renew_row now ttl l (get_row s l.name l.key)) _ _
          (ap (renew_row now ttl l) u.at ∙ renew_row-none now ttl l u.found other),
      match_none (release_row now q (get_row s l.name l.key)) _ _
          (ap (release_row now q) u.at ∙ release_row-none now q u.found other),
    )

-- When Acquire grants the key of a lease that held it, at whatever time and to whomever, the lease
-- is lost: a renewal and a release of it say so, and neither changes the store.
pub acquire_fences :
    (now : ℕ) (owner : String) (limit ttl : ℕ) (candidates : List Candidate) (s : AutomationStore)
    (q : ReleaseRequest) (r : LocalRow) (later longer : ℕ)
    → get_row s q.lease.name q.lease.key ≡ some r
    → is_mine r q.lease ≡ true
    → has_key q.lease.key (acquire now q.lease.name owner limit ttl candidates s).0.granted ≡ true
    → (renew later longer (q.lease ∷ []) (acquire now q.lease.name owner limit ttl candidates s).1
        ≡ (q.lease ∷ [], (acquire now q.lease.name owner limit ttl candidates s).1))
      × (release later (q ∷ []) (acquire now q.lease.name owner limit ttl candidates s).1
          ≡ (q.lease ∷ [], (acquire now q.lease.name owner limit ttl candidates s).1))
acquire_fences now owner limit ttl candidates s q r later longer at mine granted =
    let l = q.lease in
    let u : Under l.name l.key s r.owner l.epoch = record {
      found = r;
      at = at;
      owned = refl;
      since = ground (arith, mine);
    } in
    let (took, _) = acquire-Turns l.name l.key now owner limit ttl r.owner l.epoch candidates s u in
    refused (acquire now l.name owner limit ttl candidates s).1 q owner (incr64 l.epoch) later
      longer (took granted) (incr64_ne l.epoch)
