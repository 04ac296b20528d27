-- ===== src/Memory/ProjectionStore/Claims.antt =====
-- Claims: one lease holds a segment at a time, and the lease that lost it is refused.
use eventsourcing.Shared.{
  ℕ, String, ◌≡◌, ◌≢◌, refl, sym, subst, ◌∙◌, ◌⊎◌, inl, inr, true, false, Option, none, some,
  string_eq, nat_eq, arith, eq_iff, incr64, incr64_ne, Option-cases, if_cases,
}
use eventsourcing.Projection.{Checkpoint, Status, Lease, ProjectionError, claim_lost}
use eventsourcing.Memory.ProjectionStore.{
  ProjectionStore, Row, Callback, row, set_row, owned, claims, held, claim, take_claim, commit,
  committed, reset, release, save_status, fail_rebuild,
}
use eventsourcing.Memory.ProjectionStore.Rows.{
  same_segment, row-set_row, same_segment_refl, owned_iff, owned_of, not_owned, row-same,
}

-- What a claim that is granted has done to a segment whose row was r.
pub record Granted (clock : ℕ → ℕ) (m : ProjectionStore) (l : Lease) (ttl : ℕ) (r : Row)
    (l' : Lease) (cp : Checkpoint) (m' : ProjectionStore) : Type 0 where
  pub lease : (l'.name ≡ l.name) × (l'.segment ≡ l.segment) × (l'.owner ≡ l.owner)
  pub checkpoint : cp ≡ r.cp
  pub taken : Row
  pub holds : owned m' l' ≡ some taken
  pub beat : (taken.heartbeat ≡ clock 1) × (taken.ttl ≡ ttl) × (taken.cp ≡ r.cp)
  pub elsewhere : (j : Lease) → same_segment l j ≡ false → row m' j ≡ row m j
  pub fresh :
      ((claims r l ≡ true) × (l'.epoch ≡ r.epoch))
      ⊎ ((held (clock 0) r ≡ false) × (l'.epoch ≡ incr64 r.epoch))

module _ (clock : ℕ → ℕ) (m : ProjectionStore) (l : Lease) (ttl : ℕ) where
  take_claim-Granted :
      (r q : Row) (x : Lease × Checkpoint)
      → row m l ≡ some r
      → l.owner ≢ ""
      → q.cp ≡ r.cp
      → (((claims r l ≡ true) × (q.epoch ≡ r.epoch))
          ⊎ ((held (clock 0) r ≡ false) × (q.epoch ≡ incr64 r.epoch)))
      → (take_claim (clock 1) m l ttl q).0 ≡ some x
      → Granted clock m l ttl r x.0 x.1 (take_claim (clock 1) m l ttl q).1
  take_claim-Granted r q x e named c new h =
      let q' : Row = record q {
        owner = l.owner;
        heartbeat = clock 1;
        ttl = ttl;
        status = record q.status { owner = l.owner };
      } in
      let l' : Lease = record l { epoch = q.epoch } in
      let at : row (set_row m l q') l' ≡ some q' =
        rw (row-set_row m l l' r q' e, same_segment_refl l) refl in
      let g : Granted clock m l ttl r l' q.cp (set_row m l q') = record {
        lease = (refl, refl, refl);
        checkpoint = c;
        taken = q';
        holds =
            owned_of (set_row m l q') l' q' at
              (ground (arith, eq_iff l.owner "", eq_iff l.owner l.owner));
        beat = (refl, refl, c);
        elsewhere = λ j other. rw (row-set_row m l j r q' e, other) refl;
        fresh = new;
      } in
      subst
        (λ (y : Option (Lease × Checkpoint)). elim y [
          | none ↦ Unit
          | some z ↦ Granted clock m l ttl r z.0 z.1 (set_row m l q')
        ])
        h g

  -- A claim with an owner's name that is granted gives a lease that holds the segment, with the
  -- checkpoint as it was; every other segment is unchanged. Either the caller held the claim and its
  -- epoch stays, or the segment was free or its claim had expired, and the epoch counts up.
  pub claim-Granted :
      (r : Row) (l' : Lease) (cp : Checkpoint)
      → l.owner ≢ ""
      → row m l ≡ some r
      → (claim clock m l ttl).0 ≡ some (l', cp)
      → Granted clock m l ttl r l' cp (claim clock m l ttl).1
  unfolding claim
  claim-Granted r l' cp named e =
      rw (e, claim)
        (if_cases
          (λ (y : Option (Lease × Checkpoint) × ProjectionStore).
            y.0 ≡ some (l', cp) → Granted clock m l ttl r l' cp y.1)
          (claims r l) _ _
          (λ own h. take_claim-Granted r r (l', cp) e named refl (inl (own, refl)) h)
          (λ own.
            if_cases
              (λ (y : Option (Lease × Checkpoint) × ProjectionStore).
                y.0 ≡ some (l', cp) → Granted clock m l ttl r l' cp y.1)
              (held (clock 0) r) _ _ (λ busy h. cc)
              (λ free h.
                take_claim-Granted r (record r { epoch = incr64 r.epoch }) (l', cp) e named refl
                  (inr (free, refl)) h)))

  -- A segment whose claim has not expired is not granted to a lease that does not hold it.
  live_claim_refused :
      (r : Row)
      → row m l ≡ some r
      → claims r l ≡ false
      → held (clock 0) r ≡ true
      → claim clock m l ttl ≡ (none, m)
  unfolding claim
  live_claim_refused r e other busy = rw (e, other, busy, claim) refl

  lost-claim :
      (r : Row) (old : Lease) (x : Lease × Checkpoint)
      → l.owner ≢ ""
      → row m l ≡ some r
      → old.name ≡ l.name
      → old.segment ≡ l.segment
      → claims r old ≡ true
      → claims r l ≡ false
      → (claim clock m l ttl).0 ≡ some x
      → owned (claim clock m l ttl).1 old ≡ none
  lost-claim r old x named e name segment mine other granted =
      let m' = (claim clock m l ttl).1 in
      let g : Granted clock m l ttl r x.0 x.1 m' = claim-Granted r x.0 x.1 named e granted in
      let (at, taken_by) = owned_iff m' x.0 g.taken g.holds in
      let at_old : row m' old ≡ some g.taken =
        row-same m' old x.0 (name ∙ sym g.lease.0) (segment ∙ sym g.lease.1) ∙ at in
      not_owned m' old g.taken at_old (elim g.fresh [
        | inl (own, same) ↦ absurd (ground (arith, own, other))
        | inr (free, up) ↦ ground (arith, up, taken_by, mine, incr64_ne r.epoch)
      ])

  -- When a claim is granted to a lease that did not hold the segment, the lease that held it is
  -- refused by everything that it may still call, and none of it changes the store: a commit and a
  -- reset do not run their callbacks, and a release does nothing.
  pub takeover_fences :
      (r : Row) (old : Lease) (x : Lease × Checkpoint) (now n : ℕ) (cp : Checkpoint)
      (status : Status) (fn : Callback) (msg : String)
      → l.owner ≢ ""
      → row m l ≡ some r
      → old.name ≡ l.name
      → old.segment ≡ l.segment
      → claims r old ≡ true
      → claims r l ≡ false
      → (claim clock m l ttl).0 ≡ some x
      → (commit now (claim clock m l ttl).1 old cp status fn
          ≡ (some claim_lost, (claim clock m l ttl).1))
        × (reset now (claim clock m l ttl).1 old n fn ≡ (some claim_lost, (claim clock m l ttl).1))
        × (save_status now (claim clock m l ttl).1 old status
            ≡ (some claim_lost, (claim clock m l ttl).1))
        × (fail_rebuild (claim clock m l ttl).1 old n msg
            ≡ (some claim_lost, (claim clock m l ttl).1))
        × (release (claim clock m l ttl).1 old ≡ (claim clock m l ttl).1)
  unfolding commit reset save_status fail_rebuild release
  takeover_fences r old x now n cp status fn msg named e name segment mine other granted =
      let lost = lost-claim r old x named e name segment mine other granted in
      (
        rw (lost, commit) refl,
        rw (lost, reset) refl,
        rw (lost, save_status) refl,
        rw (lost, fail_rebuild) refl,
        rw (lost, release) refl,
      )

-- What a commit that returns no error has done, where its callback left the store m'.
pub record Commits (now : ℕ) (m m' : ProjectionStore) (l : Lease) (cp : Checkpoint)
    (status : Status) (after : ProjectionStore) : Type 0 where
  pub before : Row
  pub held_before : owned m l ≡ some before
  pub found : Row
  pub held_still : owned m' l ≡ some found
  pub written : owned after l ≡ some (record found { cp = cp; status = status; heartbeat = now })
  pub elsewhere : (j : Lease) → same_segment l j ≡ false → row after j ≡ row m' j

module _ (now : ℕ) (m : ProjectionStore) (l : Lease) (cp : Checkpoint) (status : Status) where
  committed-Commits :
      (b : Row) (x : Option ProjectionError × ProjectionStore)
      → owned m l ≡ some b
      → (committed now l cp status x).0 ≡ none
      → Commits now m x.1 l cp status (committed now l cp status x).1
  unfolding committed
  committed-Commits b (some e, m') o h = absurd (ground (arith, h))
  committed-Commits b (none, m') o h = elim (Option-cases (owned m' l)) [
    | inl lost ↦ absurd (ground (arith, h, lost))
    | inr (r, e) ↦
        let q : Row = record r { cp = cp; status = status; heartbeat = now } in
        let (at, mine) = owned_iff m' l r e in
        rw (e, committed)
          (record {
            before = b;
            held_before = o;
            found = r;
            held_still = e;
            written =
                owned_of (set_row m' l q) l q
                  (rw (row-set_row m' l l r q at, same_segment_refl l) refl) mine;
            elsewhere = λ j other. rw (row-set_row m' l j r q at, other) refl;
          })
  ]

  -- A commit that returns no error was made under a claim that was held before and after its
  -- callback ran. It stores the checkpoint and the status, the claim stays, and every other segment
  -- is as the callback left it.
  pub commit-Commits :
      (fn : Callback)
      → (commit now m l cp status fn).0 ≡ none
      → Commits now m (fn m).1 l cp status (commit now m l cp status fn).1
  unfolding commit
  commit-Commits fn h = elim (Option-cases (owned m l)) [
    | inl lost ↦ absurd (ground (arith, h, lost))
    | inr (r, e) ↦ rw (e, commit) (committed-Commits r (fn m) e (rw (e, commit) at h))
  ]
