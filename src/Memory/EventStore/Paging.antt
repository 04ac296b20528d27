-- ===== src/Memory/EventStore/Paging.antt =====
-- `ReadAll`: what a page of the log holds.
use native.Mathlib.Nat.{add-zero, zero-add}
use eventsourcing.Shared.{
  ℕ, zero, suc, ◌+◌, ◌-◌, ◌≤◌, ◌<◌, ◌≡◌, ◌≢◌, refl, sym, subst, ap, ◌∙◌, ◌⊎◌, ◌↔◌, inl, inr, Bool,
  true, false, none, List, [], ◌∷◌, ◌++◌, arith, length, keep, drop, leb, length-drop,
  length-append, length-keep, nil_of_length, nat_beq, Bool-cases, nat_eq,
}
use eventsourcing.Result.{ok, >>=-eq-ok, ok_injective}
use eventsourcing.Revision.{ℤ, pos, negsuc}
use eventsourcing.Envelope.{Envelope, Codec}
use eventsourcing.Memory.EventStore.{
  Record, EventStore, ReadOptions, ReadResult, envelope, scan, read_all, matches, page_limit,
}
use eventsourcing.Memory.EventStore.Invariant.{IsWellFormed, Numbered, position}
use eventsourcing.Memory.EventStore.Encoded.{Decodes, length-Decodes}

pub Numbered-drop {ℓ} :
    {A : Type ℓ} (f : A → ℕ) (n k : ℕ) (xs : List A)
    → Numbered f n xs
    → Numbered f (n + k) (drop k xs)
Numbered-drop f n zero xs h = rw add-zero h
Numbered-drop f n (suc k) [] h = tt
Numbered-drop f n (suc k) (x ∷ xs) h =
    let e : n + 1 + k ≡ n + suc k = omega arith in rw e at (Numbered-drop f (n + 1) k xs h.1)

module _ (c : Codec) where
  open c use {Event, Metadata}

  -- A scan of the records after position n: those that it read, and those that it left.
  record Scans (p : Record Event Metadata → Bool) (room n : ℕ) (rs : List (Record Event Metadata))
      (r : List (Envelope Event Metadata) × ℕ) : Type 0 where
    scanned : List (Record Event Metadata)
    left : List (Record Event Metadata)
    split : rs ≡ scanned ++ left
    next : r.1 ≡ n + length scanned
    exact : Decodes c (keep p scanned) r.0
    fits : length r.0 ≤ room
    stopped : (left ≡ []) ⊎ (length r.0 ≡ room)

  Scans-cons :
      (p : Record Event Metadata → Bool) (room n : ℕ) (x : Record Event Metadata)
      (rs : List (Record Event Metadata)) (r : List (Envelope Event Metadata) × ℕ)
      → p x ≡ false
      → Scans p room (n + 1) rs r
      → Scans p room n (x ∷ rs) r
  Scans-cons p room n x rs r miss s = record {
    scanned = x ∷ s.scanned;
    left = s.left;
    split = ap (◌∷◌ x) s.split;
    next = let e = s.next in omega arith;
    exact = rw miss s.exact;
    fits = s.fits;
    stopped = s.stopped;
  }

  Scans-hit :
      (p : Record Event Metadata → Bool) (room n : ℕ) (x : Record Event Metadata)
      (env : Envelope Event Metadata) (envs : List (Envelope Event Metadata)) (k : ℕ)
      (rs : List (Record Event Metadata))
      → p x ≡ true
      → envelope c x ≡ ok env
      → Scans p room (n + 1) rs (envs, k)
      → Scans p (room + 1) n (x ∷ rs) (env ∷ envs, k)
  Scans-hit p room n x env envs k rs hit e s = record {
    scanned = x ∷ s.scanned;
    left = s.left;
    split = ap (◌∷◌ x) s.split;
    next = let q = s.next in omega arith;
    exact = rw hit (e, s.exact);
    fits = let q = s.fits in omega arith;
    stopped = elim s.stopped [ inl q ↦ inl q | inr q ↦ inr (omega arith) ];
  }

  Scans-full :
      (p : Record Event Metadata → Bool) (n : ℕ) (x : Record Event Metadata)
      (env : Envelope Event Metadata) (rs : List (Record Event Metadata))
      → p x ≡ true
      → envelope c x ≡ ok env
      → Scans p 1 n (x ∷ rs) (env ∷ [], n + 1)
  Scans-full p n x env rs hit e = record {
    scanned = x ∷ [];
    left = rs;
    split = refl;
    next = refl;
    exact = rw hit (e, tt);
    fits = omega arith;
    stopped = inr refl;
  }

  scan_last :
      (p : Record Event Metadata → Bool) (n : ℕ) (x : Record Event Metadata)
      (rs : List (Record Event Metadata)) (r : List (Envelope Event Metadata) × ℕ)
      → p x ≡ true
      → x.env.global_position ≡ n + 1
      → scan c p 1 n (x ∷ rs) ≡ ok r
      → (env : Envelope Event Metadata) × (envelope c x ≡ ok env) × ((env ∷ [], n + 1) ≡ r)
  unfolding scan
  scan_last p n x rs r hit num h =
      let (env, e, h') = >>=-eq-ok (envelope c x) _ (rw hit at h) in
      (env, e, subst (λ g. (env ∷ [], g) ≡ r) num (ok_injective h'))

  scan_more :
      (p : Record Event Metadata → Bool) (room n : ℕ) (x : Record Event Metadata)
      (rs : List (Record Event Metadata)) (r : List (Envelope Event Metadata) × ℕ)
      → p x ≡ true
      → x.env.global_position ≡ n + 1
      → scan c p (suc room + 1) n (x ∷ rs) ≡ ok r
      → (env : Envelope Event Metadata) × (envelope c x ≡ ok env)
        × (q : List (Envelope Event Metadata) × ℕ) × (scan c p (room + 1) (n + 1) rs ≡ ok q)
        × ((env ∷ q.0, q.1) ≡ r)
  unfolding scan
  scan_more p room n x rs r hit num h =
      let down : suc room + 1 - 1 ≡ room + 1 = omega arith in
      let again : nat_beq (room + 1) 0 ≡ false = ground arith in
      let (env, e, h') = >>=-eq-ok (envelope c x) _ (rw (hit, down) at h) in
      let (q, e', h'') =
        >>=-eq-ok (scan c p (room + 1) x.env.global_position rs) _ (rw again at h') in
      (env, e, q, subst (λ g. scan c p (room + 1) g rs ≡ ok q) num e', ok_injective h'')

  scan-Scans :
      (p : Record Event Metadata → Bool) (room n : ℕ) (rs : List (Record Event Metadata))
      (r : List (Envelope Event Metadata) × ℕ)
      → Numbered position n rs
      → scan c p (room + 1) n rs ≡ ok r
      → Scans p (room + 1) n rs r
  unfolding scan
  scan-Scans p room n [] r num h = rw (← ok_injective h) (record {
    scanned = [];
    left = [];
    split = refl;
    next = omega arith;
    exact = tt;
    fits = omega arith;
    stopped = inl refl;
  })
  scan-Scans p zero n (x ∷ rs) r num h = elim (Bool-cases (p x)) [
    | inl hit ↦
        let (env, e, t) = scan_last p n x rs r hit num.0 h in
        subst (Scans p 1 n (x ∷ rs)) t (Scans-full p n x env rs hit e)
    | inr miss ↦ Scans-cons p 1 n x rs r miss (scan-Scans p 0 (n + 1) rs r num.1 (ground arith))
  ]
  scan-Scans p (suc room) n (x ∷ rs) r num h = elim (Bool-cases (p x)) [
    | inl hit ↦
        let (env, e, q, e', t) = scan_more p room n x rs r hit num.0 h in
        let more : room + 1 + 1 ≡ suc room + 1 = omega arith in
        subst (Scans p (suc room + 1) n (x ∷ rs)) t (
          subst (λ l. Scans p l n (x ∷ rs) (env ∷ q.0, q.1)) more
            (Scans-hit p (room + 1) n x env q.0 q.1 rs hit e
              (scan-Scans p room (n + 1) rs q num.1 e')))
    | inr miss ↦
        Scans-cons p (suc room + 1) n x rs r miss
          (scan-Scans p (suc room) (n + 1) rs r num.1 (ground arith))
  ]

  -- A page of the log after position `after`.
  pub record IsPage (m : EventStore Event Metadata) (after : ℕ) (opts : ReadOptions)
      (res : ReadResult Event Metadata) : Type 0 where
    pub scanned : List (Record Event Metadata)
    pub left : List (Record Event Metadata)
    pub split : drop after m.global ≡ scanned ++ left
    pub next : res.next ≡ after + length scanned
    pub exact : Decodes c (keep (matches opts.event_types opts.stream_prefixes) scanned) res.events
    pub fits : length res.events ≤ page_limit opts.limit
    pub at_end : (res.at_end ≡ true) ↔ (left ≡ [])
    pub full : res.at_end ≡ false → (length res.events ≡ page_limit opts.limit) × (after < res.next)

  page_limit-suc : (z : ℤ) → (k : ℕ) × (page_limit z ≡ k + 1)
  page_limit-suc (pos zero) = (499, omega arith)
  page_limit-suc (pos (suc n)) = (n, ground arith)
  page_limit-suc (negsuc n) = (499, omega arith)

  page :
      (m : EventStore Event Metadata) (after : ℕ) (opts : ReadOptions)
      (q : List (Envelope Event Metadata) × ℕ) (k : ℕ)
      → page_limit opts.limit ≡ k + 1
      → Scans (matches opts.event_types opts.stream_prefixes) (k + 1) after (drop after m.global) q
      → IsPage m after opts
          (record { events = q.0; next = q.1; at_end = leb (length m.global) q.1 })
  page m after opts q k lim s =
      let total : length m.global - after ≡ length s.scanned + length s.left =
        sym (length-drop after m.global) ∙ ap length s.split ∙ length-append s.scanned s.left in
      let next = s.next in
      let some_left : leb (length m.global) q.1 ≡ false → s.left ≢ [] =
        λ f e. let z : length s.left ≡ 0 = ap length e in absurd (ground arith) in
      record {
        scanned = s.scanned;
        left = s.left;
        split = s.split;
        next = next;
        exact = s.exact;
        fits = let fits = s.fits in omega arith;
        at_end = (
          λ t. nil_of_length s.left (ground arith),
          λ e. let z : length s.left ≡ 0 = ap length e in ground arith,
        );
        full = λ f. elim s.stopped [
          | inl none_left ↦ absurd (some_left f none_left)
          | inr full ↦ (
            omega arith,
            omega (
              arith,
              length-Decodes c _ q.0 s.exact,
              length-keep (matches opts.event_types opts.stream_prefixes) s.scanned,
            ),
          )
        ];
      }

  -- A read that succeeds returns a page: the events after `after` that match, up to `Next`, none
  -- left out, at most as many as the limit; `AtEnd` says that no record is left, and a page that is
  -- not the last is full and moves on.
  pub read_all-IsPage :
      (m : EventStore Event Metadata) (after : ℕ) (opts : ReadOptions)
      (res : ReadResult Event Metadata)
      → IsWellFormed m
      → read_all c none m after opts ≡ ok res
      → IsPage m after opts res
  unfolding read_all
  read_all-IsPage m after opts res w h =
      let (q, e, h') =
        >>=-eq-ok
          (scan c (matches opts.event_types opts.stream_prefixes) _ after (drop after m.global)) _
          h in
      let (k, lim) = page_limit-suc opts.limit in
      subst (IsPage m after opts) (ok_injective h') (
        page m after opts q k lim (
          scan-Scans (matches opts.event_types opts.stream_prefixes) k after (drop after m.global) q
            (rw zero-add at (Numbered-drop position 0 after m.global w.positions)) (rw lim at e)))
