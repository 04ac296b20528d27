-- ===== src/CommandBus/Shards.antt =====
-- The commands that a shard has, in its queue or at its worker.
use eventsourcing.Shared.{
  get-set_elem, set_elem, ℕ, ◌%◌, ◌≡◌, refl, sym, subst, String, string_eq, Bool, true, false, ◌||◌,
  Option, none, some, List, [], ◌∷◌, ◌++◌, ◌==◌, nat_eq, get_elem?, any, arith, beq_refl, inl, inr,
}
use eventsourcing.CommandBus.{Caller, Worker, idle, exited, holds, handles, is_waiting, is_idle}

-- The worker has taken the command of a caller.
abbrev pub has : Worker → ℕ → Bool
has idle i = false
has exited i = false
has (holds j) i = j == i
has (handles j) i = j == i

abbrev pub with_shard : List ℕ → Worker → ℕ → Bool
with_shard q w i = any (λ j. j == i) q || has w i

abbrev pub is_some : {C : Type 0} → Option C → Bool
is_some none = false
is_some (some c) = true

pub grows :
    (i j : ℕ) (q : List ℕ) (w : Worker)
    → with_shard q w j ≡ true
    → with_shard (q ++ i ∷ []) w j ≡ true
grows i j [] w h = ground (arith, h)
grows i j (x ∷ q) w h = ground (arith, h, grows i j q w)

pub lands : (i : ℕ) (q : List ℕ) (w : Worker) → with_shard (q ++ i ∷ []) w i ≡ true
lands i [] w = ground (arith, beq_refl i)
lands i (x ∷ q) w = ground (arith, lands i q w)

-- A worker that was at its select takes the first of its queue.
pub moves :
    (i j : ℕ) (is : List ℕ) → with_shard (i ∷ is) idle j ≡ true → with_shard is (holds i) j ≡ true
moves i j is h = ground (arith, h)

pub not_idle : (w : Worker) (j : ℕ) → has w j ≡ true → is_idle w ≡ true → ⊥
not_idle idle j h e = ground (arith, h)
not_idle exited j h e = ground (arith, h)
not_idle (holds i) j h e = ground (arith, e)
not_idle (handles i) j h e = ground (arith, e)

pub by_reply :
    {C : Type 0} (r : Option C) (a b : Bool)
    → (is_some r || a) ≡ true
    → (a ≡ true → b ≡ true)
    → (is_some r || b) ≡ true
by_reply none a b h stay = stay h
by_reply (some c) a b h stay = refl

module _ {A X : Type 0} (hash : String → ℕ) where
  -- The caller has its reply, or its shard has its command.
  abbrev pub serves : ℕ → (ℕ → List ℕ) → (ℕ → Worker) → ℕ → Caller A X → Bool
  serves n q w i c =
      let k = hash c.command.aggregate_id % n in is_some c.reply || with_shard (q k) (w k) i

  unfoldable pub Waits : ℕ → List (Caller A X) → (ℕ → List ℕ) → (ℕ → Worker) → Type 0
  Waits n cs q w =
      (i : ℕ) (c : Caller A X)
      → get_elem? cs i ≡ some c
      → is_waiting c ≡ true
      → serves n q w i c ≡ true

  module _ (n : ℕ) (cs : List (Caller A X)) (q q' : ℕ → List ℕ) (w w' : ℕ → Worker) where
    -- Commands that stay with their shards, but for one whose caller goes on.
    pub set-Waits :
        (i : ℕ) (y : Caller A X)
        → ((j k : ℕ)
            → (i == j) ≡ false
            → with_shard (q k) (w k) j ≡ true
            → with_shard (q' k) (w' k) j ≡ true)
        → (is_waiting y ≡ true → serves n q' w' i y ≡ true)
        → Waits n cs q w
        → Waits n (set_elem cs i y) q' w'
    unfolding Waits
    set-Waits i y stay goes_on waits j c at h = elim (get-set_elem cs i j y at) [
      | inl (e, new) ↦
          subst (λ (m : ℕ). serves n q' w' m c ≡ true) e
            (subst (λ (z : Caller A X). serves n q' w' i z ≡ true) (sym new)
              (goes_on (subst (λ (z : Caller A X). is_waiting z ≡ true) new h)))
      | inr (other, old) ↦
          let k = hash c.command.aggregate_id % n in
          by_reply c.reply _ _ (waits j c old h) (stay j k other)
    ]

    pub move-Waits :
        ((j k : ℕ) → with_shard (q k) (w k) j ≡ true → with_shard (q' k) (w' k) j ≡ true)
        → Waits n cs q w
        → Waits n cs q' w'
    unfolding Waits
    move-Waits stay waits j c at h =
        by_reply c.reply _ _ (waits j c at h) (stay j (hash c.command.aggregate_id % n))
