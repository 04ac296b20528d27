-- ===== src/Memory/AutomationStore/Grants.antt =====
-- Which keys Acquire grants.
use mathlib.Core.Option
use mathlib.Core.List.{Permᴰ}
use eventsourcing.Shared.Dict
use eventsourcing.Memory.AutomationStore.Candidates.{first_with, has_key_of, found_row}
use eventsourcing.Memory.AutomationStore.Turns.{AllAhead, Ahead}
use eventsourcing.Shared.{
  ℕ, ◌+◌, ◌-◌, ◌≡◌, String, string_eq, nat_eq, ◌==◌, leb, ◌||◌, ◌&&◌, List, ◌++◌, map, length,
  count, ◌≤◌, keep, take,
}
use eventsourcing.Automation.{Candidate, AcquireResult}
use eventsourcing.Memory.AutomationStore.{AutomationStore, Cand, lease_of}

-- The candidates that nobody holds and whose pause has passed, and those whose pause has.
abbrev pub free : ℕ → List Cand → List Cand
free now cands =
    keep (λ c. leb c.1.paused_till now && (c.1.owner == "" || leb c.1.lease_until now)) cands

abbrev pub unpaused : ℕ → List Cand → List Cand
unpaused now cands = keep (λ c. leb c.1.paused_till now) cands

-- What a call grants on the store s: `cands` are the candidates, each key once, with the rows that s
-- has for them, and `order` the same in the order of the grants.
pub record Grants (now : ℕ) (name owner : String) (limit : ℕ) (candidates : List Candidate)
    (s : AutomationStore) (res : AcquireResult) : Type 0 where
  pub cands : List Cand
  pub order : List Cand
  pub found :
      (k : String)
      → Dict.get cands k ≡ Option.map (found_row now name s k) (first_with k candidates)
  pub once : (k : String) → count (has_key_of k) cands ≤ 1
  pub permuted : Permᴰ order cands
  pub in_order : AllAhead (Ahead cands) order
  pub granted : res.granted ≡ map (lease_of name owner) (take limit (free now order))
  pub eligible : res.eligible ≡ length (free now order) - limit
  pub active : res.active ≡ length (unpaused now order)

module _ (now : ℕ) (name owner : String) (limit ttl : ℕ) where
  -- The loop from what it has granted so far on.
  record Goes (cands : List Cand) (res res' : AcquireResult) : Type 0 where
    granted :
        res'.granted
        ≡ res.granted
          ++ map (lease_of name owner) (take (limit - length res.granted) (free now cands))
    eligible :
        res'.eligible ≡ res.eligible + (length (free now cands) - (limit - length res.granted))
    active : res'.active ≡ res.active + length (unpaused now cands)
