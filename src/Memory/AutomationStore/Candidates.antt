-- ===== src/Memory/AutomationStore/Candidates.antt =====
-- The first loop of Acquire: the candidates, each key once, with the rows that the store has for them.
use mathlib.Core.Option
use eventsourcing.Shared.{
  ℕ, ◌+◌, ◌≡◌, ◌≤◌, refl, ap, ◌∙◌, String, string_eq, nat_eq, Bool, true, false, none, some, List,
  [], ◌∷◌, ◌==◌, any, if◌then◌else◌, if_cases, arith, count, bit, beq_refl, Bool-cases, inl, inr,
}
use eventsourcing.Shared.Dict
use eventsourcing.Shared.Dict.{Dict, get-put}
use eventsourcing.Automation.{Candidate}
use eventsourcing.Memory.AutomationStore.{
  AutomationStore, Cand, LocalRow, gather, put_row, get_row, rows_of, row, grouped, first_row,
}

-- The first candidate with the key.
abbrev pub first_with : String → List Candidate → Option.Option Candidate
first_with k [] = none
first_with k (c ∷ cs) = let rest = first_with k cs in if c.key == k then some c else rest

abbrev pub has_key_of : String → Cand → Bool
has_key_of k c = c.0 == k

pub get-put_row :
    (name key k : String) (r : LocalRow) (s : AutomationStore)
    → get_row (put_row name key r s) name k ≡ (if key == k then some r else get_row s name k)
unfolding get_row put_row
get-put_row name key k r s =
    let rows = Dict.put (rows_of s name) key r in
    let found : Dict.get (Dict.put s.rows name rows) name ≡ some rows =
      get-put s.rows name name rows ∙ ground (arith, beq_refl name) in
    ap
      (λ (o : Option.Option (Dict String LocalRow)).
        Dict.get (elim o as (λ _. Dict String LocalRow) [ none ↦ [] | some d ↦ d ]) k)
      found
    ∙ get-put (rows_of s name) key k r

module _ (now : ℕ) (name : String) where
  -- The row of a candidate as the call finds it, or a first one, in the candidate's group.
  abbrev pub found_row : AutomationStore → String → Candidate → LocalRow
  found_row s k q = grouped q (row s name k now)

  row-put_row :
      (key k : String) (r : LocalRow) (s : AutomationStore)
      → (key == k) ≡ false
      → row (put_row name key r s) name k now ≡ row s name k now
  row-put_row key k r s other =
      let e : get_row (put_row name key r s) name k ≡ get_row s name k =
        get-put_row name key k r s ∙ ground (arith, other) in
      ap
        (λ (o : Option.Option LocalRow). elim o as (λ _. LocalRow) [
          | none ↦ first_row now
          | some l ↦ l
        ])
        e

  -- Each key that is a candidate's is among those gathered, with its row, and no other.
  pub gather-get :
      (cs : List Candidate) (seen : List String) (s : AutomationStore) (k : String)
      → any (λ j. j == k) seen ≡ false
      → Dict.get (gather now name cs seen s).0 k ≡ Option.map (found_row s k) (first_with k cs)
  unfolding gather Dict.get
  gather-get [] seen s k new = refl
  gather-get (c ∷ cs) seen s k new =
      let r = grouped c (row s name c.key now) in
      if_cases
        (λ (x : List Cand × AutomationStore).
          Dict.get x.0 k ≡ Option.map (found_row s k) (first_with k (c ∷ cs)))
        (any (λ j. j == c.key) seen) _ _
        (λ again.
          if_cases
            (λ (o : Option.Option Candidate).
              Dict.get (gather now name cs seen s).0 k ≡ Option.map (found_row s k) o)
            (c.key == k) _ _
            (λ same.
              let e : any (λ j. j == c.key) seen ≡ any (λ j. j == k) seen =
                ap (λ (i : String). any (λ j. j == i) seen)
                  ((string_eq.equal_iff c.key k).1 same) in
              absurd (ground (arith, again, new, e)))
            (λ _. gather-get cs seen s k new))
        (λ fresh.
          if_cases
            (λ (b : Bool).
              Dict.get ((c.key, r) ∷ (gather now name cs (c.key ∷ seen) (put_row name c.key r s)).0)
                k
              ≡ Option.map (found_row s k) (first_with k (c ∷ cs)))
            (c.key == k) true false
            (λ same. rw (same) (
              ap (λ (i : String). some (grouped c (row s name i now)))
                ((string_eq.equal_iff c.key k).1 same)))
            (λ other. rw (other) (
              gather-get cs (c.key ∷ seen) (put_row name c.key r s) k (rw (other) new)
              ∙ ap (λ (l : LocalRow). Option.map (λ (q : Candidate). grouped q l) (first_with k cs))
                  (row-put_row c.key k r s other))))

  pub gather-once :
      (cs : List Candidate) (seen : List String) (s : AutomationStore) (k : String)
      → count (has_key_of k) (gather now name cs seen s).0 + bit (any (λ j. j == k) seen) ≤ 1
  unfolding gather
  gather-once [] seen s k = ground arith
  gather-once (c ∷ cs) seen s k =
      let r = grouped c (row s name c.key now) in
      if_cases
        (λ (x : List Cand × AutomationStore).
          count (has_key_of k) x.0 + bit (any (λ j. j == k) seen) ≤ 1)
        (any (λ j. j == c.key) seen) _ _ (λ _. gather-once cs seen s k)
        (λ fresh.
          let more = gather-once cs (c.key ∷ seen) (put_row name c.key r s) k in
          elim (Bool-cases (c.key == k)) [
            | inl same ↦
                let e : any (λ j. j == c.key) seen ≡ any (λ j. j == k) seen =
                  ap (λ (i : String). any (λ j. j == i) seen)
                    ((string_eq.equal_iff c.key k).1 same) in
                ground (arith, more, same, fresh, e)
            | inr other ↦ ground (arith, more, other)
          ])
