-- ===== src/CommandBus/Callers.antt =====
-- The callers of the bus as a list: what an update of one changes.
use eventsourcing.Shared.{match_cases, ℕ, ◌≡◌, some, nat_eq, get_elem?}
use eventsourcing.CommandBus.{CommandBus, Caller, at_caller}

module _ {A X H : Type 0} where
  pub at_caller_cases {κ} :
      (P : CommandBus A X H → Type κ) (f : ℕ → Caller A X → CommandBus A X H → CommandBus A X H)
      (i : ℕ) (b : CommandBus A X H)
      → P b
      → ((c : Caller A X) → get_elem? b.callers i ≡ some c → P (f i c b))
      → P (at_caller f i b)
  at_caller_cases P f i b same at =
      match_cases P (get_elem? b.callers i) b (λ c. f i c b) (λ _. same) at
