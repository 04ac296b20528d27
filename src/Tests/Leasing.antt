-- ===== src/Tests/Leasing.antt =====
-- An automation that sends mail for three accounts, two of one tenant.
use eventsourcing.Shared.{◌≡◌, refl, true, some, List, [], ◌∷◌, string_eq, nat_eq}
use eventsourcing.Shared.Dict
use eventsourcing.Automation.{Candidate, SegmentLease, ReleaseRequest}
use eventsourcing.Memory.AutomationStore.{
  AutomationStore, LocalRow, first_row, get_row, put_row, acquire, renew, release,
  new_automation_store,
}
use eventsourcing.Memory.AutomationStore.Grants.{Grants}
use eventsourcing.Memory.AutomationStore.Leases.{has_key, acquire_fences}

-- Held by "a" until time 10.
abbrev expired : LocalRow
expired = record (first_row 1) { group = "red"; owner = "a"; epoch = 3; lease_until = 10 }

abbrev mail : AutomationStore
mail = put_row "mail" "x" expired new_automation_store

abbrev accounts : List Candidate
accounts =
    record { key = "y"; group = "red" }
    ∷ record { key = "x"; group = "red" }
    ∷ record { key = "z"; group = "blue" }
    ∷ record { key = "x"; group = "red" }
    ∷ []

abbrev by_a : SegmentLease
by_a = record { name = "mail"; key = "x"; owner = "a"; epoch = 3 }

abbrev give_back : ReleaseRequest
give_back = record { lease = by_a; defer_for = 0; served = true }

-- One key of each tenant before the second of a tenant.
turns_taken : (acquire 20 "mail" "b" 2 5 accounts mail).0 ≡ record {
  granted =
      record { name = "mail"; key = "x"; owner = "b"; epoch = 4 }
      ∷ record { name = "mail"; key = "z"; owner = "b"; epoch = 1 }
      ∷ [];
  active = 3;
  eligible = 1;
}
unfolding acquire get_row Dict.get put_row Dict.put new_automation_store
turns_taken = refl

was_held : get_row mail "mail" "x" ≡ some expired
unfolding get_row Dict.get put_row Dict.put new_automation_store
was_held = refl

x_granted : has_key "x" (acquire 20 "mail" "b" 2 5 accounts mail).0.granted ≡ true
unfolding acquire get_row Dict.get put_row Dict.put new_automation_store
x_granted = refl

acquire_fences_example :
    (renew 21 5 (by_a ∷ []) (acquire 20 "mail" "b" 2 5 accounts mail).1
      ≡ (by_a ∷ [], (acquire 20 "mail" "b" 2 5 accounts mail).1))
    × (release 21 (give_back ∷ []) (acquire 20 "mail" "b" 2 5 accounts mail).1
        ≡ (by_a ∷ [], (acquire 20 "mail" "b" 2 5 accounts mail).1))
acquire_fences_example =
    acquire_fences 20 "b" 2 5 accounts mail give_back expired 21 5 was_held refl x_granted
