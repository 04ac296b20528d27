-- ===== src/Tests/Data.antt =====
-- The test data: events of one type, with a value and a pointer form, and stores that hold some.
use eventsourcing.Shared.{
  ℕ, ◌≡◌, ◌≢◌, refl, String, Bool, true, false, Option, none, some, List, [], ◌∷◌, arith,
}
use eventsourcing.Shared.Dict
use eventsourcing.Result.{ok}
use eventsourcing.Revision.{any}
use eventsourcing.Envelope.{Envelope, Codec}
use eventsourcing.Registry.{Runtime, Registry, empty, register_event_name}
use eventsourcing.Registry.Laws.{IsConsistent, empty-IsConsistent, register-IsConsistent}
use eventsourcing.Registry.Encoding.{JsonLaws, codec}
use eventsourcing.Memory.EventStore.{EventStore, new_event_store, save}

pub data Deposited : Type 0 where
  by_value by_pointer : ℕ → Deposited

abbrev pub key_of : Deposited → String
key_of _ = "bank.Deposited"

abbrev pub name_of : Deposited → String
name_of _ = "Deposited"

abbrev pub points : Deposited → Bool
points (by_value n) = false
points (by_pointer n) = true

abbrev pub amount : Deposited → ℕ
amount (by_value n) = n
amount (by_pointer n) = n

abbrev pub as_pointer : Deposited → Deposited
as_pointer e = by_pointer (amount e)

abbrev pub into : List ℕ → Deposited → Option Deposited
into (n ∷ []) (by_pointer k) = some (by_pointer n)
into _ _ = none

abbrev pub into_map : List ℕ → Option (Option ℕ)
into_map (n ∷ []) = some (some n)
into_map _ = none

abbrev pub go : Runtime
go = record {
  Event = Deposited;
  Metadata = ℕ;
  event_type = name_of;
  type_key = key_of;
  is_pointer = points;
  marshal = λ e. some (amount e ∷ []);
  unmarshal = into;
  empty_metadata = 0;
  marshal_metadata = λ m. some (m ∷ []);
  unmarshal_metadata = into_map;
}

pub into-amount :
    (e fresh : Deposited) (d : List ℕ)
    → some (amount e ∷ []) ≡ some d
    → key_of fresh ≡ key_of e
    → points fresh ≡ true
    → into d fresh ≡ some (as_pointer e)
into-amount e (by_value k) d h same p = cc
into-amount e (by_pointer k) d h same p = ground arith

pub into_map-some :
    (m : ℕ) (d : List ℕ) → some (m ∷ []) ≡ some d → (d ≢ []) × (into_map d ≡ some (some m))
into_map-some m d h = (λ e. cc, ground arith)

abbrev pub json : JsonLaws go
json = record {
  read_back = as_pointer;
  unmarshal-marshal = into-amount;
  read_back_metadata = λ m. m;
  unmarshal-marshal_metadata = into_map-some;
}

abbrev pub registered : Registry Deposited
registered = record {
  factories = ("Deposited", some (by_pointer 0)) ∷ [];
  names = ("bank.Deposited", "Deposited" ∷ []) ∷ [];
}

pub registration :
    register_event_name go empty "Deposited" (some (some (by_pointer 0))) ≡ ok registered
unfolding register_event_name Dict.get Dict.put
registration = refl

pub registered-IsConsistent : IsConsistent go registered
registered-IsConsistent =
    register-IsConsistent go empty registered "Deposited" (some (some (by_pointer 0)))
      (empty-IsConsistent go) registration

abbrev pub bank : Codec
bank = codec go json registered registered-IsConsistent

abbrev pub clock : ℕ → ℕ
clock i = 7

abbrev pub deposit : ℕ → ℕ → Envelope Deposited ℕ
deposit id n = record {
  event_id = id;
  stream_id = "account";
  metadata = some 5;
  correlation_id = "chain";
  causation_id = "";
  event = some (by_value n);
  version = 0;
  global_position = 0;
  occurred_at = 0;
}

abbrev pub no_events : EventStore Deposited ℕ
no_events = new_event_store

-- A store with one deposit.
abbrev pub one_event : EventStore Deposited ℕ
one_event = (save bank clock no_events (deposit 1 10 ∷ []) any).store

pub saved_once : (save bank clock no_events (deposit 1 10 ∷ []) any).error ≡ none
unfolding save eventsourcing.Memory.EventStore.validate eventsourcing.Memory.EventStore.to_records
    eventsourcing.Memory.EventStore.to_record eventsourcing.Registry.encode_event
    eventsourcing.Registry.event_names_for Dict.get eventsourcing.Registry.encode_metadata
    eventsourcing.Memory.EventStore.check_revision
saved_once = refl
