-- ===== src/Tests/Storing.antt =====
-- The event store: deposits of one account, saved and read.
use eventsourcing.Shared.{
  ℕ, ◌+◌, ◌≤◌, ◌<◌, ◌≡◌, ◌≢◌, refl, sym, Bool, true, false, Option, none, some, List, [], ◌∷◌,
  arith, length, String, string_eq,
}
use eventsourcing.Result.{ok}
use eventsourcing.Revision.{any, no_stream, stream_exists, revision, pos}
use eventsourcing.Envelope.{Envelope}
use eventsourcing.Errors.{StoreError, stream_already_exists, revision_conflict}
use eventsourcing.Memory.EventStore.{
  Record, EventStore, ReadOptions, ReadResult, stream, validate, to_records, save, read_all,
  load_stream_from, load_correlation, close,
}
use eventsourcing.Memory.EventStore.Invariant.{IsWellFormed, new-IsWellFormed}
use eventsourcing.Memory.EventStore.Encoded.{Decodes, read_all_as}
use eventsourcing.Memory.EventStore.Contract.{
  Appends, Holds, violation, save-Appends, save_expectation, second_writer_conflicts,
  save-IsWellFormed, save_atomic,
}
use eventsourcing.Memory.EventStore.Paging.{IsPage, read_all-IsPage}
use eventsourcing.Memory.EventStore.Reading.{Yields, load_from_revision, load_chain, load-save}
use eventsourcing.Tests.Data.{Deposited, bank, clock, deposit, no_events, one_event, by_pointer}

-- Two more deposits, by a writer that has seen the first.
abbrev two_more : List (Envelope Deposited ℕ)
two_more = deposit 2 20 ∷ deposit 3 30 ∷ []

saved_more : (save bank clock one_event two_more (revision 1)).error ≡ none
unfolding save validate to_records eventsourcing.Memory.EventStore.to_record
    eventsourcing.Registry.encode_event eventsourcing.Registry.event_names_for
    eventsourcing.Shared.Dict.get eventsourcing.Registry.encode_metadata
    eventsourcing.Memory.EventStore.check_revision eventsourcing.Memory.EventStore.append_records
    eventsourcing.Memory.EventStore.append_record stream eventsourcing.Shared.Dict.put
saved_more = refl

save-Appends_example :
    Appends bank clock one_event
      (deposit 2 20)
      (deposit 3 30 ∷ [])
      (revision 1)
      (save bank clock one_event two_more (revision 1))
save-Appends_example =
    save-Appends bank clock one_event (deposit 2 20) (deposit 3 30 ∷ []) (revision 1) saved_more

save-IsWellFormed_example : IsWellFormed (save bank clock one_event two_more (revision 1)).store
save-IsWellFormed_example =
    save-IsWellFormed bank clock one_event two_more (revision 1)
      (save-IsWellFormed bank clock no_events (deposit 1 10 ∷ []) any new-IsWellFormed)

refused : (save bank clock one_event two_more no_stream).error ≡ some stream_already_exists
unfolding save validate to_records eventsourcing.Memory.EventStore.to_record
    eventsourcing.Registry.encode_event eventsourcing.Registry.event_names_for
    eventsourcing.Shared.Dict.get eventsourcing.Registry.encode_metadata
    eventsourcing.Memory.EventStore.check_revision eventsourcing.Memory.EventStore.append_records
    eventsourcing.Memory.EventStore.append_record stream eventsourcing.Shared.Dict.put
refused = refl

save_atomic_example :
    ((save bank clock one_event two_more no_stream).store ≡ one_event)
    × ((save bank clock one_event two_more no_stream).result.successful ≡ false)
save_atomic_example =
    save_atomic bank clock one_event two_more no_stream stream_already_exists refused

abbrev written : Envelope Deposited ℕ → ℕ → Record Deposited ℕ
written env n = record {
  env = record env { event = none; metadata = none; occurred_at = 7 };
  name = "Deposited";
  payload = n ∷ [];
  metadata = 5 ∷ [];
}

open_one : one_event.closed ≡ false
unfolding save validate to_records eventsourcing.Memory.EventStore.to_record
    eventsourcing.Registry.encode_event eventsourcing.Registry.event_names_for
    eventsourcing.Shared.Dict.get eventsourcing.Registry.encode_metadata
    eventsourcing.Memory.EventStore.check_revision eventsourcing.Memory.EventStore.append_records
    eventsourcing.Memory.EventStore.append_record
open_one = refl

valid_more : validate "account" two_more ≡ none
unfolding validate
valid_more = refl

encoded_more :
    to_records bank clock 0 two_more
    ≡ ok (written (deposit 2 20) 20 ∷ written (deposit 3 30) 30 ∷ [])
unfolding to_records eventsourcing.Memory.EventStore.to_record eventsourcing.Registry.encode_event
    eventsourcing.Registry.event_names_for eventsourcing.Shared.Dict.get
    eventsourcing.Registry.encode_metadata
encoded_more = refl

save_expectation_example :
    (Holds stream_exists (length (stream one_event "account"))
      → (save bank clock one_event two_more stream_exists).error ≡ none)
    × (¬ Holds stream_exists (length (stream one_event "account"))
        → (save bank clock one_event two_more stream_exists).error
          ≡ some (violation "account" stream_exists (length (stream one_event "account"))))
save_expectation_example =
    save_expectation bank clock one_event (deposit 2 20) (deposit 3 30 ∷ []) stream_exists
      (written (deposit 2 20) 20 ∷ written (deposit 3 30) 30 ∷ []) open_one valid_more encoded_more

saved_new : (save bank clock no_events (deposit 1 10 ∷ []) (revision 0)).error ≡ none
unfolding save validate to_records eventsourcing.Memory.EventStore.to_record
    eventsourcing.Registry.encode_event eventsourcing.Registry.event_names_for
    eventsourcing.Shared.Dict.get eventsourcing.Registry.encode_metadata
    eventsourcing.Memory.EventStore.check_revision stream
saved_new = refl

second_writer_conflicts_example :
    (save bank clock
      (save bank clock no_events (deposit 1 10 ∷ []) (revision 0)).store
      two_more
      (revision 0)).error
    ≡ some (revision_conflict "account" (revision 0) (revision 1))
second_writer_conflicts_example =
    second_writer_conflicts bank clock clock no_events 0 (deposit 1 10) (deposit 2 20) []
      (deposit 3 30 ∷ []) (written (deposit 2 20) 20 ∷ written (deposit 3 30) 30 ∷ []) saved_new
      refl valid_more encoded_more

abbrev going : ℕ → Option StoreError
going j = none

alive : (j : ℕ) → going j ≡ none
alive j = refl

load-save_example :
    Yields bank going
      (load_stream_from bank going
        (save bank clock one_event two_more (revision 1)).store
        "account"
        (revision (length (stream one_event "account"))))
      (read_all_as bank clock 0
        (length (stream one_event "account"))
        (length one_event.global)
        two_more)
load-save_example =
    load-save bank going clock one_event (deposit 2 20) (deposit 3 30 ∷ []) (revision 1) alive
      saved_more

abbrev stored : ℕ → Record Deposited ℕ
stored n = record {
  env = record (deposit n 10) {
    event = none;
    metadata = none;
    version = n;
    global_position = n;
    occurred_at = 7;
  };
  name = "Deposited";
  payload = 10 ∷ [];
  metadata = 5 ∷ [];
}

abbrev decoded : ℕ → Envelope Deposited ℕ
decoded n = record (stored n).env { event = some (by_pointer 10); metadata = some 5 }

abbrev shelf : EventStore Deposited ℕ
shelf = record {
  closed = false;
  global = stored 1 ∷ stored 2 ∷ [];
  events = ("account", stored 1 ∷ stored 2 ∷ []) ∷ [];
}

in_shelf : stream shelf "account" ≡ stored 1 ∷ stored 2 ∷ []
unfolding stream eventsourcing.Shared.Dict.get
in_shelf = refl

decodes : (n : ℕ) → Decodes bank (stored n ∷ []) (decoded n ∷ [])
unfolding eventsourcing.Memory.EventStore.envelope eventsourcing.Registry.decode_event
    eventsourcing.Registry.new_event_by_name eventsourcing.Shared.Dict.get
    eventsourcing.Registry.decode_metadata
decodes n = (refl, tt)

load_from_revision_example :
    Yields bank going (load_stream_from bank going shelf "account" (revision 1)) (decoded 2 ∷ [])
load_from_revision_example =
    load_from_revision bank going shelf "account" (stored 1 ∷ []) (stored 2 ∷ []) (decoded 2 ∷ [])
      alive in_shelf (decodes 2)

chained : Decodes bank (stored 1 ∷ stored 2 ∷ []) (decoded 1 ∷ decoded 2 ∷ [])
unfolding eventsourcing.Memory.EventStore.envelope eventsourcing.Registry.decode_event
    eventsourcing.Registry.new_event_by_name eventsourcing.Shared.Dict.get
    eventsourcing.Registry.decode_metadata
chained = (refl, (refl, tt))

load_chain_example :
    Yields bank going (load_correlation bank going shelf "chain") (decoded 1 ∷ decoded 2 ∷ [])
load_chain_example =
    load_chain bank going shelf "chain" (decoded 1 ∷ decoded 2 ∷ []) alive (λ e. cc) chained

abbrev one_only : ReadOptions
one_only = record { limit = pos 1; event_types = "Deposited" ∷ []; stream_prefixes = [] }

abbrev page : ReadResult Deposited ℕ
page = record { events = record (decoded 1) { occurred_at = 7 } ∷ []; next = 1; at_end = true }

paged : read_all bank none one_event 0 one_only ≡ ok page
unfolding read_all eventsourcing.Memory.EventStore.scan save validate to_records
    eventsourcing.Memory.EventStore.to_record eventsourcing.Registry.encode_event
    eventsourcing.Registry.event_names_for eventsourcing.Shared.Dict.get
    eventsourcing.Registry.encode_metadata eventsourcing.Memory.EventStore.check_revision
    eventsourcing.Memory.EventStore.append_records eventsourcing.Memory.EventStore.append_record
    eventsourcing.Memory.EventStore.matches eventsourcing.Memory.EventStore.envelope
    eventsourcing.Registry.decode_event eventsourcing.Registry.new_event_by_name stream
    eventsourcing.Registry.event_names_for_key eventsourcing.Shared.Dict.put
    eventsourcing.Registry.decode_metadata
paged = refl

read_all-IsPage_example : IsPage bank one_event 0 one_only page
read_all-IsPage_example =
    read_all-IsPage bank one_event 0 one_only page
      (save-IsWellFormed bank clock no_events (deposit 1 10 ∷ []) any new-IsWellFormed) paged
