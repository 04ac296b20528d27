-- ===== src/Tests/Handling.antt =====
-- The command handler over the memory store, while another client deposits too.
use eventsourcing.Shared.{
  ℕ, zero, suc, ◌+◌, ◌≡◌, refl, sym, ◌∙◌, Option, none, some, List, [], ◌∷◌, ◌++◌, append-nil,
  String, inl, inr, Option-cases,
}
use eventsourcing.Shared.Dict
use eventsourcing.Result.{Result, ok, err}
use eventsourcing.Revision.{any}
use eventsourcing.Envelope.{Envelope, AppendResult}
use eventsourcing.Errors.{StoreError}
use eventsourcing.Memory.EventStore.{stream, save}
use eventsourcing.Memory.EventStore.Invariant.{new-IsWellFormed}
use eventsourcing.CommandHandler.{
  Aggregate, Outcome, finished, retriable, World, Ran, ends, gives_up, again, Handled, handle,
  attempt, start, context_ended, HandlerError,
}
use eventsourcing.CommandHandler.Log.{EventLog}
use eventsourcing.CommandHandler.MemoryLog.{InOrder, memory_log}
use eventsourcing.CommandHandler.Decided.{Decides, handle-Decides}
use eventsourcing.Tests.Data.{Deposited, by_value, amount, bank, clock, deposit, no_events}

abbrev deposited : ℕ → Option Deposited → ℕ
deposited s none = s
deposited s (some e) = s + amount e

abbrev deciding : ℕ → ℕ → Result String (List Deposited)
deciding s zero = err "nothing to deposit"
deciding s (suc n) = ok (by_value (s + n) ∷ [])

abbrev account : Aggregate bank
account = record {
  State = ℕ;
  Command = ℕ;
  DomainError = String;
  initial_state = 0;
  evolve = λ s env. deposited s env.event;
  decide = deciding;
  stream_namer = λ cmd. "account";
  Value = String;
  text = λ s. s;
  command_type = λ cmd. "Deposit";
  extracted = [];
  to_metadata = λ m. 5;
  correlation = "";
  causation = "";
  new_uuid = λ n i. suc n;
  uuid_text = λ n. "id";
  time = λ n i. 7;
}

abbrev going : ℕ → Option StoreError
going j = none

alive : (j : ℕ) → going j ≡ none
alive j = refl

abbrev log : EventLog bank
log = memory_log bank clock going alive (λ a b. a)

module _ {D W : Type 0} (op : W → Outcome D × W) where
  -- A strategy that allows one retry.
  abbrev second_try : Outcome D × W → AppendResult × Option (HandlerError D) × W
  second_try (finished res e, w) = (res, e, w)
  second_try (retriable res e, w) = (res, some e, w)

  abbrev first_try : Outcome D × W → AppendResult × Option (HandlerError D) × W
  first_try (finished res e, w) = (res, e, w)
  first_try (retriable res e, w) = second_try (op w)

  abbrev retry : W → AppendResult × Option (HandlerError D) × W
  retry w = first_try (op w)

  second-Ran : (w : W) (x : Outcome D × W) → op w ≡ x → Ran op (second_try x) w
  second-Ran w (finished res e, w') q = ends w res e w' q refl
  second-Ran w (retriable res e, w') q = gives_up w res e e w' q refl

  first-Ran : (w : W) (x : Outcome D × W) → op w ≡ x → Ran op (first_try x) w
  first-Ran w (finished res e, w') q = ends w res e w' q refl
  first-Ran w (retriable res e, w') q = again w res e w' q (second-Ran w' (op w') refl)

  retry-Ran : (w : W) → Ran op (retry w) w
  retry-Ran w = first-Ran w (op w) refl

-- The other client deposits just before the handler's first save.
abbrev others : ℕ → log.S → log.S
others (suc zero) s = (log.save s (deposit 9 40 ∷ []) any).0
others _ s = s

append_only :
    (n : ℕ) (s : log.S)
    → (more : List (Envelope Deposited ℕ)) × (log.history (others n s) "account"
        ≡ log.history s "account" ++ more)
append_only zero s = ([], sym (append-nil (log.history s "account")))
append_only (suc zero) s = elim (Option-cases (log.save s (deposit 9 40 ∷ []) any).2) [
  | inl saved ↦
      let (h, more) = log.save_appends s (deposit 9 40) [] any saved in
      let (added, grown, same) = more in (added, grown)
  | inr (e, failed) ↦ (
    [],
    log.save_fails s (deposit 9 40 ∷ []) any e failed "account"
        ∙ sym (append-nil (log.history s "account")),
  )
]
append_only (suc (suc n)) s = ([], sym (append-nil (log.history s "account")))

blank : InOrder bank
unfolding stream Dict.get
blank = record { store = no_events; well_formed = new-IsWellFormed; readable = λ id. ([], tt) }

abbrev opening : log.S
unfolding memory_log
opening = blank

abbrev handled : Handled bank account log others any "command" 3
handled = handle bank account log others any "command" 3 retry opening

no_error : handled.1 ≡ none
unfolding handle eventsourcing.Iter.value attempt start memory_log opening blank
    eventsourcing.CommandHandler.MemoryLog.read eventsourcing.CommandHandler.MemoryLog.drained
    eventsourcing.CommandHandler.MemoryLog.present eventsourcing.CommandHandler.after_save_error
    eventsourcing.CommandHandler.fold_events eventsourcing.CommandHandler.base_metadata
    eventsourcing.CommandHandler.wrap_events eventsourcing.Memory.EventStore.load_stream_from
    eventsourcing.Memory.EventStore.start_offset eventsourcing.Memory.EventStore.iterate
    eventsourcing.Memory.EventStore.next_record eventsourcing.Memory.EventStore.envelope
    eventsourcing.Memory.EventStore.check_revision eventsourcing.Memory.EventStore.validate
    eventsourcing.Memory.EventStore.to_record eventsourcing.Memory.EventStore.to_records
    eventsourcing.Memory.EventStore.append_record eventsourcing.Memory.EventStore.append_records
    save stream eventsourcing.Iter.new_iterator eventsourcing.Iter.all eventsourcing.Iter.collect
    eventsourcing.Iter.next eventsourcing.Iter.finish eventsourcing.Iter.close
    eventsourcing.Iter.err eventsourcing.Registry.encode_event eventsourcing.Registry.decode_event
    eventsourcing.Registry.encode_metadata eventsourcing.Registry.decode_metadata
    eventsourcing.Registry.event_names_for eventsourcing.Registry.event_names_for_key
    eventsourcing.Registry.new_event_by_name Dict.get Dict.put
no_error = refl

ran :
    Ran
      (attempt bank account log others any "command" 3)
      handled
      (start bank account log others any "command" 3 opening)
unfolding handle
ran =
    retry-Ran (attempt bank account log others any "command" 3)
      (start bank account log others any "command" 3 opening)

handle-Decides_example : Decides bank account log others any "command" 3 append_only handled.2.store
handle-Decides_example =
    handle-Decides bank account log others any "command" 3 append_only retry opening tt ran no_error
