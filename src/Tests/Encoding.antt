-- ===== src/Tests/Encoding.antt =====
-- The registry and the encodings.
use eventsourcing.Shared.{string_eq, ◌≡◌, refl, none, some, [], ◌∷◌}
use eventsourcing.Shared.Dict
use eventsourcing.Result.{ok}
use eventsourcing.Revision.{pos, revision, no_stream, to_raw_int64}
use eventsourcing.Registry.{
  encode_event, decode_event, encode_metadata, decode_metadata, register_event_name, empty,
}
use eventsourcing.Registry.Laws.{IsConsistent, register-IsConsistent, empty-IsConsistent}
use eventsourcing.Registry.Encoding.{decode-encode_event}
use eventsourcing.Tests.Data.{
  go, json, registered, registered-IsConsistent, registration, by_value, by_pointer,
}

second :
    register_event_name go registered "Paid" (some (some (by_pointer 1)))
    ≡ ok (record {
      factories = ("Deposited", some (by_pointer 0)) ∷ ("Paid", some (by_pointer 1)) ∷ [];
      names = ("bank.Deposited", "Deposited" ∷ "Paid" ∷ []) ∷ [];
    })
unfolding register_event_name Dict.get Dict.put
second = refl

register-IsConsistent_example : IsConsistent go registered
register-IsConsistent_example =
    register-IsConsistent go empty registered "Deposited" (some (some (by_pointer 0)))
      (empty-IsConsistent go) registration

found : Dict.get registered.factories "Deposited" ≡ some (some (by_pointer 0))
unfolding Dict.get
found = refl

encoded : encode_event go registered (some (by_value 3)) ≡ ok (3 ∷ [])
unfolding encode_event eventsourcing.Registry.event_names_for Dict.get
encoded = refl

decode-encode_event_example : decode_event go registered "Deposited" (3 ∷ []) ≡ ok (by_pointer 3)
decode-encode_event_example =
    decode-encode_event go json registered registered-IsConsistent (by_value 3) (3 ∷ []) encoded

encoded_metadata : encode_metadata go none ≡ ok (0 ∷ [])
unfolding encode_metadata
encoded_metadata = refl

raw : to_raw_int64 no_stream ≡ some (pos 0)
unfolding to_raw_int64
raw = refl

raw_zero : to_raw_int64 (revision 0) ≡ some (pos 0)
unfolding to_raw_int64
raw_zero = refl
