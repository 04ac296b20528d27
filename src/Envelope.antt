-- ===== src/Envelope.antt =====
-- event.go, the data of eventstore.go, and the interface through which the stores encode events.
use eventsourcing.Shared.{ℕ, String, ◌≡◌, Bool, Option, none, some, List}
use eventsourcing.Result.{Result, ok, err}

-- Why `EncodeEvent`, `DecodeEvent` or their metadata forms fail.
pub data CodecError : Type 0 where
  nil_event event_not_registered factory_returned_nil marshal_failed unmarshal_failed : CodecError

-- event_encoding.go as its clients see it. The application's events and metadata are abstract. A
-- decoded event is the pointer form that the registered factory makes, `read_back`.
pub record Codec : Type 1 where
  pub Event : Type 0
  pub Metadata : Type 0
  pub event_type : Event → String
  pub encode_event : Option Event → Result CodecError (List ℕ)
  pub decode_event : String → List ℕ → Result CodecError Event
  pub encode_metadata : Option Metadata → Result CodecError (List ℕ)
  pub decode_metadata : List ℕ → Result CodecError Metadata
  pub read_back : Event → Event
  pub read_back_metadata : Option Metadata → Metadata
  pub encode_event_nil : encode_event none ≡ err nil_event
  pub decode-encode_event :
      (e : Event) (d : List ℕ)
      → encode_event (some e) ≡ ok d
      → decode_event (event_type e) d ≡ ok (read_back e)
  pub decode-encode_metadata :
      (m : Option Metadata) (d : List ℕ)
      → encode_metadata m ≡ ok d
      → decode_metadata d ≡ ok (read_back_metadata m)

-- `Envelope`, over the types of its event and its metadata. A nil event or map is `none`, the UUID
-- `uuid.Nil` is 0, and so is the zero time.
pub record Envelope (E M : Type 0) : Type 0 where
  pub event_id : ℕ
  pub stream_id : String
  pub metadata : Option M
  pub correlation_id : String
  pub causation_id : String
  pub event : Option E
  pub version : ℕ
  pub global_position : ℕ
  pub occurred_at : ℕ

pub record AppendResult : Type 0 where
  pub successful : Bool
  pub stream_id : String
  pub next_expected_version : ℕ
  pub global_position : ℕ
