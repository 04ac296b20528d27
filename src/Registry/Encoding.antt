-- ===== src/Registry/Encoding.antt =====
-- event_encoding.go: what is encoded can be decoded. This fills the interface `Codec`.
use eventsourcing.Shared.{ℕ, String, ◌≡◌, ◌≢◌, refl, true, Option, none, some, List, [], ◌∷◌, arith}
use eventsourcing.Result.{ok, err}
use eventsourcing.Envelope.{Codec, nil_event}
use eventsourcing.Registry.{
  Runtime, Registry, encode_event, decode_event, encode_metadata, decode_metadata, event_names_for,
  new_event_by_name,
}
use eventsourcing.Registry.Laws.{IsConsistent, Makes}

-- What the package relies on `encoding/json` for: a value decoded into a fresh pointer of its type
-- is read back, and so is a map; an encoding is not empty.
pub record JsonLaws (go : Runtime) : Type 0 where
  pub read_back : go.Event → go.Event
  pub unmarshal-marshal :
      (e fresh : go.Event) (d : List ℕ)
      → go.marshal e ≡ some d
      → go.type_key fresh ≡ go.type_key e
      → go.is_pointer fresh ≡ true
      → go.unmarshal d fresh ≡ some (read_back e)
  pub read_back_metadata : go.Metadata → go.Metadata
  pub unmarshal-marshal_metadata :
      (m : go.Metadata) (d : List ℕ)
      → go.marshal_metadata m ≡ some d
      → (d ≢ []) × (go.unmarshal_metadata d ≡ some (some (read_back_metadata m)))

module _ (go : Runtime) (json : JsonLaws go) (reg : Registry go.Event)
    (c : IsConsistent go reg) where
  open go use {Event, Metadata, event_type, type_key}

  new_event_by_name-Makes :
      (key name : String) (m : Makes go reg key name) → new_event_by_name go reg name ≡ ok m.made
  unfolding new_event_by_name
  new_event_by_name-Makes key name m = rw (m.made_by, new_event_by_name)

  -- An event that the package encodes is decoded under its type's name, into the pointer form.
  pub decode-encode_event :
      (e : Event) (d : List ℕ)
      → encode_event go reg (some e) ≡ ok d
      → decode_event go reg (event_type e) d ≡ ok (json.read_back e)
  unfolding encode_event event_names_for decode_event
  decode-encode_event e d h =
      let m : Makes go reg (type_key e) (event_type e) =
        c.known (type_key e) (event_type e) (ground arith) in
      rw (new_event_by_name-Makes (type_key e) (event_type e) m)
        (rw (json.unmarshal-marshal e m.made d (ground arith) m.of_type m.pointer))

  abbrev read_back_metadata : Option Metadata → Metadata
  read_back_metadata none = json.read_back_metadata go.empty_metadata
  read_back_metadata (some m) = json.read_back_metadata m

  decode_metadata-some :
      (d : List ℕ) (x : Metadata)
      → d ≢ []
      → go.unmarshal_metadata d ≡ some (some x)
      → decode_metadata go d ≡ ok x
  unfolding decode_metadata
  decode_metadata-some [] x h e = absurd (h refl)
  decode_metadata-some (b ∷ d) x h e = rw (e, decode_metadata)

  -- So are an event's metadata; a nil map is read back as an empty one.
  pub decode-encode_metadata :
      (m : Option Metadata) (d : List ℕ)
      → encode_metadata go m ≡ ok d
      → decode_metadata go d ≡ ok (read_back_metadata m)
  unfolding encode_metadata
  decode-encode_metadata none d h =
      let (filled, e) = json.unmarshal-marshal_metadata go.empty_metadata d (ground arith) in
      decode_metadata-some d _ filled e
  decode-encode_metadata (some m) d h =
      let (filled, e) = json.unmarshal-marshal_metadata m d (ground arith) in
      decode_metadata-some d _ filled e

  pub encode_event_nil : encode_event go reg none ≡ err nil_event
  unfolding encode_event
  encode_event_nil = refl

  -- The codec that the stores are given.
  abbrev pub codec : Codec
  codec = record {
    Event = Event;
    Metadata = Metadata;
    event_type = event_type;
    encode_event = encode_event go reg;
    decode_event = decode_event go reg;
    encode_metadata = encode_metadata go;
    decode_metadata = decode_metadata go;
    read_back = json.read_back;
    read_back_metadata = read_back_metadata;
    encode_event_nil = encode_event_nil;
    decode-encode_event = decode-encode_event;
    decode-encode_metadata = decode-encode_metadata;
  }
