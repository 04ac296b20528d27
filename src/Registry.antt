-- ===== src/Registry.antt =====
-- event_registry.go and event_encoding.go. The two package variables are the record `Registry`,
-- and the lock that guards them is not modelled: each function here is one critical section.
pub mod Laws
pub mod Encoding
use eventsourcing.Shared.{
  ℕ, String, ◌≡◌, Bool, true, false, not, Option, none, some, List, [], ◌∷◌, ◌++◌, ◌==◌, any,
  string_eq, if◌then◌else◌,
}
use eventsourcing.Shared.Dict
use eventsourcing.Shared.Dict.{Dict}
use eventsourcing.Result.{Result, ok, err, ◌>>=◌}
use eventsourcing.Envelope.{
  CodecError, nil_event, event_not_registered, factory_returned_nil, marshal_failed,
  unmarshal_failed,
}

-- What the package takes from the application (the event types and their `EventType`), from
-- `reflect` (the name of a concrete type behind any pointer, and whether a value is a pointer) and
-- from `encoding/json`. `marshal` and the others return none for an error; a map that JSON null
-- fills stays nil.
pub record Runtime : Type 1 where
  pub Event : Type 0
  pub Metadata : Type 0
  pub event_type : Event → String
  pub type_key : Event → String
  pub is_pointer : Event → Bool
  pub marshal : Event → Option (List ℕ)
  pub unmarshal : List ℕ → Event → Option Event
  pub empty_metadata : Metadata
  pub marshal_metadata : Metadata → Option (List ℕ)
  pub unmarshal_metadata : List ℕ → Option (Option Metadata)

-- `registry` and `typeToNames`. A factory is the value that it returns, none for nil.
pub record Registry (E : Type 0) : Type 0 where
  pub factories : Dict String (Option E)
  pub names : Dict String (List String)

abbrev pub empty : {E : Type 0} → Registry E
empty = record { factories = []; names = [] }

pub data Panic : Type 0 where
  nil_factory empty_name already_registered factory_nil not_a_pointer : Panic

-- A missing key of a Go map of slices reads as the nil slice.
abbrev pub or_empty {ℓ} : {A : Type ℓ} → Option (List A) → List A
or_empty none = []
or_empty (some xs) = xs

-- `slices.Contains`
abbrev pub contains : List String → String → Bool
contains xs s = any (λ x. x == s) xs

module _ (go : Runtime) where
  open go use {Event, Metadata, event_type, type_key, is_pointer, marshal, unmarshal}

  -- The panics stand in the source's order; `reg` is unchanged on each.
  unfoldable pub register_event_name :
      Registry Event → String → Option (Option Event) → Result Panic (Registry Event)
  register_event_name reg name none = err nil_factory
  register_event_name reg name (some made) =
      if name == "" then err empty_name else elim (Dict.get reg.factories name) [
        | some taken ↦ err already_registered
        | none ↦ elim made [
          | none ↦ err factory_nil
          | some ev ↦
              if is_pointer ev
              then ok (record {
                factories = Dict.put reg.factories name (some ev);
                names =
                    Dict.put reg.names (type_key ev)
                      (or_empty (Dict.get reg.names (type_key ev)) ++ name ∷ []);
              })
              else err not_a_pointer
        ]
      ]

  pub register_event_by_name :
      Registry Event → String → Option (Option Event) → Result Panic (Registry Event)
  register_event_by_name = register_event_name

  unfoldable pub register_event_by_type :
      Registry Event → Option (Option Event) → Result Panic (Registry Event)
  register_event_by_type reg none = err nil_factory
  register_event_by_type reg (some none) = err factory_nil
  register_event_by_type reg (some (some ev)) =
      register_event_name reg (event_type ev) (some (some ev))

  unfoldable pub new_event_by_name : Registry Event → String → Result CodecError Event
  new_event_by_name reg name = elim (Dict.get reg.factories name) [
    | none ↦ err event_not_registered
    | some none ↦ err factory_returned_nil
    | some (some ev) ↦ ok ev
  ]

  -- `EventNamesFor` and, for a caller that has the key, `eventNamesForKey`.
  unfoldable pub event_names_for_key : Registry Event → String → List String
  event_names_for_key reg key = or_empty (Dict.get reg.names key)

  unfoldable pub event_names_for : Registry Event → Event → List String
  unfolding event_names_for_key
  event_names_for reg ev = event_names_for_key reg (type_key ev)

  unfoldable pub encode_event : Registry Event → Option Event → Result CodecError (List ℕ)
  encode_event reg none = err nil_event
  encode_event reg (some ev) =
      if not (contains (event_names_for reg ev) (event_type ev))
      then err event_not_registered
      else elim (marshal ev) [ none ↦ err marshal_failed | some d ↦ ok d ]

  unfoldable pub decode_event : Registry Event → String → List ℕ → Result CodecError Event
  decode_event reg name d = do
    ev ← new_event_by_name reg name
    elim (unmarshal d ev) [ none ↦ err unmarshal_failed | some ev' ↦ ok ev' ]

  or_empty_metadata : Option Metadata → Metadata
  or_empty_metadata none = go.empty_metadata
  or_empty_metadata (some m) = m

  unfoldable pub encode_metadata : Option Metadata → Result CodecError (List ℕ)
  unfolding or_empty_metadata
  encode_metadata m = elim (go.marshal_metadata (or_empty_metadata m)) [
    | none ↦ err marshal_failed
    | some d ↦ ok d
  ]

  unfoldable pub decode_metadata : List ℕ → Result CodecError Metadata
  unfolding or_empty_metadata
  decode_metadata [] = ok go.empty_metadata
  decode_metadata (b ∷ d) = elim (go.unmarshal_metadata (b ∷ d)) [
    | none ↦ err unmarshal_failed
    | some m ↦ ok (or_empty_metadata m)
  ]
