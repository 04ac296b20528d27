-- ===== src/Registry/Laws.antt =====
-- event_registry.go: the two maps of the registry agree after any registrations.
use eventsourcing.Shared.{
  String, ◌≡◌, true, ◌||◌, ◌&&◌, inl, inr, Option, none, some, List, [], ◌∷◌, ◌++◌, ◌==◌, string_eq,
  arith, eq_iff, Bool-cases,
}
use eventsourcing.Shared.Dict
use eventsourcing.Shared.Dict.{get-put, get-empty}
use eventsourcing.Result.{ok}
use eventsourcing.Registry.{
  Runtime, Registry, empty, contains, or_empty, register_event_name, event_names_for_key,
}

contains-snoc :
    (xs : List String) (n s : String) → contains (xs ++ n ∷ []) s ≡ (contains xs s || (n == s))
contains-snoc [] n s = ground arith
contains-snoc (x ∷ xs) n s = ground (arith, contains-snoc xs n s)

module _ (go : Runtime) where
  open go use {Event, type_key, is_pointer}

  -- `name` creates an event of the type `key`, through a pointer.
  pub record Makes (reg : Registry Event) (key name : String) : Type 0 where
    pub made : Event
    pub made_by : Dict.get reg.factories name ≡ some (some made)
    pub of_type : type_key made ≡ key
    pub pointer : is_pointer made ≡ true

  pub record IsConsistent (reg : Registry Event) : Type 0 where
    pub known :
        (key name : String)
        → contains (event_names_for_key go reg key) name ≡ true
        → Makes reg key name
    pub listed :
        (name : String) (made : Option Event)
        → Dict.get reg.factories name ≡ some made
        → (ev : Event) × (made ≡ some ev)
          × (contains (event_names_for_key go reg (type_key ev)) name ≡ true)

  -- The registry after a registration that does not panic.
  abbrev registered : Registry Event → String → Event → Registry Event
  registered reg name ev = record {
    factories = Dict.put reg.factories name (some ev);
    names =
        Dict.put reg.names (type_key ev) (or_empty (Dict.get reg.names (type_key ev)) ++ name ∷ []);
  }

  record Registers (reg : Registry Event) (name : String) (reg' : Registry Event) : Type 0 where
    made : Event
    free : Dict.get reg.factories name ≡ none
    pointer : is_pointer made ≡ true
    result : reg' ≡ registered reg name made

  register-Registers :
      (reg reg' : Registry Event) (name : String) (fn : Option (Option Event))
      → register_event_name go reg name fn ≡ ok reg'
      → Registers reg name reg'
  unfolding register_event_name
  register-Registers reg reg' name none h = cc
  register-Registers reg reg' name (some none) h = ground arith
  register-Registers reg reg' name (some (some ev)) h = record {
    made = ev;
    free = ground arith;
    pointer = ground arith;
    result = ground arith;
  }

  contains-registered :
      (reg : Registry Event) (name : String) (ev : Event) (key s : String)
      → contains (event_names_for_key go (registered reg name ev) key) s
        ≡ (contains (event_names_for_key go reg key) s || (type_key ev == key && name == s))
  unfolding event_names_for_key
  contains-registered reg name ev key s = rw get-put (
      ground (
        arith,
        contains-snoc (or_empty (Dict.get reg.names (type_key ev))) name s,
        eq_iff (type_key ev) key,
      ))

  Makes-registered :
      (reg : Registry Event) (name : String) (ev : Event) (key s : String)
      → Dict.get reg.factories name ≡ none
      → Makes reg key s
      → Makes (registered reg name ev) key s
  Makes-registered reg name ev key s free m = record {
    made = m.made;
    made_by = rw get-put (ground (arith, eq_iff name s, m.made_by));
    of_type = m.of_type;
    pointer = m.pointer;
  }

  registered-IsConsistent :
      (reg : Registry Event) (name : String) (ev : Event)
      → Dict.get reg.factories name ≡ none
      → is_pointer ev ≡ true
      → IsConsistent reg
      → IsConsistent (registered reg name ev)
  registered-IsConsistent reg name ev free ptr c = record {
    known = λ key s h. elim (Bool-cases (contains (event_names_for_key go reg key) s)) [
      | inl old ↦ Makes-registered reg name ev key s free (c.known key s old)
      | inr new ↦ record {
        made = ev;
        made_by = rw get-put (ground (arith, contains-registered reg name ev key s));
        of_type = ground (arith, contains-registered reg name ev key s, eq_iff (type_key ev) key);
        pointer = ptr;
      }
    ];
    listed = λ s made h. elim (Bool-cases (name == s)) [
      | inl hit ↦ (
        ev,
        ground (arith, get-put reg.factories name s (some ev)),
        ground (
          arith,
          contains-registered reg name ev (type_key ev) s,
          eq_iff (type_key ev) (type_key ev),
        ),
      )
      | inr miss ↦
          let (x, e, l) =
            c.listed s made (ground (arith, get-put reg.factories name s (some ev))) in
          (x, e, ground (arith, contains-registered reg name ev (type_key x) s))
    ];
  }

  pub empty-IsConsistent : IsConsistent empty
  unfolding event_names_for_key
  empty-IsConsistent = record {
    known = λ key name h. ground (arith, get-empty {V = List String} key);
    listed = λ name made h. ground (arith, get-empty {V = Option Event} name);
  }

  -- A registration that does not panic keeps the two maps of the registry in agreement: a name is
  -- listed under a type exactly if its factory makes a pointer to that type, and none makes nil.
  pub register-IsConsistent :
      (reg reg' : Registry Event) (name : String) (fn : Option (Option Event))
      → IsConsistent reg
      → register_event_name go reg name fn ≡ ok reg'
      → IsConsistent reg'
  register-IsConsistent reg reg' name fn c h =
      let r : Registers reg name reg' = register-Registers reg reg' name fn h in
      rw r.result (registered-IsConsistent reg name r.made r.free r.pointer c)

  -- A name that is registered panics, whatever the factory, so no name changes what it makes.
  register-get_ne :
      (reg reg' : Registry Event) (name s : String) (fn : Option (Option Event))
      (made : Option Event)
      → Dict.get reg.factories s ≡ some made
      → register_event_name go reg name fn ≡ ok reg'
      → Dict.get reg'.factories s ≡ some made
  register-get_ne reg reg' name s fn made old h =
      let r : Registers reg name reg' = register-Registers reg reg' name fn h in
      let free = r.free in rw (r.result, get-put) (ground (arith, eq_iff name s))
