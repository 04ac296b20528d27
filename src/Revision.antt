-- ===== src/Revision.antt =====
-- revision.go: what a caller expects of a stream's revision, and its raw int64 form.
use eventsourcing.Shared.{ℕ, ◌-◌, ◌^◌, ◌≡◌, ◌⊎◌, Option, none, some, arith, ltb, if◌then◌else◌}

-- A signed integer; `negsuc n` is -(n + 1).
pub data ℤ : Type 0 where
  pos : ℕ → ℤ
  negsuc : ℕ → ℤ

-- The interface `StreamState`: the four implementations of the package, and one from elsewhere,
-- of which only its own `ToRawInt64` is known.
pub data StreamState : Type 0 where
  any no_stream stream_exists : StreamState
  revision : ℕ → StreamState
  foreign : ℤ → StreamState

abbrev pub max_int64 : ℕ
max_int64 = 2 ^ 63 - 1

-- `none` is the panic of a revision above `math.MaxInt64`.
unfoldable pub to_raw_int64 : StreamState → Option ℤ
to_raw_int64 any = some (negsuc 0)
to_raw_int64 no_stream = some (pos 0)
to_raw_int64 stream_exists = some (negsuc 1)
to_raw_int64 (revision r) = if ltb max_int64 r then none else some (pos r)
to_raw_int64 (foreign z) = some z

-- The state is one of the package's own.
abbrev pub IsOwn : StreamState → Type 0
IsOwn (foreign z) = ⊥
IsOwn _ = Unit {0}

-- Two expectations of the package with the same raw form are the same, but that the form 0 is both
-- that of `NoStream` and that of `Revision(0)`.
to_raw_int64_injective :
    (s t : StreamState) (z : ℤ)
    → IsOwn s
    → IsOwn t
    → to_raw_int64 s ≡ some z
    → to_raw_int64 t ≡ some z
    → (s ≡ t) ⊎ (z ≡ pos 0)
unfolding to_raw_int64
to_raw_int64_injective any any z hs ht p q = ground arith
to_raw_int64_injective any no_stream z hs ht p q = ground arith
to_raw_int64_injective any stream_exists z hs ht p q = ground arith
to_raw_int64_injective any (revision r) z hs ht p q = ground arith
to_raw_int64_injective no_stream t z hs ht p q = ground arith
to_raw_int64_injective stream_exists any z hs ht p q = ground arith
to_raw_int64_injective stream_exists no_stream z hs ht p q = ground arith
to_raw_int64_injective stream_exists stream_exists z hs ht p q = ground arith
to_raw_int64_injective stream_exists (revision r) z hs ht p q = ground arith
to_raw_int64_injective (revision r) any z hs ht p q = ground arith
to_raw_int64_injective (revision r) no_stream z hs ht p q = ground arith
to_raw_int64_injective (revision r) stream_exists z hs ht p q = ground arith
to_raw_int64_injective (revision r) (revision r') z hs ht p q = ground arith
to_raw_int64_injective (foreign x) t z hs ht p q = absurd hs
to_raw_int64_injective _ (foreign x) z hs ht p q = absurd ht
