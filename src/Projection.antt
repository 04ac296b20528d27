-- ===== src/Projection.antt =====
-- projection/store.go: the data that a projection's runner and its store exchange. A time is a
-- number, 0 the zero time, and a duration the number of its units.
pub mod Segment
pub mod Quotas
use eventsourcing.Shared.{ℕ, String, Bool}

pub data Phase : Type 0 where
  starting standby catching_up live stalled : Phase

pub record Checkpoint : Type 0 where
  pub position : ℕ
  pub version : ℕ
  pub replay_until : ℕ
  pub fingerprint : String

pub record Status : Type 0 where
  pub phase : Phase
  pub position : ℕ
  pub head : ℕ
  pub version : ℕ
  pub last_error : String
  pub owner : String
  pub segment : ℕ
  pub age : ℕ
  pub replay_until : ℕ
  pub claim_ttl : ℕ
  pub rebuild_requested : Bool

pub record Lease : Type 0 where
  pub name : String
  pub segment : ℕ
  pub owner : String
  pub epoch : ℕ

pub record DeadLetter : Type 0 where
  pub position : ℕ
  pub stream_id : String
  pub event_type : String
  pub error : String

pub record Instance : Type 0 where
  pub owner : String
  pub version : ℕ
  pub segments : ℕ
  pub age : ℕ

pub record Replay : Type 0 where
  pub number : ℕ
  pub stream_id : String
  pub segment : ℕ

-- The package's errors, and `other` for what a callback of the caller returns.
pub data ProjectionError : Type 0 where
  segments_changed claim_lost unknown_projection : ProjectionError
  other : String → ProjectionError
