-- ===== src/Automation.antt =====
-- automation/store.go and automation/automation.go: the data that an automation exchanges with its
-- store. A time is a number, 0 the zero time, and a duration the number of its units.
pub mod Items
pub mod Runs
use eventsourcing.Shared.{ℕ, String, Bool, List}

pub data AutomationPhase : Type 0 where
  starting waiting idle working stalled paused : AutomationPhase

-- `Segment`
pub record Candidate : Type 0 where
  pub key : String
  pub group : String

pub record SegmentState : Type 0 where
  pub key : String
  pub group : String
  pub owner : String
  pub paused_for : ℕ

pub record SegmentLease : Type 0 where
  pub name : String
  pub key : String
  pub owner : String
  pub epoch : ℕ

pub record ReleaseRequest : Type 0 where
  pub lease : SegmentLease
  pub defer_for : ℕ
  pub served : Bool

pub record AcquireResult : Type 0 where
  pub granted : List SegmentLease
  pub active : ℕ
  pub eligible : ℕ

-- `Status`
pub record AutomationStatus : Type 0 where
  pub owner : String
  pub phase : AutomationPhase
  pub waiting_for : String
  pub processed : ℕ
  pub failed : ℕ
  pub deferred : ℕ
  pub last_error : String
  pub age : ℕ
