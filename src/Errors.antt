-- ===== src/Errors.antt =====
-- errors.go and correlation_loader.go: the errors of the event stores, each by the sentinel that it
-- wraps. `revision_conflict` is `StreamRevisionConflictError` with its stream, the expected and the
-- actual revision.
use eventsourcing.Shared.{String}
use eventsourcing.Revision.{StreamState}
use eventsourcing.Envelope.{CodecError}

pub data StoreError : Type 0 where
  stream_not_found stream_already_exists invalid_event_batch invalid_revision : StoreError
  store_closed empty_correlation_id context_done : StoreError
  codec_failed : CodecError → StoreError
  revision_conflict : String → StreamState → StreamState → StoreError
