-- ===== src/Memory/ProjectionStore/Kept.antt =====
-- `FinishReplay`: which replay requests outlive it.
use eventsourcing.Shared.{
  ℕ, ◌≡◌, ◌≢◌, ◌⊎◌, ◌<◌, inl, inr, String, false, ◌&&◌, some, [], ◌∷◌, ◌==◌, string_eq, nat_eq, leb,
  arith, eq_iff, Option-cases, if_cases,
}
use eventsourcing.Shared.Dict
use eventsourcing.Shared.Dict.{Dict, get-put}
use eventsourcing.Memory.ProjectionStore.{ReplayRequest}
use eventsourcing.Memory.ProjectionStore.Replays.{
  finished, succeeded, tried, forget, finish_request,
}

get-forget :
    (number : ℕ) (stream : String) (reqs : Dict ℕ ReplayRequest) (k : ℕ) (q : ReplayRequest)
    → Dict.get reqs k ≡ some q
    → (leb k number && q.stream_id == stream && finished q.segments) ≡ false
    → Dict.get (forget number stream reqs) k ≡ some q
unfolding Dict.get forget
get-forget number stream [] k q h kept = cc
get-forget number stream ((n, req) ∷ reqs) k q h kept =
    ground (arith, get-forget number stream reqs k q, kept)

stream-tried :
    (req : ReplayRequest) (seg : ℕ) (msg : String) → (tried req seg msg).stream_id ≡ req.stream_id
stream-tried req seg msg = elim (Option-cases (Dict.get req.segments seg)) [
  | inl e ↦ ground (arith, e)
  | inr (st, e) ↦ ground (arith, e)
]

-- A replay request that is later than the one tried, or on another stream, or not yet tried by every
-- segment, is still there after the trial, as it was.
pub finish_request-keeps :
    (replays : Dict ℕ ReplayRequest) (number : ℕ) (req : ReplayRequest) (seg : ℕ) (msg : String)
    (k : ℕ) (q : ReplayRequest)
    → k ≢ number
    → Dict.get replays k ≡ some q
    → (number < k) ⊎ (q.stream_id ≢ req.stream_id) ⊎ (finished q.segments ≡ false)
    → Dict.get (finish_request replays number req seg msg) k ≡ some q
unfolding finish_request
finish_request-keeps replays number req seg msg k q other h why =
    let there : Dict.get (Dict.put replays number (tried req seg msg)) k ≡ some q =
      ground (arith, get-put replays number k (tried req seg msg), other) in
    if_cases (λ (d : Dict ℕ ReplayRequest). Dict.get d k ≡ some q)
      (succeeded (tried req seg msg).segments) _ _
      (λ done. get-forget number (tried req seg msg).stream_id _ k q there (elim why [
        | inl later ↦ ground (arith, later)
        | inr (inl stream) ↦ ground (
          arith,
          eq_iff q.stream_id (tried req seg msg).stream_id,
          stream-tried req seg msg,
          stream,
        )
        | inr (inr open_) ↦ ground (arith, open_)
      ]))
      (λ _. there)
