-- ===== src/Broker/Generations.antt =====
-- embedded.rs: a request that waits for a runtime is answered once.
use nvim_agents_zzz.Prelude.{
  ◌≡◌, refl, ◌&&◌, none, List, [], ◌∷◌, ◌==◌, is_some, Bool-cases, Option-cases, inl, inr,
}
use nvim_agents_zzz.Protocol.{RequestId, same_id}
use nvim_agents_zzz.Broker.Agents.{Services}
use nvim_agents_zzz.Broker.Core.{State, Outgoing, PendingRuntimeRequest, send}
use nvim_agents_zzz.Broker.Requests.{pending_of, without_pending, send_runtime_response}

abbrev Pending : Type 0
Pending = List (RequestId × PendingRuntimeRequest)

pub pending_of-without_pending :
    (id : RequestId) (xs : Pending) → pending_of id (without_pending id xs) ≡ none
unfolding pending_of without_pending
pending_of-without_pending id [] = refl
pending_of-without_pending id (entry ∷ xs) = elim (Bool-cases (same_id entry.0 id)) [
  | inl e ↦ rw e (pending_of-without_pending id xs)
  | inr e ↦ rw (e, e) (pending_of-without_pending id xs)
]

module _ (services : Services) where
  send_runtime_response-gone :
      (broker : State services) (id : RequestId) (message : RequestId → Outgoing)
      → pending_of id broker.pending_runtime_requests ≡ none
      → send_runtime_response services broker id message ≡ broker
  unfolding send_runtime_response
  send_runtime_response-gone broker id message e = rw (e, send_runtime_response) refl

  pending_of-send_runtime_response :
      (broker : State services) (id : RequestId) (message : RequestId → Outgoing)
      → pending_of id (send_runtime_response services broker id message).pending_runtime_requests
        ≡ none
  unfolding send_runtime_response send
  pending_of-send_runtime_response broker id message =
      let gone = pending_of-without_pending id broker.pending_runtime_requests in
      elim (Option-cases (pending_of id broker.pending_runtime_requests)) [
        | inl e ↦ rw (e, send_runtime_response) e
        | inr (pending, e) ↦
            elim (Bool-cases
              (pending.generation == broker.connection_generation && is_some broker.output)) [
                | inl f ↦ rw (e, send_runtime_response, f) gone
                | inr f ↦ rw (e, send_runtime_response, f) gone
              ]
      ]

  -- A request is answered at most once: a second response changes nothing.
  pub send_runtime_response-once :
      (broker : State services) (id : RequestId) (first second : RequestId → Outgoing)
      → send_runtime_response services (send_runtime_response services broker id first) id second
        ≡ send_runtime_response services broker id first
  send_runtime_response-once broker id first second =
      send_runtime_response-gone (send_runtime_response services broker id first) id second
        (pending_of-send_runtime_response broker id first)
