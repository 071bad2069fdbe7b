-- ===== src/Broker/Answered.antt =====
-- embedded.rs: the replies that a request has got and those that it waits for.
use nvim_agents_zzz.Prelude.{
  ℕ, ◌+◌, ◌≡◌, refl, ap, String, Bool, true, false, ◌&&◌, Option, none, some, List, [], ◌∷◌, ◌==◌,
  sum_by, sum_by-append, Bool-cases, Option-cases, inl, inr, arith, ==_iff, eq_iff,
}
use nvim_agents_zzz.Protocol.{RequestId, same_id, integer, negative}
use nvim_agents_zzz.Broker.Agents.{Services}
use nvim_agents_zzz.Broker.Core.{
  State, Outgoing, PendingRuntimeRequest, broker_state, response, agent_response, agents_response,
  transcript_response, events_response, error, send, send_ready, notify_state, is_ready,
}
use nvim_agents_zzz.Broker.Requests.{pending_of, without_pending}
use nvim_agents_zzz.Broker.Commands.{with_history}

abbrev pub one_if : Bool → ℕ
one_if true = 1
one_if false = 0

-- Whether a message is a reply to the request.
abbrev pub replies : RequestId → Outgoing → Bool
replies id (response other result) = same_id id other
replies id (agent_response other summary) = same_id id other
replies id (agents_response other summaries) = same_id id other
replies id (transcript_response other agent revision lines) = same_id id other
replies id (events_response other es) = same_id id other
replies id (error (some other) code message details) = same_id id other
replies id message = false

abbrev answered_in : RequestId → Option (List Outgoing) → ℕ
answered_in id none = 0
answered_in id (some sent) = sum_by (λ message. one_if (replies id message)) sent

-- The requests of this connection that wait for a runtime.
abbrev pub waiting_in : RequestId → ℕ → List (RequestId × PendingRuntimeRequest) → ℕ
waiting_in id generation = sum_by (λ (entry : RequestId × PendingRuntimeRequest).
    one_if (entry.1.generation == generation && same_id id entry.1.public_id))

pub same_id_refl : (id : RequestId) → same_id id id ≡ true
same_id_refl (integer n) = (==_iff n n).1 refl
same_id_refl (negative n) = (==_iff n n).1 refl
same_id_refl (RequestId.text s) = (eq_iff s s).1 refl

-- An id that nothing waits under removes nothing.
pub without_pending-none :
    (id : RequestId) (pending : List (RequestId × PendingRuntimeRequest))
    → pending_of id pending ≡ none
    → without_pending id pending ≡ pending
unfolding pending_of without_pending
without_pending-none id [] h = refl
without_pending-none id (entry ∷ rest) h = elim (Bool-cases (same_id entry.0 id)) [
  | inl e ↦ absurd (some-none (rw e at h))
  | inr e ↦ rw e (
      ap (λ (l : List (RequestId × PendingRuntimeRequest)). entry ∷ l)
        (without_pending-none id rest (rw e at h)))
]
  where
    some-none :
        {p : PendingRuntimeRequest} → ◌≡◌ {A = Option PendingRuntimeRequest} (some p) none → ⊥
    some-none h = cc

waiting_in-with_history :
    (other id : RequestId) (agent_id : String) (generation : ℕ)
    (pending : List (RequestId × PendingRuntimeRequest))
    → waiting_in other generation (with_history id agent_id pending)
      ≡ waiting_in other generation pending
unfolding with_history
waiting_in-with_history other id agent_id generation [] = refl
waiting_in-with_history other id agent_id generation (entry ∷ rest) =
    elim (Bool-cases (same_id entry.0 id)) [
      | inl e ↦ rw e refl
      | inr e ↦ rw (e, waiting_in-with_history other id agent_id generation rest) refl
    ]

module _ (services : Services) where
  -- The replies that a request has got, and those that runtimes owe it.
  abbrev pub owed : RequestId → State services → ℕ
  owed id broker =
      answered_in id broker.output
      + waiting_in id broker.connection_generation broker.pending_runtime_requests

  -- What a step leaves of the bookkeeping of requests.
  pub record Keeps (before after : State services) : Type 0 where
    pub output : after.output ≡ before.output
    pub generation : after.connection_generation ≡ before.connection_generation
    pub pending : after.pending_runtime_requests ≡ before.pending_runtime_requests

  pub owed-Keeps :
      (id : RequestId) (before after : State services)
      → Keeps before after
      → owed id after ≡ owed id before
  owed-Keeps id before after k = rw (k.output, k.generation, k.pending) refl

  pub owed-send :
      (id : RequestId) (broker : State services) (message : Outgoing) (sent : List Outgoing)
      → broker.output ≡ some sent
      → owed id (send services broker message) ≡ owed id broker + one_if (replies id message)
  unfolding send
  owed-send id broker message sent h =
      rw h (omega (arith, sum_by-append (λ m. one_if (replies id m)) sent (message ∷ [])))

  pub owed-notify_state :
      (id : RequestId) (broker : State services)
      → owed id (notify_state services broker) ≡ owed id broker
  unfolding notify_state send_ready send
  owed-notify_state id broker = elim (Bool-cases (is_ready broker.phase)) [
    | inr e ↦ rw e refl
    | inl e ↦ elim (Option-cases broker.output) [
      | inl o ↦ rw (e, o) refl
      | inr (sent, o) ↦
          rw (e, o)
            (omega (arith, sum_by-append (λ m. one_if (replies id m)) sent (broker_state _ ∷ [])))
    ]
  ]
