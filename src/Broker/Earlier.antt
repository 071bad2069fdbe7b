-- ===== src/Broker/Earlier.antt =====
-- embedded.rs: a request of an earlier connection, while later clients make requests of their own.
use Prim.Native.String.{◌++◌ as str_append}
use nvim_agents_zzz.Prelude.{ℕ, ◌<◌, ◌≡◌, String, true, some, List, All}
use nvim_agents_zzz.Protocol.{RequestId, same_id}
use nvim_agents_zzz.Broker.Agents.{Services}
use nvim_agents_zzz.Broker.Core.{State, Outgoing, PendingRuntimeRequest}
use nvim_agents_zzz.Broker.Connection.{connect, disconnect}
use nvim_agents_zzz.Broker.Commands.{with_history}
use nvim_agents_zzz.Broker.Requests.{without_pending, runtime_request, send_runtime_response}

abbrev Pending : Type 0
Pending = List (RequestId × PendingRuntimeRequest)

-- An entry under this id is of a connection before this one.
abbrev IsEarlier : RequestId → ℕ → RequestId × PendingRuntimeRequest → Type 0
IsEarlier id generation entry = same_id entry.0 id ≡ true → entry.1.generation < generation

module _ (services : Services) where
  -- Digits without a colon: the count of a request can be read from its id.
  abbrev pub AreReadable : Type 0
  AreReadable =
      (g h m n : ℕ)
      → str_append (services.decimal g) (str_append ":" (services.decimal m))
        ≡ str_append (services.decimal h) (str_append ":" (services.decimal n))
      → m ≡ n

  -- What a broker does with the requests that wait for a runtime: a connection begins or ends, a request is made,
  -- noted, given up or answered, or anything else changes.
  pub data Step : State services → State services → Type 0 where
    connects :
        {broker : State services} (generation : ℕ)
        → Step broker (connect services broker generation)
    leaves :
        {broker : State services} (generation : ℕ)
        → Step broker (disconnect services broker generation)
    asks :
        {broker after : State services} {id : RequestId} (public_id : RequestId)
        → runtime_request services broker public_id ≡ some (after, id)
        → Step broker after
    notes :
        {broker : State services} (id : RequestId) (agent_id : String)
        → Step broker (record broker {
          pending_runtime_requests = with_history id agent_id broker.pending_runtime_requests;
        })
    drops :
        {broker : State services} (id : RequestId)
        → Step broker (record broker {
          pending_runtime_requests = without_pending id broker.pending_runtime_requests;
        })
    answers :
        {broker : State services} (id : RequestId) (message : RequestId → Outgoing)
        → Step broker (send_runtime_response services broker id message)
    changes :
        {broker after : State services}
        → after.connection_generation ≡ broker.connection_generation
        → after.pending_runtime_requests ≡ broker.pending_runtime_requests
        → after.next_runtime_request ≡ broker.next_runtime_request
        → Step broker after

  pub data Steps : State services → State services → Type 0 where
    rests : {broker : State services} → Steps broker broker
    goes :
        {broker next after : State services}
        → Step broker next
        → Steps next after
        → Steps broker after

  -- The id of a request: the connection that made it, and its count.
  abbrev pub id_of : ℕ → ℕ → RequestId
  id_of generation count = RequestId.text (
      str_append "broker:"
        (str_append (services.decimal generation) (str_append ":" (services.decimal count))))

  -- The request was made, on a connection before this one.
  record IsPast (id : RequestId) (count : ℕ) (broker : State services) : Type 0 where
    pub entries : All (IsEarlier id broker.connection_generation) broker.pending_runtime_requests
    pub counted : count < broker.next_runtime_request
