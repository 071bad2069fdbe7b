-- ===== src/Tests/Earlier.antt =====
-- A request of one connection, and of the next under the same public id.
use Prim.Native.Char.{code}
use Prim.Native.String.{◌++◌ as str_append}
use Prim.Native.String.append
use nvim_agents_zzz.Prelude.{
  ℕ, zero, suc, String, Bool, ◌==◌, true, false, none, some, List, [], ◌∷◌, ◌++◌, length,
}
use nvim_agents_zzz.Protocol.{RequestId, AgentSummary, Value}
use nvim_agents_zzz.Broker.Agents.{Services, AgentCommand}
use nvim_agents_zzz.Broker.Core.{State, Outgoing, response, durable, ready}
use nvim_agents_zzz.Broker.Connection.{connect}
use nvim_agents_zzz.Broker.Requests.{asking}
use nvim_agents_zzz.Tests.Requests.{no_events}

abbrev strokes : ℕ → String
strokes zero = ""
strokes (suc n) = String.◌∷◌ "1" (strokes n)

abbrev counting : Services
counting = record {
  Sender = List AgentCommand;
  try_send = λ sent command. some (sent ++ command ∷ []);
  send_wait = λ sent command. some (sent ++ command ∷ []);
  is_alphanumeric = λ c. true;
  file_name = λ path. some path;
  decimal = strokes;
  Registry = List AgentSummary;
  persist = λ registry agents. (true, agents);
  bytes = λ registry. length registry;
  Status = String;
  failure = λ status word agents size. word;
  success = λ status word agents size. word;
}

abbrev rest_of : String → String
rest_of String.[] = ""
rest_of (String.◌∷◌ c s) = s

abbrev is_stroke : String → Bool
is_stroke String.[] = false
is_stroke (String.◌∷◌ c s) = code c == 0x31

abbrev first : State counting
first = record {
  phase = ready;
  mode = durable;
  connection_generation = 1;
  reconnect_cursor = 0;
  agents = [];
  agent_order = [];
  replay = no_events;
  output = some [];
  next_runtime_request = 1;
  pending_runtime_requests = [];
  queued_runtime_requests = [];
  registry = none;
  status = none;
}

abbrev public_id : RequestId
public_id = RequestId.integer 7

abbrev second : State counting
second = connect counting (asking counting first public_id) 2

abbrev reply : RequestId → Outgoing
reply id = response id Value.null
