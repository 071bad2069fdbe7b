-- ===== src/Tests/Broker.antt =====
-- The broker at concrete inputs: a durable broker with one agent whose channel holds two commands.
use nvim_agents_zzz.Prelude.{
  ◌≡◌, refl, String, true, false, ◌&&◌, none, some, List, [], ◌∷◌, ◌++◌, map, leb, ltb,
  if◌then◌else◌, length, arith,
}
use nvim_agents_zzz.Protocol.{
  Value, Fields, EventEnvelope, AgentSummary, codex, new_event, RequestId, shared, running,
}
use nvim_agents_zzz.Replay.{ReplayBuffer, append_event, new, push}
use nvim_agents_zzz.Replay.History.{recorded, push_all, after, stamped}
use nvim_agents_zzz.Transcript.{empty}
use nvim_agents_zzz.Broker.Agents.{Services, ManagedAgent, AgentCommand}
use nvim_agents_zzz.Broker.Core.{
  response, error, Outgoing, State, agent_event, broker_state, durable, await_initialized, ready,
  summaries,
}
use nvim_agents_zzz.Broker.Connection.{handle_notification}
use nvim_agents_zzz.Broker.Reconnect.{initialized-replays}
use nvim_agents_zzz.Broker.State.{apply_event_state}
use nvim_agents_zzz.Broker.Sound.{IsSound, apply_event_state-IsSound}
use nvim_agents_zzz.Broker.Recorded.{Reaches}
use nvim_agents_zzz.Broker.Requests.{provider_event, handle_runtime_event, send_runtime_response}
use nvim_agents_zzz.Broker.Context.{Paths}
use nvim_agents_zzz.Broker.Inputs.{TurnInputParams, as_prompt, send_agent_input}
use nvim_agents_zzz.Broker.Outcome.{Treated}
use nvim_agents_zzz.Broker.Treated.{send_agent_input-Treated}
use nvim_agents_zzz.Broker.Runtime.{handle_runtime_event-Reaches}
use nvim_agents_zzz.Broker.Generations.{send_runtime_response-once}

abbrev services : Services
services = record {
  Sender = List AgentCommand;
  try_send = λ sent command. if ltb (length sent) 2 then some (sent ++ command ∷ []) else none;
  send_wait = λ sent command. some (sent ++ command ∷ []);
  is_alphanumeric = λ c. leb 0x61 c && leb c 0x7a;
  file_name = λ path. some path;
  decimal = λ n. "1";
  Registry = List AgentSummary;
  persist = λ registry agents. (true, agents);
  bytes = λ registry. length registry;
  Status = String;
  failure = λ status word agents size. word;
  success = λ status word agents size. word;
}

abbrev summary : AgentSummary
summary = record {
  id = "agent-1";
  provider = codex;
  provider_session_id = none;
  cwd = "/work";
  workspace_strategy = shared;
  worktree_path = none;
  managed_workspace = none;
  runtime = none;
  provider_options = record { model = none; effort = none };
  title = "work";
  state = running;
  active_turn_id = some "turn-1";
  pending_approvals = 0;
  unread_events = 0;
  capabilities = [];
  created_at = "now";
  updated_at = "now";
}

abbrev agent : ManagedAgent services
agent = record {
  summary = summary;
  workspace_identity = "/work";
  commands = [];
  task = true;
  pending_contexts = [];
  queued_prompts =
      record {
        text = "go on";
        attachments = [];
        provider_options = record { model = none; effort = none };
      }
      ∷ [];
  pending_questions = 0;
  has_prompted = true;
  title_from_prompt = false;
  transcript = empty;
}

abbrev nothing : Value
nothing = Value.object Fields.end

abbrev ended : EventEnvelope
ended = new_event "now" "agent-1" codex "turn.completed" nothing nothing

abbrev two : List EventEnvelope
two = new_event "now" "agent-1" codex "turn.started" nothing nothing ∷ ended ∷ []

abbrev buffer : ReplayBuffer
buffer = record { capacity = 2; next_sequence = 3; events = stamped 1 two }

two-recorded : recorded 2 two ≡ some buffer
unfolding recorded push_all push append_event new
two-recorded = refl

abbrev broker : State services
broker = record {
  phase = await_initialized;
  mode = durable;
  connection_generation = 1;
  reconnect_cursor = 1;
  agents = ("agent-1", agent) ∷ [];
  agent_order = "agent-1" ∷ [];
  replay = buffer;
  output = some [];
  next_runtime_request = 1;
  pending_runtime_requests = [];
  queued_runtime_requests = [];
  registry = some [];
  status = none;
}

agent-IsSound : IsSound services agent
agent-IsSound = record {
  approvals = λ h. cc;
  questions = λ h. cc;
  queue = omega arith;
  rendered = record { shown = refl; counted = tt };
}

apply_event_state-IsSound_example :
    IsSound services
      (apply_event_state services "later" agent
        (new_event "now" "agent-1" codex "approval.requested" nothing nothing)).0
apply_event_state-IsSound_example =
    apply_event_state-IsSound services "later" agent
      (new_event "now" "agent-1" codex "approval.requested" nothing nothing) agent-IsSound

initialized-replays_example :
    ((handle_notification services "initialized" true broker).output
      ≡ some (
          []
          ++ map agent_event (after 1 (stamped 1 two))
          ++ broker_state (summaries services broker) ∷ []))
    × ((handle_notification services "initialized" true broker).phase ≡ ready)
initialized-replays_example =
    initialized-replays services broker 2 two [] refl refl refl (omega arith) (omega arith)
      (omega arith) two-recorded (omega arith)

handle_runtime_event-Reaches_example :
    Reaches services broker 3 1
      (handle_runtime_event services 2 "now" (provider_event ended) broker)
handle_runtime_event-Reaches_example =
    handle_runtime_event-Reaches services 0 "now" (provider_event ended) broker (agent-IsSound, tt)
      (omega arith) (omega arith)

-- A request of the first connection waits.
abbrev waiting : State services
waiting = record broker {
  pending_runtime_requests =
      (
        RequestId.text "broker:1:1",
        record { generation = 1; public_id = RequestId.integer 7; history_agent = none },
      )
      ∷ [];
}

abbrev done : RequestId → Outgoing
done id = response id nothing

abbrev failed_late : RequestId → Outgoing
failed_late id = error (some id) 32020 "late" none

send_runtime_response-once_example :
    send_runtime_response services
      (send_runtime_response services waiting (RequestId.text "broker:1:1") done)
      (RequestId.text "broker:1:1")
      failed_late
    ≡ send_runtime_response services waiting (RequestId.text "broker:1:1") done
send_runtime_response-once_example =
    send_runtime_response-once services waiting (RequestId.text "broker:1:1") done failed_late

abbrev no_paths : Paths
no_paths = record {
  is_absolute = λ path. false;
  exists = λ path. true;
  canonicalize = λ path. some path;
  parent = λ path. none;
  file_name = λ path. none;
  join = λ path name. path;
  is_inside = λ path cwd. false;
  encoded_len = λ context. some 2;
  encoded_all_len = λ contexts. some 2;
}

abbrev next : TurnInputParams
next = record {
  queue = true;
  agent_id = "agent-1";
  text = "and then";
  attachments = [];
  provider_options = none;
}

send_agent_input-Treated_example :
    Reaches services broker 0 1
      (send_agent_input services no_paths "now" (RequestId.integer 8) (some next) as_prompt broker)
    × Treated services no_paths "now" (RequestId.integer 8) as_prompt broker (some next) (
        send_agent_input services no_paths "now" (RequestId.integer 8) (some next) as_prompt broker)
send_agent_input-Treated_example =
    send_agent_input-Treated services no_paths "now" (RequestId.integer 8) (some next) as_prompt
      broker (agent-IsSound, tt) (omega arith)
