-- ===== src/Tests/Requests.antt =====
-- Concrete requests to a broker with one agent, and a launch beside it.
use nvim_agents_zzz.Prelude.{
  refl, String, true, false, none, some, List, [], ◌∷◌, ◌++◌, leb, length, arith,
}
use nvim_agents_zzz.Protocol.{
  AgentSummary, ProviderOptions, codex, RequestId, shared, worktree, running,
}
use nvim_agents_zzz.Registry.Store.{not_found}
use nvim_agents_zzz.Transcript.{empty}
use nvim_agents_zzz.Broker.Agents.{Services, ManagedAgent, AgentCommand}
use nvim_agents_zzz.Broker.Core.{State, durable, ready}
use nvim_agents_zzz.Broker.Checkout.{Host, start}
use nvim_agents_zzz.Broker.Launch.{Launching, ResolvedWorkspace, launch_agent}
use nvim_agents_zzz.Broker.Commands.{ApprovalResponseParams}
use nvim_agents_zzz.Broker.Dispatch.{Surroundings, approval_respond, handle_request}
use nvim_agents_zzz.Broker.Exclusive.{Launched, launch_agent-Launched}
use nvim_agents_zzz.Replay.{ReplayBuffer}
use nvim_agents_zzz.Broker.Requests.{pending_of}
use nvim_agents_zzz.Broker.Replied.{IsServing}
use nvim_agents_zzz.Broker.Served.{Replied, handle_request-Replied}

abbrev pub services : Services
services = record {
  Sender = List AgentCommand;
  try_send = λ sent command. some (sent ++ command ∷ []);
  send_wait = λ sent command. some (sent ++ command ∷ []);
  is_alphanumeric = λ c. leb 0x61 c;
  file_name = λ path. some path;
  decimal = λ n. "1";
  Registry = List AgentSummary;
  persist = λ registry agents. (true, agents);
  bytes = λ registry. length registry;
  Status = String;
  failure = λ status word agents size. word;
  success = λ status word agents size. word;
}

abbrev no_options : ProviderOptions
no_options = record { model = none; effort = none }

abbrev agent : ManagedAgent services
agent = record {
  summary = record {
    id = "agent-1";
    provider = codex;
    provider_session_id = none;
    cwd = "/work";
    workspace_strategy = shared;
    worktree_path = none;
    managed_workspace = none;
    runtime = none;
    provider_options = no_options;
    title = "work";
    state = running;
    active_turn_id = some "turn-1";
    pending_approvals = 0;
    unread_events = 0;
    capabilities = [];
    created_at = "now";
    updated_at = "now";
  };
  workspace_identity = "/work";
  commands = [];
  task = true;
  pending_contexts = [];
  queued_prompts = [];
  pending_questions = 0;
  has_prompted = true;
  title_from_prompt = false;
  transcript = empty;
}

abbrev pub no_events : ReplayBuffer
no_events = record { capacity = 2; next_sequence = 1; events = [] }

abbrev broker : State services
broker = record {
  phase = ready;
  mode = durable;
  connection_generation = 1;
  reconnect_cursor = 0;
  agents = ("agent-1", agent) ∷ [];
  agent_order = "agent-1" ∷ [];
  replay = no_events;
  output = some [];
  next_runtime_request = 1;
  pending_runtime_requests = [];
  queued_runtime_requests = [];
  registry = none;
  status = none;
}

-- No directory is in a checkout.
abbrev pub host : Host
host = record {
  is_absolute = λ path. true;
  canonicalize = λ path. some path;
  is_dir = λ path. true;
  join = λ path name. path;
  ancestors = λ path. path ∷ [];
  is_under = λ path base. false;
  symlink_metadata = λ path. not_found;
  read_to_string = λ path. none;
  rev_parse = λ path argument. none;
  from_utf8_lossy = λ bytes. "";
  home = none;
}

abbrev pub launching : Launching services
launching = record {
  host = host;
  allow_shared_workspaces = true;
  claim = none;
  new_id = "agent-2";
  spawn = λ provider id cwd request launch options. [];
}

abbrev place : String → ResolvedWorkspace
place cwd = record { cwd = cwd; strategy = worktree; worktree_path = some cwd; managed = none }

launch_agent-Launched_example :
    Launched services launching "now"
      (RequestId.integer 5)
      codex
      (place "/other")
      no_options
      start
      broker
      (launch_agent services launching "now"
        (RequestId.integer 5)
        codex
        (place "/other")
        no_options
        start
        broker)
launch_agent-Launched_example =
    launch_agent-Launched services launching "now" (RequestId.integer 5) codex (place "/other")
      no_options start broker (omega arith)

abbrev around : Surroundings services
around = record {
  now = "now";
  paths = record {
    is_absolute = λ path. true;
    exists = λ path. true;
    canonicalize = λ path. some path;
    parent = λ path. none;
    file_name = λ path. none;
    join = λ path name. path;
    is_inside = λ path cwd. true;
    encoded_len = λ context. some 2;
    encoded_all_len = λ contexts. some 2;
  };
  reported = record {
    broker_version = "0";
    registry_path = none;
    managed_tasks = false;
    shared_starts = true;
  };
  launching = launching;
  closing = record { handoff = none };
  from_utf8_lossy = λ bytes. "";
  run_diff = λ cwd. none;
  fuel = 2;
  provider = λ params id broker. some broker;
}

abbrev allow : ApprovalResponseParams
allow = record {
  agent_id = "agent-1";
  approval_id = "approval-1";
  decision = "allow";
  updated_input = none;
  message = none;
}

serving : IsServing services broker []
unfolding pending_of
serving = record { connected = refl; room = omega arith; fresh = refl }

handle_request-Replied_example :
    Replied services around broker
      (RequestId.integer 5)
      (RequestId.integer 5)
      (handle_request services around (RequestId.integer 5) (approval_respond (some allow)) broker)
handle_request-Replied_example =
    handle_request-Replied services around broker [] (RequestId.integer 5) (RequestId.integer 5)
      (approval_respond (some allow)) serving refl
