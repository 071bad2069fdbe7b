-- ===== src/Codex.antt =====
-- codex.rs: the events of the Codex App Server.
use nvim_agents_zzz.Prelude.{String, Bool, Option}
use nvim_agents_zzz.Protocol.{Value}

pub data ProviderEventKind : Type 0 where
  notification server_request : ProviderEventKind

pub record ProviderEvent : Type 0 where
  pub kind : ProviderEventKind
  pub request_id : Option Value
  pub response_required : Bool
  pub method : String
  pub params : Value
