-- ===== src/Worker.antt =====
-- worker.rs: what the Claude worker sends.
use nvim_agents_zzz.Prelude.{String, Bool, Option, is_some}
use nvim_agents_zzz.Protocol.{Value, RequestId}

pub record WorkerInbound : Type 0 where
  pub id : Option RequestId
  pub method : String
  pub params : Value

-- `is_callback`
abbrev pub is_callback : WorkerInbound → Bool
is_callback inbound = is_some inbound.id
