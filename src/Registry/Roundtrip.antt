-- ===== src/Registry/Roundtrip.antt =====
-- registry.rs: what `persist` leaves in the file, whichever step fails, and what `load` makes of it.
use nvim_agents_zzz.Prelude.{
  ℕ, ◌≡◌, ◌≢◌, refl, sym, String, Bool, true, false, none, inl, inr, some, List, [], ◌∷◌, ◌++◌, map,
  if◌then◌else◌, ltb, length, length-append, length-map, le→ltb, ok_or, ◌==◌, subst, ◌+◌, Result,
  ok, err, All, arith, any, str_eq, eq_iff, Bool-cases, and_then-eq-ok, ok-injective, err-ok,
}
use nvim_agents_zzz.Protocol.{AgentSummary, disconnected}
use nvim_agents_zzz.Registry.Store.{
  FileSystem, Codec, found, regular, document_of, validate_existing_private_file, persist, load,
}
use nvim_agents_zzz.Registry.Persisted.{Persisted, committed, persist-IsAtomic}
use nvim_agents_zzz.Registry.{
  RegistryAgent, RegistryDocument, registry_schema_version, max_registry_agents, io, json,
  RegistryError, unsafe, registry_agent, max_registry_bytes, valid_metadata, consistent_workspace,
  into_disconnected_summary, restore_from, restore,
}

-- The agent as a restart leaves it: without a provider's process.
unfoldable pub as_disconnected : AgentSummary → AgentSummary
as_disconnected agent = record {
  id = agent.id;
  provider = agent.provider;
  provider_session_id = agent.provider_session_id;
  cwd = agent.cwd;
  workspace_strategy = agent.workspace_strategy;
  worktree_path = agent.worktree_path;
  managed_workspace = agent.managed_workspace;
  runtime = agent.runtime;
  provider_options = agent.provider_options;
  title = agent.title;
  state = disconnected;
  active_turn_id = none;
  pending_approvals = 0;
  unread_events = 0;
  capabilities = [];
  created_at = agent.created_at;
  updated_at = agent.updated_at;
}

abbrev pub IsRestorable : (String → Bool) → AgentSummary → Type 0
IsRestorable is_absolute agent =
    (valid_metadata is_absolute (registry_agent agent) ≡ true)
    × (consistent_workspace is_absolute (registry_agent agent) ≡ true)

abbrev pub AreDistinct : List AgentSummary → Type 0
AreDistinct [] = Unit
AreDistinct (agent ∷ agents) = All (λ other. agent.id ≢ other.id) agents × AreDistinct agents

abbrev Unseen : List String → AgentSummary → Type 0
Unseen seen agent = any (str_eq agent.id) seen ≡ false

Unseen-cons :
    (s : String) (seen : List String) (agents : List AgentSummary)
    → All (Unseen seen) agents
    → All (λ other. s ≢ other.id) agents
    → All (Unseen (s ∷ seen)) agents
Unseen-cons s seen [] hu hd = tt
Unseen-cons s seen (a ∷ rest) hu hd =
    (ground (arith, eq_iff (a.id) s, hu.0, hd.0), Unseen-cons s seen rest hu.1 hd.1)

Unseen-uncons :
    (s : String) (seen : List String) (agents : List AgentSummary)
    → All (Unseen (s ∷ seen)) agents
    → All (Unseen seen) agents × All (λ other. s ≢ other.id) agents
Unseen-uncons s seen [] hu = (tt, tt)
Unseen-uncons s seen (a ∷ rest) hu =
    let (h1, h2) = Unseen-uncons s seen rest hu.1 in
    ((ground (arith, eq_iff (a.id) s, hu.0), h1), (ground (arith, eq_iff (a.id) s, hu.0), h2))

All-Unseen : (agents : List AgentSummary) → All (Unseen []) agents
All-Unseen [] = tt
All-Unseen (a ∷ rest) = (refl, All-Unseen rest)

module _ (is_absolute : String → Bool) where
  into_disconnected_summary-kept :
      (agent : RegistryAgent) (summary : AgentSummary)
      → into_disconnected_summary is_absolute agent ≡ ok summary
      → (summary.id ≡ agent.id) × (as_disconnected summary ≡ summary)
  unfolding into_disconnected_summary as_disconnected
  into_disconnected_summary-kept agent summary h =
      elim (Bool-cases (valid_metadata is_absolute agent)) [
        | inr v ↦ absurd (err-ok (rw v at h))
        | inl v ↦ elim (Bool-cases (consistent_workspace is_absolute agent)) [
          | inr c ↦ absurd (err-ok (rw (v, c) at h))
          | inl c ↦
              let e = ok-injective (rw (v, c) at h) in
              subst (λ s. (s.id ≡ agent.id) × (as_disconnected s ≡ s)) e (refl, refl)
        ]
      ]

  into_disconnected_summary-registry_agent :
      (agent : AgentSummary)
      → IsRestorable is_absolute agent
      → into_disconnected_summary is_absolute (registry_agent agent) ≡ ok (as_disconnected agent)
  unfolding into_disconnected_summary registry_agent as_disconnected
  into_disconnected_summary-registry_agent agent h = rw (h.0, h.1) refl

  restore_from-map :
      (seen : List String) (agents : List AgentSummary)
      → All (IsRestorable is_absolute) agents
      → AreDistinct agents
      → All (Unseen seen) agents
      → restore_from is_absolute seen (map registry_agent agents) ≡ ok (map as_disconnected agents)
  unfolding restore_from registry_agent as_disconnected
  restore_from-map seen [] hr hd hu = refl
  restore_from-map seen (a ∷ rest) hr hd hu =
      rw
        (
          hu.0,
          into_disconnected_summary-registry_agent a hr.0,
          restore_from-map (a.id ∷ seen) rest hr.1 hd.1 (Unseen-cons a.id seen rest hu.1 hd.0),
        )
        refl

  -- No id is among those seen, and none comes twice.
  restore_from-Unseen :
      (seen : List String) (agents : List RegistryAgent) (summaries : List AgentSummary)
      → restore_from is_absolute seen agents ≡ ok summaries
      → All (Unseen seen) summaries
        × AreDistinct summaries
        × All (λ s. as_disconnected s ≡ s) summaries
  unfolding restore_from
  restore_from-Unseen seen [] summaries h = rw (sym (ok-injective h)) (tt, tt, tt)
  restore_from-Unseen seen (a ∷ rest) summaries h = elim (Bool-cases (any (str_eq a.id) seen)) [
    | inl twice ↦ absurd (err-ok (rw twice at h))
    | inr once ↦
        let (s, e1, h1) =
          and_then-eq-ok (into_disconnected_summary is_absolute a) _ summaries (rw once at h) in
        let (tail, e2, h2) =
          and_then-eq-ok (restore_from is_absolute (a.id ∷ seen) rest) _ summaries h1 in
        let (same, kept) = into_disconnected_summary-kept a s e1 in
        let (unseen, distinct, others) = restore_from-Unseen (a.id ∷ seen) rest tail e2 in
        let (u, d) = Unseen-uncons a.id seen tail unseen in
        subst (λ l. All (Unseen seen) l × AreDistinct l × All (λ s. as_disconnected s ≡ s) l)
          (ok-injective h2) ((rw same once, u), (rw same d, distinct), (kept, others))
  ]

  restore-AreDistinct :
      (document : RegistryDocument) (agents : List AgentSummary)
      → restore is_absolute document ≡ ok agents
      → AreDistinct agents × All (λ agent. as_disconnected agent ≡ agent) agents
  unfolding restore
  restore-AreDistinct document agents h =
      elim (Bool-cases (document.schema_version == registry_schema_version)) [
        | inr other ↦ absurd (err-ok (rw other at h))
        | inl supported ↦ elim (Bool-cases (ltb max_registry_agents (length document.agents))) [
          | inl many ↦ absurd (err-ok (rw (supported, many) at h))
          | inr few ↦
              let (_, distinct, others) =
                restore_from-Unseen [] document.agents agents (rw (supported, few) at h) in
              (distinct, others)
        ]
      ]

module _ (files : FileSystem) where
  open files use {Disk}

  persist-committed :
      (disk : Disk) (path : String) (encoded : List ℕ) (after : Disk)
      (r : Result (Unit {0}) RegistryError)
      → r ≡ ok tt
      → Persisted files disk path encoded after r
      → (files.contents after path ≡ some (encoded ++ 10 ∷ []))
        × (files.symlink_metadata after path
            ≡ found (record { file_type = regular; mode = 384; len = length (encoded ++ 10 ∷ []) }))
  persist-committed disk path encoded after (err e) h p = absurd (err-ok h)
  persist-committed disk path encoded after (ok done) h (committed c m) = (c, m)

  -- When `persist` succeeds for agents with distinct ids and valid metadata, `load` gives back these
  -- agents without their provider's process, unless the encoding and its line feed are longer than the
  -- limit on the file: then it refuses what was persisted.
  pub load-persist :
      (codec : Codec) (disk : Disk) (path temporary now : String) (agents : List AgentSummary)
      → temporary ≢ path
      → All (IsRestorable codec.is_absolute) agents
      → AreDistinct agents
      → (persist files codec disk path temporary now agents).1 ≡ ok tt
      → (encoded : List ℕ) × (codec.encode (document_of now agents) ≡ some encoded)
        × (load files codec (persist files codec disk path temporary now agents).0 path ≡ (
            if ltb max_registry_bytes (length encoded + 1)
            then err (unsafe "file exceeds the size limit")
            else ok (map as_disconnected agents)))
  unfolding load document_of restore validate_existing_private_file
  load-persist codec disk path temporary now agents other valid distinct done =
      elim (persist-IsAtomic files codec disk path temporary now agents other) [
        | inl (e, h) ↦ absurd (err-ok (rw h at done))
        | inr (encoded, e, few, short, p) ↦
            let (c, m) = persist-committed disk path encoded _ _ done p in
            (
              encoded,
              e,
              rw
                  (
                    m,
                    c,
                    codec.decode-encode _ encoded e,
                    length-append encoded (10 ∷ []),
                    length-map registry_agent agents,
                    le→ltb _ _ few,
                    restore_from-map codec.is_absolute [] agents valid distinct (All-Unseen agents),
                  )
                  refl,
            )
      ]

  -- The agents that are loaded have distinct ids, and none has a provider's process.
  pub load-AreDistinct :
      (codec : Codec) (disk : Disk) (path : String) (agents : List AgentSummary)
      → load files codec disk path ≡ ok agents
      → AreDistinct agents × All (λ agent. as_disconnected agent ≡ agent) agents
  unfolding load restore
  load-AreDistinct codec disk path agents h =
      let (there, e, h1) =
        and_then-eq-ok (validate_existing_private_file (files.symlink_metadata disk path)) _ agents
          h in
      elim (Bool-cases there) [
        | inr absent ↦
            subst (λ l. AreDistinct l × All (λ s. as_disconnected s ≡ s) l)
              (ok-injective (rw absent at h1)) (tt, tt)
        | inl present ↦
            let (encoded, e2, h2) =
              and_then-eq-ok (ok_or (files.contents disk path) io) _ agents (rw present at h1) in
            elim (Bool-cases (ltb max_registry_bytes (length encoded))) [
              | inl long ↦ absurd (err-ok (rw long at h2))
              | inr short ↦
                  let (document, e3, h3) =
                    and_then-eq-ok (ok_or (codec.decode encoded) json) _ agents (rw short at h2) in
                  restore-AreDistinct codec.is_absolute document agents h3
            ]
      ]
