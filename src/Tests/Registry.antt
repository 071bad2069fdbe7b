-- ===== src/Tests/Registry.antt =====
-- Concrete runs of the registry on a disk in memory.
use nvim_agents_zzz.Prelude.{
  ℕ, ◌≡◌, ◌≢◌, ◌≤◌, refl, sym, ap, ◌∙◌, String, Bool, true, false, Option, none, some, List, [],
  ◌∷◌, ◌++◌, map, length, str_eq, eq_iff, if◌then◌else◌, is_some, Bool-cases, ℕ_discrete, inl, inr,
  ◌⊎◌, ◌+◌, ltb, arith, ok, err, All,
}
use nvim_agents_zzz.Protocol.{
  AgentSummary, Provider, WorkspaceStrategy, AgentState, codex, shared, running,
}
use nvim_agents_zzz.Broker.Core.{durable}
use nvim_agents_zzz.Broker.Restored.{StartsWith, new_broker, new_broker-StartsWith}
use nvim_agents_zzz.Tests.Requests.{services, launching, host, no_events}
use nvim_agents_zzz.Registry.{
  RegistryAgent, restore, into_disconnected_summary, RegistryDocument, RegistryError, unsafe,
  registry_agent, valid_metadata, consistent_workspace, max_registry_bytes, max_registry_agents,
}
use nvim_agents_zzz.Text.{len, len_utf8, is_control}
use nvim_agents_zzz.Registry.Store.{
  FileSystem, Codec, Lookup, found, not_found, regular, directory, document_of, persist, load,
}
use nvim_agents_zzz.Registry.Persisted.{IsPersisted, persist-IsAtomic}
use nvim_agents_zzz.Registry.Roundtrip.{
  as_disconnected, AreDistinct, load-persist, load-AreDistinct,
}

true-false : true ≡ false → ⊥
true-false h = cc

data Entry : Type 0 where
  folder : ℕ → Entry
  file : ℕ → List ℕ → Entry

abbrev Memory : Type 0
Memory = String → Option Entry

abbrev put : Memory → String → Option Entry → Memory
put d p e q = if str_eq q p then e else d q

abbrev bytes_of : Option Entry → Option (List ℕ)
bytes_of (some (file m bytes)) = some bytes
bytes_of e = none

abbrev contents_of : Memory → String → Option (List ℕ)
contents_of d p = bytes_of (d p)

abbrev lookup : Option Entry → Lookup
lookup none = not_found
lookup (some (folder m)) = found (record { file_type = directory; mode = m; len = 0 })
lookup (some (file m bytes)) = found (record { file_type = regular; mode = m; len = length bytes })

abbrev with_mode : ℕ → Option Entry → Option Entry
with_mode m none = none
with_mode m (some (folder n)) = some (folder m)
with_mode m (some (file n bytes)) = some (file m bytes)

abbrev with_bytes : List ℕ → Option Entry → Option Entry
with_bytes more (some (file m bytes)) = some (file m (bytes ++ more))
with_bytes more e = e

put-same : (d : Memory) (p : String) (e : Option Entry) → put d p e p ≡ e
put-same d p e = ground (arith, eq_iff p p)

put-other : (d : Memory) (p q : String) (e : Option Entry) → p ≢ q → put d p e q ≡ d q
put-other d p q e h = ground (arith, eq_iff q p, h)

with_mode-bytes : (m : ℕ) (e : Option Entry) → bytes_of (with_mode m e) ≡ bytes_of e
with_mode-bytes m none = refl
with_mode-bytes m (some (folder n)) = refl
with_mode-bytes m (some (file n bytes)) = refl

put-contents :
    (d : Memory) (p q : String) (m : ℕ)
    → contents_of (put d p (with_mode m (d p))) q ≡ contents_of d q
put-contents d p q m = elim (Bool-cases (str_eq q p)) [
  | inr h ↦ rw h refl
  | inl h ↦ rw h (with_mode-bytes m (d p) ∙ ap (contents_of d) (sym ((eq_iff q p).0 h)))
]

with_mode-lookup :
    (m : ℕ) (e : Option Entry) (bytes : List ℕ)
    → bytes_of e ≡ some bytes
    → lookup (with_mode m e) ≡ found (record { file_type = regular; mode = m; len = length bytes })
with_mode-lookup m none bytes h = cc
with_mode-lookup m (some (folder n)) bytes h = cc
with_mode-lookup m (some (file n old)) bytes h = cc

with_bytes-written :
    (e : Option Entry) (old bytes : List ℕ)
    → bytes_of e ≡ some old
    → bytes_of (with_bytes bytes e) ≡ some (old ++ bytes)
with_bytes-written none old bytes h = cc
with_bytes-written (some (folder n)) old bytes h = cc
with_bytes-written (some (file n was)) old bytes h = cc

abbrev memory_create : Memory → String → Memory × Bool
memory_create d p = if is_some (d p) then (d, false) else (put d p (some (file 384 [])), true)

memory_create-made :
    (d : Memory) (p : String)
    → (memory_create d p).1 ≡ true
    → contents_of (memory_create d p).0 p ≡ some []
memory_create-made d p h = elim (Bool-cases (is_some (d p))) [
  | inl there ↦ absurd (true-false (sym (rw there at h)))
  | inr fresh ↦ rw fresh (ap bytes_of (put-same d p _))
]

memory_create-other :
    (d : Memory) (p q : String) → p ≢ q → contents_of (memory_create d p).0 q ≡ contents_of d q
memory_create-other d p q h = elim (Bool-cases (is_some (d p))) [
  | inl there ↦ rw there refl
  | inr fresh ↦ rw fresh (ap bytes_of (put-other d p q _ h))
]

none-some {ℓ} : {A : Type ℓ} {a : A} → none ≡ some a → ⊥
none-some h = cc

abbrev memory : FileSystem
memory = record {
  Disk = Memory;
  symlink_metadata = λ d p. lookup (d p);
  contents = contents_of;
  create_dir_all = λ d p. (d, false);
  set_permissions = λ d p m. (put d p (with_mode m (d p)), true);
  create_new = memory_create;
  write_all = λ d p bytes. (put d p (with_bytes bytes (d p)), true);
  sync_all = λ d p. (d, true);
  rename = λ d p q. (put (put d p none) q (d p), true);
  remove_file = λ d p. (put d p none, true);
  create_dir_all_contents = λ d p q. refl;
  set_permissions_contents = λ d p q m. put-contents d p q m;
  set_permissions_mode =
      λ d p m bytes h done. ap lookup (put-same d p _) ∙ with_mode-lookup m (d p) bytes h;
  sync_all_metadata = λ d p q. refl;
  sync_all_contents = λ d p q. refl;
  create_new_made = λ d p h. memory_create-made d p h;
  create_new_other = λ d p q h. memory_create-other d p q h;
  write_all_written =
      λ d p old bytes h done. ap bytes_of (put-same d p _) ∙ with_bytes-written (d p) old bytes h;
  write_all_other = λ d p q bytes h. ap bytes_of (put-other d p q _ h);
  rename_replaced = λ d p q done. ap bytes_of (put-same (put d p none) q _);
  rename_failed = λ d p q r h. absurd (true-false h);
  remove_file_other = λ d p q h. ap bytes_of (put-other d p q _ h);
}

Provider-discrete : Discrete Provider
Provider-discrete = hlevel

WorkspaceStrategy-discrete : Discrete WorkspaceStrategy
WorkspaceStrategy-discrete = hlevel

AgentState-discrete : Discrete AgentState
AgentState-discrete = hlevel

String-discrete : Discrete String
String-discrete s t = elim (Bool-cases (str_eq s t)) [
  | inl h ↦ yes ((eq_iff s t).0 h)
  | inr h ↦ no (λ e. true-false (sym ((eq_iff s t).1 e) ∙ h))
]

RegistryAgent-discrete : Discrete RegistryAgent
RegistryAgent-discrete = hlevel (String-discrete)

RegistryDocument-discrete : Discrete RegistryDocument
RegistryDocument-discrete = hlevel (ℕ_discrete, String-discrete)

abbrev agent : AgentSummary
agent = record {
  id = "a1";
  provider = codex;
  provider_session_id = some "s1";
  cwd = "/work";
  workspace_strategy = shared;
  worktree_path = none;
  managed_workspace = none;
  runtime = none;
  provider_options = record { model = some "m"; effort = none };
  title = "one";
  state = running;
  active_turn_id = some "t1";
  pending_approvals = 1;
  unread_events = 2;
  capabilities = [];
  created_at = "c";
  updated_at = "u";
}

abbrev document : RegistryDocument
document = document_of "now" (agent ∷ [])

unfoldable encode_one : RegistryDocument → Option (List ℕ)
encode_one d = elim (RegistryDocument-discrete d document) [
  | yes e ↦ some (123 ∷ 125 ∷ [])
  | no h ↦ none
]

decode_one-encode :
    (d : RegistryDocument) (bytes : List ℕ) → encode_one d ≡ some bytes → some document ≡ some d
unfolding encode_one
decode_one-encode d bytes h =
    elim (RegistryDocument-discrete d document)
        as (λ x.
          elim x as (λ y. Option (List ℕ)) [ yes e ↦ some (123 ∷ 125 ∷ []) | no k ↦ none ]
            ≡ some bytes
          → some document ≡ some d) [
            | yes e ↦ λ _. ap some (sym e)
            | no k ↦ λ bad. absurd (none-some bad)
          ]
      h

encode_one-document : encode_one document ≡ some (123 ∷ 125 ∷ [])
unfolding encode_one
encode_one-document =
    elim (RegistryDocument-discrete document document)
      as (λ x.
        elim x as (λ y. Option (List ℕ)) [ yes e ↦ some (123 ∷ 125 ∷ []) | no k ↦ none ]
        ≡ some (123 ∷ 125 ∷ [])) [ yes e ↦ refl | no k ↦ absurd (k refl) ]

abbrev json_of_one : Codec
json_of_one = record {
  encode = encode_one;
  decode = λ bytes. some document;
  decode-encode = decode_one-encode;
  is_absolute = λ path. true;
  parent = λ path. some "/s";
}

abbrev disk : Memory
disk path = if str_eq path "/s" then some (folder 448) else none

other_name : ◌≢◌ {A = String} "/s/t" "/s/r"
other_name h = true-false (sym ((eq_iff "/s/t" "/s/r").1 h))

persisted : (persist memory json_of_one disk "/s/r" "/s/t" "now" (agent ∷ [])).1 ≡ ok tt
unfolding persist
persisted = rw (encode_one-document, persist) refl

valid : valid_metadata (λ path. true) (registry_agent agent) ≡ true
unfolding valid_metadata registry_agent len len_utf8 is_control
valid = refl

consistent : consistent_workspace (λ path. true) (registry_agent agent) ≡ true
unfolding consistent_workspace registry_agent
consistent = refl

load-persist_example :
    (encoded : List ℕ) × (json_of_one.encode (document_of "now" (agent ∷ [])) ≡ some encoded)
    × (load memory json_of_one
          (persist memory json_of_one disk "/s/r" "/s/t" "now" (agent ∷ [])).0
          "/s/r"
        ≡ (if ltb max_registry_bytes (length encoded + 1)
            then err (unsafe "file exceeds the size limit")
            else ok (map as_disconnected (agent ∷ []))))
load-persist_example =
    load-persist memory json_of_one disk "/s/r" "/s/t" "now" (agent ∷ []) other_name
      ((valid, consistent), tt) (tt, tt) persisted

persist-IsAtomic_example :
    ((e : RegistryError) × (persist memory json_of_one disk "/s/r" "/s/t" "now" (agent ∷ [])
        ≡ (disk, err e)))
    ⊎ ((encoded : List ℕ) × (json_of_one.encode (document_of "now" (agent ∷ [])) ≡ some encoded)
        × (length (agent ∷ []) ≤ max_registry_agents)
        × (length encoded ≤ max_registry_bytes)
        × IsPersisted memory disk "/s/r" encoded
            (persist memory json_of_one disk "/s/r" "/s/t" "now" (agent ∷ [])))
persist-IsAtomic_example =
    persist-IsAtomic memory json_of_one disk "/s/r" "/s/t" "now" (agent ∷ []) other_name

abbrev stored : Memory
stored = put disk "/s/r" (some (file 384 (123 ∷ 125 ∷ 10 ∷ [])))

loaded : load memory json_of_one stored "/s/r" ≡ ok (as_disconnected agent ∷ [])
unfolding load document_of restore into_disconnected_summary as_disconnected registry_agent len
    len_utf8 is_control
loaded = refl

load-AreDistinct_example :
    AreDistinct (as_disconnected agent ∷ [])
    × All (λ a. as_disconnected a ≡ a) (as_disconnected agent ∷ [])
load-AreDistinct_example =
    load-AreDistinct memory json_of_one stored "/s/r" (as_disconnected agent ∷ []) loaded

new_broker-StartsWith_example :
    StartsWith services launching "now" host []
      (as_disconnected agent ∷ [])
      (new_broker services host [] durable no_events none (as_disconnected agent ∷ []) none)
new_broker-StartsWith_example =
    new_broker-StartsWith services launching "now" host [] memory json_of_one stored "/s/r" durable
      no_events none (as_disconnected agent ∷ []) none loaded
