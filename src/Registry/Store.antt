-- ===== src/Registry/Store.antt =====
-- registry.rs: loading and persisting. The file system is a parameter, with what std::fs documents of
-- the calls: each gives the file system after it, and whether it succeeded.
use nvim_agents_zzz.Prelude.{
  ℕ, ◌%◌, ◌≡◌, ◌≢◌, String, Bool, true, false, not, Option, none, some, List, [], ◌∷◌, ◌++◌, map,
  if◌then◌else◌, ltb, length, ◌==◌, Result, ok, err, and_then, ok_or,
}
use nvim_agents_zzz.Protocol.{AgentSummary}
use nvim_agents_zzz.Registry.{
  RegistryDocument, RegistryError, io, json, unsafe, registry_agent, registry_schema_version,
  max_registry_bytes, max_registry_agents, restore,
}

pub data FileType : Type 0 where
  regular directory other : FileType

pub record Metadata : Type 0 where
  pub file_type : FileType
  pub mode : ℕ
  pub len : ℕ

pub data Lookup : Type 0 where
  found : Metadata → Lookup
  not_found io_failed : Lookup

pub record FileSystem : Type 1 where
  pub Disk : Type 0
  pub symlink_metadata : Disk → String → Lookup
  pub contents : Disk → String → Option (List ℕ)
  pub create_dir_all : Disk → String → Disk × Bool
  pub set_permissions : Disk → String → ℕ → Disk × Bool
  pub create_new : Disk → String → Disk × Bool
  pub write_all : Disk → String → List ℕ → Disk × Bool
  pub sync_all : Disk → String → Disk × Bool
  pub rename : Disk → String → String → Disk × Bool
  pub remove_file : Disk → String → Disk × Bool
  pub create_dir_all_contents :
      (d : Disk) (p q : String) → contents (create_dir_all d p).0 q ≡ contents d q
  pub set_permissions_contents :
      (d : Disk) (p q : String) (m : ℕ) → contents (set_permissions d p m).0 q ≡ contents d q
  pub set_permissions_mode :
      (d : Disk) (p : String) (m : ℕ) (bytes : List ℕ)
      → contents d p ≡ some bytes
      → (set_permissions d p m).1 ≡ true
      → symlink_metadata (set_permissions d p m).0 p
        ≡ found (record { file_type = regular; mode = m; len = length bytes })
  pub sync_all_metadata :
      (d : Disk) (p q : String) → symlink_metadata (sync_all d p).0 q ≡ symlink_metadata d q
  pub sync_all_contents : (d : Disk) (p q : String) → contents (sync_all d p).0 q ≡ contents d q
  -- a file that is made is empty, one that is written grows, and no other file changes
  pub create_new_made :
      (d : Disk) (p : String) → (create_new d p).1 ≡ true → contents (create_new d p).0 p ≡ some []
  pub create_new_other :
      (d : Disk) (p q : String) → p ≢ q → contents (create_new d p).0 q ≡ contents d q
  pub write_all_written :
      (d : Disk) (p : String) (old bytes : List ℕ)
      → contents d p ≡ some old
      → (write_all d p bytes).1 ≡ true
      → contents (write_all d p bytes).0 p ≡ some (old ++ bytes)
  pub write_all_other :
      (d : Disk) (p q : String) (bytes : List ℕ)
      → p ≢ q
      → contents (write_all d p bytes).0 q ≡ contents d q
  -- `rename` replaces its target at once, or does nothing
  pub rename_replaced :
      (d : Disk) (p q : String)
      → (rename d p q).1 ≡ true
      → contents (rename d p q).0 q ≡ contents d p
  pub rename_failed :
      (d : Disk) (p q r : String)
      → (rename d p q).1 ≡ false
      → contents (rename d p q).0 r ≡ contents d r
  pub remove_file_other :
      (d : Disk) (p q : String) → p ≢ q → contents (remove_file d p).0 q ≡ contents d q

-- The bits for group and others are clear.
abbrev pub is_owner_only : ℕ → Bool
is_owner_only mode = mode % 64 == 0

abbrev is_regular : FileType → Bool
is_regular regular = true
is_regular t = false

abbrev is_directory : FileType → Bool
is_directory directory = true
is_directory t = false

-- Whether a private file is there.
unfoldable pub validate_existing_private_file : Lookup → Result Bool RegistryError
validate_existing_private_file not_found = ok false
validate_existing_private_file io_failed = err io
validate_existing_private_file (found metadata) =
    if not (is_regular metadata.file_type)
    then err (unsafe "registry must be a regular file")
    else if not (is_owner_only metadata.mode)
    then err (unsafe "registry file must be owner-only")
    else ok true

-- The JSON of a document, and the document of a JSON text, which may end in white space.
pub record Codec : Type 0 where
  pub encode : RegistryDocument → Option (List ℕ)
  pub decode : List ℕ → Option RegistryDocument
  pub decode-encode :
      (document : RegistryDocument) (bytes : List ℕ)
      → encode document ≡ some bytes
      → decode (bytes ++ 10 ∷ []) ≡ some document
  pub is_absolute : String → Bool
  pub parent : String → Option String

unfoldable pub document_of : String → List AgentSummary → RegistryDocument
document_of now agents = record {
  schema_version = registry_schema_version;
  updated_at = now;
  agents = map registry_agent agents;
}

module _ (files : FileSystem) where
  open files use {Disk}

  -- The check that stands last in `ensure_private_directory`.
  abbrev pub check_directory : Lookup → Result (Unit {0}) RegistryError
  check_directory (found metadata) =
      if not (is_directory metadata.file_type)
      then err (unsafe "parent is not a directory")
      else if not (is_owner_only metadata.mode)
      then err (unsafe "directory must be owner-only")
      else ok tt
  check_directory lookup = err io

  -- A step of the disk that may fail.
  abbrev pub attempt :
      Disk × Bool
      → (Disk → Disk × Result (Unit {0}) RegistryError)
      → Disk × Result (Unit {0}) RegistryError
  attempt (d, true) k = k d
  attempt (d, false) k = (d, err io)

  -- The writes of `persist`, up to the first that fails.
  unfoldable pub write_through :
      Disk → String → String → String → List ℕ → Disk × Result (Unit {0}) RegistryError
  write_through disk parent temporary path encoded =
      attempt (files.create_new disk temporary) (λ d1.
        attempt (files.write_all d1 temporary encoded) (λ d2.
          attempt (files.write_all d2 temporary (10 ∷ [])) (λ d3.
            attempt (files.sync_all d3 temporary) (λ d4.
              attempt (files.rename d4 temporary path) (λ d5.
                attempt (files.set_permissions d5 path 384)
                  (λ d6. attempt (files.sync_all d6 parent) (λ d7. (d7, ok tt))))))))

  abbrev pub cleaned :
      String → Disk × Result (Unit {0}) RegistryError → Disk × Result (Unit {0}) RegistryError
  cleaned temporary (disk, ok done) = (disk, ok done)
  cleaned temporary (disk, err e) = ((files.remove_file disk temporary).0, err e)

module _ (files : FileSystem) (codec : Codec) where
  open files use {Disk, symlink_metadata, contents}

  unfoldable pub ensure_private_directory : Disk → String → Disk × Result (Unit {0}) RegistryError
  ensure_private_directory disk path =
      if not (codec.is_absolute path)
      then (disk, err (unsafe "directory must be absolute"))
      else elim (symlink_metadata disk path) [
        | found metadata ↦ (disk, check_directory files (found metadata))
        | not_found ↦ attempt files (files.create_dir_all disk path) (λ made.
            attempt files (files.set_permissions made path 448)
              (λ private. (private, check_directory files (symlink_metadata private path))))
        | io_failed ↦ (disk, err io)
      ]

  -- `RegistryStore::open`, up to the store itself
  unfoldable pub open_store : Disk → String → Disk × Result (Unit {0}) RegistryError
  unfolding ensure_private_directory validate_existing_private_file
  open_store disk path =
      if not (codec.is_absolute path)
      then (disk, err (unsafe "path must be absolute"))
      else elim (codec.parent path) [
        | none ↦ (disk, err (unsafe "path must have a parent directory"))
        | some parent ↦
            let (made, checked) = ensure_private_directory disk parent in
            (
              made,
              and_then checked (λ _.
                  and_then (validate_existing_private_file (symlink_metadata made path))
                    (λ _. ok tt)),
            )
      ]

  -- What `persist` writes, or why it writes nothing.
  unfoldable pub encoded_document :
      Disk → String → String → List AgentSummary → Result (List ℕ) RegistryError
  unfolding validate_existing_private_file document_of
  encoded_document disk path now agents =
      if ltb max_registry_agents (length agents)
      then err (unsafe "agent count exceeds the limit")
      else and_then (validate_existing_private_file (symlink_metadata disk path)) (λ _.
        and_then (ok_or (codec.encode (document_of now agents)) json) (λ encoded.
          if ltb max_registry_bytes (length encoded)
          then err (unsafe "encoded registry exceeds the size limit")
          else ok encoded))

  unfoldable pub persist :
      Disk → String → String → String → List AgentSummary → Disk × Result (Unit {0}) RegistryError
  unfolding encoded_document ensure_private_directory write_through
  persist disk path temporary now agents = elim (encoded_document disk path now agents) [
    | err e ↦ (disk, err e)
    | ok encoded ↦ elim (codec.parent path) [
      | none ↦ (disk, err (unsafe "path must have a parent directory"))
      | some parent ↦
          let (made, checked) = ensure_private_directory disk parent in
          elim checked [
            | err e ↦ (made, err e)
            | ok done ↦
                cleaned files temporary (write_through files made parent temporary path encoded)
          ]
    ]
  ]

  unfoldable pub load : Disk → String → Result (List AgentSummary) RegistryError
  unfolding validate_existing_private_file restore
  load disk path = and_then (validate_existing_private_file (symlink_metadata disk path)) (λ there.
      if not there
      then ok []
      else and_then (ok_or (contents disk path) io) (λ encoded.
        if ltb max_registry_bytes (length encoded)
        then err (unsafe "file exceeds the size limit")
        else and_then (ok_or (codec.decode encoded) json)
            (λ document. restore codec.is_absolute document)))
