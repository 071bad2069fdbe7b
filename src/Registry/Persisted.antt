-- ===== src/Registry/Persisted.antt =====
-- registry.rs: what `persist` leaves in the file of the registry, whichever of its steps fails.
use nvim_agents_zzz.Prelude.{
  ℕ, ◌≡◌, ◌≢◌, refl, sym, ap, ◌∙◌, String, Bool, true, false, ◌⊎◌, inl, inr, some, List, [], ◌∷◌,
  ◌++◌, length, Result, ok, err, and_then-eq-ok, err-ok, ok_or, ok_or-eq-ok, ok-injective, arith,
  ◌≤◌, ltb, Option-cases, Bool-cases, Result-cases,
}
use nvim_agents_zzz.Protocol.{AgentSummary}
use nvim_agents_zzz.Registry.{RegistryError, io, json, max_registry_agents, max_registry_bytes}
use nvim_agents_zzz.Registry.Store.{
  FileSystem, Codec, Metadata, Lookup, found, not_found, io_failed, regular, attempt, cleaned,
  write_through, ensure_private_directory, encoded_document, persist, document_of,
  validate_existing_private_file,
}

Lookup-cases : (l : Lookup) → ((m : Metadata) × (l ≡ found m)) ⊎ ((l ≡ not_found) ⊎ (l ≡ io_failed))
Lookup-cases (found m) = inl (m, refl)
Lookup-cases not_found = inr (inl refl)
Lookup-cases io_failed = inr (inr refl)

module _ (files : FileSystem) where
  open files use {Disk, contents, symlink_metadata}

  -- The file after a call that gave this result: as before, or the encoding whole.
  pub data Persisted (before : Disk) (path : String) (encoded : List ℕ) (after : Disk)
      : Result (Unit {0}) RegistryError → Type 0 where
    kept :
        {e : RegistryError}
        → contents after path ≡ contents before path
        → Persisted before path encoded after (err e)
    replaced :
        {e : RegistryError}
        → contents after path ≡ some (encoded ++ 10 ∷ [])
        → Persisted before path encoded after (err e)
    committed :
        contents after path ≡ some (encoded ++ 10 ∷ [])
        → symlink_metadata after path
          ≡ found (record { file_type = regular; mode = 384; len = length (encoded ++ 10 ∷ []) })
        → Persisted before path encoded after (ok tt)

  abbrev pub IsPersisted : Disk → String → List ℕ → Disk × Result (Unit {0}) RegistryError → Type 0
  IsPersisted before path encoded r = Persisted before path encoded r.0 r.1

  attempt-cases :
      (P : Disk × Result (Unit {0}) RegistryError → Type 0) (s : Disk × Bool)
      (k : Disk → Disk × Result (Unit {0}) RegistryError)
      → (s.1 ≡ false → P (s.0, err io))
      → (s.1 ≡ true → P (k s.0))
      → P (attempt files s k)
  attempt-cases P (d, true) k hf ht = ht refl
  attempt-cases P (d, false) k hf ht = hf refl

  -- The steps after the rename.
  finish-IsPersisted :
      (before d : Disk) (parent path : String) (encoded : List ℕ)
      → contents d path ≡ some (encoded ++ 10 ∷ [])
      → IsPersisted before path encoded (
          attempt files
            (files.set_permissions d path 384)
            (λ d6. attempt files (files.sync_all d6 parent) (λ d7. (d7, ok tt))))
  finish-IsPersisted before d parent path encoded h =
      attempt-cases (IsPersisted before path encoded) (files.set_permissions d path 384) _
        (λ _. replaced (files.set_permissions_contents d path path 384 ∙ h))
        (λ set.
          attempt-cases (IsPersisted before path encoded)
            (files.sync_all (files.set_permissions d path 384).0 parent) _
            (λ _. replaced (
              files.sync_all_contents _ parent path
              ∙ files.set_permissions_contents d path path 384
              ∙ h))
            (λ _.
              committed
                (files.sync_all_contents _ parent path
                  ∙ files.set_permissions_contents d path path 384
                  ∙ h)
                (files.sync_all_metadata _ parent path
                  ∙ files.set_permissions_mode d path 384 _ h set)))

  write_through-IsPersisted :
      (disk : Disk) (parent temporary path : String) (encoded : List ℕ)
      → temporary ≢ path
      → IsPersisted disk path encoded (write_through files disk parent temporary path encoded)
  unfolding write_through
  write_through-IsPersisted disk parent temporary path encoded other =
      let d1 = (files.create_new disk temporary).0 in
      let k1 : contents d1 path ≡ contents disk path =
        files.create_new_other disk temporary path other in
      let d2 = (files.write_all d1 temporary encoded).0 in
      let k2 : contents d2 path ≡ contents disk path =
        files.write_all_other d1 temporary path encoded other ∙ k1 in
      let d3 = (files.write_all d2 temporary (10 ∷ [])).0 in
      let k3 : contents d3 path ≡ contents disk path =
        files.write_all_other d2 temporary path (10 ∷ []) other ∙ k2 in
      let d4 = (files.sync_all d3 temporary).0 in
      let k4 : contents d4 path ≡ contents disk path =
        files.sync_all_contents d3 temporary path ∙ k3 in
      attempt-cases (IsPersisted disk path encoded) (files.create_new disk temporary) _
        (λ _. kept k1)
        (λ made.
          attempt-cases (IsPersisted disk path encoded) (files.write_all d1 temporary encoded) _
            (λ _. kept k2)
            (λ first.
              attempt-cases (IsPersisted disk path encoded) (files.write_all d2 temporary (10 ∷ []))
                _ (λ _. kept k3)
                (λ second.
                  attempt-cases (IsPersisted disk path encoded) (files.sync_all d3 temporary) _
                    (λ _. kept k4)
                    (λ _.
                      attempt-cases (IsPersisted disk path encoded) (files.rename d4 temporary path)
                        _ (λ failed. kept (files.rename_failed d4 temporary path path failed ∙ k4))
                        (λ renamed. finish-IsPersisted disk _ parent path encoded (
                          files.rename_replaced d4 temporary path renamed
                          ∙ files.sync_all_contents d3 temporary temporary
                          ∙ files.write_all_written d2 temporary encoded (10 ∷ [])
                              (files.write_all_written d1 temporary [] encoded
                                (files.create_new_made disk temporary made) first)
                              second))))))

  cleaned-IsPersisted :
      (disk : Disk) (temporary path : String) (encoded : List ℕ)
      (r : Disk × Result (Unit {0}) RegistryError)
      → temporary ≢ path
      → IsPersisted disk path encoded r
      → IsPersisted disk path encoded (cleaned files temporary r)
  cleaned-IsPersisted disk temporary path encoded (d, err e) other (kept h) =
      kept (files.remove_file_other d temporary path other ∙ h)
  cleaned-IsPersisted disk temporary path encoded (d, err e) other (replaced h) =
      replaced (files.remove_file_other d temporary path other ∙ h)
  cleaned-IsPersisted disk temporary path encoded (d, ok done) other (committed h m) = committed h m

  before-IsPersisted :
      (disk made : Disk) (path : String) (encoded : List ℕ)
      (r : Disk × Result (Unit {0}) RegistryError)
      → contents made path ≡ contents disk path
      → IsPersisted made path encoded r
      → IsPersisted disk path encoded r
  before-IsPersisted disk made path encoded (d, err e) same (kept h) = kept (h ∙ same)
  before-IsPersisted disk made path encoded (d, err e) same (replaced h) = replaced h
  before-IsPersisted disk made path encoded (d, ok done) same (committed h m) = committed h m

  -- Making the directory changes no file.
  ensure_private_directory-contents :
      (codec : Codec) (disk : Disk) (directory path : String)
      → contents (ensure_private_directory files codec disk directory).0 path ≡ contents disk path
  unfolding ensure_private_directory
  ensure_private_directory-contents codec disk directory path =
      elim (Bool-cases (codec.is_absolute directory)) [
        | inr h ↦ rw h refl
        | inl h ↦ elim (Lookup-cases (symlink_metadata disk directory)) [
          | inl m ↦ rw (h, m.1) refl
          | inr (inl m) ↦
              rw (h, m)
                (attempt-cases (λ r. contents r.0 path ≡ contents disk path)
                  (files.create_dir_all disk directory) _
                  (λ _. files.create_dir_all_contents disk directory path)
                  (λ _.
                    attempt-cases (λ r. contents r.0 path ≡ contents disk path)
                      (files.set_permissions (files.create_dir_all disk directory).0 directory 448)
                      _
                      (λ _.
                        files.set_permissions_contents _ directory path 448
                        ∙ files.create_dir_all_contents disk directory path)
                      (λ _.
                        files.set_permissions_contents _ directory path 448
                        ∙ files.create_dir_all_contents disk directory path)))
          | inr (inr m) ↦ rw (h, m) refl
        ]
      ]

  encoded_document-encode :
      (codec : Codec) (disk : Disk) (path now : String) (agents : List AgentSummary)
      (encoded : List ℕ)
      → encoded_document files codec disk path now agents ≡ ok encoded
      → (codec.encode (document_of now agents) ≡ some encoded)
        × (length agents ≤ max_registry_agents)
        × (length encoded ≤ max_registry_bytes)
  unfolding encoded_document
  encoded_document-encode codec disk path now agents encoded h =
      elim (Bool-cases (ltb max_registry_agents (length agents))) [
        | inl many ↦ absurd (err-ok (rw many at h))
        | inr few ↦
            let (_, _, h2) =
              and_then-eq-ok (validate_existing_private_file (symlink_metadata disk path)) _ encoded
                (rw few at h) in
            let (bytes, e, h3) =
              and_then-eq-ok (ok_or (codec.encode (document_of now agents)) json) _ encoded h2 in
            elim (Bool-cases (ltb max_registry_bytes (length bytes))) [
              | inl long ↦ absurd (err-ok (rw long at h3))
              | inr short ↦
                  let same : bytes ≡ encoded = ok-injective (rw short at h3) in
                  (
                    ok_or-eq-ok _ json _ e ∙ ap some same,
                    ground arith,
                    rw (sym same) (ground arith),
                  )
            ]
      ]

  persist-IsPersisted :
      (codec : Codec) (disk : Disk) (path temporary now : String) (agents : List AgentSummary)
      (encoded : List ℕ)
      → temporary ≢ path
      → encoded_document files codec disk path now agents ≡ ok encoded
      → IsPersisted disk path encoded (persist files codec disk path temporary now agents)
  unfolding persist
  persist-IsPersisted codec disk path temporary now agents encoded other h =
      elim (Option-cases (codec.parent path)) [
        | inl n ↦ rw (h, persist, n) (kept refl)
        | inr (parent, p) ↦
            elim (Result-cases (ensure_private_directory files codec disk parent).1) [
              | inr (e, c) ↦
                  rw (h, persist, p, c)
                    (kept (ensure_private_directory-contents codec disk parent path))
              | inl (done, c) ↦
                  rw (h, persist, p, c)
                    (before-IsPersisted disk _ path encoded _
                      (ensure_private_directory-contents codec disk parent path)
                      (cleaned-IsPersisted _ temporary path encoded _ other (
                        write_through-IsPersisted
                          (ensure_private_directory files codec disk parent).0 parent temporary path
                          encoded other)))
            ]
      ]

  -- The call fails and the file is as before, or the encoding of these agents was ready to be written
  -- and the file is as before or holds it whole, as it does when the call succeeds.
  pub persist-IsAtomic :
      (codec : Codec) (disk : Disk) (path temporary now : String) (agents : List AgentSummary)
      → temporary ≢ path
      → ((e : RegistryError) × (persist files codec disk path temporary now agents ≡ (disk, err e)))
        ⊎ ((encoded : List ℕ) × (codec.encode (document_of now agents) ≡ some encoded)
            × (length agents ≤ max_registry_agents)
            × (length encoded ≤ max_registry_bytes)
            × IsPersisted disk path encoded (persist files codec disk path temporary now agents))
  unfolding persist
  persist-IsAtomic codec disk path temporary now agents other =
      elim (Result-cases (encoded_document files codec disk path now agents)) [
        | inr (e, h) ↦ inl (e, rw (h, persist) refl)
        | inl (encoded, h) ↦
            let (e, few, short) = encoded_document-encode codec disk path now agents encoded h in
            inr (
              encoded,
              e,
              few,
              short,
              persist-IsPersisted codec disk path temporary now agents encoded other h,
            )
      ]
