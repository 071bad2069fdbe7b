-- ===== src/Broker/Context.antt =====
-- embedded.rs: the editor context that comes with an input. The file system and serde are parameters.
use nvim_agents_zzz.Prelude.{
  ℕ, ◌≤◌, ◌≡◌, subst, String, Bool, true, false, ◌&&◌, ◌||◌, not, Option, none, some, List, [], ◌∷◌,
  ◌++◌, str_eq, if◌then◌else◌, ◌>>=◌, ltb, length, is_some, or_else, Result, ok, err, and_then,
  ok_or, and_then-eq-ok, ok_or-eq-ok, err-ok, ok-injective, Option-cases, All, All-append,
  Bool-cases, inl, inr, arith,
}
use nvim_agents_zzz.Protocol.{Value, get, as_str, as_array}

-- What the code asks of paths and the file system; `starts_with` on paths; and the length of the
-- JSON of a value and of values, if they can be encoded.
pub record Paths : Type 0 where
  pub is_absolute : String → Bool
  pub exists : String → Bool
  pub canonicalize : String → Option String
  pub parent : String → Option String
  pub file_name : String → Option String
  pub join : String → String → String
  pub is_inside : String → String → Bool
  pub encoded_len : Value → Option ℕ
  pub encoded_all_len : List Value → Option ℕ

abbrev pub max_context_bytes : ℕ
max_context_bytes = 524288

abbrev pub max_context_items : ℕ
max_context_items = 256

-- `as_object().is_some()`
abbrev is_object : Value → Bool
is_object (Value.object fields) = true
is_object v = false

abbrev as_object : Value → Option Value
as_object v = if is_object v then some v else none

-- `map_or(true, |encoded| encoded.len() > limit)`
abbrev pub exceeds : Option ℕ → ℕ → Bool
exceeds none limit = true
exceeds (some n) limit = ltb limit n

abbrev is_kind : String → Bool
is_kind kind =
    str_eq kind "buffer" || str_eq kind "range" || str_eq kind "diagnostics" || str_eq kind "diff"

-- The path that a context's payload names.
abbrev pub path_in : Value → Option String
path_in payload = or_else (get payload "path") (get payload "cwd") >>= as_str

-- The error of a payload without what its kind requires.
unfoldable pub missing_part : String → Value → Option String
missing_part kind payload =
    if (str_eq kind "buffer" || str_eq kind "range")
      && not (is_some (get payload "text" >>= as_str))
    then some "buffer and range context require text"
    else if str_eq kind "diagnostics" && not (is_some (get payload "diagnostics" >>= as_array))
    then some "diagnostics context requires a diagnostics array"
    else if str_eq kind "diff" && not (is_some (get payload "diff" >>= as_str))
    then some "diff context requires diff text"
    else none

module _ (paths : Paths) where
  -- A path that does not exist is resolved by its parent.
  unfoldable pub canonical_context_path : String → Result String String
  canonical_context_path raw =
      if not (paths.is_absolute raw)
      then err "editor context path must be absolute"
      else if paths.exists raw
      then ok_or (paths.canonicalize raw) "editor context path could not be resolved"
      else and_then (ok_or (paths.parent raw) "editor context path has no parent") (λ parent.
        and_then (ok_or (paths.canonicalize parent) "editor context parent does not exist")
          (λ resolved.
            and_then (ok_or (paths.file_name raw) "editor context path has no file name")
              (λ name. ok (paths.join resolved name))))

  -- The part of `validate_context` after the path is known.
  unfoldable pub check_context : Value → String → Value → String → String → Result Value String
  unfolding missing_part
  check_context context kind payload path cwd =
      if not (paths.is_inside path cwd)
      then err "editor context path escapes the agent cwd"
      else elim (missing_part kind payload) [
        | some error ↦ err error
        | none ↦
            if exceeds (paths.encoded_len context) max_context_bytes
            then err "editor context exceeds the size limit"
            else ok context
      ]

  unfoldable pub validate_context : Value → String → Result Value String
  unfolding check_context canonical_context_path
  validate_context context cwd =
      and_then (ok_or (as_object context) "context must be an object") (λ object.
        and_then (ok_or (get object "kind" >>= as_str) "context.kind must be a non-empty string")
          (λ kind.
            if not (is_kind kind)
            then err "context kind must be buffer, range, diagnostics, or diff"
            else and_then
                (ok_or (get object "payload" >>= as_object) "context.payload must be an object")
                (λ payload.
                  and_then (ok_or (path_in payload) "editor context must identify its path")
                    (λ raw_path.
                      and_then (canonical_context_path raw_path)
                        (λ path. check_context context kind payload path cwd)))))

  unfoldable pub validate_context_collection : List Value → Result (List Value) String
  validate_context_collection contexts =
      if ltb max_context_items (length contexts)
      then err "too many editor context items"
      else if exceeds (paths.encoded_all_len contexts) max_context_bytes
      then err "combined editor context exceeds the size limit"
      else ok contexts

  -- The loop of `merge_input_contexts`.
  unfoldable pub push_contexts : List Value → List Value → String → Result (List Value) String
  unfolding validate_context
  push_contexts contexts [] cwd = ok contexts
  push_contexts contexts (attachment ∷ rest) cwd =
      and_then (validate_context attachment cwd)
        (λ valid. push_contexts (contexts ++ valid ∷ []) rest cwd)

  unfoldable pub merge_input_contexts :
      List Value → List Value → String → Result (List Value) String
  unfolding push_contexts validate_context_collection
  merge_input_contexts pending attachments cwd =
      and_then (push_contexts pending attachments cwd) validate_context_collection

  -- A context whose path, resolved, is inside the agent's directory.
  pub record IsConfined (cwd : String) (context : Value) : Type 0 where
    pub object : Value
    pub payload : Value
    pub raw_path : String
    pub path : String
    pub is_context : as_object context ≡ some object
    pub has_payload : (get object "payload" >>= as_object) ≡ some payload
    pub has_path : path_in payload ≡ some raw_path
    pub resolves : canonical_context_path raw_path ≡ ok path
    pub inside : paths.is_inside path cwd ≡ true

  check_context-inside :
      (context : Value) (kind : String) (payload : Value) (path cwd : String) (valid : Value)
      → check_context context kind payload path cwd ≡ ok valid
      → (paths.is_inside path cwd ≡ true) × (context ≡ valid)
  unfolding check_context
  check_context-inside context kind payload path cwd valid h =
      elim (Bool-cases (paths.is_inside path cwd)) [
        | inr e ↦ absurd (err-ok (rw (e, check_context) at h))
        | inl e ↦ elim (Option-cases (missing_part kind payload)) [
          | inr (error, f) ↦ absurd (err-ok (rw (e, f) at h))
          | inl f ↦ elim (Bool-cases (exceeds (paths.encoded_len context) max_context_bytes)) [
            | inl g ↦ absurd (err-ok (rw (e, f, g) at h))
            | inr g ↦ (e, ok-injective (rw (e, f, g) at h))
          ]
        ]
      ]

  validate_context-IsConfined :
      (context : Value) (cwd : String) (valid : Value)
      → validate_context context cwd ≡ ok valid
      → IsConfined cwd valid
  unfolding validate_context
  validate_context-IsConfined context cwd valid h =
      let (object, e1, h1) =
        and_then-eq-ok (ok_or (as_object context) "context must be an object") _ valid h in
      let (kind, e2, h2) =
        and_then-eq-ok
          (ok_or (get object "kind" >>= as_str) "context.kind must be a non-empty string") _ valid
          h1 in
      elim (Bool-cases (is_kind kind)) [
        | inr k ↦ absurd (err-ok (rw k at h2))
        | inl k ↦
            let (payload, e3, h3) =
              and_then-eq-ok
                (ok_or (get object "payload" >>= as_object) "context.payload must be an object") _
                valid (rw k at h2) in
            let (raw_path, e4, h4) =
              and_then-eq-ok (ok_or (path_in payload) "editor context must identify its path") _
                valid h3 in
            let (path, e5, h5) = and_then-eq-ok (canonical_context_path raw_path) _ valid h4 in
            let (inside, same) = check_context-inside context kind payload path cwd valid h5 in
            subst (IsConfined cwd) same (record {
              object = object;
              payload = payload;
              raw_path = raw_path;
              path = path;
              is_context = ok_or-eq-ok (as_object context) _ object e1;
              has_payload = ok_or-eq-ok (get object "payload" >>= as_object) _ payload e3;
              has_path = ok_or-eq-ok (path_in payload) _ raw_path e4;
              resolves = e5;
              inside = inside;
            })
      ]

  push_contexts-IsConfined :
      (attachments contexts : List Value) (cwd : String) (merged : List Value)
      → All (IsConfined cwd) contexts
      → push_contexts contexts attachments cwd ≡ ok merged
      → All (IsConfined cwd) merged
  unfolding push_contexts
  push_contexts-IsConfined [] contexts cwd merged v h =
      subst (All (IsConfined cwd)) (ok-injective h) v
  push_contexts-IsConfined (attachment ∷ rest) contexts cwd merged v h =
      let (valid, e, h') = and_then-eq-ok (validate_context attachment cwd) _ merged h in
      push_contexts-IsConfined rest (contexts ++ valid ∷ []) cwd merged
        (All-append (IsConfined cwd) contexts (valid ∷ []) v
          (validate_context-IsConfined attachment cwd valid e, tt))
        h'

  -- If the contexts that waited are confined to the agent's directory, the contexts that an input is sent
  -- with are as well: no attachment's path leads outside. They are at most 256, and their JSON is at
  -- most 512 KiB long.
  pub merge_input_contexts-IsConfined :
      (pending attachments : List Value) (cwd : String) (merged : List Value)
      → All (IsConfined cwd) pending
      → merge_input_contexts pending attachments cwd ≡ ok merged
      → All (IsConfined cwd) merged
        × (length merged ≤ max_context_items)
        × (exceeds (paths.encoded_all_len merged) max_context_bytes ≡ false)
  unfolding merge_input_contexts validate_context_collection
  merge_input_contexts-IsConfined pending attachments cwd merged v h =
      let (contexts, e, h') = and_then-eq-ok (push_contexts pending attachments cwd) _ merged h in
      let confined = push_contexts-IsConfined attachments pending cwd contexts v e in
      elim (Bool-cases (ltb max_context_items (length contexts))) [
        | inl f ↦ absurd (err-ok (rw f at h'))
        | inr f ↦ elim (Bool-cases (exceeds (paths.encoded_all_len contexts) max_context_bytes)) [
          | inl g ↦ absurd (err-ok (rw (f, g) at h'))
          | inr g ↦
              let few : length contexts ≤ max_context_items = ground (arith, f) in
              subst
                (λ (cs : List Value).
                  All (IsConfined cwd) cs
                  × (length cs ≤ max_context_items)
                  × (exceeds (paths.encoded_all_len cs) max_context_bytes ≡ false))
                (ok-injective (rw (f, g) at h')) (confined, few, g)
        ]
      ]
