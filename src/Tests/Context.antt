-- ===== src/Tests/Context.antt =====
-- The editor context at a concrete input.
use nvim_agents_zzz.Prelude.{
  ◌≡◌, ◌≤◌, refl, true, false, none, some, [], ◌∷◌, length, All, ok, str_eq,
}
use nvim_agents_zzz.Protocol.{Value, Fields}
use nvim_agents_zzz.Broker.Context.{
  Paths, IsConfined, merge_input_contexts, push_contexts, validate_context,
  validate_context_collection, check_context, canonical_context_path, missing_part, exceeds,
  max_context_items, max_context_bytes, merge_input_contexts-IsConfined,
}

abbrev paths : Paths
paths = record {
  is_absolute = λ path. true;
  exists = λ path. true;
  canonicalize = λ path. some path;
  parent = λ path. none;
  file_name = λ path. none;
  join = λ path name. path;
  is_inside = λ path cwd. str_eq path "/work/a.rs";
  encoded_len = λ context. some 90;
  encoded_all_len = λ contexts. some 92;
}

abbrev buffer : Value
buffer = Value.object (
    Fields.field "kind" (Value.string "buffer") (
      Fields.field "payload"
        (Value.object (
          Fields.field "path" (Value.string "/work/a.rs")
            (Fields.field "text" (Value.string "fn main() {}") Fields.end)))
        Fields.end))

buffer-merged : merge_input_contexts paths [] (buffer ∷ []) "/work" ≡ ok (buffer ∷ [])
unfolding merge_input_contexts push_contexts validate_context validate_context_collection
    check_context canonical_context_path missing_part
buffer-merged = refl

merge_input_contexts-IsConfined_example :
    All (IsConfined paths "/work") (buffer ∷ [])
    × (length (buffer ∷ []) ≤ max_context_items)
    × (exceeds (some 92) max_context_bytes ≡ false)
merge_input_contexts-IsConfined_example =
    merge_input_contexts-IsConfined paths [] (buffer ∷ []) "/work" (buffer ∷ []) tt buffer-merged
