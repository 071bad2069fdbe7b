-- ===== src/Projection.antt =====
-- projection.rs: the models that a provider offers, as the client is shown them.
pub mod Catalog
use nvim_agents_zzz.Prelude.{
  ℕ, ◌≤◌, ◌≡◌, refl, sym, ap, ◌∙◌, subst, String, Bool, true, false, ◌&&◌, ◌||◌, not, Option, none,
  some, List, [], ◌∷◌, map, filter, take, any, length, min, length-take, leb, ltb, str_eq, eq_iff,
  if◌then◌else◌, unwrap_or, or_else, ◌>>=◌, All, some-injective, none-some, Bool-cases,
  Option-cases, inl, inr, ◌≢◌, true-false, arith, tests,
}
use nvim_agents_zzz.Text.{codes, is_control}
use nvim_agents_zzz.Protocol.{
  Value, get, as_str, as_bool, as_array, optional, fields, values, list_of, Provider, codex, claude,
}

unfoldable pub first_value : Value → List String → Option Value
first_value value [] = none
first_value value (k ∷ ks) = or_else (get value k) (first_value value ks)

unfoldable pub first_string : Value → List String → Option String
unfolding first_value
first_string value keys = first_value value keys >>= as_str

-- Not empty, and of at most so many characters.
abbrev pub is_within : ℕ → String → Bool
is_within n s = leb 1 (length (codes s)) && leb (length (codes s)) n

abbrev pub keep : (String → Bool) → String → Option String
keep p s = if p s then some s else none

abbrev pub is_id : String → Bool
is_id id = is_within 256 id && not (any is_control (codes id))

pub record Model : Type 0 where
  pub id : String
  pub display_name : String
  pub description : Option String
  pub is_default : Bool

abbrev pub is_hidden : Value → Bool
is_hidden record_ = unwrap_or (get record_ "hidden" >>= as_bool) false

-- The record's name for its model, where it may be listed.
unfoldable pub model_id : Value → Option String
model_id record_ = first_string record_ ("model" ∷ "id" ∷ []) >>= keep is_id

unfoldable pub model_of : Value → String → Model
model_of record_ id = record {
  id = id;
  display_name =
      unwrap_or
        (first_string record_ ("displayName" ∷ "display_name" ∷ "name" ∷ [])
          >>= keep (is_within 256))
        id;
  description = first_string record_ ("description" ∷ []) >>= keep (is_within 4096);
  is_default =
      unwrap_or (or_else (get record_ "isDefault") (get record_ "is_default") >>= as_bool) false;
}

-- One record, with the names that were listed before it.
unfoldable pub listed : List String → Value → Option Model
listed seen record_ =
    model_id record_ >>= λ id. if any (str_eq id) seen then none else some (model_of record_ id)

-- The records in turn.
unfoldable pub models_from : List String → List Value → List Model
models_from seen [] = []
models_from seen (record_ ∷ rest) = elim (listed seen record_) as (λ _. List Model) [
  | none ↦ models_from seen rest
  | some model ↦ model ∷ models_from (model.id ∷ seen) rest
]

abbrev model_value : Model → Value
model_value model = Value.object (
    fields (
      ("id", Value.string model.id)
      ∷ ("display_name", Value.string model.display_name)
      ∷ ("description", optional model.description)
      ∷ ("is_default", Value.bool model.is_default)
      ∷ []))

abbrev provider_word : Provider → String
provider_word codex = "codex"
provider_word claude = "claude"

abbrev pub model_list : Provider → List Model → Value
model_list provider models = Value.object (
    fields (
      ("provider", Value.string (provider_word provider))
      ∷ ("models", Value.array (values (map model_value models)))
      ∷ []))

abbrev pub records_of : Value → List Value
records_of result = elim (get result "data" >>= as_array) as (λ _. List Value) [
  | none ↦ []
  | some vs ↦ list_of vs
]

abbrev pub visible_of : Value → List Value
visible_of result = filter (λ r. not (is_hidden r)) (records_of result)

unfoldable pub provider_models : Provider → Value → Value
provider_models provider result =
    model_list provider (take 1000 (models_from [] (visible_of result)))
