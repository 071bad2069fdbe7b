-- ===== src/Tests/Projection.antt =====
-- A provider's answer with a model that comes twice.
use nvim_agents_zzz.Prelude.{◌≡◌, List, [], ◌∷◌}
use nvim_agents_zzz.Protocol.{Value, claude, fields, values}
use nvim_agents_zzz.Projection.{Model, model_list, provider_models}
use nvim_agents_zzz.Projection.Catalog.{IsCatalog, provider_models-IsCatalog}

abbrev large : Value
large = Value.object (fields (("id", Value.string "large") ∷ []))

abbrev answer : Value
answer = Value.object (fields (("data", Value.array (values (large ∷ large ∷ []))) ∷ []))

provider_models-IsCatalog_example :
    (models : List Model) × (provider_models claude answer ≡ model_list claude models)
    × IsCatalog answer models
provider_models-IsCatalog_example = provider_models-IsCatalog claude answer
