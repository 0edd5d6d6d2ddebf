-- ===== src/Tests/Security.antt =====
-- The theorem of Security at a concrete input.
use replay_forge.Base.{◌≡◌, ◌↔◌, ◌⊎◌, refl, String, false, [], ◌∷◌, none, some, str_eq}
use replay_forge.Security.{Texts, Settings, Refusal, is_production, api_keys_list, require_api_key}
use replay_forge.Security.Access.{IsListed, require_api_key-none_iff}

-- Texts whose settings hold one key, and where no two keys have one hash.
abbrev texts : Texts
texts = record { sha256 = λ s. s; lower = λ s. s; split_strip = λ s. s ∷ "" ∷ [] }

abbrev production : Settings
production = record { environment = "production"; api_keys = "secret" }

wrong_key : require_api_key texts production (some "guess") ≡ some Refusal.invalid_key
unfolding require_api_key is_production api_keys_list
wrong_key = refl

require_api_key-none_iff_example : (require_api_key texts production (some "secret") ≡ none) ↔ (
    (is_production texts production ≡ false)
    ⊎ ((key : String) × (some "secret" ≡ some key)
        × (str_eq key "" ≡ false)
        × IsListed texts key (api_keys_list texts production)))
require_api_key-none_iff_example = require_api_key-none_iff texts production (some "secret")
