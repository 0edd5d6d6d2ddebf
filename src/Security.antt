-- ===== src/Security.antt =====
-- api/app/core/security.py, and the settings of api/app/config.py that it reads: who may write,
-- and how large a body may be.
pub mod Access
use replay_forge.Base.{
  ℕ, ◌+◌, ◌-◌, ◌*◌, ◌≡◌, String, Bool, true, false, not, ◌&&◌, ◌||◌, List, [], ◌∷◌, ◌++◌, Option,
  none, some, ltb, leb, ◌==◌, str_eq, if◌then◌else◌, length, keep, map,
}

-- What the code calls of Python: `hashlib.sha256(key.encode()).hexdigest()`, and the reading of the
-- settings, `str.lower`, and `str.split(",")` with `str.strip`.
pub record Texts : Type 0 where
  pub sha256 : String → String
  pub lower : String → String
  pub split_strip : String → List String

pub record Settings : Type 0 where
  pub environment : String
  pub api_keys : String

-- What a request ends with before its handler is called.
pub data Refusal : Type 0 where
  keys_not_configured missing_key invalid_key : Refusal

abbrev pub status_code : Refusal → ℕ
status_code Refusal.keys_not_configured = 500
status_code Refusal.missing_key = 401
status_code Refusal.invalid_key = 403

module _ (texts : Texts) where
  unfoldable pub is_production : Settings → Bool
  is_production settings = str_eq (texts.lower settings.environment) "production"

  -- `[k.strip() for k in self.api_keys.split(",") if k.strip()]`
  unfoldable pub api_keys_list : Settings → List String
  api_keys_list settings = keep (λ k. not (str_eq k "")) (texts.split_strip settings.api_keys)

  abbrev pub api_keys_set : Settings → Bool
  api_keys_set settings = ltb 0 (length (api_keys_list settings))

  -- `any(hmac.compare_digest(provided_hash, _hash_key(k)) for k in keys)`
  abbrev pub any_match : String → List String → Bool
  any_match provided [] = false
  any_match provided (k ∷ ks) = str_eq provided (texts.sha256 k) || any_match provided ks

  -- `not x_api_key`: the header is missing or empty.
  abbrev pub check_key : List String → Option String → Option Refusal
  check_key keys none = some Refusal.missing_key
  check_key keys (some key) =
      if str_eq key ""
      then some Refusal.missing_key
      else if any_match (texts.sha256 key) keys
      then none
      else some Refusal.invalid_key

  -- `require_api_key`: `none` lets the request through.
  unfoldable pub require_api_key : Settings → Option String → Option Refusal
  require_api_key settings x_api_key =
      if not (is_production settings)
      then none
      else if not (api_keys_set settings)
      then some Refusal.keys_not_configured
      else check_key (api_keys_list settings) x_api_key

-- `MaxBodySizeMiddleware`: `content_length` is the header where it is there and only digits, as a
-- number; `true` is the answer 413.
unfoldable pub body_too_large : ℕ → Option ℕ → Bool
body_too_large max none = false
body_too_large max (some length) = ltb max length
