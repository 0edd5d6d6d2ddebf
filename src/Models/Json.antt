-- ===== src/Models/Json.antt =====
-- JSON values, as the columns `payload_json` and `metadata_json` hold them, and Python's truth value
-- of one. Numbers are integers.
use replay_forge.Base.{ℕ, zero, suc, String, Bool, true, false, not, if◌then◌else◌, str_eq}

-- `negsuc n` is -(n + 1).
pub data ℤ : Type 0 where
  pos : ℕ → ℤ
  negsuc : ℕ → ℤ

mutual
  pub data Json : Type 0 where
    null : Json
    bool : Bool → Json
    num : ℤ → Json
    str : String → Json
    arr : Items → Json
    obj : Fields → Json

  pub data Items : Type 0 where
    nil : Items
    cons : Json → Items → Items

  pub data Fields : Type 0 where
    end : Fields
    field : String → Json → Fields → Fields

-- `bool(v)`
abbrev pub truthy : Json → Bool
truthy null = false
truthy (bool b) = b
truthy (num (pos zero)) = false
truthy (num (pos (suc n))) = true
truthy (num (negsuc n)) = true
truthy (str s) = not (str_eq s "")
truthy (arr nil) = false
truthy (arr (cons v vs)) = true
truthy (obj end) = false
truthy (obj (field k v fs)) = true

-- `d.get(key)`; a missing key gives `None`.
abbrev pub get : String → Fields → Json
get key end = null
get key (field k v fs) = if str_eq k key then v else get key fs
