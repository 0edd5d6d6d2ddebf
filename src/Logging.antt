-- ===== src/Logging.antt =====
-- api/app/core/logging.py: what becomes of the `extra=` of a log call, up to the line that is written. A
-- dictionary is a function from its keys; an order of keys matters only in `extra`, which is a list.

pub mod Kept
use Prim.Native.String.{◌++◌ as str_append}
use replay_forge.Base.{
  ℕ, ◌<◌, ltb, String, Bool, true, false, List, [], ◌∷◌, Option, none, some, str_eq, if◌then◌else◌,
  count_by, ◌||◌,
}

abbrev pub Dict : Type 0 → Type 0
Dict V = String → Option V

module _ {V : Type 0} where
  abbrev pub empty_dict : Dict V
  empty_dict key = none

  -- `d[k] = v`
  abbrev pub put : String → V → Dict V → Dict V
  put k v d key = if str_eq k key then some v else d key

-- `_RESERVED_LOGRECORD_ATTRS`, which is also what `JsonFormatter.format` leaves out.
abbrev pub reserved_attrs : List String
reserved_attrs =
    "name" ∷ "msg" ∷ "args" ∷ "levelname" ∷ "levelno" ∷ "pathname" ∷ "filename" ∷ "module"
    ∷ "exc_info" ∷ "exc_text" ∷ "stack_info" ∷ "lineno" ∷ "funcName" ∷ "created" ∷ "msecs"
    ∷ "relativeCreated" ∷ "thread" ∷ "threadName" ∷ "processName" ∷ "process" ∷ "message" ∷ []

abbrev pub is_among : String → List String → Bool
is_among key [] = false
is_among key (k ∷ ks) = if str_eq key k then true else is_among key ks

unfoldable pub is_reserved : String → Bool
is_reserved key = is_among key reserved_attrs

-- `f"x_{key}" if key in _RESERVED_LOGRECORD_ATTRS else key`
unfoldable pub rename : String → String
rename key = if is_reserved key then str_append "x_" key else key

module _ {V : Type 0} where
  -- The loop of `_safe_make_record`, into the dictionary so far.
  unfoldable pub clean_extra : List (String × V) → Dict V → Dict V
  clean_extra [] clean = clean
  clean_extra ((key, value) ∷ rest) clean = clean_extra rest (put (rename key) value clean)

  -- What `Logger.makeRecord` of Python documents of its `extra`: a key that is "message", "asctime" or
  -- an attribute of the record raises KeyError, and the others become attributes. `keys` are those of
  -- `extra`.
  abbrev pub taken_by : Option V → String → Bool
  taken_by none key = str_eq key "message" || str_eq key "asctime"
  taken_by (some v) key = true

  abbrev pub is_taken : Dict V → String → Bool
  is_taken attributes key = taken_by (attributes key) key

  abbrev pub any_taken : Dict V → List String → Bool
  any_taken attributes [] = false
  any_taken attributes (key ∷ keys) = is_taken attributes key || any_taken attributes keys

  abbrev pub or_attribute : Option V → Option V → Option V
  or_attribute none old = old
  or_attribute (some v) old = some v

  abbrev pub make_record : Dict V → List String → Dict V → Option (Dict V)
  make_record attributes keys extra =
      if any_taken attributes keys
      then none
      else some (λ key. or_attribute (extra key) (attributes key))

  abbrev pub renamed_keys : List (String × V) → List String
  renamed_keys [] = []
  renamed_keys ((key, value) ∷ rest) = rename key ∷ renamed_keys rest

  -- `_safe_make_record`, for a record that has `attributes` before; `none` is the KeyError.
  unfoldable pub safe_make_record : Dict V → List (String × V) → Option (Dict V)
  safe_make_record attributes extra =
      make_record attributes (renamed_keys extra) (clean_extra extra empty_dict)

  -- The loop of `JsonFormatter.format` over the attributes, into the payload so far.
  unfoldable pub attach : Dict V → Dict V → Dict V
  attach log_record payload key =
      if is_reserved key then payload key else or_attribute (log_record key) (payload key)

-- `{k: v for k, v in payload.items() if v is not None}`, where `none` as a value is `None`
abbrev pub without_none : {V : Type 0} → Option (Option V) → Option V
without_none none = none
without_none (some none) = none
without_none (some (some v)) = some v

-- `JsonFormatter.format`, up to the text of the JSON: `payload` has the eight keys that the formatter
-- fills, and the exception.
unfoldable pub format : {V : Type 0} → Dict (Option V) → Dict (Option V) → Dict V
format payload log_record key = without_none (attach log_record payload key)
