-- ===== src/Tests/Logging.antt =====
-- The theorem of Logging at a concrete log call, and the keys that it leaves out.
use replay_forge.Base.{◌≡◌, refl, String, false, List, [], ◌∷◌, Option, none, some, if◌then◌else◌}
use replay_forge.Logging.{
  Dict, empty_dict, is_reserved, rename, clean_extra, safe_make_record, format, put,
}
use replay_forge.Logging.Kept.{format-safe_make_record}

-- The attributes of a record, with a text for each.
abbrev attributes : Dict (Option String)
attributes key = if is_reserved key then some (some "set by Python") else none

abbrev payload : Dict (Option String)
payload = put "level" (some "INFO") (put "worker" none empty_dict)

abbrev extra : List (String × Option String)
extra = ("name", some "ada") ∷ ("count", some "3") ∷ ("worker", none) ∷ []

not_set : (k : String) → is_reserved k ≡ false → attributes k ≡ none
not_set k h = rw h refl

format-safe_make_record_example :
    (log_record : Dict (Option String)) × (safe_make_record attributes extra ≡ some log_record)
    × (format payload log_record (rename "name") ≡ some "ada")
unfolding rename is_reserved
format-safe_make_record_example =
    format-safe_make_record attributes payload extra "name" "ada" not_set (refl, (refl, (refl, tt)))
      ((refl, (refl, tt)), ((refl, tt), (tt, tt))) refl

-- A key "asctime" raises, and of two keys that come to one name the first is lost.
asctime_raises : safe_make_record attributes (("asctime", some "now") ∷ []) ≡ none
unfolding safe_make_record rename is_reserved clean_extra
asctime_raises = refl

one_is_lost :
    clean_extra {V = Option String}
      (("name", some "ada") ∷ ("x_name", some "bob") ∷ [])
      empty_dict
      "x_name"
    ≡ some (some "bob")
unfolding clean_extra rename is_reserved
one_is_lost = refl
