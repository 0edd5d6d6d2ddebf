-- ===== src/Logging/Kept.antt =====
-- A log call with `extra=` does not raise, and what it was given is in the line.
use Prim.Native.String.{◌++◌ as str_append}
use replay_forge.Base.{
  ◌≡◌, ◌∙◌, refl, sym, ap, subst, String, Bool, true, false, List, [], ◌∷◌, Option, none, some,
  arith, All, str_eq, eq_iff, if◌then◌else◌, Bool-cases, inl, inr, count_by,
}
use replay_forge.Logging.{
  Dict, empty_dict, put, reserved_attrs, is_among, is_reserved, rename, clean_extra, taken_by,
  is_taken, any_taken, or_attribute, renamed_keys, safe_make_record, attach, format,
}

is_among-All :
    (P : String → Type 0) (key : String) (keys : List String)
    → is_among key keys ≡ true
    → All P keys
    → P key
is_among-All P key [] h all = cc
is_among-All P key (k ∷ ks) h all = elim (Bool-cases (str_eq key k)) [
  | inl here ↦ subst P (sym ((eq_iff key k).0 here)) all.0
  | inr there ↦ is_among-All P key ks (ground arith) all.1
]

count_by-none :
    (q : String → Bool) (xs : List String) → count_by q xs ≡ 0 → All (λ x. q x ≡ false) xs
count_by-none q [] h = tt
count_by-none q (x ∷ xs) h = (ground arith, count_by-none q xs (ground arith))

prefixed_free : (key : String) → is_reserved key ≡ true → is_reserved (str_append "x_" key) ≡ false
unfolding is_reserved
prefixed_free key h =
    is_among-All (λ k. is_among (str_append "x_" k) reserved_attrs ≡ false) key reserved_attrs h
      (count_by-none (λ k. is_among (str_append "x_" k) reserved_attrs) reserved_attrs refl)

message_reserved : ¬ (is_reserved "message" ≡ false)
unfolding is_reserved
message_reserved h = cc

rename-free : (key : String) → is_reserved (rename key) ≡ false
unfolding rename
rename-free key = elim (Bool-cases (is_reserved key)) [
  | inl taken ↦ rw taken (prefixed_free key taken)
  | inr free ↦ rw free free
]

-- What `rename` gives is neither "message" nor, but for that key itself, "asctime".
rename-message : (key : String) → str_eq (rename key) "message" ≡ false
rename-message key = elim (Bool-cases (str_eq (rename key) "message")) [
  | inl same ↦
      let reserved =
        subst (λ k. is_reserved k ≡ false) ((eq_iff (rename key) "message").0 same)
          (rename-free key) in
      absurd (message_reserved reserved)
  | inr other ↦ other
]

rename-asctime :
    (key : String) → str_eq key "asctime" ≡ false → str_eq (rename key) "asctime" ≡ false
unfolding rename is_reserved
rename-asctime key plain = elim (Bool-cases (is_among key reserved_attrs)) [
  | inl taken ↦ rw taken (
      is_among-All (λ k. str_eq (str_append "x_" k) "asctime" ≡ false) key reserved_attrs taken
        (count_by-none (λ k. str_eq (str_append "x_" k) "asctime") reserved_attrs refl))
  | inr free ↦ rw free plain
]

module _ {V : Type 0} where
  abbrev pub lookup : String → List (String × V) → Option V
  lookup key [] = none
  lookup key ((k, v) ∷ rest) = if str_eq k key then some v else lookup key rest

  -- Different keys of `extra` have different names in the record.
  abbrev pub IsApart : List (String × V) → Type 0
  IsApart [] = Unit {0}
  IsApart ((k, v) ∷ rest) =
      All (λ (e : String × V). str_eq (rename e.0) (rename k) ≡ false) rest × IsApart rest

  -- No key is "asctime", which `_safe_make_record` leaves as it is.
  abbrev pub NoAsctime : List (String × V) → Type 0
  NoAsctime = All (λ (e : String × V). str_eq e.0 "asctime" ≡ false)

  clean_extra-other :
      (key : String) (extra : List (String × V)) (clean : Dict V)
      → All (λ (e : String × V). str_eq (rename e.0) key ≡ false) extra
      → clean_extra extra clean key ≡ clean key
  unfolding clean_extra
  clean_extra-other key [] clean h = refl
  clean_extra-other key ((k, v) ∷ rest) clean h =
      clean_extra-other key rest (put (rename k) v clean) h.1 ∙ rw h.0 refl

  clean_extra-lookup :
      (key : String) (extra : List (String × V)) (clean : Dict V) {v : V}
      → IsApart extra
      → lookup key extra ≡ some v
      → clean_extra extra clean (rename key) ≡ some v
  unfolding clean_extra
  clean_extra-lookup key [] clean apart h = cc
  clean_extra-lookup key ((k, w) ∷ rest) clean {v} apart h = elim (Bool-cases (str_eq k key)) [
    | inl here ↦
        let same = (eq_iff k key).0 here in
        let found : w ≡ v = ground arith in
        subst (λ j. clean_extra rest (put (rename k) w clean) (rename j) ≡ some v) same
          (clean_extra-other (rename k) rest (put (rename k) w clean) apart.0
            ∙ rw ((eq_iff (rename k) (rename k)).1 refl, found) refl)
    | inr there ↦ clean_extra-lookup key rest (put (rename k) w clean) apart.1 (ground arith)
  ]

  -- Of a key that `rename` gives, only "asctime" can be refused.
  not_taken :
      (attributes : Dict V) (key : String)
      → ((k : String) → is_reserved k ≡ false → attributes k ≡ none)
      → str_eq key "asctime" ≡ false
      → is_taken attributes (rename key) ≡ false
  not_taken attributes key own plain =
      ap (λ o. taken_by o (rename key)) (own (rename key) (rename-free key))
      ∙ rw (rename-message key, rename-asctime key plain) refl

  none_taken :
      (attributes : Dict V) (extra : List (String × V))
      → ((k : String) → is_reserved k ≡ false → attributes k ≡ none)
      → NoAsctime extra
      → any_taken attributes (renamed_keys extra) ≡ false
  none_taken attributes [] own plain = refl
  none_taken attributes ((k, v) ∷ rest) own plain =
      rw (not_taken attributes k own plain.0) (none_taken attributes rest own plain.1)

-- A log call never raises for its `extra`, whatever its keys, but for "asctime"; and whatever is given
-- under a key is in the line, under that key or, where the key is one of the record's own, under "x_" and
-- the key, if it is not None and no two keys come to one name.
pub format-safe_make_record :
    {V : Type 0} (attributes payload : Dict (Option V)) (extra : List (String × Option V))
    (key : String) (v : V)
    → ((k : String) → is_reserved k ≡ false → attributes k ≡ none)
    → NoAsctime extra
    → IsApart extra
    → lookup key extra ≡ some (some v)
    → (log_record : Dict (Option V)) × (safe_make_record attributes extra ≡ some log_record)
      × (format payload log_record (rename key) ≡ some v)
unfolding safe_make_record format attach
format-safe_make_record attributes payload extra key v own plain apart given = (
  λ k. or_attribute (clean_extra extra empty_dict k) (attributes k),
  rw (none_taken attributes extra own plain) refl,
  rw (rename-free key, clean_extra-lookup key extra empty_dict apart given) refl,
)
