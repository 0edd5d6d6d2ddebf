-- ===== src/Security/Access.antt =====
-- Who is let through to an endpoint that writes.
use replay_forge.Base.{
  ◌≡◌, ◌↔◌, ◌⊎◌, inl, inr, refl, ap, String, true, false, List, [], ◌∷◌, ◌++◌, Option, none, some,
  arith, ltb, str_eq, eq_iff, length, Bool-cases,
}
use replay_forge.Security.{
  Texts, Settings, is_production, api_keys_list, any_match, require_api_key,
}

-- A key whose hash is that of the given one stands in the list.
abbrev pub IsListed : Texts → String → List String → Type 0
IsListed texts key keys =
    (before : List String) × (k : String) × (after : List String) × (keys ≡ before ++ k ∷ after)
    × (texts.sha256 key ≡ texts.sha256 k)

module _ (texts : Texts) where
  listed_match :
      (key : String) (before : List String) (k : String) (after : List String)
      → texts.sha256 key ≡ texts.sha256 k
      → any_match texts (texts.sha256 key) (before ++ k ∷ after) ≡ true
  listed_match key [] k after same = ground (arith, eq_iff (texts.sha256 key) (texts.sha256 k))
  listed_match key (b ∷ bs) k after same = ground (arith, listed_match key bs k after same)

  match-IsListed :
      (key : String) (keys : List String)
      → any_match texts (texts.sha256 key) keys ≡ true
      → IsListed texts key keys
  match-IsListed key [] h = ground arith
  match-IsListed key (k ∷ ks) h = elim (Bool-cases (str_eq (texts.sha256 key) (texts.sha256 k))) [
    | inl same ↦ ([], k, ks, refl, (eq_iff (texts.sha256 key) (texts.sha256 k)).0 same)
    | inr other ↦
        let (before, j, after, split, same) = match-IsListed key ks (ground arith) in
        (k ∷ before, j, after, ap (λ l. k ∷ l) split, same)
  ]

  -- A list that is split at an element is not empty.
  split_not_empty :
      (before : List String) (k : String) (after : List String)
      → ltb 0 (length (before ++ k ∷ after)) ≡ true
  split_not_empty [] k after = ground arith
  split_not_empty (b ∷ bs) k after = ground arith

  let_through :
      (settings : Settings) (header : Option String)
      → require_api_key texts settings header ≡ none
      → (is_production texts settings ≡ false)
        ⊎ ((key : String) × (header ≡ some key)
            × (str_eq key "" ≡ false)
            × IsListed texts key (api_keys_list texts settings))
  unfolding require_api_key
  let_through settings none h = elim (Bool-cases (is_production texts settings)) [
    | inl live ↦ ground arith
    | inr dev ↦ inl dev
  ]
  let_through settings (some key) h = elim (Bool-cases (is_production texts settings)) [
    | inl live ↦
        inr (
          key,
          refl,
          ground arith,
          match-IsListed key (api_keys_list texts settings) (ground arith),
        )
    | inr dev ↦ inl dev
  ]

  listed_let_through :
      (settings : Settings) (key : String)
      → str_eq key "" ≡ false
      → IsListed texts key (api_keys_list texts settings)
      → require_api_key texts settings (some key) ≡ none
  unfolding require_api_key
  listed_let_through settings key present (before, k, after, split, same) =
      let some_key : ltb 0 (length (api_keys_list texts settings)) ≡ true =
        rw split (split_not_empty before k after) in
      let found : any_match texts (texts.sha256 key) (api_keys_list texts settings) ≡ true =
        rw split (listed_match key before k after same) in
      ground arith

  -- A request may write exactly if the service does not run in production, or if it carries a key that
  -- is not empty and has the hash of one of the configured keys.
  pub require_api_key-none_iff :
      (settings : Settings) (header : Option String)
      → (require_api_key texts settings header ≡ none) ↔ (
          (is_production texts settings ≡ false)
          ⊎ ((key : String) × (header ≡ some key)
              × (str_eq key "" ≡ false)
              × IsListed texts key (api_keys_list texts settings)))
  unfolding require_api_key
  require_api_key-none_iff settings header = (
    let_through settings header,
    λ allowed. elim allowed [
      | inl dev ↦ ground arith
      | inr (key, sent, present, listed) ↦ rw sent (listed_let_through settings key present listed)
    ],
  )
