-- ===== src/Forwarding/Explicit.antt =====
-- Which set of settings says how to forward.
use bind_dyndb_ldap_pagure_i.Prelude.{
  ℕ, ◌≡◌, ◌≢◌, refl, sym, ◌∙◌, ◌⊎◌, inl, inr, String, Bool, true, false, Option, none, some, List,
  [], ◌∷◌, ◌==◌, if◌then◌else◌, arith, Option-cases, Bool-cases,
}
use bind_dyndb_ldap_pagure_i.Isc.{
  IscResult, success, notfound, is_success, Result, ok, err, returns, ◌>>=◌, Result-cases,
  Run-cases,
}
use bind_dyndb_ldap_pagure_i.Settings.{
  Setting, SettingsSet, Value, value_char, value_uint, value_boolean, type, find_in, setting_find,
  setting_get, setting_get_str,
}
use bind_dyndb_ldap_pagure_i.Settings.Sources.{get_enum_value}
use bind_dyndb_ldap_pagure_i.Forwarding.{
  fwdpolicy_none, forwarder_policy_txts, text_of, policy_of, has_any, explicit_list,
  explicit_forwarders, fwd_setting_isexplicit, fwd_setting_find_explicit, read_config,
}

-- The text of a found setting.
abbrev pub found_text : Option (ℕ × Setting) → Option String
found_text none = none
found_text (some (_, s)) = elim s.value [
  | value_char t ↦ t
  | value_uint n ↦ none
  | value_boolean b ↦ none
]

-- The text of a filled string setting of the set itself.
unfoldable pub own_text : String → SettingsSet → Option String
own_text n set = found_text (setting_find n (set ∷ []) false true)

module _ {Forwarder : Type 0} (parse : String → Result (List Forwarder)) where
  abbrev pub listed : ℕ → Option String → Option (List Forwarder × ℕ)
  listed p none = none
  listed p (some t) = elim (parse t) [
    | ok fwdrs ↦ if has_any parse fwdrs then some (fwdrs, p) else none
    | err r ↦ none
  ]

  abbrev pub by_policy : Option String → Option String → Option (List Forwarder × ℕ)
  by_policy none forwarders = none
  by_policy (some t) forwarders = elim (get_enum_value forwarder_policy_txts t) [
    | err r ↦ none
    | ok p ↦ if p == fwdpolicy_none then some ([], fwdpolicy_none) else listed p forwarders
  ]

  -- The explicit configuration of one set: the policy none, or another policy and at least one
  -- forwarder.
  unfoldable pub config_of : SettingsSet → Option (List Forwarder × ℕ)
  config_of set = by_policy (own_text "forward_policy" set) (own_text "forwarders" set)

  -- The explicit configuration of the nearest set that has one.
  unfoldable pub first_config : List SettingsSet → Option (List Forwarder × ℕ)
  first_config [] = none
  first_config (set ∷ parents) =
      let up = first_config parents in elim (config_of set) [ some c ↦ some c | none ↦ up ]

  abbrev pub is_some : Option (List Forwarder × ℕ) → Bool
  is_some none = false
  is_some (some c) = true

  -- The result and the flag that a description has.
  abbrev pub Tells : IscResult → Bool → Option (List Forwarder × ℕ) → Type 0
  Tells r b c = (r ≢ notfound) × (is_success r ≡ false ⊎ (b ≡ is_some c))

  abbrev pub text_value : Value → Option String
  text_value v = elim v [ value_char t ↦ t | value_uint n ↦ none | value_boolean b ↦ none ]

  list_lem :
      (p : ℕ) (v : Value) (r : IscResult) (b : Bool)
      → (text_of v >>= λ t. returns (explicit_list parse (parse t))) ≡ returns (r, b)
      → Tells r b (listed p (text_value v))
  list_lem p (value_char none) r b h = absurd (ground (arith, h))
  list_lem p (value_uint n) r b h = absurd (ground (arith, h))
  list_lem p (value_boolean n) r b h = absurd (ground (arith, h))
  list_lem p (value_char (some t)) r b h = ground (arith, h)

  forwarders_lem :
      (p : ℕ) (o : Option (ℕ × Setting)) (r : IscResult) (b : Bool)
      → explicit_forwarders parse o ≡ returns (r, b)
      → Tells r b (listed p (found_text o))
  forwarders_lem p none r b h = ground (arith, h)
  forwarders_lem p (some (i, s)) r b h = list_lem p s.value r b h

  policy_lem :
      (v : Value) (o : Option (ℕ × Setting)) (r : IscResult) (b : Bool)
      → (text_of v >>= λ t. policy_of (get_enum_value forwarder_policy_txts t) >>= λ p.
          if p == fwdpolicy_none then returns (success, true) else explicit_forwarders parse o)
        ≡ returns (r, b)
      → Tells r b (by_policy (text_value v) (found_text o))
  policy_lem (value_char none) o r b h = absurd (ground (arith, h))
  policy_lem (value_uint n) o r b h = absurd (ground (arith, h))
  policy_lem (value_boolean n) o r b h = absurd (ground (arith, h))
  policy_lem (value_char (some t)) o r b h =
      elim (Result-cases (get_enum_value forwarder_policy_txts t)) [
        | inr (x, e) ↦ absurd (ground (arith, h, e))
        | inl (p, e) ↦ ground (arith, h, e, forwarders_lem p o r b)
      ]

  -- `fwd_setting_isexplicit` tells whether the set has an explicit configuration.
  pub fwd_setting_isexplicit_lem :
      (set : SettingsSet) (r : IscResult) (b : Bool)
      → fwd_setting_isexplicit parse set ≡ returns (r, b)
      → Tells r b (config_of set)
  unfolding fwd_setting_isexplicit config_of own_text
  fwd_setting_isexplicit_lem set r b h =
      elim (Option-cases (setting_find "forward_policy" (set ∷ []) false true)) [
        | inl e ↦ ground (arith, h, e)
        | inr ((i, s), e) ↦
            let o = setting_find "forwarders" (set ∷ []) false true in
            let told = policy_lem s.value o r b (ground (arith, h, e)) in rw e told
      ]

  abbrev pub Finds : List SettingsSet → Result (List SettingsSet) → Type 0
  Finds sets (ok []) = ⊥
  Finds sets (ok (set ∷ parents)) =
      (is_some (config_of set) ≡ true) × (config_of set ≡ first_config sets)
  Finds sets (err r) = (is_success r ≡ false) × (r ≡ notfound → first_config sets ≡ none)

  first_config_silent :
      (set : SettingsSet) (parents : List SettingsSet)
      → config_of set ≡ none
      → first_config (set ∷ parents) ≡ first_config parents
  unfolding first_config
  first_config_silent set parents e = ground (arith, e)

  -- `fwd_setting_find_explicit` stops at the nearest set that has an explicit configuration.
  pub fwd_setting_find_explicit_lem :
      (sets : List SettingsSet) (found : Result (List SettingsSet))
      → fwd_setting_find_explicit parse sets ≡ returns found
      → Finds sets found
  unfolding fwd_setting_find_explicit first_config
  fwd_setting_find_explicit_lem [] found h =
      let value : found ≡ err notfound = cc h in rw (value, Finds) (refl, λ e. refl)
  fwd_setting_find_explicit_lem (set ∷ parents) found h =
      elim (Run-cases (fwd_setting_isexplicit parse set)) [
        | inl ((r, b), e) ↦
            let told = fwd_setting_isexplicit_lem set r b e in
            elim (Bool-cases (is_success r)) [
              | inr f ↦
                  let value : found ≡ err r = ground (arith, h, e, f) in
                  rw (value, Finds) (f, λ same. absurd (told.0 same))
              | inl f ↦ elim (Bool-cases b) [
                | inl g ↦
                    let value : found ≡ ok (set ∷ parents) = ground (arith, h, e, f, g) in
                    rw (value, Finds) (ground (arith, told, f, g))
                | inr g ↦
                    let more =
                      fwd_setting_find_explicit_lem parents found (ground (arith, h, e, f, g)) in
                    let silent : config_of set ≡ none = ground (arith, told, f, g) in
                    next found more silent
              ]
            ]
        | inr (inl e) ↦ absurd (ground (arith, h, e))
        | inr (inr (inl e)) ↦ absurd (ground (arith, h, e))
        | inr (inr (inr e)) ↦ absurd (ground (arith, h, e))
      ]
    where
      next :
          (found : Result (List SettingsSet))
          → Finds parents found
          → config_of set ≡ none
          → Finds (set ∷ parents) found
      next (ok []) f e = f
      next (ok (s ∷ ss)) f e = (f.0, f.1 ∙ sym (first_config_silent set parents e))
      next (err r) f e = (f.0, λ same. first_config_silent set parents e ∙ f.1 same)

  own_text-get :
      (n t : String) (set : SettingsSet) (parents : List SettingsSet)
      → own_text n set ≡ some t
      → setting_get_str n (set ∷ parents) ≡ ok (some t)
  unfolding own_text setting_get_str setting_get setting_find type
  own_text-get n t set parents h = elim (Option-cases (find_in n true set.first_setting)) [
    | inl e ↦ absurd (ground (arith, h, e))
    | inr ((i, s), e) ↦ ground (arith, h, e)
  ]

  -- The set that was found is read as its configuration.
  pub read_config_lem :
      (set : SettingsSet) (parents : List SettingsSet) (c : List Forwarder × ℕ)
      → config_of set ≡ some c
      → read_config parse (set ∷ parents) ≡ returns (ok c)
  unfolding read_config config_of
  read_config_lem set parents c h = elim (Option-cases (own_text "forward_policy" set)) [
    | inl e ↦ absurd (ground (arith, h, e))
    | inr (t, e) ↦
        let policy = own_text-get "forward_policy" t set parents e in
        elim (Result-cases (get_enum_value forwarder_policy_txts t)) [
          | inr (x, f) ↦ absurd (ground (arith, h, e, f))
          | inl (p, f) ↦ elim (Bool-cases (p == fwdpolicy_none)) [
            | inl g ↦ ground (arith, h, e, f, g, policy)
            | inr g ↦ elim (Option-cases (own_text "forwarders" set)) [
              | inl k ↦ absurd (ground (arith, h, e, f, g, k))
              | inr (l, k) ↦
                  let list = own_text-get "forwarders" l set parents k in
                  ground (arith, h, e, f, g, k, policy, list)
            ]
          ]
        ]
  ]
