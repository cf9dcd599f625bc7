-- ===== src/Forwarding/Choice.antt =====
-- The set of settings that `fwd_configure_zone` reads.
use bind_dyndb_ldap_pagure_i.Prelude.{
  ℕ, ◌≡◌, refl, sym, ◌∙◌, ap, subst, inl, inr, String, Bool, true, false, Option, none, List, [],
  ◌∷◌, if◌then◌else◌, arith, Option-cases, Bool-cases,
}
use bind_dyndb_ldap_pagure_i.Isc.{notfound, is_success, Result, ok, err, returns, ◌>>=◌, Run-cases}
use bind_dyndb_ldap_pagure_i.Settings.{SettingsSet}
use bind_dyndb_ldap_pagure_i.Forwarding.{
  fwd_setting_isexplicit, fwd_setting_find_explicit, inherited, configured_set,
}
use bind_dyndb_ldap_pagure_i.Forwarding.Explicit.{
  config_of, first_config, is_some, Finds, fwd_setting_isexplicit_lem,
  fwd_setting_find_explicit_lem,
}

module _ {Forwarder : Type 0} (parse : String → Result (List Forwarder)) where
  -- What is to be in the forwarding table for a name: for the root, the configuration of the nearest
  -- set that has one; for every other name, that of its own set.
  abbrev pub wanted : Bool → SettingsSet → List SettingsSet → Option (List Forwarder × ℕ)
  wanted is_root set parents =
      if is_root then first_config parse (set ∷ parents) else config_of parse set

  abbrev pub Chooses : Option (List Forwarder × ℕ) → Result (Bool × List SettingsSet) → Type 0
  Chooses c (ok (true, [])) = ⊥
  Chooses c (ok (true, set ∷ parents)) = (is_some parse c ≡ true) × (config_of parse set ≡ c)
  Chooses c (ok (false, sets)) = c ≡ none
  Chooses c (err r) = is_success r ≡ false

  first_config_own :
      (set : SettingsSet) (parents : List SettingsSet)
      → is_some parse (config_of parse set) ≡ true
      → first_config parse (set ∷ parents) ≡ config_of parse set
  unfolding first_config
  first_config_own set parents h = elim (Option-cases (config_of parse set)) [
    | inl e ↦ absurd (ground (arith, h, e))
    | inr (c, e) ↦ ground (arith, e)
  ]

  own-Chooses :
      (is_root : Bool) (set : SettingsSet) (parents : List SettingsSet)
      → is_some parse (config_of parse set) ≡ true
      → Chooses (wanted is_root set parents) (ok (true, set ∷ parents))
  own-Chooses true set parents h =
      let own = first_config_own set parents h in (ap (is_some parse) own ∙ h, sym own)
  own-Chooses false set parents h = (h, refl)

  inherited-Chooses :
      (sets : List SettingsSet) (found : Result (List SettingsSet))
      → Finds parse sets found
      → Chooses (first_config parse sets) (inherited parse sets found)
  inherited-Chooses sets (ok []) f = f
  inherited-Chooses sets (ok (s ∷ ss)) f = (ap (is_some parse) (sym f.1) ∙ f.0, f.1)
  inherited-Chooses sets (err notfound) f = f.1 refl
  inherited-Chooses sets (err r) f = f.0

  -- `fwd_configure_zone` settles on a set whose configuration is the one that is wanted.
  pub configured_set_lem :
      (is_root : Bool) (set : SettingsSet) (parents : List SettingsSet)
      (chosen : Result (Bool × List SettingsSet))
      → configured_set parse is_root set parents ≡ returns chosen
      → Chooses (wanted is_root set parents) chosen
  unfolding configured_set
  configured_set_lem is_root set parents chosen h =
      elim (Run-cases (fwd_setting_isexplicit parse set)) [
        | inl ((r, b), e) ↦
            let told = fwd_setting_isexplicit_lem parse set r b e in
            elim (Bool-cases (is_success r)) [
              | inr f ↦
                  let value : chosen ≡ err r = ground (arith, h, e, f) in rw (value, Chooses) f
              | inl f ↦ elim (Bool-cases b) [
                | inl g ↦
                    let value : chosen ≡ ok (true, set ∷ parents) = ground (arith, h, e, f, g) in
                    subst (Chooses (wanted is_root set parents)) (sym value)
                      (own-Chooses is_root set parents (ground (arith, told, f, g)))
                | inr g ↦
                    let silent : config_of parse set ≡ none = ground (arith, told, f, g) in
                    inherit is_root chosen silent (ground (arith, h, e, f, g))
              ]
            ]
        | inr (inl e) ↦ absurd (ground (arith, h, e))
        | inr (inr (inl e)) ↦ absurd (ground (arith, h, e))
        | inr (inr (inr e)) ↦ absurd (ground (arith, h, e))
      ]
    where
      inherit :
          (is_root : Bool) (chosen : Result (Bool × List SettingsSet))
          → config_of parse set ≡ none
          → (if is_root
              then (fwd_setting_find_explicit parse (set ∷ parents) >>= λ found.
                  returns (inherited parse (set ∷ parents) found))
              else returns (ok (false, set ∷ parents)))
            ≡ returns chosen
          → Chooses (wanted is_root set parents) chosen
      inherit false chosen silent h =
          let value : chosen ≡ ok (false, set ∷ parents) = cc h in rw (value, Chooses) silent
      inherit true chosen silent h =
          elim (Run-cases (fwd_setting_find_explicit parse (set ∷ parents))) [
            | inl (found, e) ↦
                let value : chosen ≡ inherited parse (set ∷ parents) found = ground (arith, h, e) in
                subst (Chooses (first_config parse (set ∷ parents))) (sym value) (
                  inherited-Chooses (set ∷ parents) found
                    (fwd_setting_find_explicit_lem parse (set ∷ parents) found e))
            | inr (inl e) ↦ absurd (ground (arith, h, e))
            | inr (inr (inl e)) ↦ absurd (ground (arith, h, e))
            | inr (inr (inr e)) ↦ absurd (ground (arith, h, e))
          ]
