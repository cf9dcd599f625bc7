-- ===== src/Settings/Sources.antt =====
-- src/settings.c: settings that are filled from an LDAP entry or from the configuration file, the
-- test that a set is complete, and the tables of enumerated values.
use bind_dyndb_ldap_pagure_i.Prelude.{
  ℕ, zero, suc, ◌+◌, String, Bool, true, false, ◌&&◌, Option, none, some, List, [], ◌∷◌, ◌==◌,
  get_elem?, length, if◌then◌else◌,
}
use bind_dyndb_ldap_pagure_i.Isc.{
  IscResult, notfound, notimplemented, is_success, is_notfound, is_ignore, Result, ok, err, Run,
  returns, ◌>>=◌, Isc,
}
use bind_dyndb_ldap_pagure_i.Text.{◌=ᵢ◌}
use bind_dyndb_ldap_pagure_i.LdapEntry.{LdapEntry, ldap_entry_getvalues}
use bind_dyndb_ldap_pagure_i.Settings.{
  Setting, SettingsSet, setting_find, setting_set, setting_unset, set_value,
}

-- What `setting_update_from_ldap_entry` does with the values of the attribute. The value list of
-- a missing attribute is empty.
abbrev pub update_by :
    Isc → String → SettingsSet → Result (List String) → Run (IscResult × SettingsSet)
update_by isc n st (err notfound) = setting_unset n st
update_by isc n st (err r) = returns (r, st)
update_by isc n st (ok []) = setting_unset n st
update_by isc n st (ok (v ∷ [])) = setting_set isc n st v
update_by isc n st (ok (v ∷ w ∷ rest)) = returns (notimplemented, st)

abbrev update_found :
    Isc
    → String
    → SettingsSet
    → Option (ℕ × Setting)
    → Result (List String)
    → Run (IscResult × SettingsSet)
update_found isc n st none values = returns (notfound, st)
update_found isc n st (some found) values = update_by isc n st values

unfoldable pub setting_update_from_ldap_entry :
    Isc → String → SettingsSet → String → LdapEntry → Run (IscResult × SettingsSet)
setting_update_from_ldap_entry isc n st attr_name entry =
    update_found isc n st (setting_find n (st ∷ []) false false)
      (ldap_entry_getvalues entry attr_name)

abbrev is_found : Option (ℕ × Setting) → Bool
is_found none = false
is_found (some _) = true

-- The loop of `settings_set_isfilled` does not stop at the first missing value, since it logs
-- each of them.
unfoldable pub all_found : List SettingsSet → List Setting → Bool
all_found sets [] = true
all_found sets (s ∷ rest) = is_found (setting_find s.name sets true true) && all_found sets rest

unfoldable pub settings_set_isfilled : SettingsSet → List SettingsSet → Bool
unfolding all_found
settings_set_isfilled st parents = all_found (st ∷ parents) st.first_setting

-- `get` is `cfg_map_get` with the text that the value is printed to. `n` settings are left, the
-- next one at `i`; `result` is the variable of that name, whose last value is returned.
unfoldable pub fill_from :
    Isc → (String → Result String) → ℕ → ℕ → IscResult → SettingsSet → Run (IscResult × SettingsSet)
fill_from isc get zero i result st = returns (result, st)
fill_from isc get (suc n) i result st =
    let go = λ (r : IscResult) (st' : SettingsSet). fill_from isc get n (i + 1) r st' in
    elim (get_elem? st.first_setting i) [
      | none ↦ returns (result, st)
      | some s ↦ elim (get s.name) [
        | err r ↦ if is_notfound r then go r st else returns (r, st)
        | ok text ↦ do
          (r, st') ← set_value isc st i s text
          if is_success r then go r st' else if is_ignore r then go r st' else returns (r, st')
      ]
    ]

unfoldable pub settings_set_fill :
    Isc → (String → Result String) → SettingsSet → Run (IscResult × SettingsSet)
unfolding fill_from
settings_set_fill isc get st =
    if is_success isc.buffer_allocate
    then fill_from isc get (length st.first_setting) 0 isc.buffer_allocate st
    else returns (isc.buffer_allocate, st)

-- A table of `enum_txt_assoc_t` up to its end marker.
abbrev pub EnumTable : Type 0
EnumTable = List (ℕ × String)

unfoldable pub get_enum_description : EnumTable → ℕ → Result String
get_enum_description [] value = err notfound
get_enum_description ((v, d) ∷ rest) value =
    let later = get_enum_description rest value in if v == value then ok d else later

unfoldable pub get_enum_value : EnumTable → String → Result ℕ
get_enum_value [] description = err notfound
get_enum_value ((v, d) ∷ rest) description =
    let later = get_enum_value rest description in if d =ᵢ description then ok v else later
