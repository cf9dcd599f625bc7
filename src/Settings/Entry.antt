-- ===== src/Settings/Entry.antt =====
-- What the sources of settings, LDAP entries and the configuration, lead to.
use bind_dyndb_ldap_pagure_i.Prelude.{ℕ, String, ◌≡◌, refl, ◌⊎◌, inl, inr, List, [], ◌∷◌, arith}
use bind_dyndb_ldap_pagure_i.Isc.{
  IscResult, success, notfound, ignore, Result, ok, err, returns, Isc,
}
use bind_dyndb_ldap_pagure_i.Settings.{Setting, SettingsSet, SettingType, Value, type, setting_get}
use bind_dyndb_ldap_pagure_i.LdapEntry.{
  LdapAttribute, LdapEntry, find_attribute, ldap_entry_getvalues,
}
use bind_dyndb_ldap_pagure_i.Settings.Sources.{setting_update_from_ldap_entry}
use bind_dyndb_ldap_pagure_i.Settings.Write.{Has, meaning, setting_set-get}
use bind_dyndb_ldap_pagure_i.Settings.Frame.{setting_unset-get}

find_attribute-cases :
    (l : List LdapAttribute) (a : String)
    → (find_attribute l a ≡ err notfound) ⊎ ((vs : List String) × (find_attribute l a ≡ ok vs))
unfolding find_attribute
find_attribute-cases [] a = inl refl
find_attribute-cases (x ∷ l) a = ground (arith, find_attribute-cases l a)

-- The values of an attribute, of which a missing attribute has none.
abbrev pub attribute_values : LdapEntry → String → List String
attribute_values entry a = elim (ldap_entry_getvalues entry a) [ ok vs ↦ vs | err _ ↦ [] ]

-- What the search for a setting should lead to once the entry has been read: the meaning of the
-- first value of the attribute, or the value of the parent sets.
abbrev pub expected : Isc → String → SettingType → List SettingsSet → List String → Result Value
expected isc n t parents [] = setting_get n t parents
expected isc n t parents (v ∷ _) = meaning isc t v

module _ (isc : Isc) (n a : String) (st st' : SettingsSet) (entry : LdapEntry) (i : ℕ)
    (s : Setting) where
  -- When `setting_update_from_ldap_entry` reports a change or that there was nothing to change,
  -- the typed search from this set finds what the attribute says: the meaning of its value, or,
  -- if the entry has no value, what the parent sets hold.
  pub update-get :
      (r : IscResult) (parents : List SettingsSet)
      → Has n st i s
      → (r ≡ success) ⊎ (r ≡ ignore)
      → setting_update_from_ldap_entry isc n st a entry ≡ returns (r, st')
      → setting_get n (type s.value) (st' ∷ parents)
        ≡ expected isc n (type s.value) parents (attribute_values entry a)
  unfolding setting_update_from_ldap_entry ldap_entry_getvalues
  update-get r parents has ok_r h = elim (find_attribute-cases entry.attrs a) [
    | inl e ↦
        rw (e, expected)
          (setting_unset-get n (type s.value) st st' r parents i s has (ground (arith, e, has)))
    | inr ([], e) ↦
        rw (e, expected)
          (setting_unset-get n (type s.value) st st' r parents i s has (ground (arith, e, has)))
    | inr (v ∷ [], e) ↦
        rw (e, expected)
          (setting_set-get isc n v st st' i s r parents has ok_r (ground (arith, e, has)))
    | inr (v ∷ w ∷ rest, e) ↦ ground (arith, e, has)
  ]
