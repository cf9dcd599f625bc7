-- ===== src/Settings/Write.antt =====
-- What `setting_set` and `setting_unset` change, as the getters see it.
use bind_dyndb_ldap_pagure_i.Prelude.{
  ℕ, String, ◌≡◌, refl, ◌≢◌, ◌⊎◌, inl, inr, true, false, none, some, List, [], ◌∷◌, arith, eq_iff,
  set, ◌=ₛ◌, if◌then◌else◌,
}
use bind_dyndb_ldap_pagure_i.Isc.{
  IscResult, success, nomemory, ignore, unexpectedend, unexpectedtoken, badnumber, range, number,
  bad_number, out_of_range, Result, ok, err, returns, Isc,
}
use bind_dyndb_ldap_pagure_i.Settings.{
  Setting, SettingsSet, SettingType, st_string, st_unsigned_integer, st_boolean, Value, value_char,
  value_uint, value_boolean, type, parse_boolean, find_in, setting_find, setting_get, set_value,
  setting_set,
}
use bind_dyndb_ldap_pagure_i.Settings.Find.{find_in-set, find_in_filled}

-- What a text means as a value of a type.
abbrev pub meaning : Isc → SettingType → String → Result Value
meaning isc st_string v = ok (value_char (some v))
meaning isc st_unsigned_integer v =
    if v =ₛ "" then err unexpectedend else elim (isc.parse_uint32 v) [
      | number n ↦ ok (value_uint n)
      | bad_number ↦ err badnumber
      | out_of_range ↦ err range
    ]
meaning isc st_boolean v = elim (parse_boolean v) [
  | some b ↦ ok (value_boolean b)
  | none ↦ err unexpectedtoken
]

-- The setting after a successful write.
abbrev pub after : Isc → Setting → String → Setting
after isc s v = elim (type s.value) [
  | st_string ↦ record s { value = value_char (some v); filled = true; is_dynamic = true }
  | st_unsigned_integer ↦ elim (isc.parse_uint32 v) [
    | number n ↦ record s { value = value_uint n; filled = true }
    | _ ↦ s
  ]
  | st_boolean ↦ elim (parse_boolean v) [
    | some b ↦ record s { value = value_boolean b; filled = true }
    | none ↦ s
  ]
]

module _ (isc : Isc) (st st' : SettingsSet) (i : ℕ) (s : Setting) (v : String) where
  pub set_value_success :
      set_value isc st i s v ≡ returns (success, st')
      → (st' ≡ record st { first_setting = set st.first_setting i (after isc s v) })
        × (meaning isc (type s.value) v ≡ ok (after isc s v).value)
        × ((after isc s v).filled ≡ true)
        × ((after isc s v).name ≡ s.name)
        × (type (after isc s v).value ≡ type s.value)
  unfolding set_value type
  set_value_success h = ground arith

  pub set_value_ignore :
      (old : Value)
      → s.value ≡ old
      → set_value isc st i s v ≡ returns (ignore, st')
      → (st' ≡ st) × (meaning isc (type old) v ≡ ok old) × (s.filled ≡ true)
  unfolding set_value type
  set_value_ignore (value_char none) e h = ground arith
  set_value_ignore (value_char (some old)) e h = ground (arith, eq_iff old v)
  set_value_ignore (value_uint old) e h = ground arith
  set_value_ignore (value_boolean old) e h = ground arith

  pub set_value_error :
      (r : IscResult)
      → r ≢ success
      → r ≢ nomemory
      → set_value isc st i s v ≡ returns (r, st')
      → st' ≡ st
  unfolding set_value type
  set_value_error r p q h = ground arith

  pub set_value_nomemory :
      set_value isc st i s v ≡ returns (nomemory, st')
      → (st' ≡ record st {
        first_setting = set st.first_setting i (record s { value = value_char none });
      })
        × (type s.value ≡ st_string)
  unfolding set_value type
  set_value_nomemory h = ground arith

pub setting_get_by_find :
    (n : String) (t : SettingType) (st st' : SettingsSet) (parents : List SettingsSet)
    → find_in n true st'.first_setting ≡ find_in n true st.first_setting
    → setting_get n t (st' ∷ parents) ≡ setting_get n t (st ∷ parents)
unfolding setting_get setting_find
setting_get_by_find n t st st' parents h = ground arith

-- A setting that was found where it stands in the set, whether it is filled or not.
abbrev pub Has : String → SettingsSet → ℕ → Setting → Type 0
Has n st i s = setting_find n (st ∷ []) false false ≡ some (i, s)

pub find_in_of_Has :
    (n : String) (st : SettingsSet) (i : ℕ) (s : Setting)
    → Has n st i s
    → find_in n false st.first_setting ≡ some (i, s)
unfolding setting_find
find_in_of_Has n st i s h = ground arith

module _ (isc : Isc) (n v : String) (st st' : SettingsSet) (i : ℕ) (s : Setting) where
  -- After `setting_set` has changed a setting, or has found nothing to change, the typed search
  -- that starts at this set returns what the text means at the setting's type, whatever the
  -- parent sets hold.
  pub setting_set-get :
      (r : IscResult) (parents : List SettingsSet)
      → Has n st i s
      → (r ≡ success) ⊎ (r ≡ ignore)
      → setting_set isc n st v ≡ returns (r, st')
      → setting_get n (type s.value) (st' ∷ parents) ≡ meaning isc (type s.value) v
  unfolding setting_set setting_get setting_find
  setting_set-get r parents has (inl e) h =
      let wrote = set_value_success isc st st' i s v (ground arith) in
      ground (
        arith,
        wrote,
        find_in-set n st.first_setting i s (after isc s v) (find_in_of_Has n st i s has) (wrote.3),
      )
  setting_set-get r parents has (inr e) h =
      let kept = set_value_ignore isc st st' i s v s.value refl (ground arith) in
      ground (arith, kept, find_in_filled n st.first_setting i s (find_in_of_Has n st i s has))
