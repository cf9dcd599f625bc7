-- ===== src/Settings/Tests.antt =====
-- Runs of src/settings.c on small sets, and the theorems about it at concrete arguments.
use bind_dyndb_ldap_pagure_i.Prelude.{
  ℕ, String, ◌≡◌, refl, ◌≢◌, ◌↔◌, ◌⊎◌, inl, true, false, none, some, [], ◌∷◌, arith, ◌=ₛ◌,
  if◌then◌else◌, set,
}
use bind_dyndb_ldap_pagure_i.Isc.{
  IscResult, success, nomemory, notfound, Result, ok, err, returns, number, Isc, unlocked,
}
use bind_dyndb_ldap_pagure_i.Settings.{
  Setting, SettingsSet, st_unsigned_integer, value_char, value_uint, type, default_string,
  default_uint, no_default_uint, no_default_string, convert, store, find_in, setting_find,
  setting_get, set_value, setting_set, clear, setting_unset,
}
use bind_dyndb_ldap_pagure_i.Text.{◌=ᵢ◌}
use bind_dyndb_ldap_pagure_i.LdapEntry.{LdapEntry, ldap_entry_getvalues}
use bind_dyndb_ldap_pagure_i.Settings.Sources.{
  setting_update_from_ldap_entry, settings_set_isfilled, fill_from, settings_set_fill,
}
use bind_dyndb_ldap_pagure_i.Settings.Resolve.{Resolves, setting_find-Resolves}
use bind_dyndb_ldap_pagure_i.Settings.Write.{Has, meaning, setting_set-get}
use bind_dyndb_ldap_pagure_i.Settings.Frame.{setting_set_failed, IsValid, setting_set_total}
use bind_dyndb_ldap_pagure_i.Settings.Entry.{update-get, expected, attribute_values}
use bind_dyndb_ldap_pagure_i.Settings.Complete.{
  AllResolve, settings_set_isfilled_iff, settings_set_fill_last_missing,
}

-- A library that reads each number as 7, and one in which no memory is left.
abbrev isc : Isc
isc = record { parse_uint32 = λ v. number 7; alloc = λ n. true; buffer_allocate = success }

abbrev poor : Isc
poor = record { parse_uint32 = λ v. number 7; alloc = λ n. false; buffer_allocate = success }

abbrev conf : SettingsSet
conf = record {
  name = "conf";
  lock = unlocked;
  first_setting = default_uint "connections" 2 ∷ default_string "base" "dc=test" ∷ [];
}

abbrev zone : SettingsSet
zone = record {
  name = "zone";
  lock = unlocked;
  first_setting = no_default_uint "connections" ∷ no_default_string "base" ∷ [];
}

abbrev connections : Setting
connections = no_default_uint "connections"

abbrev zone_seven : SettingsSet
zone_seven = record zone {
  first_setting = default_uint "connections" 7 ∷ no_default_string "base" ∷ [];
}

abbrev conf_unset : SettingsSet
conf_unset = record conf {
  first_setting =
      record { name = "connections"; value = value_uint 2; filled = false; is_dynamic = false }
      ∷ default_string "base" "dc=test"
      ∷ [];
}

abbrev entry : LdapEntry
entry = record { attrs = record { name = "idnsConnections"; values = "7" ∷ [] } ∷ [] }

inherited : setting_get "connections" st_unsigned_integer (zone ∷ conf ∷ []) ≡ ok (value_uint 2)
unfolding setting_get setting_find find_in type
inherited = refl

setting_find-Resolves_example :
    ((i : ℕ) × (setting_find "connections" (zone ∷ conf ∷ []) true true
        ≡ some (i, default_uint "connections" 2)))
    ↔ Resolves "connections" (zone ∷ conf ∷ []) (default_uint "connections" 2)
setting_find-Resolves_example =
    setting_find-Resolves "connections" (zone ∷ conf ∷ []) (default_uint "connections" 2)

Has-connections : Has "connections" zone 0 connections
unfolding setting_find find_in
Has-connections = refl

set_connections : setting_set isc "connections" zone "7" ≡ returns (success, zone_seven)
unfolding setting_set set_value setting_find find_in convert store
set_connections = refl

setting_set-get_example :
    setting_get "connections" st_unsigned_integer (zone_seven ∷ conf ∷ [])
    ≡ meaning isc st_unsigned_integer "7"
unfolding type
setting_set-get_example =
    setting_set-get isc "connections" "7" zone zone_seven 0 connections success (conf ∷ [])
      Has-connections (inl refl) set_connections

abbrev conf_lost : SettingsSet
conf_lost = record conf {
  first_setting =
      default_uint "connections" 2
      ∷ record { name = "base"; value = value_char none; filled = true; is_dynamic = false }
      ∷ [];
}

set_base_fails : setting_set poor "base" conf "dc=x" ≡ returns (nomemory, conf_lost)
unfolding setting_set set_value setting_find find_in convert store
set_base_fails = refl

setting_set_failed_example :
    ((nomemory ≢ nomemory) × (conf_lost ≡ conf))
    ⊎ ((nomemory ≡ nomemory)
        × ((i : ℕ) × (s : Setting) × Has "base" conf i s
            × (conf_lost.first_setting
                ≡ set conf.first_setting i (record s { value = value_char none }))))
setting_set_failed_example =
    setting_set_failed poor "base" "dc=x" conf conf_lost nomemory (λ e. cc) set_base_fails

Has-conf_connections : Has "connections" conf 0 (default_uint "connections" 2)
unfolding setting_find find_in
Has-conf_connections = refl

unset_connections : setting_unset "connections" conf ≡ returns (success, conf_unset)
unfolding setting_unset setting_find find_in clear type
unset_connections = refl

conf-IsValid : IsValid conf
conf-IsValid = ((λ e. cc), ((λ e. cc), tt))

setting_set_total_example :
    (r : IscResult) × (st' : SettingsSet) × (setting_set isc "base" conf "dc=x" ≡ returns (r, st'))
    × (st'.lock ≡ unlocked)
    × ((r ≡ nomemory) ⊎ IsValid st')
setting_set_total_example = setting_set_total isc "base" "dc=x" conf refl conf-IsValid

update_connections :
    setting_update_from_ldap_entry isc "connections" zone "idnsconnections" entry
    ≡ returns (success, zone_seven)
unfolding setting_update_from_ldap_entry ldap_entry_getvalues setting_set set_value setting_find
    find_in convert store ◌=ᵢ◌
update_connections = refl

update-get_example :
    setting_get "connections" st_unsigned_integer (zone_seven ∷ conf ∷ [])
    ≡ expected isc "connections" st_unsigned_integer
        (conf ∷ [])
        (attribute_values entry "idnsconnections")
unfolding type
update-get_example =
    update-get isc "connections" "idnsconnections" zone zone_seven entry 0 connections success
      (conf ∷ []) Has-connections (inl refl) update_connections

settings_set_isfilled_iff_example :
    (settings_set_isfilled zone (conf ∷ []) ≡ true)
    ↔ AllResolve (zone ∷ conf ∷ []) zone.first_setting
settings_set_isfilled_iff_example = settings_set_isfilled_iff zone (conf ∷ [])

-- A configuration with one line.
abbrev only_connections : String → Result String
only_connections n = if n =ₛ "connections" then ok "7" else err notfound

only_connections_fails : (n : String) (r : IscResult) → only_connections n ≡ err r → r ≢ success
only_connections_fails n r h = ground (arith, h)

fill_zone : settings_set_fill isc only_connections zone ≡ returns (notfound, zone_seven)
unfolding settings_set_fill fill_from set_value convert store
fill_zone = refl

settings_set_fill_last_missing_example : notfound ≢ success
settings_set_fill_last_missing_example =
    settings_set_fill_last_missing isc only_connections only_connections_fails
      (no_default_string "base") refl zone zone_seven 1 notfound refl refl fill_zone
