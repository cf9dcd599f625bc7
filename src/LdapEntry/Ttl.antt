-- ===== src/LdapEntry/Ttl.antt =====
-- `ldap_entry_getttl` of src/ldap_entry.c.
use bind_dyndb_ldap_pagure_i.Prelude.{ℕ, ◌-◌, ◌^◌, String, List, [], ◌∷◌, ltb, if◌then◌else◌}
use bind_dyndb_ldap_pagure_i.Isc.{Result, ok, err, Run, returns, aborts, undefined}
use bind_dyndb_ldap_pagure_i.LdapEntry.{LdapEntry, ldap_entry_getvalues}
use bind_dyndb_ldap_pagure_i.Settings.{SettingsSet, setting_get_uint}

abbrev pub max_ttl : ℕ
max_ttl = 2 ^ 31 - 1

-- The code after `cleanup`, with INSIST.
abbrev pub default_ttl : Result ℕ → Run ℕ
default_ttl (ok ttl) = returns ttl
default_ttl (err r) = aborts

-- `ttl_fromtext` is `dns_ttl_fromtext`. An attribute without values has no head.
unfoldable pub ldap_entry_getttl : (String → Result ℕ) → LdapEntry → List SettingsSet → Run ℕ
ldap_entry_getttl ttl_fromtext entry settings =
    let default = default_ttl (setting_get_uint "default_ttl" settings) in
    elim (ldap_entry_getvalues entry "dnsTTL") [
      | err r ↦ default
      | ok [] ↦ undefined
      | ok (v ∷ values) ↦ elim (ttl_fromtext v) [
        | err r ↦ default
        | ok ttl ↦ returns (if ltb max_ttl ttl then 0 else ttl)
      ]
    ]
