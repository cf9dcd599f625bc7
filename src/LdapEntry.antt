-- ===== src/LdapEntry.antt =====
-- src/ldap_entry.c and src/ldap_entry.h: an LDAP entry as its list of attributes.
pub mod Class
pub mod Parse
pub mod Iterate
pub mod Records
pub mod Consistent
pub mod Ttl
mod Tests
use bind_dyndb_ldap_pagure_i.Prelude.{String, List, [], ◌∷◌, if◌then◌else◌}
use bind_dyndb_ldap_pagure_i.Isc.{notfound, Result, ok, err}
use bind_dyndb_ldap_pagure_i.Text.{◌=ᵢ◌}

-- `ldap_attr_create` copies the array of values up to its terminating NULL pointer.
pub record LdapAttribute : Type 0 where
  pub name : String
  pub values : List String

pub record LdapEntry : Type 0 where
  pub attrs : List LdapAttribute

unfoldable pub find_attribute : List LdapAttribute → String → Result (List String)
find_attribute [] attrname = err notfound
find_attribute (a ∷ rest) attrname =
    let later = find_attribute rest attrname in if a.name =ᵢ attrname then ok a.values else later

unfoldable pub ldap_entry_getvalues : LdapEntry → String → Result (List String)
unfolding find_attribute
ldap_entry_getvalues entry attrname = find_attribute entry.attrs attrname
