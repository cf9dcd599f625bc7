-- ===== src/LdapEntry/Class.antt =====
-- src/ldap_entry.c: the object classes of an entry. `ldap_entryclass_t` is a set of bits, here one
-- field for each.
use bind_dyndb_ldap_pagure_i.Prelude.{
  String, Bool, true, false, ◌&&◌, ◌||◌, List, [], ◌∷◌, if◌then◌else◌,
}
use bind_dyndb_ldap_pagure_i.Isc.{unexpected, notimplemented, Result, ok, err}
use bind_dyndb_ldap_pagure_i.Text.{◌=ᵢ◌}
use bind_dyndb_ldap_pagure_i.LdapEntry.{LdapEntry, ldap_entry_getvalues}

pub record EntryClass : Type 0 where
  pub rr : Bool
  pub master : Bool
  pub config : Bool
  pub forward : Bool
  pub serverconfig : Bool
  pub template : Bool

-- LDAP_ENTRYCLASS_NONE
abbrev pub no_class : EntryClass
no_class = record {
  rr = false;
  master = false;
  config = false;
  forward = false;
  serverconfig = false;
  template = false;
}

unfoldable pub add_class : EntryClass → String → EntryClass
add_class c v =
    if v =ᵢ "idnsrecord"
    then record c { rr = true }
    else if v =ᵢ "idnsTemplateObject"
    then record c { template = true }
    else if v =ᵢ "idnszone"
    then record c { master = true }
    else if v =ᵢ "idnsforwardzone"
    then record c { forward = true }
    else if v =ᵢ "idnsconfigobject"
    then record c { config = true }
    else if v =ᵢ "idnsServerConfigObject"
    then record c { serverconfig = true }
    else c

unfoldable pub add_classes : EntryClass → List String → EntryClass
add_classes c [] = c
add_classes c (v ∷ values) = add_classes (add_class c v) values

-- The test for no class looks at the pointer `class`, which is not NULL.
abbrev class_pointer_is_null : Bool
class_pointer_is_null = false

unfoldable pub checked_class : EntryClass → Result EntryClass
checked_class c =
    if class_pointer_is_null
    then err notimplemented
    else if c.master && c.forward
    then err unexpected
    else ok c

abbrev class_of : Result (List String) → Result EntryClass
class_of (err r) = err unexpected
class_of (ok values) = checked_class (add_classes no_class values)

unfoldable pub ldap_entry_parseclass : LdapEntry → Result EntryClass
unfolding checked_class
ldap_entry_parseclass entry = class_of (ldap_entry_getvalues entry "objectClass")

abbrev pub any_class : EntryClass → Bool
any_class c = c.rr || c.master || c.config || c.forward || c.serverconfig || c.template

unfoldable pub ldap_entry_getclassname : EntryClass → String
ldap_entry_getclassname c =
    if c.master
    then "master zone"
    else if c.forward
    then "forward zone"
    else if c.config
    then "config object"
    else if c.serverconfig
    then "server config object"
    else if c.rr && c.template
    then "resource record template"
    else if c.rr
    then "resource record"
    else if any_class c
    then "entry with unknown combination of object classes"
    else "entry with empty object class"
