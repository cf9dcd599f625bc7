-- ===== src/LdapEntry/Tests.antt =====
-- Runs of src/ldap_entry.c, and the theorems about it at concrete arguments.
use bind_dyndb_ldap_pagure_i.Prelude.{
  ℕ, ◌≡◌, refl, String, true, false, Option, some, List, [], ◌∷◌, ◌++◌, ◌=ₛ◌, if◌then◌else◌,
}
use bind_dyndb_ldap_pagure_i.Isc.{success, unexpected, Result, ok, err, returns}
use bind_dyndb_ldap_pagure_i.Text.{◌=ᵢ◌, bytes, bytes_eq, lower, to_lower}
use bind_dyndb_ldap_pagure_i.LdapEntry.{LdapAttribute, ldap_entry_getvalues, find_attribute}
use bind_dyndb_ldap_pagure_i.LdapEntry.Class.{
  no_class, add_class, add_classes, checked_class, ldap_entry_parseclass, ldap_entry_getclassname,
}
use bind_dyndb_ldap_pagure_i.LdapEntry.Parse.{
  LdapMessage, ParsedEntry, add_values, ldap_attr_create, read_attributes, ldap_entry_parse,
}
use bind_dyndb_ldap_pagure_i.LdapEntry.Iterate.{for_each_rdtype, ldap_entry_firstrdtype, records}
use bind_dyndb_ldap_pagure_i.LdapEntry.Records.{for_each_rdtype_lem}
use bind_dyndb_ldap_pagure_i.LdapEntry.Consistent.{Consistent, ldap_entry_parse-Consistent}
use bind_dyndb_ldap_pagure_i.Convert.Dn.{
  Ava, Names, walk, from_parts, is_idns_name, strncasecmp_eq, dn_to_dnsname, dn_want_zone,
}

abbrev attribute : String → List String → LdapAttribute
attribute n vs = record { name = n; values = vs }

abbrev zone_attrs : List LdapAttribute
zone_attrs =
    attribute "objectClass" ("idnszone" ∷ "IDNSRECORD" ∷ [])
    ∷ attribute "ARecord" ("192.0.2.1" ∷ [])
    ∷ attribute "NSRecord" []
    ∷ []

-- The two record types that are known here.
abbrev to_type : String → Result ℕ
to_type n = if n =ₛ "ARecord" then ok 1 else if n =ₛ "NSRecord" then ok 2 else err unexpected

for_each_rdtype_lem_example :
    for_each_rdtype to_type 4 zone_attrs (ldap_entry_firstrdtype to_type zone_attrs)
    ≡ returns (records to_type zone_attrs)
for_each_rdtype_lem_example = for_each_rdtype_lem to_type zone_attrs

abbrev text_names : Names (List ℕ)
text_names = record {
  root = [];
  copy = λ n. ok n;
  fromtext = λ v o. ok (v ++ o);
  issubdomain = λ n o. true;
  equal = λ n o. false;
  dup = λ n. ok n;
}

abbrev idns : String → List Ava
idns v = record { attr = bytes "idnsName"; value = bytes v; is_string = true } ∷ []

abbrev one_component : List ℕ → Option (List (List Ava))
one_component s = some (idns "one." ∷ [])

abbrev message : LdapMessage
message = record {
  attributes =
      ("objectClass", some ("idnszone" ∷ "IDNSRECORD" ∷ []))
      ∷ ("ARecord", some ("192.0.2.1" ∷ []))
      ∷ ("NSRecord", some [])
      ∷ [];
  dn = some "idnsName=one.";
}

abbrev zone : ParsedEntry (List ℕ)
zone = record {
  attrs = record { attrs = zone_attrs };
  dn = "idnsName=one.";
  class = record no_class { rr = true; master = true };
  names = some (bytes "one.", some []);
}

parse_run :
    ldap_entry_parse text_names one_component success (λ n. true) (λ v. true) message
    ≡ returns (ok zone)
unfolding ldap_entry_parse read_attributes ldap_attr_create add_values ldap_entry_parseclass
    checked_class add_classes add_class ldap_entry_getvalues find_attribute ◌=ᵢ◌ lower to_lower
    bytes_eq bytes dn_to_dnsname walk is_idns_name strncasecmp_eq from_parts dn_want_zone
parse_run = refl

ldap_entry_parse-Consistent_example : Consistent text_names one_component zone
ldap_entry_parse-Consistent_example =
    ldap_entry_parse-Consistent text_names one_component success (λ n. true) (λ v. true) message
      zone parse_run

-- An object class that is not known gives no error.
no_class_run :
    ldap_entry_parseclass (record { attrs = attribute "objectClass" ("top" ∷ []) ∷ [] })
    ≡ ok no_class
unfolding ldap_entry_parseclass checked_class add_classes add_class ldap_entry_getvalues
    find_attribute ◌=ᵢ◌ lower to_lower bytes_eq
no_class_run = refl

no_class_name : ldap_entry_getclassname no_class ≡ "entry with empty object class"
unfolding ldap_entry_getclassname
no_class_name = refl
