-- ===== src/LdapEntry/Parse.antt =====
-- src/ldap_entry.c: an entry from an LDAP message (`ldap_attr_create`, `ldap_entry_parse`).
use bind_dyndb_ldap_pagure_i.Prelude.{
  ℕ, String, Bool, true, false, ◌||◌, Option, none, some, List, [], ◌∷◌, if◌then◌else◌,
}
use bind_dyndb_ldap_pagure_i.Isc.{
  IscResult, success, nomemory, failure, is_success, Result, ok, err, Run, returns, ◌>>=◌,
}
use bind_dyndb_ldap_pagure_i.Text.{bytes}
use bind_dyndb_ldap_pagure_i.LdapEntry.{LdapAttribute, LdapEntry}
use bind_dyndb_ldap_pagure_i.LdapEntry.Class.{EntryClass, ldap_entry_parseclass}
use bind_dyndb_ldap_pagure_i.Convert.Dn.{Ava, Names, dn_to_dnsname, dn_want_zone}

-- What the LDAP library gives of a message: the attributes with what `ldap_get_values` returns for
-- each, and `ldap_get_dn`.
pub record LdapMessage : Type 0 where
  pub attributes : List (String × Option (List String))
  pub dn : Option String

-- The fields of `ldap_entry_t` that `ldap_entry_parse` sets. The name fields stay empty for entries
-- that are no DNS data.
pub record ParsedEntry (Name : Type 0) : Type 0 where
  pub attrs : LdapEntry
  pub dn : String
  pub class : EntryClass
  pub names : Option (Name × Option Name)

-- `memory` says whether the list node of a value can be allocated.
unfoldable pub add_values : (String → Bool) → List String → Result (List String)
add_values memory [] = ok []
add_values memory (v ∷ values) =
    let rest = add_values memory values in
    if memory v then elim rest [ ok vs ↦ ok (v ∷ vs) | err r ↦ err r ] else err nomemory

unfoldable pub ldap_attr_create :
    (String → Bool) → String → Option (List String) → Result LdapAttribute
unfolding add_values
ldap_attr_create memory name none = err failure
ldap_attr_create memory name (some values) = elim (add_values memory values) [
  | ok vs ↦ ok (record { name = name; values = vs })
  | err r ↦ err r
]

-- The loop over the attributes; `node` says whether there is memory for an attribute.
unfoldable pub read_attributes :
    (String → Bool)
    → (String → Bool)
    → List (String × Option (List String))
    → Result (List LdapAttribute)
unfolding ldap_attr_create
read_attributes node memory [] = ok []
read_attributes node memory ((name, values) ∷ more) =
    let rest = read_attributes node memory more in
    if node name
    then elim (ldap_attr_create memory name values) [
      | err r ↦ err r
      | ok a ↦ elim rest [ ok l ↦ ok (a ∷ l) | err r ↦ err r ]
    ]
    else err nomemory

-- The classes whose entries have a DNS name in their DN.
abbrev pub has_name : EntryClass → Bool
has_name c = c.master || c.forward || c.rr

abbrev pub is_zone_class : EntryClass → Bool
is_zone_class c = c.master || c.forward

-- `has_zone_dn` after a successful conversion, which has set it.
abbrev zone_dn : Option Bool → Bool
zone_dn (some b) = b
zone_dn none = false

module _ {Name : Type 0} (lib : Names Name) (str2dn : List ℕ → Option (List (List Ava))) where
  abbrev pub checked_entry :
      LdapEntry
      → String
      → EntryClass
      → Option (Name × Option Name)
      → Bool
      → Result (ParsedEntry Name)
  checked_entry entry dn c names has_zone_dn = elim (dn_want_zone has_zone_dn (is_zone_class c)) [
    | success ↦ ok (record { attrs = entry; dn = dn; class = c; names = names })
    | r ↦ err r
  ]

  abbrev pub named :
      LdapEntry
      → String
      → EntryClass
      → Option Bool × Result (Name × Option Name)
      → Result (ParsedEntry Name)
  named entry dn c (has_zone_dn, err r) = err r
  named entry dn c (has_zone_dn, ok names) =
      checked_entry entry dn c (some names) (zone_dn has_zone_dn)

  abbrev pub with_class : LdapEntry → String → Result EntryClass → Run (Result (ParsedEntry Name))
  with_class entry dn (err r) = returns (err r)
  with_class entry dn (ok c) =
      if has_name c
      then (dn_to_dnsname lib str2dn (bytes dn) true >>= λ found. returns (named entry dn c found))
      else returns (checked_entry entry dn c none false)

  abbrev pub with_attributes :
      Option String → Result (List LdapAttribute) → Run (Result (ParsedEntry Name))
  with_attributes dn (err r) = returns (err r)
  with_attributes none (ok attrs) = returns (err failure)
  with_attributes (some dn) (ok attrs) =
      let entry : LdapEntry = record { attrs = attrs } in
      with_class entry dn (ldap_entry_parseclass entry)

  -- `init` is the result of `ldap_entry_init`.
  unfoldable pub ldap_entry_parse :
      IscResult → (String → Bool) → (String → Bool) → LdapMessage → Run (Result (ParsedEntry Name))
  unfolding read_attributes
  ldap_entry_parse init node memory message =
      if is_success init
      then with_attributes message.dn (read_attributes node memory message.attributes)
      else returns (err init)
