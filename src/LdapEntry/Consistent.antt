-- ===== src/LdapEntry/Consistent.antt =====
-- The classes of an entry and its DN.
use bind_dyndb_ldap_pagure_i.Prelude.{
  ℕ, String, ◌≡◌, refl, sym, ◌∙◌, ap, ◌⊎◌, inl, inr, Bool, true, false, ◌&&◌, Option, Option-cases,
  none, some, ◌==◌, subst, List, [], arith, Bool-cases,
}
use bind_dyndb_ldap_pagure_i.Isc.{
  IscResult, unexpected, is_success, Result, ok, err, Result-cases, returns, Run-cases,
}
use bind_dyndb_ldap_pagure_i.Text.{bytes}
use bind_dyndb_ldap_pagure_i.LdapEntry.{LdapEntry, ldap_entry_getvalues}
use bind_dyndb_ldap_pagure_i.LdapEntry.Class.{
  EntryClass, no_class, add_classes, checked_class, ldap_entry_parseclass,
}
use bind_dyndb_ldap_pagure_i.LdapEntry.Parse.{
  LdapMessage, ParsedEntry, read_attributes, has_name, is_zone_class, checked_entry, named,
  with_class, ldap_entry_parse,
}
use bind_dyndb_ldap_pagure_i.Convert.Dn.{
  Ava, Names, Parts, walk, from_parts, dn_to_dnsname, dn_want_zone,
}

-- Without one of the six classes among its values, an entry still has a class, the empty one.
pub parseclass_unsupported :
    (entry : LdapEntry) (values : List String)
    → ldap_entry_getvalues entry "objectClass" ≡ ok values
    → add_classes no_class values ≡ no_class
    → ldap_entry_parseclass entry ≡ ok no_class
unfolding ldap_entry_parseclass checked_class
parseclass_unsupported entry values h e = rw (h, e) refl

-- No entry is a master zone and a forward zone.
pub parseclass_exclusive :
    (entry : LdapEntry) (c : EntryClass)
    → ldap_entry_parseclass entry ≡ ok c
    → (c.master && c.forward) ≡ false
unfolding ldap_entry_parseclass checked_class
parseclass_exclusive entry c h = elim (Result-cases (ldap_entry_getvalues entry "objectClass")) [
  | inr (r, e) ↦ ground (arith, h, e)
  | inl (vs, e) ↦ ground (arith, h, e)
]

module _ {Name : Type 0} (lib : Names Name) (str2dn : List ℕ → Option (List (List Ava))) where
  -- What is true of an entry: the class is that of its object classes, it is no master zone and
  -- forward zone at once, it has DNS names if it is DNS data and only then, and `*iszone` was set for
  -- its DN just if its class is that of a zone.
  pub record Consistent (entry : ParsedEntry Name) : Type 0 where
    pub parsed : ldap_entry_parseclass entry.attrs ≡ ok entry.class
    pub exclusive : (entry.class.master && entry.class.forward) ≡ false
    pub names_from_dn :
        ((has_name entry.class ≡ false) × (entry.names ≡ none))
        ⊎ ((found : Name × Option Name) × (has_name entry.class ≡ true)
            × (entry.names ≡ some found)
            × (dn_to_dnsname lib str2dn (bytes entry.dn) true
                ≡ returns (some (is_zone_class entry.class), ok found)))

  abbrev Zoned : Option Bool × Result (Name × Option Name) → Type 0
  Zoned (some b, r) = Unit
  Zoned (none, ok n) = ⊥
  Zoned (none, err r) = Unit

  from_parts-Zoned : (p : Parts) → Zoned (from_parts lib true p)
  unfolding from_parts
  from_parts-Zoned p = elim (Bool-cases (p.idx == 0)) [
    | inl e ↦ rw (e, Zoned) tt
    | inr e ↦ elim (Bool-cases (p.idx == 1)) [
      | inl f ↦ rw (e, f, Zoned) tt
      | inr f ↦ elim (Bool-cases (p.idx == 2)) [
        | inl g ↦ rw (e, f, g, Zoned) tt
        | inr g ↦ rw (e, f, g, Zoned) tt
      ]
    ]
  ]

  -- A conversion that succeeds has set `*iszone`.
  dn_to_dnsname-Zoned :
      (dn : List ℕ) (o : Option Bool × Result (Name × Option Name))
      → dn_to_dnsname lib str2dn dn true ≡ returns o
      → Zoned o
  unfolding dn_to_dnsname
  dn_to_dnsname-Zoned dn o h = elim (Option-cases (str2dn dn)) [
    | inl e ↦ let value : o ≡ (none, err unexpected) = ground (arith, h, e) in rw (value, Zoned) tt
    | inr (rdns, e) ↦
        elim (Run-cases (walk (record { idx = 0; name_buf = []; origin_buf = [] }) rdns)) [
          | inl (ok p, f) ↦
              let value : o ≡ from_parts lib true p = ground (arith, h, e, f) in
              subst Zoned (sym value) (from_parts-Zoned p)
          | inl (err r, f) ↦
              let value : o ≡ (none, err r) = ground (arith, h, e, f) in rw (value, Zoned) tt
          | inr (inl f) ↦ absurd (ground (arith, h, e, f))
          | inr (inr (inl f)) ↦ absurd (ground (arith, h, e, f))
          | inr (inr (inr f)) ↦ absurd (ground (arith, h, e, f))
        ]
  ]

  checked_entry_success :
      (attrs : LdapEntry) (dn : String) (c : EntryClass) (names : Option (Name × Option Name))
      (b : Bool) (entry : ParsedEntry Name)
      → checked_entry lib str2dn attrs dn c names b ≡ ok entry
      → (b ≡ is_zone_class c)
        × (entry ≡ record { attrs = attrs; dn = dn; class = c; names = names })
  unfolding dn_want_zone
  checked_entry_success attrs dn c names b entry h = ground (arith, h)

  dn-Consistent :
      (attrs : LdapEntry) (dn : String) (entry : ParsedEntry Name) (c : EntryClass)
      (has_zone_dn : Option Bool) (found : Result (Name × Option Name))
      → ldap_entry_parseclass attrs ≡ ok c
      → has_name c ≡ true
      → dn_to_dnsname lib str2dn (bytes dn) true ≡ returns (has_zone_dn, found)
      → named lib str2dn attrs dn c (has_zone_dn, found) ≡ ok entry
      → Consistent entry
  dn-Consistent attrs dn entry c has_zone_dn (err r) e n f h = cc
  dn-Consistent attrs dn entry c none (ok names) e n f h =
      absurd (dn_to_dnsname-Zoned (bytes dn) (none, ok names) f)
  dn-Consistent attrs dn entry c (some b) (ok names) e n f h =
      let (zone, value) = checked_entry_success attrs dn c (some names) b entry h in
      subst Consistent (sym value) (record {
        parsed = e;
        exclusive = parseclass_exclusive attrs c e;
        names_from_dn = inr (names, n, refl, f ∙ ap (λ z. returns (some z, ok names)) zone);
      })

  with_class-Consistent :
      (attrs : LdapEntry) (dn : String) (entry : ParsedEntry Name)
      → with_class lib str2dn attrs dn (ldap_entry_parseclass attrs) ≡ returns (ok entry)
      → Consistent entry
  with_class-Consistent attrs dn entry h = elim (Result-cases (ldap_entry_parseclass attrs)) [
    | inr (r, e) ↦ absurd (ground (arith, h, e))
    | inl (c, e) ↦ elim (Bool-cases (has_name c)) [
      | inr n ↦
          let (_, value) =
            checked_entry_success attrs dn c none false entry (ground (arith, h, e, n)) in
          subst Consistent (sym value) (record {
            parsed = e;
            exclusive = parseclass_exclusive attrs c e;
            names_from_dn = inl (n, refl);
          })
      | inl n ↦ elim (Run-cases (dn_to_dnsname lib str2dn (bytes dn) true)) [
        | inl ((has_zone_dn, found), f) ↦
            dn-Consistent attrs dn entry c has_zone_dn found e n f (ground (arith, h, e, n, f))
        | inr (inl f) ↦ absurd (ground (arith, h, e, n, f))
        | inr (inr (inl f)) ↦ absurd (ground (arith, h, e, n, f))
        | inr (inr (inr f)) ↦ absurd (ground (arith, h, e, n, f))
      ]
    ]
  ]

  -- An entry that `ldap_entry_parse` returns is consistent.
  pub ldap_entry_parse-Consistent :
      (init : IscResult) (node memory : String → Bool) (message : LdapMessage)
      (entry : ParsedEntry Name)
      → ldap_entry_parse lib str2dn init node memory message ≡ returns (ok entry)
      → Consistent entry
  unfolding ldap_entry_parse
  ldap_entry_parse-Consistent init node memory message entry h =
      elim (Bool-cases (is_success init)) [
        | inr e ↦ absurd (ground (arith, h, e))
        | inl e ↦ elim (Result-cases (read_attributes node memory message.attributes)) [
          | inr (r, f) ↦ absurd (ground (arith, h, e, f))
          | inl (attrs, f) ↦ elim (Option-cases message.dn) [
            | inl g ↦ absurd (ground (arith, h, e, f, g))
            | inr (dn, g) ↦
                with_class-Consistent (record { attrs = attrs }) dn entry
                  (ground (arith, h, e, f, g))
          ]
        ]
      ]
