-- ===== src/Events/Found.antt =====
-- The entries that a call of `ldap_sync_search_entry` is about: what the message from LDAP says of the
-- new one and what the metadata say of the old one.
use bind_dyndb_ldap_pagure_i.Prelude.{
  ◌≡◌, refl, subst, inl, inr, ◌⊎◌, Bool, Bool-cases, true, false, Option, none, some, arith,
}
use bind_dyndb_ldap_pagure_i.Isc.{
  IscResult, is_success, Result, ok, err, Run, returns, aborts, undefined, blocks, ◌>>=◌,
}
use bind_dyndb_ldap_pagure_i.LdapEntry.Parse.{ParsedEntry}
use bind_dyndb_ldap_pagure_i.LdapEntry.Class.{EntryClass}
use bind_dyndb_ldap_pagure_i.Metadata.{Database, metadb_readnode_open}
use bind_dyndb_ldap_pagure_i.Metadata.Mldap.{
  Mldap, mldap_class_get, mldap_dnsname_get, mldap_entry_read,
}
use bind_dyndb_ldap_pagure_i.Events.{Entry, Sender, is_config}
use bind_dyndb_ldap_pagure_i.Events.Entries.{
  ldap_entry_reconstruct, named_entry, with_names, class_read, Call, entry_of, parse_new, renamed,
}

module _ {Uuid Name : Type 0} (db : Database Uuid Name) (sender : Sender Name)
    (name_equal : Name → Name → Bool) (empty_name : Name) where
  -- The names of an entry are those that were parsed, the owner name and its zone.
  abbrev pub HasNames : Option (Name × Option Name) → Entry Name → Type 0
  HasNames none e = (e.fqdn ≡ empty_name) × (e.zone_name ≡ empty_name)
  HasNames (some (fqdn, none)) e = (e.fqdn ≡ fqdn) × (e.zone_name ≡ empty_name)
  HasNames (some (fqdn, some zone)) e = (e.fqdn ≡ fqdn) × (e.zone_name ≡ zone)

  -- The entry in the message.
  abbrev pub InMessage : Call db sender name_equal empty_name → Entry Name → Type 0
  InMessage call e =
      (p : ParsedEntry Name) × (call.parsed ≡ returns (ok p))
      × (e.class ≡ p.class)
      × HasNames p.names e

  -- The entry that the metadata have for the UUID, in a version. Configuration has no names.
  abbrev pub InMetadata : db.Version → Uuid → Entry Name → Type 0
  InMetadata v uuid e =
      (is_success (db.findnode v (db.mname uuid) false) ≡ true)
      × (mldap_class_get db v (db.mname uuid) ≡ returns (ok e.class))
      × (((is_config e.class ≡ true) × (e.fqdn ≡ empty_name) × (e.zone_name ≡ empty_name))
          ⊎ ((is_config e.class ≡ false)
              × (mldap_dnsname_get db v (db.mname uuid) ≡ returns (ok (e.fqdn, e.zone_name)))))

  -- The entry has another owner name or is in another zone. The old class counts.
  abbrev pub Renamed : Entry Name → Entry Name → Type 0
  Renamed old new =
      (is_config old.class ≡ false)
      × ((name_equal old.zone_name new.zone_name ≡ false) ⊎ (name_equal old.fqdn new.fqdn ≡ false))

  abbrev pub NotRenamed : Entry Name → Entry Name → Type 0
  NotRenamed old new =
      (is_config old.class ≡ true)
      ⊎ ((name_equal old.zone_name new.zone_name ≡ true) × (name_equal old.fqdn new.fqdn ≡ true))

  pub renamed-Renamed :
      (old new : Entry Name)
      → renamed db sender name_equal empty_name old new ≡ true
      → Renamed old new
  renamed-Renamed old new h = elim (Bool-cases (name_equal old.zone_name new.zone_name)) [
    | inr z ↦ (ground (arith, h), inl z)
    | inl z ↦ elim (Bool-cases (name_equal old.fqdn new.fqdn)) [
      | inr f ↦ (ground (arith, h), inr f)
      | inl f ↦ absurd (ground (arith, h, z, f))
    ]
  ]

  pub renamed-NotRenamed :
      (old new : Entry Name)
      → renamed db sender name_equal empty_name old new ≡ false
      → NotRenamed old new
  renamed-NotRenamed old new h = elim (Bool-cases (is_config old.class)) [
    | inl c ↦ inl c
    | inr c ↦ inr (ground (arith, h, c), ground (arith, h, c))
  ]

  entry_of-HasNames :
      (p : ParsedEntry Name) → HasNames p.names (entry_of db sender name_equal empty_name p)
  entry_of-HasNames p =
      elim p.names
        as (λ n. HasNames n (entry_of db sender name_equal empty_name (record p { names = n }))) [
          | none ↦ (refl, refl)
          | some (fqdn, none) ↦ (refl, refl)
          | some (fqdn, some zone) ↦ (refl, refl)
        ]

  parsed_of :
      (call : Call db sender name_equal empty_name) (e : Entry Name)
      (m : Run (Result (ParsedEntry Name)))
      → call.parsed ≡ m
      → (m >>= λ found.
          returns
            (elim found [ err r ↦ err r | ok p ↦ ok (entry_of db sender name_equal empty_name p) ]))
        ≡ returns (ok e)
      → InMessage call e
  parsed_of call e (returns (ok p)) q h =
      let same : entry_of db sender name_equal empty_name p ≡ e = cc in
      subst (InMessage call) same (p, q, refl, entry_of-HasNames p)
  parsed_of call e (returns (err r)) q h = absurd (cc)
  parsed_of call e aborts q h = absurd (cc)
  parsed_of call e undefined q h = absurd (cc)
  parsed_of call e blocks q h = absurd (cc)

  pub parse_new-InMessage :
      (call : Call db sender name_equal empty_name) (e : Entry Name)
      → parse_new db sender name_equal empty_name call ≡ returns (ok e)
      → InMessage call e
  parse_new-InMessage call e h = parsed_of call e call.parsed refl h

  named-InMetadata :
      (v : db.Version) (uuid : Uuid) (class : EntryClass) (names : Run (Result (Name × Name)))
      (e : Entry Name)
      → is_success (db.findnode v (db.mname uuid) false) ≡ true
      → mldap_class_get db v (db.mname uuid) ≡ returns (ok class)
      → is_config class ≡ false
      → mldap_dnsname_get db v (db.mname uuid) ≡ names
      → (names >>= λ found. returns (named_entry db sender name_equal empty_name class found))
        ≡ returns (ok e)
      → InMetadata v uuid e
  named-InMetadata v uuid class (returns (ok (fqdn, zone))) e n c f g h =
      let same : record { class = class; fqdn = fqdn; zone_name = zone } ≡ e = cc in
      subst (InMetadata v uuid) same (n, c, inr (f, g))
  named-InMetadata v uuid class (returns (err r)) e n c f g h = absurd (cc)
  named-InMetadata v uuid class aborts e n c f g h = absurd (cc)
  named-InMetadata v uuid class undefined e n c f g h = absurd (cc)
  named-InMetadata v uuid class blocks e n c f g h = absurd (cc)

  with_names-InMetadata :
      (v : db.Version) (uuid : Uuid) (class : EntryClass) (e : Entry Name)
      → is_success (db.findnode v (db.mname uuid) false) ≡ true
      → mldap_class_get db v (db.mname uuid) ≡ returns (ok class)
      → with_names db sender name_equal empty_name (mldap_dnsname_get db v (db.mname uuid)) class
        ≡ returns (ok e)
      → InMetadata v uuid e
  with_names-InMetadata v uuid class e n c h = elim (Bool-cases (is_config class)) [
    | inl f ↦
        let same : record { class = class; fqdn = empty_name; zone_name = empty_name } ≡ e =
          ground (arith, f, h) in
        subst (InMetadata v uuid) same (n, c, inl (f, refl, refl))
    | inr f ↦
        named-InMetadata v uuid class (mldap_dnsname_get db v (db.mname uuid)) e n c f refl
          (rw f at h)
  ]

  class_read-InMetadata :
      (v : db.Version) (uuid : Uuid) (m : Run (Result EntryClass)) (e : Entry Name)
      → is_success (db.findnode v (db.mname uuid) false) ≡ true
      → mldap_class_get db v (db.mname uuid) ≡ m
      → (m >>= λ class.
          class_read db sender name_equal empty_name (mldap_dnsname_get db v (db.mname uuid)) class)
        ≡ returns (ok e)
      → InMetadata v uuid e
  class_read-InMetadata v uuid (returns (ok class)) e n c h =
      with_names-InMetadata v uuid class e n c h
  class_read-InMetadata v uuid (returns (err r)) e n c h = absurd (cc)
  class_read-InMetadata v uuid aborts e n c h = absurd (cc)
  class_read-InMetadata v uuid undefined e n c h = absurd (cc)
  class_read-InMetadata v uuid blocks e n c h = absurd (cc)

  pub reconstruct-InMetadata :
      (memory : IscResult × IscResult) (mldap : Mldap db) (uuid : Uuid) (e : Entry Name)
      → ldap_entry_reconstruct db sender name_equal empty_name memory mldap uuid ≡ returns (ok e)
      → InMetadata mldap.mdb.current uuid e
  unfolding ldap_entry_reconstruct mldap_entry_read metadb_readnode_open
  reconstruct-InMetadata (m, m') mldap uuid e h = elim (Bool-cases (is_success m)) [
    | inr f ↦ absurd (ground (arith, f, h))
    | inl f ↦ elim (Bool-cases (is_success (db.findnode mldap.mdb.current (db.mname uuid) false))) [
      | inr n ↦ absurd (ground (arith, f, n, h))
      | inl n ↦ elim (Bool-cases (is_success m')) [
        | inr g ↦ absurd (ground (arith, f, n, g, h))
        | inl g ↦
            class_read-InMetadata mldap.mdb.current uuid
              (mldap_class_get db mldap.mdb.current (db.mname uuid)) e n refl
              (rw g at (rw n at (rw f at h)))
      ]
    ]
  ]
