-- ===== src/Registers/Zones/Laws.antt =====
-- The zone register of src/zone_register.c as a map from origins to zones.
use bind_dyndb_ldap_pagure_i.Prelude.{
  ◌≡◌, refl, ◌⊎◌, inl, inr, String, Bool, true, Option, none, some, Option-cases,
}
use bind_dyndb_ldap_pagure_i.Isc.{
  Result-cases, IscResult, success, notfound, nomemory, exists, partialmatch, Result, ok, err,
  returns, unlocked,
}
use bind_dyndb_ldap_pagure_i.Registers.Rbt.{Rbt, found}
use bind_dyndb_ldap_pagure_i.Registers.Zones.{
  ZoneInfo, ZoneRegister, getzinfo, zr_add_zone, zr_del_zone, zr_get_zone_dbs, zr_get_zone_dn,
  zr_get_zone_ptr, zr_get_zone_settings,
}

module _ {Name Zone Set Db Rbtdb : Type 0} (lib : Rbt Name (ZoneInfo Zone Set Db))
    (isabsolute : Name → Bool) (getorigin : Zone → Name)
    (create : Zone → Option Zone → String → Option Db → Result (ZoneInfo Zone Set Db))
    (get_rbtdb : Db → Rbtdb) where
  abbrev pub free : lib.Tree → ZoneRegister lib isabsolute getorigin create get_rbtdb
  free t = record { rwlock = unlocked; rbt = t }

  -- What the four look-ups return for a zone that is registered so.
  abbrev pub Registered : lib.Tree → Name → ZoneInfo Zone Set Db → Type 0
  Registered t n z =
      (zr_get_zone_dbs lib isabsolute getorigin create get_rbtdb (free t) n
        ≡ returns (success, some (z.ldapdb, get_rbtdb z.ldapdb), free t))
      × (zr_get_zone_dn lib isabsolute getorigin create get_rbtdb (free t) n
          ≡ returns (success, some z.dn, free t))
      × (zr_get_zone_ptr lib isabsolute getorigin create get_rbtdb (free t) n
          ≡ returns (success, some (z.raw, z.secure), free t))
      × (zr_get_zone_settings lib isabsolute getorigin create get_rbtdb (free t) n
          ≡ returns (success, some z.settings, free t))

  -- And for a name that has no zone.
  abbrev pub Unregistered : lib.Tree → Name → Type 0
  Unregistered t n =
      (zr_get_zone_dbs lib isabsolute getorigin create get_rbtdb (free t) n
        ≡ returns (notfound, none, free t))
      × (zr_get_zone_dn lib isabsolute getorigin create get_rbtdb (free t) n
          ≡ returns (notfound, none, free t))
      × (zr_get_zone_ptr lib isabsolute getorigin create get_rbtdb (free t) n
          ≡ returns (notfound, none, free t))
      × (zr_get_zone_settings lib isabsolute getorigin create get_rbtdb (free t) n
          ≡ returns (notfound, none, free t))

  pub registered :
      (t : lib.Tree) (n : Name) (z : ZoneInfo Zone Set Db)
      → isabsolute n ≡ true
      → lib.entry t n ≡ some z
      → Registered t n z
  unfolding zr_get_zone_dbs zr_get_zone_dn zr_get_zone_ptr zr_get_zone_settings getzinfo
  registered t n z h e =
      let f = lib.findname_exact t n z e in
      (rw (h, f) refl, rw (h, f) refl, rw (h, f) refl, rw (h, f) refl)

  missing_node :
      (o : IscResult × Option (ZoneInfo Zone Set Db))
      → (o.0 ≡ notfound) ⊎ (o.0 ≡ partialmatch)
      → found o ≡ (notfound, none)
  missing_node (r, d) (inl e) = rw e refl
  missing_node (r, d) (inr e) = rw e refl

  unregistered :
      (t : lib.Tree) (n : Name) → isabsolute n ≡ true → lib.entry t n ≡ none → Unregistered t n
  unfolding zr_get_zone_dbs zr_get_zone_dn zr_get_zone_ptr zr_get_zone_settings getzinfo
  unregistered t n h e =
      let f = missing_node (lib.findname t n) (lib.findname_missing t n e) in
      (rw (h, f) refl, rw (h, f) refl, rw (h, f) refl, rw (h, f) refl)

  -- On a free register and a zone whose origin is absolute, `zr_add_zone` leaves the lock free, and:
  -- it fails with ISC_R_EXISTS on a registered origin, changing nothing; or the zone's structure
  -- cannot be created, with that error and nothing changed; or memory runs out, with nothing
  -- changed; or it succeeds on an origin that was not registered, after which every look-up finds
  -- the new structure.
  pub zr_add_zone_lem :
      (t : lib.Tree) (ldapdb : Option Db) (raw : Zone) (secure : Option Zone) (dn : String)
      → isabsolute (getorigin raw) ≡ true
      → let add =
          zr_add_zone lib isabsolute getorigin create get_rbtdb (free t) ldapdb raw secure dn in
        ((z : ZoneInfo Zone Set Db) × Registered t (getorigin raw) z
          × (add ≡ returns (exists, free t)))
        ⊎ (Unregistered t (getorigin raw)
            × (((r : IscResult) × (create raw secure dn ldapdb ≡ err r)
                  × (add ≡ returns (r, free t)))
                ⊎ (add ≡ returns (nomemory, free t))
                ⊎ ((z : ZoneInfo Zone Set Db) × (t' : lib.Tree) × (create raw secure dn ldapdb
                      ≡ ok z)
                    × (add ≡ returns (success, free t'))
                    × Registered t' (getorigin raw) z)))
  unfolding zr_add_zone getzinfo
  zr_add_zone_lem t ldapdb raw secure dn h =
      let n = getorigin raw in
      elim (Option-cases (lib.entry t n)) [
        | inr (z, e) ↦ inl (z, registered t n z h e, rw (h, lib.findname_exact t n z e) refl)
        | inl e ↦
            let f = missing_node (lib.findname t n) (lib.findname_missing t n e) in
            inr (
              unregistered t n h e,
              elim (Result-cases (create raw secure dn ldapdb)) [
                | inr (r, c) ↦ inl (r, c, rw (h, f, c) refl)
                | inl (z, c) ↦ elim (lib.addname_new t n z e) [
                  | inl a ↦ inr (inl (rw (h, f, c, a) refl))
                  | inr (a, v) ↦
                      let t' = (lib.addname t n z).1 in
                      inr (inr (z, t', c, rw (h, f, c, a) refl, registered t' n z h v))
                ]
              ],
            )
      ]

  -- On a free register and an absolute origin, `zr_del_zone` succeeds and leaves the lock free,
  -- whether the zone was registered or not, and afterwards no look-up finds it.
  pub zr_del_zone_lem :
      (t : lib.Tree) (n : Name)
      → isabsolute n ≡ true
      → (t' : lib.Tree) × (zr_del_zone lib isabsolute getorigin create get_rbtdb (free t) n
          ≡ returns (success, free t'))
        × Unregistered t' n
  unfolding zr_del_zone
  zr_del_zone_lem t n h =
      let t' = (lib.deletename t n).1 in
      elim (Option-cases (lib.entry t n)) [
        | inl e ↦
            let r = lib.deletename_missing t n e in
            let gone : lib.entry t' n ≡ none = rw r e in (t', rw r refl, unregistered t' n h gone)
        | inr (z, e) ↦
            let r = lib.deletename_exact t n z e in (t', rw (r.0) refl, unregistered t' n h (r.1))
      ]
