-- ===== src/Registers/Zones.antt =====
-- src/zone_register.c: the zones that LDAP defines, with the settings and databases of each. `Db` is an LDAP database, `Rbtdb` the internal database in it, `Set` a settings set, and
-- `create_zone_info` is a parameter: `create raw secure dn ldapdb`. Whether `rwlock` is held for
-- reading or for writing is not told apart, as no call takes it twice.
pub mod Laws
use bind_dyndb_ldap_pagure_i.Prelude.{
  String, Bool, true, false, ◌&&◌, ◌||◌, not, Option, none, some, List, [], ◌∷◌, ◌=ₛ◌,
  if◌then◌else◌,
}
use bind_dyndb_ldap_pagure_i.Isc.{
  IscResult, success, notfound, exists, partialmatch, is_success, is_notfound, Result, ok, err, Run,
  returns, aborts, ◌>>=◌, ◌>>◌, require, Mutex, lock, unlock,
}
use bind_dyndb_ldap_pagure_i.Registers.Rbt.{Rbt, missing_is_fine, found, used}

pub record ZoneInfo (Zone Set Db : Type 0) : Type 0 where
  pub raw : Zone
  pub secure : Option Zone
  pub dn : String
  pub settings : Set
  pub ldapdb : Db

module _ {Name Zone Set Db Rbtdb : Type 0} (lib : Rbt Name (ZoneInfo Zone Set Db))
    (isabsolute : Name → Bool) (getorigin : Zone → Name)
    (create : Zone → Option Zone → String → Option Db → Result (ZoneInfo Zone Set Db))
    (get_rbtdb : Db → Rbtdb) where
  pub record ZoneRegister : Type 0 where
    pub rwlock : Mutex
    pub rbt : lib.Tree

  -- The node's data is a zone_info_t, so it is not NULL on ISC_R_SUCCESS.
  unfoldable pub getzinfo : ZoneRegister → Name → Run (IscResult × Option (ZoneInfo Zone Set Db))
  getzinfo zr name = do require (isabsolute name); returns (found (lib.findname zr.rbt name))

  abbrev add_new : lib.Tree → Name → Result (ZoneInfo Zone Set Db) → IscResult × lib.Tree
  add_new t name (err r) = (r, t)
  add_new t name (ok zinfo) = lib.addname t name zinfo

  unfoldable pub zr_add_zone :
      ZoneRegister → Option Db → Zone → Option Zone → String → Run (IscResult × ZoneRegister)
  unfolding getzinfo
  zr_add_zone zr ldapdb raw secure dn = do
    let name = getorigin raw
    l ← lock zr.rwlock
    looked ← getzinfo zr name
    let (result, t) =
        if is_notfound (looked.0)
        then add_new zr.rbt name (create raw secure dn ldapdb)
        else (if is_success (looked.0) then exists else looked.0, zr.rbt)
    l' ← unlock l
    returns (result, record { rwlock = l'; rbt = t })

  unfoldable pub zr_del_zone : ZoneRegister → Name → Run (IscResult × ZoneRegister)
  zr_del_zone zr origin = do
    l ← lock zr.rwlock
    let (result, t) = lib.deletename zr.rbt origin
    l' ← unlock l
    returns (missing_is_fine result, record { rwlock = l'; rbt = t })

  -- What the four look-ups have in common: LOCK, `getzinfo`, a use of what it found, UNLOCK.
  abbrev look_up {ℓ} :
      {A : Type ℓ}
      → (ZoneInfo Zone Set Db → A)
      → ZoneRegister
      → Name
      → Run (IscResult × Option A × ZoneRegister)
  look_up use_of zr name = do
    l ← lock zr.rwlock
    looked ← getzinfo zr name
    l' ← unlock l
    returns (looked.0, used use_of (looked.1), record zr { rwlock = l' })

  -- Both databases; a caller that passes NULL ignores one.
  unfoldable pub zr_get_zone_dbs :
      ZoneRegister → Name → Run (IscResult × Option (Db × Rbtdb) × ZoneRegister)
  unfolding getzinfo
  zr_get_zone_dbs = look_up (λ zinfo. (zinfo.ldapdb, get_rbtdb zinfo.ldapdb))

  unfoldable pub zr_get_zone_dn :
      ZoneRegister → Name → Run (IscResult × Option String × ZoneRegister)
  unfolding getzinfo
  zr_get_zone_dn = look_up (λ zinfo. zinfo.dn)

  unfoldable pub zr_get_zone_ptr :
      ZoneRegister → Name → Run (IscResult × Option (Zone × Option Zone) × ZoneRegister)
  unfolding getzinfo
  zr_get_zone_ptr = look_up (λ zinfo. (zinfo.raw, zinfo.secure))

  unfoldable pub zr_get_zone_settings :
      ZoneRegister → Name → Run (IscResult × Option Set × ZoneRegister)
  unfolding getzinfo
  zr_get_zone_settings = look_up (λ zinfo. zinfo.settings)
