-- ===== src/Registers/Forwards.antt =====
-- src/fwd_register.c: the set of the active forward zones. The data of a node is the mark
-- FORWARDING_SET_MARK, which is never NULL.
pub mod Laws
use bind_dyndb_ldap_pagure_i.Prelude.{Bool, Option}
use bind_dyndb_ldap_pagure_i.Isc.{
  IscResult, success, notfound, partialmatch, Run, returns, ◌>>=◌, ◌>>◌, require, Mutex, lock,
  unlock,
}
use bind_dyndb_ldap_pagure_i.Registers.Rbt.{Rbt, missing_is_fine, partial_is_missing}

module _ {Name : Type 0} (lib : Rbt Name (Unit {0})) (isabsolute : Name → Bool) where
  pub record FwdRegister : Type 0 where
    pub rwlock : Mutex
    pub rbt : lib.Tree

  unfoldable pub fwdr_add_zone : FwdRegister → Name → Run (IscResult × FwdRegister)
  fwdr_add_zone fwdr name = do
    require (isabsolute name)
    l ← lock fwdr.rwlock
    let (result, t) = lib.addname fwdr.rbt name tt
    l' ← unlock l
    returns (result, record { rwlock = l'; rbt = t })

  unfoldable pub fwdr_del_zone : FwdRegister → Name → Run (IscResult × FwdRegister)
  fwdr_del_zone fwdr name = do
    require (isabsolute name)
    l ← lock fwdr.rwlock
    let (result, t) = lib.deletename fwdr.rbt name
    l' ← unlock l
    returns (missing_is_fine result, record { rwlock = l'; rbt = t })

  unfoldable pub fwdr_zone_ispresent : FwdRegister → Name → Run (IscResult × FwdRegister)
  fwdr_zone_ispresent fwdr name = do
    require (isabsolute name)
    l ← lock fwdr.rwlock
    let (result, dummy) = lib.findname fwdr.rbt name
    l' ← unlock l
    returns (partial_is_missing result, record fwdr { rwlock = l' })
