-- ===== src/Events/Taken.antt =====
-- The beginning of a call of `ldap_sync_search_entry`: the version of the metadata that is opened and
-- the slot that is taken.
use bind_dyndb_ldap_pagure_i.Prelude.{
  ◌+◌, ◌≡◌, refl, inl, inr, ◌⊎◌, Bool, Bool-cases, true, false, if◌then◌else◌, arith,
}
use bind_dyndb_ldap_pagure_i.Isc.{
  IscResult, is_success, Result, ok, err, Mutex, lock, unlock, returns, Ensures, Ensures-bind,
  Ensures-after,
}
use bind_dyndb_ldap_pagure_i.Metadata.{Database, Metadb, opened, metadb_newversion}
use bind_dyndb_ldap_pagure_i.Semaphore.{sync_concurr_limit_wait}
use bind_dyndb_ldap_pagure_i.Events.{Outside, Sender}
use bind_dyndb_ldap_pagure_i.Events.Entries.{Call, open_meta, take_slot}
use bind_dyndb_ldap_pagure_i.Events.Steps.{W}

abbrev pub one_more : {Name : Type 0} → Outside Name → Outside Name
one_more o = record o { waits = o.waits + 1 }

module _ {Uuid Name : Type 0} (db : Database Uuid Name) (sender : Sender Name)
    (name_equal : Name → Name → Bool) (empty_name : Name) where
  abbrev pub Taken :
      W db sender name_equal empty_name → IscResult × W db sender name_equal empty_name → Type 0
  Taken before (r, w) =
      (w.mldap ≡ before.mldap)
      × (((is_success r ≡ true) × (w.outside ≡ one_more before.outside))
          ⊎ ((is_success r ≡ false) × (w.outside ≡ before.outside)))

  pub take_slot-Taken :
      (call : Call db sender name_equal empty_name) (w : W db sender name_equal empty_name)
      → Ensures (Taken w) (take_slot db sender name_equal empty_name call w)
  take_slot-Taken call w =
      Ensures-after (Taken w) (sync_concurr_limit_wait call.rounds)
        (λ r. returns (
          r,
          if is_success r
              then record w { outside = record w.outside { waits = w.outside.waits + 1 } }
              else w,
        ))
        λ r. elim (Bool-cases (is_success r)) [
          | inl e ↦ rw e (refl, inl (refl, refl))
          | inr e ↦ rw e (refl, inr (refl, refl))
        ]

  -- The slot was taken, or it was not.
  pub Taken-of :
      (w : W db sender name_equal empty_name) (p : IscResult × W db sender name_equal empty_name)
      → Taken w p
      → is_success p.0 ≡ true
      → p.1.outside ≡ one_more w.outside
  Taken-of w p (m, inl (e, s)) f = s
  Taken-of w p (m, inr (e, s)) f = absurd (ground (arith, e, f))

  pub Taken-refused :
      (w : W db sender name_equal empty_name) (p : IscResult × W db sender name_equal empty_name)
      → Taken w p
      → is_success p.0 ≡ false
      → p.1.outside ≡ w.outside
  Taken-refused w p (m, inl (e, s)) f = absurd (ground (arith, e, f))
  Taken-refused w p (m, inr (e, s)) f = s

  -- Before the slot is taken nothing was sent, and the committed metadata are the same.
  abbrev pub Begun :
      Outside Name → db.Version → IscResult × W db sender name_equal empty_name → Type 0
  Begun o v (r, w) = (w.outside ≡ o) × (w.mldap.mdb.current ≡ v)

  -- The committed version stays.
  opened-current :
      (mdb : Metadb db) (l : Mutex) (made : Result db.Version)
      → Ensures (λ r. r.1.current ≡ mdb.current) (opened db mdb l made)
  opened-current mdb l (err e) =
      Ensures-after (λ r. r.1.current ≡ mdb.current) (unlock l)
        (λ l'. returns (e, record mdb { newversion_lock = l' })) (λ l'. refl)
  opened-current mdb l (ok v) = refl

  newversion-current :
      (mdb : Metadb db) → Ensures (λ r. r.1.current ≡ mdb.current) (metadb_newversion db mdb)
  unfolding metadb_newversion
  newversion-current mdb =
      Ensures-after (λ r. r.1.current ≡ mdb.current) (lock mdb.newversion_lock)
        (λ l. opened db mdb l (db.newversion mdb.current))
        (λ l. opened-current mdb l (db.newversion mdb.current))

  pub opened-Begun :
      (o : Outside Name) (w : W db sender name_equal empty_name)
      → w.outside ≡ o
      → Ensures (Begun o w.mldap.mdb.current) (open_meta db sender name_equal empty_name w)
  opened-Begun o w h =
      Ensures-bind (λ r. r.1.current ≡ w.mldap.mdb.current) (Begun o w.mldap.mdb.current)
        (metadb_newversion db w.mldap.mdb)
        (λ r.
          returns
            (r.0, record w { mldap = record w.mldap { mdb = r.1 }; open_version = is_success r.0 }))
        (newversion-current w.mldap.mdb) (λ r e. (h, e))
