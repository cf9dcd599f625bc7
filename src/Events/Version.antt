-- ===== src/Events/Version.antt =====
-- The version of the metadata database that is written to, through the operations on entries.
use bind_dyndb_ldap_pagure_i.Prelude.{
  ◌≡◌, refl, inl, inr, Bool, Bool-cases, true, false, none, some,
}
use bind_dyndb_ldap_pagure_i.Isc.{
  is_success, Result, ok, err, returns, unlocked, locked, Ensures, Ensures-after,
}
use bind_dyndb_ldap_pagure_i.LdapEntry.Class.{EntryClass}
use bind_dyndb_ldap_pagure_i.Metadata.{
  Database, metadb_closeversion, metadb_writenode, write_version,
}
use bind_dyndb_ldap_pagure_i.Metadata.Mldap.{
  Mldap, mldap_class_store, store_entry, with_node, delete_node, delete_in, mldap_entry_create,
  mldap_entry_delete,
}

module _ {Uuid Name : Type 0} (db : Database Uuid Name) where
  -- No version is written to and the lock is free, so that the next call can start.
  abbrev pub IsClosed : Mldap db → Type 0
  IsClosed mldap = (mldap.mdb.newversion_lock ≡ unlocked) × (mldap.mdb.newversion ≡ none)

  abbrev pub IsOpen : Mldap db → Type 0
  IsOpen mldap =
      (mldap.mdb.newversion_lock ≡ locked) × (v : db.Version) × (mldap.mdb.newversion ≡ some v)

  pub closeversion-IsClosed :
      (mldap : Mldap db) (commit : Bool)
      → IsOpen mldap
      → Ensures
          (λ mdb. (mdb.newversion_lock ≡ unlocked) × (mdb.newversion ≡ none))
          (metadb_closeversion db mldap.mdb commit)
  unfolding metadb_closeversion
  closeversion-IsClosed mldap commit (l, v, n) = rw (l, n) (refl, refl)

  store_entry-IsOpen :
      (class : EntryClass) (mldap : Mldap db) (node : Name) (v : db.Version)
      → mldap.mdb.newversion_lock ≡ locked
      → IsOpen (store_entry db class mldap node v).1
  unfolding store_entry
  store_entry-IsOpen class mldap node v l =
      elim (Bool-cases (is_success (mldap_class_store db class v node).0)) [
        | inl e ↦ rw e (l, _, refl)
        | inr e ↦ rw e (l, _, refl)
      ]

  with_node-IsOpen :
      (class : EntryClass) (mldap : Mldap db) (node : Result Name)
      → IsOpen mldap
      → Ensures (λ made. IsOpen made.1) (with_node db class mldap node)
  with_node-IsOpen class mldap (err r) h = h
  with_node-IsOpen class mldap (ok node) h =
      Ensures-after (λ made. IsOpen made.1) (write_version db mldap.mdb)
        (λ v. returns (store_entry db class mldap node v))
        (λ v. store_entry-IsOpen class mldap node v h.0)

  pub create-IsOpen :
      (uuid : Uuid) (class : EntryClass) (mldap : Mldap db)
      → IsOpen mldap
      → Ensures (λ made. IsOpen made.1) (mldap_entry_create db uuid class mldap)
  unfolding mldap_entry_create
  create-IsOpen uuid class mldap h =
      Ensures-after (λ made. IsOpen made.1) (metadb_writenode db true mldap.mdb (db.mname uuid))
        (λ node. with_node db class mldap node) (λ node. with_node-IsOpen class mldap node h)

  delete_node-IsOpen :
      (mldap : Mldap db) (node : Result Name)
      → IsOpen mldap
      → Ensures (λ done. IsOpen done.1) (delete_node db mldap node)
  delete_node-IsOpen mldap (err r) h = h
  delete_node-IsOpen mldap (ok node) h =
      Ensures-after (λ done. IsOpen done.1) (write_version db mldap.mdb)
        (λ v. returns (delete_in db mldap node v)) (λ v. (h.0, _, refl))

  pub delete-IsOpen :
      (uuid : Uuid) (mldap : Mldap db)
      → IsOpen mldap
      → Ensures (λ done. IsOpen done.1) (mldap_entry_delete db mldap uuid)
  unfolding mldap_entry_delete
  delete-IsOpen uuid mldap h =
      Ensures-after (λ done. IsOpen done.1) (metadb_writenode db false mldap.mdb (db.mname uuid))
        (λ node. delete_node db mldap node) (λ node. delete_node-IsOpen mldap node h)
