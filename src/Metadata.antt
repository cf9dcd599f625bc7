-- ===== src/Metadata.antt =====
-- src/metadb.c and src/mldap.c: what the driver remembers of each LDAP entry, in a database of BIND
-- whose names are made of entry UUIDs.
pub mod Mldap
pub mod Stored
pub mod Dead
pub mod Functions
mod Tests
use bind_dyndb_ldap_pagure_i.Prelude.{
  ℕ, zero, suc, ◌+◌, ◌*◌, ◌/◌, ◌%◌, ◌^◌, ◌≡◌, ◌≢◌, ◌⊎◌, Bool, true, false, not, Option, none, some,
  List, [], ◌∷◌, ◌==◌, if◌then◌else◌,
}
use bind_dyndb_ldap_pagure_i.Isc.{
  IscResult, success, notfound, nomore, unchanged, is_success, Result, ok, err, Run, returns,
  aborts, ◌>>=◌, Mutex, lock, unlock,
}

-- The record types that the data is stored as.
pub data RdType : Type 0 where
  rd_a rd_aaaa rd_rp : RdType

-- The database (dns/db.h) as far as it is used. A version is a state of the data; `rdatas` is what
-- `dns_db_findrdataset` gives, `types` what `dns_db_allrdatasets` gives. `after` gives the names that an
-- iterator comes to behind the name to which it was set, and the result that ends it. `rp` and `rp_names` convert between two
-- names and an RP record. `mname` and `uuid_of` convert between UUIDs and names below `root`.
pub record Database (Uuid Name : Type 0) : Type 1 where
  pub Version : Type 0
  pub rdatas : Version → Name → RdType → Result (List (List ℕ))
  pub newversion : Version → Result Version
  pub findnode : Version → Name → Bool → IscResult
  pub addrdataset : Version → Name → RdType → List ℕ → IscResult × Version
  pub deleterdataset : Version → Name → RdType → IscResult × Version
  pub types : Version → Name → List RdType
  pub after : Version → Name → Result (List Name × IscResult)
  pub issubdomain : Name → Name → Bool
  pub root : Name
  pub mname : Uuid → Name
  pub uuid_of : Name → Option Uuid
  pub rp : Name → Name → Result (List ℕ)
  pub rp_names : List ℕ → Result (Name × Name)
  -- an addition that succeeds replaces the record, one that changes nothing found it there
  pub add_there :
      (v : Version) (n : Name) (t : RdType) (d : List ℕ)
      → ((addrdataset v n t d).0 ≡ success) ⊎ ((addrdataset v n t d).0 ≡ unchanged)
      → rdatas (addrdataset v n t d).1 n t ≡ ok (d ∷ [])
  pub add_others :
      (v : Version) (n m : Name) (t u : RdType) (d : List ℕ)
      → (m ≢ n) ⊎ (u ≢ t)
      → rdatas (addrdataset v n t d).1 m u ≡ rdatas v m u

module _ {Uuid Name : Type 0} (db : Database Uuid Name) where
  -- `metadb_t`: `rbtdb` with its committed version, and the version that is written to.
  pub record Metadb : Type 0 where
    pub newversion_lock : Mutex
    pub current : db.Version
    pub newversion : Option db.Version

  abbrev pub opened : Metadb → Mutex → Result db.Version → Run (IscResult × Metadb)
  opened mdb l (err r) = do l' ← unlock l; returns (r, record mdb { newversion_lock = l' })
  opened mdb l (ok v) = returns (success, record mdb { newversion_lock = l; newversion = some v })

  -- Whether the lock is free or not, the call locks it.
  unfoldable pub metadb_newversion : Metadb → Run (IscResult × Metadb)
  metadb_newversion mdb = do l ← lock mdb.newversion_lock; opened mdb l (db.newversion mdb.current)

  abbrev closed : Metadb → Mutex → Bool → Option db.Version → Run Metadb
  closed mdb l commit none = aborts
  closed mdb l commit (some v) = returns (record {
    newversion_lock = l;
    current = if commit then v else mdb.current;
    newversion = none;
  })

  unfoldable pub metadb_closeversion : Metadb → Bool → Run Metadb
  metadb_closeversion mdb commit = do
    l ← unlock mdb.newversion_lock
    closed mdb l commit mdb.newversion

  -- A node is its name; the version is the one that it was opened in.
  unfoldable pub metadb_readnode_open : Metadb → Name → Result Name
  metadb_readnode_open mdb mname =
      let result = db.findnode mdb.current mname false in
      if is_success result then ok mname else err result

  abbrev pub write_version : Metadb → Run db.Version
  write_version mdb = elim mdb.newversion [ none ↦ aborts | some v ↦ returns v ]

  -- Both functions that open a node in the version that is written to.
  unfoldable pub metadb_writenode : Bool → Metadb → Name → Run (Result Name)
  metadb_writenode create mdb mname = do
    v ← write_version mdb
    let result = db.findnode v mname create
    returns (if is_success result then ok mname else err result)

  abbrev pub unchanged_is_fine : IscResult → IscResult
  unchanged_is_fine unchanged = success
  unchanged_is_fine r = r

  unfoldable pub metadb_rdata_store : db.Version → Name → RdType → List ℕ → IscResult × db.Version
  metadb_rdata_store v node t rdata =
      let (result, v') = db.addrdataset v node t rdata in (unchanged_is_fine result, v')

  -- The set that was found. The INSIST: there is exactly one record in it.
  abbrev pub only_rdata : Result (List (List ℕ)) → Run (Result (List ℕ))
  only_rdata (err r) = returns (err r)
  only_rdata (ok (d ∷ [])) = returns (ok d)
  only_rdata (ok _) = aborts

  unfoldable pub metadb_rdataset_get : db.Version → Name → RdType → Run (Result (List ℕ))
  metadb_rdataset_get v node t = only_rdata (db.rdatas v node t)

  -- The loop over the types of the node.
  unfoldable pub delete_types : db.Version → Name → List RdType → IscResult × db.Version
  delete_types v node [] = (success, v)
  delete_types v node (t ∷ types) =
      let (result, v') = db.deleterdataset v node t in
      let rest = delete_types v' node types in if is_success result then rest else (result, v')

  unfoldable pub metadb_node_delete : db.Version → Name → IscResult × db.Version
  unfolding delete_types
  metadb_node_delete v node = delete_types v node (db.types v node)
