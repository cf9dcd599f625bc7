-- ===== src/Metadata/Mldap.antt =====
-- src/mldap.c: the generation number and the entries of the metadata database.
use bind_dyndb_ldap_pagure_i.Prelude.{
  ℕ, ◌+◌, ◌*◌, ◌/◌, ◌%◌, ◌^◌, Bool, true, false, Option, none, some, List, [], ◌∷◌, ◌==◌,
  if◌then◌else◌,
}
use bind_dyndb_ldap_pagure_i.Isc.{
  IscResult, notfound, nomore, is_success, Result, ok, err, Run, returns, aborts, undefined, ◌>>=◌,
  ◌>>◌, require,
}
use bind_dyndb_ldap_pagure_i.LdapEntry.Class.{EntryClass}
use bind_dyndb_ldap_pagure_i.Metadata.{
  rd_a, rd_aaaa, rd_rp, Database, Metadb, write_version, metadb_readnode_open, metadb_writenode,
  metadb_rdata_store, metadb_rdataset_get, metadb_node_delete,
}

-- LDAP_ENTRYCLASS_RR and so on as bits of an `unsigned char`.
abbrev pub bit : Bool → ℕ → ℕ
bit b value = if b then value else 0

unfoldable pub class_bits : EntryClass → ℕ
class_bits c =
    bit c.rr 1
    + bit c.master 2
    + bit c.config 4
    + bit c.forward 8
    + bit c.serverconfig 16
    + bit c.template 32

abbrev pub has_bit : ℕ → ℕ → Bool
has_bit n value = n / value % 2 == 1

unfoldable pub bits_class : ℕ → EntryClass
bits_class n = record {
  rr = has_bit n 1;
  master = has_bit n 2;
  config = has_bit n 4;
  forward = has_bit n 8;
  serverconfig = has_bit n 16;
  template = has_bit n 32;
}

-- The bytes of a number of 32 bits. Which byte comes first does not matter, as they are read on the
-- machine that wrote them.
unfoldable pub word_bytes : ℕ → List ℕ
word_bytes n = n % 256 ∷ n / 256 % 256 ∷ n / 65536 % 256 ∷ n / 16777216 % 256 ∷ []

-- A read of four bytes in a shorter record has no meaning.
unfoldable pub bytes_word : List ℕ → Run ℕ
bytes_word (a ∷ b ∷ c ∷ d ∷ rest) = returns (a + 256 * b + 65536 * c + 16777216 * d)
bytes_word _ = undefined

unfoldable pub bytes_class : List ℕ → Run EntryClass
unfolding bits_class
bytes_class (n ∷ rest) = returns (bits_class n)
bytes_class [] = undefined

module _ {Uuid Name : Type 0} (db : Database Uuid Name) where
  pub record Mldap : Type 0 where
    pub mdb : Metadb db
    pub generation : ℕ

  unfoldable pub mldap_cur_generation_bump : Mldap → Mldap
  mldap_cur_generation_bump mldap = record mldap { generation = (mldap.generation + 1) % 2 ^ 32 }

  abbrev pub mldap_cur_generation_get : Mldap → ℕ
  mldap_cur_generation_get mldap = mldap.generation

  -- The class in the first byte of an IPv6 address.
  unfoldable pub mldap_class_store : EntryClass → db.Version → Name → IscResult × db.Version
  unfolding class_bits metadb_rdata_store
  mldap_class_store class v node =
      metadb_rdata_store db v node rd_aaaa
        (class_bits class ∷ 0 ∷ 0 ∷ 0 ∷ 0 ∷ 0 ∷ 0 ∷ 0 ∷ 0 ∷ 0 ∷ 0 ∷ 0 ∷ 0 ∷ 0 ∷ 0 ∷ 0 ∷ [])

  abbrev pub read_ok {ℓ} : {A : Type ℓ} → (List ℕ → Run A) → Result (List ℕ) → Run (Result A)
  read_ok f (err r) = returns (err r)
  read_ok f (ok d) = f d >>= λ a. returns (ok a)

  unfoldable pub mldap_class_get : db.Version → Name → Run (Result EntryClass)
  mldap_class_get v node = metadb_rdataset_get db v node rd_aaaa >>= λ d. read_ok bytes_class d

  unfoldable pub mldap_generation_store : Mldap → db.Version → Name → IscResult × db.Version
  unfolding word_bytes metadb_rdata_store
  mldap_generation_store mldap v node =
      metadb_rdata_store db v node rd_a (word_bytes (mldap_cur_generation_get mldap))

  unfoldable pub mldap_generation_get : db.Version → Name → Run (Result ℕ)
  mldap_generation_get v node = metadb_rdataset_get db v node rd_a >>= λ d. read_ok bytes_word d

  unfoldable pub mldap_dnsname_store : Name → Name → db.Version → Name → IscResult × db.Version
  unfolding metadb_rdata_store
  mldap_dnsname_store fqdn zone v node = elim (db.rp fqdn zone) [
    | err r ↦ (r, v)
    | ok d ↦ metadb_rdata_store db v node rd_rp d
  ]

  unfoldable pub mldap_dnsname_get : db.Version → Name → Run (Result (Name × Name))
  mldap_dnsname_get v node = do
    found ← metadb_rdataset_get db v node rd_rp
    returns (elim found [ err r ↦ err r | ok d ↦ db.rp_names d ])

  -- The version that is written to is now this one.
  abbrev pub written_to : Mldap → db.Version → Mldap
  written_to mldap v = record mldap { mdb = record mldap.mdb { newversion = some v } }

  unfoldable pub store_entry : EntryClass → Mldap → Name → db.Version → Result Name × Mldap
  unfolding mldap_class_store mldap_generation_store
  store_entry class mldap node v =
      let (result, v1) = mldap_class_store class v node in
      let (result', v2) = mldap_generation_store mldap v1 node in
      if is_success result
      then (if is_success result' then ok node else err result', written_to mldap v2)
      else (err result, written_to mldap v1)

  abbrev pub with_node : EntryClass → Mldap → Result Name → Run (Result Name × Mldap)
  with_node class mldap (err r) = returns (err r, mldap)
  with_node class mldap (ok node) = do
    v ← write_version db mldap.mdb
    returns (store_entry class mldap node v)

  unfoldable pub mldap_entry_create : Uuid → EntryClass → Mldap → Run (Result Name × Mldap)
  unfolding store_entry
  mldap_entry_create uuid class mldap = do
    node ← metadb_writenode db true mldap.mdb (db.mname uuid)
    with_node class mldap node

  unfoldable pub mldap_entry_read : Mldap → Uuid → Result Name
  mldap_entry_read mldap uuid = metadb_readnode_open db mldap.mdb (db.mname uuid)

  abbrev pub delete_in : Mldap → Name → db.Version → IscResult × Mldap
  delete_in mldap node v =
      let (result, v') = metadb_node_delete db v node in (result, written_to mldap v')

  abbrev pub delete_node : Mldap → Result Name → Run (IscResult × Mldap)
  delete_node mldap (err r) = returns (r, mldap)
  delete_node mldap (ok node) = do v ← write_version db mldap.mdb; returns (delete_in mldap node v)

  unfoldable pub mldap_entry_delete : Mldap → Uuid → Run (IscResult × Mldap)
  mldap_entry_delete mldap uuid = do
    node ← metadb_writenode db false mldap.mdb (db.mname uuid)
    delete_node mldap node

  -- An iterator: the version, the names that are left, the result that `dns_dbiterator_next` or
  -- `dns_dbiterator_current` has behind them, and `state`, the generation at its start.
  pub record Iter : Type 0 where
    pub version : db.Version
    pub left : List Name
    pub ends : IscResult
    pub state : ℕ

  -- `isc_serial_lt` of the ISC library.
  module _ (serial_lt : ℕ → ℕ → Bool) where
    abbrev pub generation_of : Result ℕ → Run ℕ
    generation_of (ok g) = returns g
    generation_of (err r) = aborts

    -- The UUID that the name holds; the lengths and the format are checked by INSIST.
    abbrev pub uuid_in : Option Uuid → Run Uuid
    uuid_in none = aborts
    uuid_in (some u) = returns u

    abbrev pub dead_at : Iter → Name → List Name → Run (Result (Uuid × Iter))
    dead_at iter name rest = do
      u ← uuid_in (db.uuid_of name)
      returns (ok (u, record iter { left = rest }))

    -- The loop over the names that are left.
    unfoldable pub dead_loop : Mldap → Iter → List Name → Run (Result (Uuid × Iter))
    dead_loop mldap iter [] = returns (err iter.ends)
    dead_loop mldap iter (name ∷ rest) =
        let later = dead_loop mldap iter rest in
        if db.issubdomain name db.root
        then (do
          found ← mldap_generation_get iter.version name
          node_generation ← generation_of found
          require (iter.state == mldap_cur_generation_get mldap)
          if serial_lt node_generation (mldap_cur_generation_get mldap)
              then dead_at iter name rest
              else later)
        else later

    unfoldable pub mldap_iter_deadnodes_next : Mldap → Iter → Run (Result (Uuid × Iter))
    mldap_iter_deadnodes_next mldap iter = dead_loop mldap iter iter.left

    abbrev pub notfound_is_end : IscResult → IscResult
    notfound_is_end notfound = nomore
    notfound_is_end r = r

    unfoldable pub mldap_iter_deadnodes_start : Mldap → Run (Result (Uuid × Iter))
    mldap_iter_deadnodes_start mldap =
        let v = mldap.mdb.current in
        elim (db.after v db.root) [
          | err r ↦ returns (err (notfound_is_end r))
          | ok (names, ends) ↦ mldap_iter_deadnodes_next mldap (record {
            version = v;
            left = names;
            ends = ends;
            state = mldap_cur_generation_get mldap;
          })
        ]
