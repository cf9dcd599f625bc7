-- ===== src/SyncPtr.antt =====
-- src/syncptr.c: the PTR record of an address follows the A or AAAA record that is added or deleted.
-- Here is what is done in the task of the reverse zone. The texts for the log are left out.
pub mod Changes
pub mod Validate
pub mod Handler
pub mod Init
pub mod Sent
pub mod Functions
mod Tests
use bind_dyndb_ldap_pagure_i.Prelude.{
  ℕ, ◌≡◌, Bool, true, false, ◌&&◌, not, Option, none, some, List, [], ◌∷◌, if◌then◌else◌,
}
use bind_dyndb_ldap_pagure_i.Isc.{
  IscResult, success, ignore, unexpectedtoken, notimplemented, singleton, nxdomain, nxrrset,
  emptyname, is_success, Result, ok, err, Run, returns, aborts, ◌>>=◌, ◌>>◌, require,
}
use bind_dyndb_ldap_pagure_i.Zone.{
  Dns, Rdataset, DiffOp, op_add, op_del, zone_journal_adddiff, zone_soaserial_addtuple,
  rdataset_to_diff,
}

-- LDAP_MOD_ADD and LDAP_MOD_DELETE, the values that `sync_ptr_init` lets pass
pub data ModOp : Type 0 where
  mod_add mod_delete : ModOp

-- `struct sync_ptrev`, without memory and the texts
pub record SyncPtrev (Name : Type 0) : Type 0 where
  pub a_name : Name
  pub ptr_name : Name
  pub mod_op : ModOp
  pub ttl : ℕ

-- The codes by which the search says that there is no PTR record.
abbrev pub is_missing : IscResult → Bool
is_missing nxdomain = true
is_missing nxrrset = true
is_missing emptyname = true
is_missing _ = false

-- What is decided about a PTR record that is there, by whether it has the name of the A record.
abbrev pub decide_found : ModOp → Bool → IscResult
decide_found mod_delete true = success
decide_found mod_delete false = unexpectedtoken
decide_found mod_add true = ignore
decide_found mod_add false = singleton

abbrev pub decide_missing : ModOp → IscResult
decide_missing mod_delete = ignore
decide_missing mod_add = success

module _ {Name : Type 0} (lib : Dns Name) where
  abbrev pub compare_name : Name → ModOp → Result Name → IscResult
  compare_name a_name mod_op (err r) = r
  compare_name a_name mod_op (ok ptr) =
      decide_found mod_op (lib.isabsolute a_name && lib.isabsolute ptr && lib.equal ptr a_name)

  -- The records of the set. The INSIST stops the process if there is none.
  abbrev pub validate_rdatas : Name → ModOp → List lib.Rdata → Run IscResult
  validate_rdatas a_name mod_op [] = aborts
  validate_rdatas a_name mod_op (rdata ∷ []) =
      returns (compare_name a_name mod_op (lib.tostruct rdata))
  validate_rdatas a_name mod_op (_ ∷ _ ∷ _) = returns notimplemented

  -- To count the records of a set that is not bound stops the process as well.
  abbrev pub validate_found : Name → ModOp → Option (Rdataset lib.Rdata) → Run IscResult
  validate_found a_name mod_op none = aborts
  validate_found a_name mod_op (some s) = validate_rdatas a_name mod_op s.rdatas

  -- Besides the result, `rdataset` as it is afterwards.
  unfoldable pub sync_ptr_validate :
      SyncPtrev Name → lib.Version → Run (IscResult × Option (Rdataset lib.Rdata))
  sync_ptr_validate ev version =
      let (result, found_name, rdataset) = lib.find version ev.ptr_name in
      if is_success result
      then (do
        require (lib.equal found_name ev.ptr_name)
        r ← validate_found ev.a_name ev.mod_op rdataset
        returns (r, rdataset))
      else returns (if is_missing result then decide_missing ev.mod_op else result, rdataset)

  -- The committed version of the database of the zone, and its journal.
  pub record ZoneState : Type 0 where
    pub current : lib.Version
    pub journal : lib.Journal

  unfoldable pub delete_old :
      Name → Option (Rdataset lib.Rdata) → List lib.Tuple → IscResult × List lib.Tuple
  delete_old ptr_name none diff = (success, diff)
  delete_old ptr_name (some s) diff = rdataset_to_diff lib op_del ptr_name s diff

  abbrev pub add_tuple : List lib.Tuple → Result lib.Tuple → IscResult × List lib.Tuple
  add_tuple diff (err r) = (r, diff)
  add_tuple diff (ok tp) = (success, lib.appendminimal diff tp)

  unfoldable pub add_ptr : SyncPtrev Name → List lib.Tuple → IscResult × List lib.Tuple
  add_ptr ev diff = elim ev.mod_op [
    | mod_delete ↦ (success, diff)
    | mod_add ↦ elim (lib.fromstruct ev.a_name) [
      | err r ↦ (r, diff)
      | ok rdata ↦ add_tuple diff (lib.difftuple_create op_add ev.ptr_name ev.ttl rdata)
    ]
  ]

  abbrev pub journaled :
      lib.Journal → IscResult × List lib.Tuple → IscResult × List lib.Tuple × lib.Journal
  journaled journal (serial, diff) =
      let (written, journal') = zone_journal_adddiff lib journal diff in
      if is_success serial then (written, diff, journal') else (serial, diff, journal)

  -- The serial number and the journal, unless there is nothing to do.
  unfoldable pub publish :
      lib.Version → lib.Journal → List lib.Tuple → Run (IscResult × List lib.Tuple × lib.Journal)
  publish version journal [] = returns (success, [], journal)
  publish version journal (tp ∷ diff) = do
    serial ← zone_soaserial_addtuple lib version (tp ∷ diff)
    returns (journaled journal serial)

  -- dns_diff_apply, and dns_db_closeversion, which commits what was done without an error
  abbrev pub apply_diff :
      ZoneState → lib.Version → IscResult × List lib.Tuple × lib.Journal → ZoneState
  apply_diff zone version (published, diff, journal) =
      let (applied, version') = lib.diff_apply version diff in
      if is_success published && is_success applied
      then record { current = version'; journal = journal }
      else record zone { journal = journal }

  -- The new version of the database is closed without a commit when something fails.
  abbrev pub update_zone :
      SyncPtrev Name → ZoneState → lib.Version → Option (Rdataset lib.Rdata) → Run ZoneState
  update_zone ev zone version old =
      let (deleted, diff) = delete_old ev.ptr_name old [] in
      if not (is_success deleted)
      then returns zone
      else let (added, diff') = add_ptr ev diff in
        if not (is_success added) then returns zone else do
          published ← publish version zone.journal diff'
          returns (apply_diff zone version published)

  -- ISC_R_IGNORE counts as success, but ends the work as well.
  abbrev pub in_version : SyncPtrev Name → ZoneState → Result lib.Version → Run ZoneState
  in_version ev zone (err r) = returns zone
  in_version ev zone (ok version) = do
    (result, old) ← sync_ptr_validate ev version
    if is_success result then update_zone ev zone version old else returns zone

  unfoldable pub sync_ptr_handler : SyncPtrev Name → ZoneState → Run ZoneState
  unfolding sync_ptr_validate delete_old add_ptr publish
  sync_ptr_handler ev zone =
      if is_success lib.getdb
      then in_version ev zone (lib.newversion zone.current)
      else returns zone
