-- ===== src/Events/Update.antt =====
-- `update_record` of src/ldap_helper.c, which brings the records of a name to those of its LDAP entry.
-- The registers, the parser of the entry and `load_zone` are given by what they come to.
pub mod Writes
pub mod Passes
pub mod Handled
mod Tests
use bind_dyndb_ldap_pagure_i.Prelude.{
  ℕ, ◌+◌, ◌≡◌, Bool, true, false, ◌||◌, not, Option, none, some, List, [], ◌∷◌, if◌then◌else◌,
}
use bind_dyndb_ldap_pagure_i.Isc.{
  IscResult, success, notloaded, badzone, uptodate, dynamic, continue, is_success, is_notfound,
  Result, ok, err, Run, returns, ◌>>=◌,
}
use bind_dyndb_ldap_pagure_i.Sync.{SyncCtx, SyncState, sync_finished, sync_state_get}
use bind_dyndb_ldap_pagure_i.Zone.{Dns, Rdataset, zone_journal_adddiff, zone_soaserial_addtuple}
use bind_dyndb_ldap_pagure_i.Records.{RdatasetIter, diff_ldap_rbtdb}
use bind_dyndb_ldap_pagure_i.Events.{Phase, phase_add, phase_modify, phase_delete, phase_other}

-- A zone that has to be loaded again.
abbrev pub is_invalid : IscResult → Bool
is_invalid notloaded = true
is_invalid badzone = true
is_invalid _ = false

-- What `load_zone` returns when the zone can be used.
abbrev pub is_loaded : IscResult → Bool
is_loaded success = true
is_loaded uptodate = true
is_loaded dynamic = true
is_loaded continue = true
is_loaded _ = false

abbrev pub is_synchronised : SyncState → Bool
is_synchronised sync_finished = true
is_synchronised _ = false

module _ {Name : Type 0} (lib : Dns Name) where
  -- The zone: the committed version of its database, its journal, and whether it was marked dirty;
  -- `serials` counts what was written to LDAP by `ldap_replace_serial`, whose result only is logged.
  pub record Stored : Type 0 where
    pub current : lib.Version
    pub journal : lib.Journal
    pub dirty : Bool
    pub serials : ℕ

  -- What a pass comes to: the results of `zr_get_zone_dbs`, `dns_db_findnode`, `dns_db_allrdatasets`,
  -- `zr_get_zone_settings`, `ldap_parse_rrentry` and at last `dns_zone_getserial2`, and the context
  -- when the state is read.
  pub record Pass : Type 0 where
    pub dbs : IscResult
    pub node : IscResult
    pub allrdatasets : lib.Version → Result (RdatasetIter lib.Rdata)
    pub settings : IscResult
    pub parsed : Result (List (Rdataset lib.Rdata))
    pub ctx : SyncCtx
    pub loaded : IscResult
    -- an error is not ISC_R_SUCCESS
    pub allrdatasets_failed :
        (v : lib.Version) (r : IscResult) → allrdatasets v ≡ err r → is_success r ≡ false
    pub parsed_failed : (r : IscResult) → parsed ≡ err r → is_success r ≡ false

  -- A deletion leaves the list empty.
  abbrev pub rdatalist : Phase → Pass → Result (List (Rdataset lib.Rdata))
  rdatalist phase_add p = if is_success p.settings then p.parsed else err p.settings
  rdatalist phase_modify p = if is_success p.settings then p.parsed else err p.settings
  rdatalist phase_delete p = ok []
  rdatalist (phase_other n) p = ok []

  -- Without an iterator, a deletion keeps the result ISC_R_NOTFOUND.
  abbrev pub kept_result : Phase → IscResult → IscResult
  kept_result phase_add r = success
  kept_result phase_modify r = success
  kept_result phase_delete r = r
  kept_result (phase_other n) r = r

  -- The result of the checks, or the result so far and the diff.
  abbrev pub difference :
      Phase
      → Name
      → Result (List (Rdataset lib.Rdata))
      → Result (RdatasetIter lib.Rdata)
      → Result (IscResult × List lib.Tuple)
  difference chgtype name (err e) (err r) = if is_notfound r then err e else err r
  difference chgtype name (err e) (ok iter) = err e
  difference chgtype name (ok list) (err r) =
      if is_notfound r then ok (kept_result chgtype r, []) else err r
  difference chgtype name (ok list) (ok iter) =
      let (result, diff) = diff_ldap_rbtdb lib name list iter [] in
      if is_success result then ok (success, diff) else err result

  abbrev pub finished : Pass → Bool
  unfolding sync_state_get
  finished p = is_synchronised (sync_state_get p.ctx)

  abbrev pub last_result : Pass → IscResult → IscResult
  last_result p result = if finished p then p.loaded else result

  abbrev pub commit : Pass → Stored → lib.Version → List lib.Tuple → IscResult × Stored
  commit p z version diff =
      let (applied, version') = lib.diff_apply version diff in
      if is_success applied
      then (last_result p applied, record z { current = version'; dirty = true })
      else (applied, z)

  abbrev pub journaled_commit : Pass → Stored → lib.Version → List lib.Tuple → IscResult × Stored
  journaled_commit p z version diff =
      let (written, journal) = zone_journal_adddiff lib z.journal diff in
      if is_success written
      then commit p (record z { journal = journal }) version diff
      else (written, record z { journal = journal })

  abbrev pub with_serial :
      Pass → Stored → lib.Version → IscResult × List lib.Tuple → IscResult × Stored
  with_serial p z version (result, diff) =
      if is_success result
      then journaled_commit p (record z { serials = z.serials + 1 }) version diff
      else (result, z)

  -- The serial number and the journal wait until all data were received. With an empty diff the
  -- version is closed without a commit.
  abbrev pub write_diff :
      Pass → Stored → lib.Version → IscResult × List lib.Tuple → Run (IscResult × Stored)
  write_diff p z version (result, []) = returns (last_result p result, z)
  write_diff p z version (result, tp ∷ diff) =
      if finished p
      then (do
        numbered ← zone_soaserial_addtuple lib version (tp ∷ diff)
        returns (with_serial p z version numbered))
      else returns (commit p z version (tp ∷ diff))

  abbrev pub checked_diff :
      Pass → Stored → lib.Version → Result (IscResult × List lib.Tuple) → Run (IscResult × Stored)
  checked_diff p z version (err r) = returns (r, z)
  checked_diff p z version (ok d) = write_diff p z version d

  abbrev pub in_new_version :
      Phase → Name → Pass → Stored → Result lib.Version → Run (IscResult × Stored)
  in_new_version chgtype name p z (err r) = returns (r, z)
  in_new_version chgtype name p z (ok version) =
      if is_success p.node
      then checked_diff p z version
          (difference chgtype name (rdatalist chgtype p) (p.allrdatasets version))
      else returns (p.node, z)

  -- From the label `update_restart` to the rollback.
  unfoldable pub update_pass : Phase → Name → Pass → Stored → Run (IscResult × Stored)
  update_pass chgtype name p z =
      if is_success p.dbs
      then in_new_version chgtype name p z (lib.newversion z.current)
      else returns (p.dbs, z)

  -- What the handler comes to: the result of `zr_get_zone_ptr`, its passes, what `load_zone` does, and
  -- the result of `dns_zone_getserial2` after it.
  pub record Handling : Type 0 where
    pub zone_ptr : IscResult
    pub first : Pass
    pub load_zone : Stored → IscResult × Stored
    pub serial : IscResult
    pub second : Pass

  -- The zone is not loaded again after the second pass.
  abbrev pub after_load : Phase → Name → Handling → IscResult × Stored → Run (IscResult × Stored)
  after_load chgtype name h (result, z) =
      if not (is_loaded result)
      then returns (result, z)
      else if is_success h.serial
      then update_pass chgtype name h.second z
      else returns (h.serial, z)

  abbrev pub or_reload : Phase → Name → Handling → IscResult × Stored → Run (IscResult × Stored)
  or_reload chgtype name h (result, z) =
      if is_invalid result then after_load chgtype name h (h.load_zone z) else returns (result, z)

  abbrev pub passes : Phase → Name → Handling → Stored → Run (IscResult × Stored)
  passes chgtype name h z =
      if is_success h.zone_ptr
      then (do r ← update_pass chgtype name h.first z; or_reload chgtype name h r)
      else returns (h.zone_ptr, z)

  -- `signals` is how often `sync_concurr_limit_signal` was called.
  unfoldable pub update_record : Phase → Name → Handling → ℕ → Stored → Run (IscResult × Stored × ℕ)
  update_record chgtype name h signals z = do
    (r, z') ← passes chgtype name h z
    returns (r, z', signals + 1)
