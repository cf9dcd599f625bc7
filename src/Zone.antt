-- ===== src/Zone.antt =====
-- src/zone.c: changes of a zone as a `dns_diff_t`, a list of tuples, with the serial number of the
-- zone and its journal.
use bind_dyndb_ldap_pagure_i.Prelude.{
  ℕ, ◌≡◌, ◌≢◌, Bool, true, false, Option, some, List, [], ◌∷◌, if◌then◌else◌,
}
use bind_dyndb_ldap_pagure_i.Isc.{
  IscResult, success, nomemory, nomore, is_success, Result, ok, err, Run, returns, ◌>>=◌, ◌>>◌,
  require,
}

-- `dns_diffop_t`
pub data DiffOp : Type 0 where
  op_add op_del op_addresign : DiffOp

-- `dns_rdataset_t` with the records in it.
pub record Rdataset (Rdata : Type 0) : Type 0 where
  pub ttl : ℕ
  pub rdatas : List Rdata

-- What the DNS library does. A version is a state of the data of a zone. `find` looks for the PTR
-- records of a name without wildcards, and gives a result, the name found and the set that was
-- bound. `tostruct` and `fromstruct` convert between a PTR record and the name in it.
pub record Dns (Name : Type 0) : Type 1 where
  pub Rdata : Type 0
  pub Tuple : Type 0
  pub Version : Type 0
  pub Journal : Type 0
  pub equal : Name → Name → Bool
  pub isabsolute : Name → Bool
  pub getdb : IscResult
  pub newversion : Version → Result Version
  pub find : Version → Name → IscResult × Name × Option (Rdataset Rdata)
  pub tostruct : Rdata → Result Name
  pub fromstruct : Name → Result Rdata
  pub difftuple_create : DiffOp → Name → ℕ → Rdata → Result Tuple
  pub appendminimal : List Tuple → Tuple → List Tuple
  pub createsoatuple : Version → DiffOp → Result Tuple
  pub op : Tuple → DiffOp
  pub is_soa : Tuple → Bool
  pub getserial : Tuple → ℕ
  pub setserial : ℕ → Tuple → Tuple
  pub update_soaserial : ℕ → ℕ
  pub journal_open : Journal → IscResult × Journal
  pub journal_write : Journal → List Tuple → IscResult × Journal
  pub diff_apply : Version → List Tuple → IscResult × Version
  -- a search that succeeds finds the very name and binds a set that is not empty
  pub find_success :
      (v : Version) (n found : Name) (bound : Option (Rdataset Rdata))
      → find v n ≡ (success, found, bound)
      → (equal found n ≡ true) × (s : Rdataset Rdata) × (bound ≡ some s) × (s.rdatas ≢ [])
  -- a tuple for the SOA record has the operation that was asked for
  pub soatuple :
      (v : Version) (o : DiffOp) (t : Tuple)
      → createsoatuple v o ≡ ok t
      → (op t ≡ o) × (is_soa t ≡ true)
  -- an error is not ISC_R_SUCCESS, and a tuple can only fail for want of memory
  pub tostruct_failed : (d : Rdata) (r : IscResult) → tostruct d ≡ err r → is_success r ≡ false
  pub fromstruct_failed : (n : Name) (r : IscResult) → fromstruct n ≡ err r → is_success r ≡ false
  pub createsoatuple_failed :
      (v : Version) (o : DiffOp) (r : IscResult) → createsoatuple v o ≡ err r → is_success r ≡ false
  pub difftuple_create_failed :
      (o : DiffOp) (n : Name) (ttl : ℕ) (d : Rdata) (r : IscResult)
      → difftuple_create o n ttl d ≡ err r
      → r ≡ nomemory

abbrev pub is_add : DiffOp → Bool
is_add op_add = true
is_add op_del = false
is_add op_addresign = true

abbrev pub end_is_fine : IscResult → IscResult
end_is_fine nomore = success
end_is_fine r = r

module _ {Name : Type 0} (lib : Dns Name) where
  unfoldable pub zone_journal_adddiff : lib.Journal → List lib.Tuple → IscResult × lib.Journal
  zone_journal_adddiff journal diff =
      let (opened, j) = lib.journal_open journal in
      if is_success opened then lib.journal_write j diff else (opened, j)

  unfoldable pub zone_soaserial_updatetuple : lib.Tuple → Run lib.Tuple
  zone_soaserial_updatetuple soa_tuple = do
    require (is_add (lib.op soa_tuple))
    require (lib.is_soa soa_tuple)
    returns (lib.setserial (lib.update_soaserial (lib.getserial soa_tuple)) soa_tuple)

  abbrev pub append_both :
      List lib.Tuple → lib.Tuple → Result lib.Tuple → Run (IscResult × List lib.Tuple)
  unfolding zone_soaserial_updatetuple
  append_both diff del (err r) = returns (r, diff)
  append_both diff del (ok t) = do
    add ← zone_soaserial_updatetuple t
    returns (success, lib.appendminimal (lib.appendminimal diff del) add)

  abbrev pub append_soa :
      lib.Version → List lib.Tuple → Result lib.Tuple → Run (IscResult × List lib.Tuple)
  append_soa version diff (err r) = returns (r, diff)
  append_soa version diff (ok del) = append_both diff del (lib.createsoatuple version op_add)

  unfoldable pub zone_soaserial_addtuple :
      lib.Version → List lib.Tuple → Run (IscResult × List lib.Tuple)
  unfolding zone_soaserial_updatetuple
  zone_soaserial_addtuple version diff = append_soa version diff (lib.createsoatuple version op_del)

  -- The loop ends with ISC_R_NOMORE.
  unfoldable pub rdataset_loop :
      DiffOp → Name → ℕ → List lib.Rdata → List lib.Tuple → IscResult × List lib.Tuple
  rdataset_loop o name ttl [] diff = (nomore, diff)
  rdataset_loop o name ttl (rdata ∷ rest) diff = elim (lib.difftuple_create o name ttl rdata) [
    | err r ↦ (r, diff)
    | ok tp ↦ rdataset_loop o name ttl rest (lib.appendminimal diff tp)
  ]

  unfoldable pub rdataset_to_diff :
      DiffOp → Name → Rdataset lib.Rdata → List lib.Tuple → IscResult × List lib.Tuple
  unfolding rdataset_loop
  rdataset_to_diff o name rds diff =
      let (result, diff') = rdataset_loop o name rds.ttl rds.rdatas diff in
      (end_is_fine result, diff')

  -- The loop over a list of records leaves ISC_R_SUCCESS.
  unfoldable pub rdatalist_loop :
      DiffOp → Name → ℕ → List lib.Rdata → List lib.Tuple → IscResult × List lib.Tuple
  rdatalist_loop o name ttl [] diff = (success, diff)
  rdatalist_loop o name ttl (rdata ∷ rest) diff = elim (lib.difftuple_create o name ttl rdata) [
    | err r ↦ (r, diff)
    | ok tp ↦ rdatalist_loop o name ttl rest (lib.appendminimal diff tp)
  ]

  unfoldable pub rdatalist_to_diff :
      DiffOp → Name → Rdataset lib.Rdata → List lib.Tuple → IscResult × List lib.Tuple
  unfolding rdatalist_loop
  rdatalist_to_diff o name rdatalist diff =
      rdatalist_loop o name rdatalist.ttl rdatalist.rdatas diff
