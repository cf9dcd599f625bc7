-- ===== src/Records.antt =====
-- src/ldap_helper.c: how the records of a name in the database are brought to those in LDAP.
pub mod Minimal
pub mod Diff
pub mod Wanted
mod Tests
use bind_dyndb_ldap_pagure_i.Prelude.{
  ℕ, ◌≡◌, Bool, true, false, ◌&&◌, Option, none, some, List, [], ◌∷◌, if◌then◌else◌,
}
use bind_dyndb_ldap_pagure_i.Isc.{IscResult, success, nomore, is_success, Result, ok, err}
use bind_dyndb_ldap_pagure_i.Zone.{
  Dns, Rdataset, DiffOp, op_add, op_del, op_addresign, end_is_fine, rdataset_to_diff,
  rdatalist_to_diff,
}

-- The iterator over the sets of a node: what it comes to, and the result that ends it.
pub record RdatasetIter (Rdata : Type 0) : Type 0 where
  pub sets : List (Rdataset Rdata)
  pub ends : IscResult

module _ {Name : Type 0} (lib : Dns Name) where
  -- The first loop: the code of a CHECK that has failed, if one has, and the diff.
  unfoldable pub delete_loop :
      Name → List (Rdataset lib.Rdata) → List lib.Tuple → Option IscResult × List lib.Tuple
  delete_loop name [] diff = (none, diff)
  delete_loop name (s ∷ rest) diff =
      let (result, diff') = rdataset_to_diff lib op_del name s diff in
      let more = delete_loop name rest diff' in
      if is_success result then more else (some result, diff')

  -- The second loop. The result is that of its last call, or the one from before it.
  unfoldable pub add_loop :
      Name → IscResult → List (Rdataset lib.Rdata) → List lib.Tuple → IscResult × List lib.Tuple
  add_loop name result [] diff = (end_is_fine result, diff)
  add_loop name result (l ∷ rest) diff =
      let (result', diff') = rdatalist_to_diff lib op_add name l diff in
      let more = add_loop name result' rest diff' in
      if is_success (end_is_fine result') then more else (result', diff')

  -- Whatever code ends the iterator, the second loop comes next.
  abbrev pub add_after :
      Name
      → IscResult
      → List (Rdataset lib.Rdata)
      → Option IscResult × List lib.Tuple
      → IscResult × List lib.Tuple
  add_after name ends ldap_rdatalist (some failed, diff) = (failed, diff)
  add_after name ends ldap_rdatalist (none, diff) = add_loop name ends ldap_rdatalist diff

  unfoldable pub diff_ldap_rbtdb :
      Name
      → List (Rdataset lib.Rdata)
      → RdatasetIter lib.Rdata
      → List lib.Tuple
      → IscResult × List lib.Tuple
  unfolding delete_loop add_loop
  diff_ldap_rbtdb name ldap_rdatalist iter diff =
      add_after name iter.ends ldap_rdatalist (delete_loop name iter.sets diff)
