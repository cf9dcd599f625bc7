-- ===== src/EmptyZones.antt =====
-- src/empty_zones.c: the automatic empty zones of BIND, the search for those that are related to a
-- name, and the shutdown of those that are in the way of forwarding.
pub mod Table
pub mod Ends
mod Tests
use bind_dyndb_ldap_pagure_i.Prelude.{
  ℕ, zero, suc, ◌+◌, ◌*◌, ◌≡◌, String, Bool, true, false, ◌&&◌, Option, none, some, List, [], ◌∷◌,
  ◌=ₛ◌, length, drop, ltb, if◌then◌else◌,
}
use bind_dyndb_ldap_pagure_i.Isc.{
  IscResult, success, notfound, is_success, nomore, partialmatch, disallowed, Result, ok, err, Run,
  returns, blocks, ◌>>=◌, ◌>>◌, require,
}
use bind_dyndb_ldap_pagure_i.Registers.Rbt.{missing_is_fine}
use bind_dyndb_ldap_pagure_i.EmptyZones.Table.{empty_zones}

-- `dns_namereln_t`
pub data NameRelation : Type 0 where
  reln_none reln_contains reln_subdomain reln_equal reln_commonancestor : NameRelation

-- What the DNS library does: `dns_name_fromtext`, `dns_name_fullcompare`, `dns_name_isabsolute`, the
-- search of a zone table for an exact name, the arguments of a zone's database type, and
-- `dns_zt_unmount`.
pub record Zones (Name Zone Table : Type 0) : Type 0 where
  pub fromtext : String → Result Name
  pub fullcompare : Name → Name → NameRelation
  pub isabsolute : Name → Bool
  pub zt_find : Table → Name → Result Zone
  pub getdbtype : Zone → Result (List String)
  pub zt_unmount : Table → Zone → IscResult × Table
  -- a failure is not ISC_R_SUCCESS
  pub fromtext_fails : (s : String) (r : IscResult) → fromtext s ≡ err r → is_success r ≡ false
  pub zt_find_fails :
      (t : Table) (n : Name) (r : IscResult) → zt_find t n ≡ err r → is_success r ≡ false

module _ {Name Zone Table : Type 0} (lib : Zones Name Zone Table) where
  abbrev builtin_empty : Result (List String) → Bool
  builtin_empty (ok (a ∷ b ∷ rest)) = "_builtin" =ₛ a && "empty" =ₛ b
  builtin_empty _ = false

  unfoldable pub zone_isempty : Zone → Bool
  zone_isempty zone = builtin_empty (lib.getdbtype zone)

  -- Unloading the zone's database has no effect on the table.
  unfoldable pub delete_bind_zone : Table → Zone → IscResult × Table
  delete_bind_zone zt zone =
      let (result, zt') = lib.zt_unmount zt zone in (missing_is_fine result, zt')

  pub record Search : Type 0 where
    pub qname : Name
    pub ezname : Option Name
    pub nextidx : ℕ
    pub namerel : NameRelation

  abbrev pub unrelated : NameRelation → Bool
  unrelated reln_commonancestor = true
  unrelated reln_none = true
  unrelated _ = false

  -- The table's zone of that name, as far as the loop goes on: whether it is empty, or an error.
  abbrev pub empty_at : Result Zone → Result Bool
  empty_at (ok zone) = ok (zone_isempty zone)
  empty_at (err partialmatch) = ok false
  empty_at (err notfound) = ok false
  empty_at (err r) = err r

  -- The loop from `nextidx` on, over what is left of the table.
  unfoldable pub search_from : List String → Table → Search → IscResult × Search
  unfolding zone_isempty
  search_from [] zt iter = (nomore, iter)
  search_from (ez ∷ rest) zt iter =
      let go = λ (it : Search). search_from rest zt (record it { nextidx = iter.nextidx + 1 }) in
      elim (lib.fromtext ez) [
        | err r ↦ (r, iter)
        | ok name ↦
            let rel = lib.fullcompare name iter.qname in
            let it = record iter { ezname = some name; namerel = rel } in
            if unrelated rel then go it else elim (empty_at (lib.zt_find zt name)) [
              | err r ↦ (r, it)
              | ok isempty ↦
                  if isempty then (success, record it { nextidx = iter.nextidx + 1 }) else go it
            ]
      ]

  -- `sizeof(empty_zones)`, which is in bytes.
  abbrev pub sizeof_table : ℕ
  sizeof_table = 8 * (length empty_zones + 1)

  unfoldable pub empty_zone_search_next : Table → Search → Run (IscResult × Search)
  unfolding search_from
  empty_zone_search_next zt iter = do
    require (ltb iter.nextidx sizeof_table)
    returns (search_from (drop iter.nextidx empty_zones) zt (record iter { namerel = reln_none }))

  -- The buffer of the search has room for every name, so that copying it succeeds.
  unfoldable pub empty_zone_search_init : Table → Name → Run (IscResult × Search)
  unfolding empty_zone_search_next
  empty_zone_search_init zt qname = do
    require (lib.isabsolute qname)
    empty_zone_search_next zt
        (record { qname = qname; ezname = none; nextidx = 0; namerel = reln_none })

  abbrev partial_is_missing : IscResult → IscResult
  partial_is_missing partialmatch = notfound
  partial_is_missing r = r

  unfoldable pub empty_zone_unload : Table → Option Name → IscResult × Table
  unfolding zone_isempty delete_bind_zone
  empty_zone_unload zt none = (notfound, zt)
  empty_zone_unload zt (some ezname) = elim (lib.zt_find zt ezname) [
    | err r ↦ (partial_is_missing r, zt)
    | ok zone ↦
        if zone_isempty zone
        then (let (r, zt') = delete_bind_zone zt zone in (partial_is_missing r, zt'))
        else (disallowed, zt)
  ]

  abbrev pub goes_on : IscResult → Bool
  goes_on success = true
  goes_on disallowed = true
  goes_on notfound = true
  goes_on _ = false

  abbrev pub nomore_is_fine : IscResult → IscResult
  nomore_is_fine nomore = success
  nomore_is_fine r = r

  -- The loop of `empty_zone_handle_conflicts`, given what the last search has found.
  unfoldable pub handle_loop : ℕ → Bool → Table → Run (IscResult × Search) → Run (IscResult × Table)
  handle_loop zero warn_only zt found = blocks
  handle_loop (suc fuel) warn_only zt found = do
    (result, iter) ← found
    let go = λ (zt' : Table). handle_loop fuel warn_only zt' (empty_zone_search_next zt' iter)
    let (unloaded, zt') = empty_zone_unload zt iter.ezname
    (if is_success result
        then (if warn_only
            then go zt
            else (if goes_on unloaded then go zt' else returns (unloaded, zt')))
        else returns (nomore_is_fine result, zt))

  unfoldable pub empty_zone_handle_conflicts : Name → Table → Bool → Run (IscResult × Table)
  unfolding handle_loop
  empty_zone_handle_conflicts name zt warn_only =
      handle_loop (length empty_zones + 2) warn_only zt (empty_zone_search_init zt name)
