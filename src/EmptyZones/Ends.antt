-- ===== src/EmptyZones/Ends.antt =====
-- The end of `empty_zone_handle_conflicts` in src/empty_zones.c, and what a mere warning changes.
use bind_dyndb_ldap_pagure_i.Prelude.{
  ℕ, zero, suc, ◌+◌, ◌-◌, ◌<◌, ◌≤◌, ◌≡◌, refl, ◌∙◌, ap, subst, String, Bool, true, false, ◌⊎◌, inl,
  inr, none, some, List, [], ◌∷◌, arith, length, drop, length-drop, ltb, Bool-cases,
}
use bind_dyndb_ldap_pagure_i.Isc.{IscResult, is_success, Result, ok, err, Result-cases, returns}
use bind_dyndb_ldap_pagure_i.EmptyZones.Table.{empty_zones}
use bind_dyndb_ldap_pagure_i.EmptyZones.{
  reln_none, Zones, Search, empty_at, search_from, sizeof_table, empty_zone_search_next,
  empty_zone_search_init, empty_zone_unload, goes_on, nomore_is_fine, handle_loop,
  empty_zone_handle_conflicts,
}

module _ {Name Zone Table : Type 0} (lib : Zones Name Zone Table) where
  -- How far a search may come that starts at `from` with `left` entries left.
  abbrev Moved : ℕ → ℕ → IscResult × Search lib → Type 0
  Moved from left (r, it) =
      (it.nextidx ≤ from + left) × ((is_success r ≡ false) ⊎ (from < it.nextidx))

  empty_at_fails :
      (f : Result Zone) (r : IscResult)
      → ((r' : IscResult) → f ≡ err r' → is_success r' ≡ false)
      → empty_at lib f ≡ err r
      → is_success r ≡ false
  empty_at_fails (ok z) r h e = cc
  empty_at_fails (err x) r h e = ground (arith, h x, e)

  search_from-Moved :
      (l : List String) (zt : Table) (iter : Search lib)
      → Moved iter.nextidx (length l) (search_from lib l zt iter)
  unfolding search_from
  search_from-Moved [] zt iter = (omega arith, inl refl)
  search_from-Moved (ez ∷ rest) zt iter =
      let there = λ (it : Search lib). search_from-Moved rest zt it in
      elim (Result-cases (lib.fromtext ez)) [
        | inr (r, e) ↦ ground (arith, e, lib.fromtext_fails ez r e)
        | inl (n, e) ↦
            let rel = lib.fullcompare n iter.qname in
            let next =
              there (record iter { ezname = some n; nextidx = iter.nextidx + 1; namerel = rel }) in
            elim (Result-cases (empty_at lib (lib.zt_find zt n))) [
              | inl (isempty, f) ↦ ground (arith, e, f, next)
              | inr (r, f) ↦
                  let failed = empty_at_fails (lib.zt_find zt n) r (lib.zt_find_fails zt n) f in
                  ground (arith, e, f, failed, next)
            ]
      ]

  search_next-Moved :
      (zt : Table) (iter : Search lib)
      → iter.nextidx ≤ length empty_zones
      → (o : IscResult × Search lib) × (empty_zone_search_next lib zt iter ≡ returns o)
        × Moved iter.nextidx (length empty_zones - iter.nextidx) o
  unfolding empty_zone_search_next
  search_next-Moved zt iter h =
      let start = record iter { namerel = reln_none } in
      let rest = drop iter.nextidx empty_zones in
      let moved = search_from-Moved rest zt start in
      let left : length rest ≡ length empty_zones - iter.nextidx =
        omega (arith, length-drop iter.nextidx empty_zones h) in
      let small : ltb iter.nextidx (sizeof_table lib) ≡ true = ground (arith, h) in
      (
        search_from lib rest zt start,
        rw small refl,
        subst (λ k. Moved iter.nextidx k (search_from lib rest zt start)) left moved,
      )

  -- Enough fuel for what is left of the table after a search.
  Enough : ℕ → IscResult × Search lib → Type 0
  Enough fuel (r, it) =
      (it.nextidx ≤ length empty_zones)
      × (0 < fuel)
      × ((is_success r ≡ false) ⊎ (length empty_zones + 1 < fuel + it.nextidx))

  Enough-next :
      (fuel : ℕ) (r : IscResult) (it : Search lib) (o : IscResult × Search lib)
      → Enough (suc fuel) (r, it)
      → is_success r ≡ true
      → Moved it.nextidx (length empty_zones - it.nextidx) o
      → Enough fuel o
  unfolding Enough
  Enough-next fuel r it o h e moved =
      let more : length empty_zones + 1 < suc fuel + it.nextidx = ground (arith, h.2, e) in
      (omega (arith, h.0, moved.0), omega (arith, h.0, more), ground (arith, moved.1, more))

  next_ends :
      (fuel : ℕ) (warn_only : Bool) (zt : Table) (r : IscResult) (it : Search lib)
      → ((zt' : Table) (o : IscResult × Search lib)
          → Enough fuel o
          → (a : IscResult × Table) × (handle_loop lib fuel warn_only zt' (returns o) ≡ returns a))
      → Enough (suc fuel) (r, it)
      → is_success r ≡ true
      → (a : IscResult × Table) × (handle_loop lib fuel warn_only zt
            (empty_zone_search_next lib zt it)
          ≡ returns a)
  unfolding Enough
  next_ends fuel warn_only zt r it ends h e =
      let (o, found, moved) = search_next-Moved zt it (h.0) in
      let (a, ended) = ends zt o (Enough-next fuel r it o h e moved) in (a, rw found ended)

  handle_loop_ends :
      (fuel : ℕ) (warn_only : Bool) (zt : Table) (o : IscResult × Search lib)
      → Enough fuel o
      → (r : IscResult × Table) × (handle_loop lib fuel warn_only zt (returns o) ≡ returns r)
  unfolding handle_loop Enough
  handle_loop_ends zero warn_only zt (r, it) h =
      let none_left : ⊥ = omega (arith, h.1) in absurd none_left
  handle_loop_ends (suc fuel) warn_only zt (r, it) h =
      let next = λ (zt' : Table) (e : is_success r ≡ true).
        next_ends fuel warn_only zt' r it (handle_loop_ends fuel warn_only) h e in
      let unload = empty_zone_unload lib zt it.ezname in
      elim (Bool-cases (is_success r)) [
        | inr e ↦ ((nomore_is_fine lib r, zt), rw e refl)
        | inl e ↦ elim (Bool-cases warn_only) [
          | inl w ↦ ((next zt e).0, rw (e, w) (rw w at (next zt e).1))
          | inr w ↦ elim (Bool-cases (goes_on lib (unload.0))) [
            | inl g ↦ ((next (unload.1) e).0, rw (e, w, g) (rw w at (next (unload.1) e).1))
            | inr g ↦ ((unload.0, unload.1), rw (e, w, g) refl)
          ]
        ]
      ]

  init_lem :
      (name : Name) (zt : Table)
      → lib.isabsolute name ≡ true
      → empty_zone_search_init lib zt name
        ≡ empty_zone_search_next lib zt
            (record { qname = name; ezname = none; nextidx = 0; namerel = reln_none })
  unfolding empty_zone_search_init
  init_lem name zt h = rw h refl

  start_ends :
      (fuel : ℕ) (name : Name) (zt : Table) (warn_only : Bool)
      → length empty_zones + 1 < fuel
      → lib.isabsolute name ≡ true
      → (r : IscResult × Table) × (handle_loop lib fuel warn_only zt
            (empty_zone_search_init lib zt name)
          ≡ returns r)
  unfolding Enough
  start_ends fuel name zt warn_only f h =
      let iter : Search lib = record {
        qname = name;
        ezname = none;
        nextidx = 0;
        namerel = reln_none;
      } in
      let (o, found, moved) = search_next-Moved zt iter (omega arith) in
      let enough : Enough fuel o =
        (omega (arith, moved.0), omega (arith, f), inr (omega (arith, f))) in
      let (a, ended) = handle_loop_ends fuel warn_only zt o enough in
      (a, ap (handle_loop lib fuel warn_only zt) (init_lem name zt h ∙ found) ∙ ended)

  -- For an absolute name, `empty_zone_handle_conflicts` returns, whatever zones there are and
  -- whether it only warns or not.
  pub empty_zone_handle_conflicts_ends :
      (name : Name) (zt : Table) (warn_only : Bool)
      → lib.isabsolute name ≡ true
      → (r : IscResult × Table) × (empty_zone_handle_conflicts lib name zt warn_only ≡ returns r)
  unfolding empty_zone_handle_conflicts
  empty_zone_handle_conflicts_ends name zt warn_only h =
      start_ends (length empty_zones + 2) name zt warn_only (omega arith) h
