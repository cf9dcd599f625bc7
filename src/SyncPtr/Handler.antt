-- ===== src/SyncPtr/Handler.antt =====
-- What `sync_ptr_handler` does to a zone.
use bind_dyndb_ldap_pagure_i.Prelude.{
  ℕ, ◌≡◌, refl, sym, ◌∙◌, ap, ◌⊎◌, inl, inr, true, false, ◌&&◌, Option, some, List, [], ◌∷◌, arith,
  Bool-cases,
}
use bind_dyndb_ldap_pagure_i.Isc.{
  IscResult, success, is_success, ok, Result-cases, Run, returns, ◌>>=◌,
}
use bind_dyndb_ldap_pagure_i.Zone.{Dns, Rdataset, op_add, op_del, rdataset_loop, rdataset_to_diff}
use bind_dyndb_ldap_pagure_i.SyncPtr.{
  mod_add, mod_delete, SyncPtrev, is_missing, ZoneState, delete_old, add_ptr, publish, apply_diff,
  update_zone, sync_ptr_handler,
}
use bind_dyndb_ldap_pagure_i.SyncPtr.Changes.{
  WithSerial, Removal, Addition, publish_returns, delete_old-LeftOver,
}
use bind_dyndb_ldap_pagure_i.SyncPtr.Validate.{success_eq, Allowed, validate_returns}

module _ {Name : Type 0} (lib : Dns Name) where
  delete_one :
      (ptr_name : Name) (ttl : ℕ) (rdata : lib.Rdata) (old : List lib.Tuple)
      → delete_old lib ptr_name (some (record { ttl = ttl; rdatas = rdata ∷ [] })) []
        ≡ (success, old)
      → (tp : lib.Tuple) × (lib.difftuple_create op_del ptr_name ttl rdata ≡ ok tp)
        × (old ≡ lib.appendminimal [] tp)
  unfolding delete_old rdataset_to_diff rdataset_loop
  delete_one ptr_name ttl rdata old h =
      elim (Result-cases (lib.difftuple_create op_del ptr_name ttl rdata)) [
        | inl (tp, e) ↦ (tp, e, ground (arith, h, e))
        | inr (r, e) ↦
            absurd (ground (arith, h, e, lib.difftuple_create_failed op_del ptr_name ttl rdata r e))
      ]

  add_one :
      (ev : SyncPtrev Name) (old diff : List lib.Tuple)
      → ev.mod_op ≡ mod_add
      → add_ptr lib ev old ≡ (success, diff)
      → (rdata : lib.Rdata) × (tp : lib.Tuple) × (lib.fromstruct ev.a_name ≡ ok rdata)
        × (lib.difftuple_create op_add ev.ptr_name ev.ttl rdata ≡ ok tp)
        × (diff ≡ lib.appendminimal old tp)
  unfolding add_ptr
  add_one ev old diff o h = elim (Result-cases (lib.fromstruct ev.a_name)) [
    | inr (r, e) ↦ absurd (ground (arith, h, o, e, lib.fromstruct_failed ev.a_name r e))
    | inl (rdata, e) ↦ elim (Result-cases (lib.difftuple_create op_add ev.ptr_name ev.ttl rdata)) [
      | inl (tp, f) ↦ (rdata, tp, e, f, ground (arith, h, o, e, f))
      | inr (r, f) ↦ absurd (
          ground
            (arith, h, o, e, f, lib.difftuple_create_failed op_add ev.ptr_name ev.ttl rdata r f))
    ]
  ]

  -- The changes that are planned in a version: an addition after a search that found no PTR record,
  -- or the removal of the one that was found.
  abbrev pub Planned : SyncPtrev Name → lib.Version → List lib.Tuple → Type 0
  Planned ev v diff =
      (result : IscResult) × (found : Name) × (bound : Option (Rdataset lib.Rdata)) × (lib.find v
          ev.ptr_name
        ≡ (result, found, bound))
      × (((ev.mod_op ≡ mod_add) × (is_missing result ≡ true) × Addition lib ev bound diff)
          ⊎ ((ev.mod_op ≡ mod_delete) × (result ≡ success) × Removal lib ev bound diff))

  plan_lem :
      (ev : SyncPtrev Name) (v : lib.Version) (result : IscResult) (found : Name)
      (bound : Option (Rdataset lib.Rdata)) (old diff : List lib.Tuple)
      → lib.find v ev.ptr_name ≡ (result, found, bound)
      → Allowed lib ev result bound
      → delete_old lib ev.ptr_name bound [] ≡ (success, old)
      → add_ptr lib ev old ≡ (success, diff)
      → Planned ev v diff
  unfolding add_ptr
  plan_lem ev v result found bound old diff found_it (inl (o, missing)) d a =
      let (rdata, tp, e, f, there) = add_one ev old diff o a in
      (
        result,
        found,
        bound,
        found_it,
        inl (o, missing, (old, rdata, tp, delete_old-LeftOver lib ev bound old d, e, f, there)),
      )
  plan_lem ev v result found bound old diff found_it
        (inr (s, fine, is_s, (o, rdata, ptr, one, p, same))) d a =
      let whole : bound ≡ some (record { ttl = s.ttl; rdatas = rdata ∷ [] }) =
        is_s ∙ ap (λ l. some (record { ttl = s.ttl; rdatas = l })) one in
      let (tp, e, there) =
        delete_one ev.ptr_name s.ttl rdata old
          (sym (ap (λ b. delete_old lib ev.ptr_name b []) whole) ∙ d) in
      let unchanged : diff ≡ old = ground (arith, a, o) in
      (
        result,
        found,
        bound,
        search,
        inr (o, fine, (s.ttl, rdata, ptr, tp, whole, p, same, e, unchanged ∙ there)),
      )

  -- What the handler does to a zone that it changes: the changes planned in a new version, with the
  -- ones of the SOA record behind them, are applied to it.
  abbrev pub Synchronised : SyncPtrev Name → lib.Version → lib.Version → Type 0
  Synchronised ev before after =
      (v : lib.Version) × (diff : List lib.Tuple) × (all : List lib.Tuple) × (lib.newversion before
        ≡ ok v)
      × Planned ev v diff
      × WithSerial lib v diff all
      × (lib.diff_apply v all ≡ (success, after))

  abbrev Outcome : SyncPtrev Name → ZoneState lib → Run (ZoneState lib) → Type 0
  Outcome ev zone run =
      (after : ZoneState lib) × (run ≡ returns after)
      × ((after.current ≡ zone.current) ⊎ Synchronised ev zone.current after.current)

  apply_failed :
      (zone : ZoneState lib) (v : lib.Version) (r : IscResult) (all : List lib.Tuple)
      (journal : lib.Journal)
      → (is_success r && is_success (lib.diff_apply v all).0) ≡ false
      → (apply_diff lib zone v (r, all, journal)).current ≡ zone.current
  apply_failed zone v r all journal h = rw h refl

  apply_fine :
      (zone : ZoneState lib) (v : lib.Version) (r : IscResult) (all : List lib.Tuple)
      (journal : lib.Journal)
      → (is_success r && is_success (lib.diff_apply v all).0) ≡ true
      → lib.diff_apply v all ≡ (success, (apply_diff lib zone v (r, all, journal)).current)
  apply_fine zone v r all journal h =
      let (applied, version) = lib.diff_apply v all in
      let fine : is_success applied ≡ true = ground (arith, h) in
      rw h (ap (λ x. (x, version)) (success_eq applied fine))

  apply_diff-Outcome :
      (ev : SyncPtrev Name) (zone : ZoneState lib) (v : lib.Version) (diff : List lib.Tuple)
      → lib.newversion zone.current ≡ ok v
      → Planned ev v diff
      → Outcome ev zone (
          publish lib v zone.journal diff >>= λ published.
          returns (apply_diff lib zone v published))
  apply_diff-Outcome ev zone v diff n plan =
      let (r, all, journal, value, outcome) = publish_returns lib v zone.journal diff in
      let after : ZoneState lib = apply_diff lib zone v (r, all, journal) in
      let run = ap (λ p. p >>= λ published. returns (apply_diff lib zone v published)) value in
      let (applied, version) = lib.diff_apply v all in
      elim (Bool-cases (is_success r && is_success applied)) [
        | inr failed ↦ (after, run, inl (apply_failed zone v r all journal failed))
        | inl fine ↦ elim outcome [
          | inl failed ↦ absurd (ground (arith, failed, fine))
          | inr serial ↦ (
            after,
            run,
            inr (v, diff, all, n, plan, serial, apply_fine zone v r all journal fine),
          )
        ]
      ]

  update_zone-Outcome :
      (ev : SyncPtrev Name) (zone : ZoneState lib) (v : lib.Version) (result : IscResult)
      (found : Name) (bound : Option (Rdataset lib.Rdata))
      → lib.newversion zone.current ≡ ok v
      → lib.find v ev.ptr_name ≡ (result, found, bound)
      → Allowed lib ev result bound
      → Outcome ev zone (update_zone lib ev zone v bound)
  update_zone-Outcome ev zone v result found bound n found_it allowed =
      let (deleted, old) = delete_old lib ev.ptr_name bound [] in
      let (added, diff) = add_ptr lib ev old in
      elim (Bool-cases (is_success deleted)) [
        | inr e ↦ (zone, rw e refl, inl refl)
        | inl e ↦ elim (Bool-cases (is_success added)) [
          | inr f ↦ (zone, rw (e, f) refl, inl refl)
          | inl f ↦
              let plan =
                plan_lem ev v result found bound old diff found_it allowed
                  (ap (λ x. (x, old)) (success_eq deleted e))
                  (ap (λ x. (x, diff)) (success_eq added f)) in
              let (after, value, outcome) = apply_diff-Outcome ev zone v diff n plan in
              (after, rw (e, f) value, outcome)
        ]
      ]

  -- The handler always ends, without a failed assertion. Either the committed version of the database
  -- stays, or the changes that were applied to a new version of it are the removal of the one PTR record
  -- there was, which was for the name of the deleted A or AAAA record, or the addition of a PTR record
  -- for the name of the added one where the search had found none, and then the new serial number. If
  -- the search has left some set bound although it found no PTR record, the changes begin with the
  -- deletion of the records in that set.
  pub sync_ptr_handler_lem :
      (ev : SyncPtrev Name) (zone : ZoneState lib)
      → (after : ZoneState lib) × (sync_ptr_handler lib ev zone ≡ returns after)
        × ((after.current ≡ zone.current) ⊎ Synchronised ev zone.current after.current)
  unfolding sync_ptr_handler
  sync_ptr_handler_lem ev zone = elim (Bool-cases (is_success lib.getdb)) [
    | inr e ↦ (zone, rw e refl, inl refl)
    | inl e ↦ elim (Result-cases (lib.newversion zone.current)) [
      | inr (r, n) ↦ (zone, rw (e, n) refl, inl refl)
      | inl (v, n) ↦
          let (r, result, found, bound, found_it, value, outcome) = validate_returns lib ev v in
          elim (Bool-cases (is_success r)) [
            | inr f ↦ (zone, rw (e, n, value, f) refl, inl refl)
            | inl f ↦ elim outcome [
              | inl failed ↦ absurd (ground (arith, failed, f))
              | inr allowed ↦
                  let (after, run, done) =
                    update_zone-Outcome ev zone v result found bound n found_it allowed in
                  (after, rw (e, n, value, f) run, done)
            ]
          ]
    ]
  ]
