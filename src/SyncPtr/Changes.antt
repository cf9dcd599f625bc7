-- ===== src/SyncPtr/Changes.antt =====
-- The changes that `sync_ptr_handler` plans and publishes.
use bind_dyndb_ldap_pagure_i.Prelude.{
  ℕ, ◌≡◌, refl, sym, none, ◌∙◌, ap, ◌⊎◌, inl, inr, true, false, Option, some, List, [], ◌∷◌,
  Bool-cases,
}
use bind_dyndb_ldap_pagure_i.Isc.{IscResult, success, is_success, ok, Result-cases, returns}
use bind_dyndb_ldap_pagure_i.Zone.{
  Dns, Rdataset, op_add, op_del, zone_journal_adddiff, zone_soaserial_updatetuple,
  zone_soaserial_addtuple, append_both, append_soa, rdataset_to_diff,
}
use bind_dyndb_ldap_pagure_i.SyncPtr.{SyncPtrev, delete_old, publish}

module _ {Name : Type 0} (lib : Dns Name) where
  -- The list of changes with those of the SOA record behind them, if there are changes at all.
  abbrev pub WithSerial : lib.Version → List lib.Tuple → List lib.Tuple → Type 0
  WithSerial v diff all =
      ((diff ≡ []) × (all ≡ []))
      ⊎ ((del : lib.Tuple) × (add : lib.Tuple) × (lib.createsoatuple v op_del ≡ ok del)
          × (lib.createsoatuple v op_add ≡ ok add)
          × (all
              ≡ lib.appendminimal (lib.appendminimal diff del)
                  (lib.setserial (lib.update_soaserial (lib.getserial add)) add)))

  -- A call for the tuple that is made for an addition never fails an assertion.
  append_both_returns :
      (v : lib.Version) (diff : List lib.Tuple) (del : lib.Tuple)
      → (r : IscResult) × (all : List lib.Tuple) × (append_both lib diff del
            (lib.createsoatuple v op_add)
          ≡ returns (r, all))
        × ((is_success r ≡ false)
            ⊎ ((add : lib.Tuple) × (lib.createsoatuple v op_add ≡ ok add)
                × (all
                    ≡ lib.appendminimal
                        (lib.appendminimal diff del)
                        (lib.setserial (lib.update_soaserial (lib.getserial add)) add))))
  unfolding zone_soaserial_updatetuple
  append_both_returns v diff del = elim (Result-cases (lib.createsoatuple v op_add)) [
    | inl (add, e) ↦
        let (is_op, soa) = lib.soatuple v op_add add e in
        (success, _, rw (e, is_op, soa) refl, inr (add, e, refl))
    | inr (r, e) ↦ (r, diff, rw e refl, inl (lib.createsoatuple_failed v op_add r e))
  ]

  pub zone_soaserial_addtuple_returns :
      (v : lib.Version) (diff : List lib.Tuple)
      → (r : IscResult) × (all : List lib.Tuple) × (zone_soaserial_addtuple lib v diff
          ≡ returns (r, all))
        × ((is_success r ≡ false) ⊎ WithSerial v diff all)
  unfolding zone_soaserial_addtuple
  zone_soaserial_addtuple_returns v diff = elim (Result-cases (lib.createsoatuple v op_del)) [
    | inr (r, e) ↦
        (r, diff, ap (append_soa lib v diff) e, inl (lib.createsoatuple_failed v op_del r e))
    | inl (del, e) ↦
        let (r, all, value, outcome) = append_both_returns v diff del in
        elim outcome [
          | inl failed ↦ (r, all, ap (append_soa lib v diff) e ∙ value, inl failed)
          | inr (add, f, there) ↦
              (r, all, ap (append_soa lib v diff) e ∙ value, inr (inr (del, add, e, f, there)))
        ]
  ]

  pub publish_returns :
      (v : lib.Version) (journal : lib.Journal) (diff : List lib.Tuple)
      → (r : IscResult) × (all : List lib.Tuple) × (after : lib.Journal) × (publish lib v journal
            diff
          ≡ returns (r, all, after))
        × ((is_success r ≡ false) ⊎ WithSerial v diff all)
  unfolding publish
  publish_returns v journal [] = (success, [], journal, refl, inr (inl (refl, refl)))
  publish_returns v journal (tp ∷ diff) =
      let (r, all, value, outcome) = zone_soaserial_addtuple_returns v (tp ∷ diff) in
      elim outcome [
        | inl failed ↦ (r, all, journal, rw (value, failed) refl, inl failed)
        | inr there ↦ elim (Bool-cases (is_success r)) [
          | inr failed ↦ (r, all, journal, rw (value, failed) refl, inl failed)
          | inl fine ↦
              let (written, journal') = zone_journal_adddiff lib journal all in
              (written, all, journal', rw (value, fine) refl, inr there)
        ]
      ]

  -- Of the record that is deleted: it is the only PTR record found, and is for the name of the A
  -- or AAAA record; the changes are the deletion of it.
  abbrev pub Removal : SyncPtrev Name → Option (Rdataset lib.Rdata) → List lib.Tuple → Type 0
  Removal ev bound diff =
      (ttl : ℕ) × (rdata : lib.Rdata) × (ptr : Name) × (tp : lib.Tuple) × (bound
        ≡ some (record { ttl = ttl; rdatas = rdata ∷ [] }))
      × (lib.tostruct rdata ≡ ok ptr)
      × (lib.equal ptr ev.a_name ≡ true)
      × (lib.difftuple_create op_del ev.ptr_name ttl rdata ≡ ok tp)
      × (diff ≡ lib.appendminimal [] tp)

  -- What comes before the record that is added: nothing, unless the search has left a set bound although
  -- it found no PTR record. Then the records of that set are deleted first.
  abbrev pub LeftOver : SyncPtrev Name → Option (Rdataset lib.Rdata) → List lib.Tuple → Type 0
  LeftOver ev bound old =
      ((bound ≡ none) × (old ≡ []))
      ⊎ ((s : Rdataset lib.Rdata) × (bound ≡ some s)
          × (rdataset_to_diff lib op_del ev.ptr_name s [] ≡ (success, old)))

  -- Of the record that is added: it is for the name of the A or AAAA record, with the time to live of
  -- the event, and comes behind what is left over by a search that found no PTR record.
  abbrev pub Addition : SyncPtrev Name → Option (Rdataset lib.Rdata) → List lib.Tuple → Type 0
  Addition ev bound diff =
      (old : List lib.Tuple) × (rdata : lib.Rdata) × (tp : lib.Tuple) × LeftOver ev bound old
      × (lib.fromstruct ev.a_name ≡ ok rdata)
      × (lib.difftuple_create op_add ev.ptr_name ev.ttl rdata ≡ ok tp)
      × (diff ≡ lib.appendminimal old tp)

  pub delete_old-LeftOver :
      (ev : SyncPtrev Name) (bound : Option (Rdataset lib.Rdata)) (old : List lib.Tuple)
      → delete_old lib ev.ptr_name bound [] ≡ (success, old)
      → LeftOver ev bound old
  unfolding delete_old
  delete_old-LeftOver ev none old h = inl (refl, sym (ap (λ x. x.1) h))
  delete_old-LeftOver ev (some s) old h = inr (s, refl, h)
