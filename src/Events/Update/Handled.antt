-- ===== src/Events/Update/Handled.antt =====
-- What `update_record` does to the zone, with the second pass after the zone was loaded again.
use bind_dyndb_ldap_pagure_i.Prelude.{
  ℕ, ◌+◌, ◌≡◌, refl, ◌∙◌, ap, ◌⊎◌, inl, inr, true, false, Bool-cases, arith,
}
use bind_dyndb_ldap_pagure_i.Isc.{IscResult, is_success, err, returns, ◌>>=◌}
use bind_dyndb_ldap_pagure_i.Zone.{Dns}
use bind_dyndb_ldap_pagure_i.Events.{Phase}
use bind_dyndb_ldap_pagure_i.Events.Update.{
  is_invalid, is_loaded, Stored, Handling, after_load, or_reload, passes, update_record,
}
use bind_dyndb_ldap_pagure_i.Events.Update.Writes.{Ends, Passed}
use bind_dyndb_ldap_pagure_i.Events.Update.Passes.{update_pass-Passed}

module _ {Name : Type 0} (lib : Dns Name) where
  -- After the zone was loaded again: loading or reading the serial number failed, or there was a
  -- second pass.
  abbrev pub Reloaded :
      Phase → Name → Handling lib → IscResult × Stored lib → IscResult × Stored lib → Type 0
  Reloaded chgtype name h (q, z) (r, z') =
      ((z' ≡ z) × (is_success r ≡ false))
      ⊎ ((is_loaded q ≡ true) × (Passed lib chgtype name h.second z (r, z')))

  abbrev pub Handled : Phase → Name → Handling lib → Stored lib → IscResult × Stored lib → Type 0
  Handled chgtype name h z (r, z') =
      ((z' ≡ z) × (is_success r ≡ false))
      ⊎ ((q : IscResult) × (z1 : Stored lib) × (Passed lib chgtype name h.first z (q, z1))
          × (((is_invalid q ≡ false) × (r ≡ q) × (z' ≡ z1))
              ⊎ ((is_invalid q ≡ true) × (Reloaded chgtype name h (h.load_zone z1) (r, z')))))

  not_loaded : (q : IscResult) → is_loaded q ≡ false → is_success q ≡ false
  not_loaded q f = ground (arith, f)

  after_load-Reloaded :
      (chgtype : Phase) (name : Name) (h : Handling lib) (q : IscResult) (z : Stored lib)
      → ((v : lib.Version) (e : IscResult) → lib.newversion v ≡ err e → is_success e ≡ false)
      → Ends (Reloaded chgtype name h (q, z)) (after_load lib chgtype name h (q, z))
  after_load-Reloaded chgtype name h q z law = elim (Bool-cases (is_loaded q)) [
    | inr f ↦ ((q, z), rw f refl, inl (refl, not_loaded q f))
    | inl e ↦ elim (Bool-cases (is_success h.serial)) [
      | inr f ↦ ((h.serial, z), rw (e, f) refl, inl (refl, f))
      | inl f ↦
          let (a, run, passed) = update_pass-Passed lib chgtype name h.second z law in
          (a, rw (e, f) run, inr (e, passed))
    ]
  ]

  or_reload-Handled :
      (chgtype : Phase) (name : Name) (h : Handling lib) (z : Stored lib) (q : IscResult)
      (z1 : Stored lib)
      → ((v : lib.Version) (e : IscResult) → lib.newversion v ≡ err e → is_success e ≡ false)
      → Passed lib chgtype name h.first z (q, z1)
      → Ends (Handled chgtype name h z) (or_reload lib chgtype name h (q, z1))
  or_reload-Handled chgtype name h z q z1 law passed = elim (Bool-cases (is_invalid q)) [
    | inr f ↦ ((q, z1), rw f refl, inr (q, z1, passed, inl (f, refl, refl)))
    | inl e ↦
        let (loaded, z2) = h.load_zone z1 in
        let (a, run, reloaded) = after_load-Reloaded chgtype name h loaded z2 law in
        (a, rw e run, inr (q, z1, passed, inr (e, reloaded)))
  ]

  passes-Handled :
      (chgtype : Phase) (name : Name) (h : Handling lib) (z : Stored lib)
      → ((v : lib.Version) (e : IscResult) → lib.newversion v ≡ err e → is_success e ≡ false)
      → Ends (Handled chgtype name h z) (passes lib chgtype name h z)
  passes-Handled chgtype name h z law = elim (Bool-cases (is_success h.zone_ptr)) [
    | inr f ↦ ((h.zone_ptr, z), rw f refl, inl (refl, f))
    | inl e ↦
        let ((q, z1), first, passed) = update_pass-Passed lib chgtype name h.first z law in
        let (a, rest, handled) = or_reload-Handled chgtype name h z q z1 law passed in
        (a, rw e (ap (λ m. m >>= λ r. or_reload lib chgtype name h r) first ∙ rest), handled)
  ]

  -- `update_record` always ends without a failed assertion, after two passes at most, and signals
  -- the limit once. A pass leaves the committed version of the database as it is, and then it has
  -- failed, has found nothing to change, or was told that the node has no sets; or it commits the
  -- diff that `diff_ldap_rbtdb` has computed with success from the sets that the iterator over the
  -- node came to and the records of the entry. After the first synchronisation a commit has the new
  -- serial number too and is in the journal just as it is applied; before it, a commit has the diff
  -- alone and leaves the journal as it was. A second pass comes only when the first one has found
  -- the zone invalid and the zone was loaded again. It is assumed that an error of
  -- `dns_db_newversion`, `dns_db_allrdatasets` or the parser is not ISC_R_SUCCESS.
  pub update_record_lem :
      (chgtype : Phase) (name : Name) (h : Handling lib) (signals : ℕ) (z : Stored lib)
      → ((v : lib.Version) (e : IscResult) → lib.newversion v ≡ err e → is_success e ≡ false)
      → (r : IscResult) × (z' : Stored lib) × (update_record lib chgtype name h signals z
          ≡ returns (r, z', signals + 1))
        × Handled chgtype name h z (r, z')
  unfolding update_record
  update_record_lem chgtype name h signals z law =
      let ((r, z'), run, handled) = passes-Handled chgtype name h z law in
      (r, z', ap (λ m. m >>= λ a. returns (a.0, a.1, signals + 1)) run, handled)
