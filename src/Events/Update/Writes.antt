-- ===== src/Events/Update/Writes.antt =====
-- What the part of `update_record` does that writes a diff to the zone.
use bind_dyndb_ldap_pagure_i.Prelude.{
  ℕ, ◌+◌, ◌≡◌, refl, ◌∙◌, ap, ◌⊎◌, inl, inr, true, false, List, [], ◌∷◌, Bool-cases, arith,
}
use bind_dyndb_ldap_pagure_i.Isc.{
  IscResult, success, notfound, is_success, ok, err, Run, returns, ◌>>=◌,
}
use bind_dyndb_ldap_pagure_i.Zone.{Dns, Rdataset, zone_journal_adddiff, zone_soaserial_addtuple}
use bind_dyndb_ldap_pagure_i.Records.{RdatasetIter, diff_ldap_rbtdb}
use bind_dyndb_ldap_pagure_i.SyncPtr.Changes.{WithSerial, zone_soaserial_addtuple_returns}
use bind_dyndb_ldap_pagure_i.SyncPtr.Validate.{success_eq}
use bind_dyndb_ldap_pagure_i.Events.{Phase}
use bind_dyndb_ldap_pagure_i.Events.Update.{
  Stored, Pass, rdatalist, finished, commit, journaled_commit, with_serial, write_diff,
}

-- A call that returns, and with what.
abbrev pub Ends {ℓ} : {A : Type ℓ} → (A → Type 0) → Run A → Type ℓ
Ends {A = A} P m = (a : A) × (m ≡ returns a) × P a

module _ {Name : Type 0} (lib : Dns Name) where
  -- The diff that is computed with success from the sets that the iterator over the version came to, and
  -- the records of the entry.
  abbrev pub Difference : Phase → Name → Pass lib → lib.Version → List lib.Tuple → Type 0
  Difference chgtype name p v diff =
      (list : List (Rdataset lib.Rdata)) × (iter : RdatasetIter lib.Rdata) × (rdatalist lib chgtype
          p
        ≡ ok list)
      × (p.allrdatasets v ≡ ok iter)
      × (diff_ldap_rbtdb lib name list iter [] ≡ (success, diff))

  -- There is nothing to apply: the diff is empty, or the node has no sets to iterate over.
  abbrev pub Untouched : Phase → Name → Pass lib → Stored lib → Type 0
  Untouched chgtype name p z =
      (v : lib.Version) × (lib.newversion z.current ≡ ok v)
      × ((Difference chgtype name p v []) ⊎ (p.allrdatasets v ≡ err notfound))

  -- The changes that are applied, and what is in the journal then.
  abbrev pub Journaled :
      Pass lib → lib.Version → List lib.Tuple → List lib.Tuple → lib.Journal → lib.Journal → Type 0
  Journaled p v diff all before after =
      ((finished lib p ≡ true)
        × (WithSerial lib v diff all)
        × (zone_journal_adddiff lib before all ≡ (success, after)))
      ⊎ ((finished lib p ≡ false) × (all ≡ diff) × (after ≡ before))

  abbrev pub Committed : Phase → Name → Pass lib → Stored lib → Stored lib → Type 0
  Committed chgtype name p z z' =
      (v : lib.Version) × (diff : List lib.Tuple) × (all : List lib.Tuple) × (lib.newversion
          z.current
        ≡ ok v)
      × (Difference chgtype name p v diff)
      × (Journaled p v diff all z.journal z'.journal)
      × (lib.diff_apply v all ≡ (success, z'.current))
      × (z'.dirty ≡ true)

  abbrev pub Passed : Phase → Name → Pass lib → Stored lib → IscResult × Stored lib → Type 0
  Passed chgtype name p z (r, z') =
      ((z'.current ≡ z.current)
        × (z'.dirty ≡ z.dirty)
        × ((is_success r ≡ false) ⊎ (Untouched chgtype name p z)))
      ⊎ (Committed chgtype name p z z')

  pub failed :
      (chgtype : Phase) (name : Name) (p : Pass lib) (z : Stored lib) (r : IscResult)
      → is_success r ≡ false
      → Passed chgtype name p z (r, z)
  failed chgtype name p z r f = inl (refl, refl, inl f)

  -- `z` is what the zone was before the serial number and the journal were written.
  commit-Passed :
      (chgtype : Phase) (name : Name) (p : Pass lib) (z : Stored lib) (v : lib.Version)
      (diff all : List lib.Tuple) (journal : lib.Journal) (serials : ℕ)
      → lib.newversion z.current ≡ ok v
      → Difference chgtype name p v diff
      → Journaled p v diff all z.journal journal
      → Passed chgtype name p z
          (commit lib p (record z { journal = journal; serials = serials }) v all)
  commit-Passed chgtype name p z v diff all journal serials n d j =
      let (applied, version) = lib.diff_apply v all in
      elim (Bool-cases (is_success applied)) [
        | inr f ↦ rw f (inl (refl, refl, inl f))
        | inl e ↦
            rw e (inr (v, diff, all, n, d, j, ap (λ x. (x, version)) (success_eq applied e), refl))
      ]

  journaled_commit-Passed :
      (chgtype : Phase) (name : Name) (p : Pass lib) (z : Stored lib) (v : lib.Version)
      (diff all : List lib.Tuple) (serials : ℕ)
      → lib.newversion z.current ≡ ok v
      → Difference chgtype name p v diff
      → finished lib p ≡ true
      → WithSerial lib v diff all
      → Passed chgtype name p z (journaled_commit lib p (record z { serials = serials }) v all)
  journaled_commit-Passed chgtype name p z v diff all serials n d fin s =
      let (written, journal) = zone_journal_adddiff lib z.journal all in
      elim (Bool-cases (is_success written)) [
        | inr f ↦ rw f (inl (refl, refl, inl f))
        | inl e ↦ rw e (
            commit-Passed chgtype name p z v diff all journal serials n d
              (inl (fin, s, ap (λ x. (x, journal)) (success_eq written e))))
      ]

  write_now :
      (p : Pass lib) (z : Stored lib) (v : lib.Version) (r : IscResult) (tp : lib.Tuple)
      (diff : List lib.Tuple)
      → finished lib p ≡ false
      → write_diff lib p z v (r, tp ∷ diff) ≡ returns (commit lib p z v (tp ∷ diff))
  write_now p z v r tp diff f = rw f refl

  write_numbered :
      (p : Pass lib) (z : Stored lib) (v : lib.Version) (r : IscResult) (tp : lib.Tuple)
      (diff : List lib.Tuple)
      → finished lib p ≡ true
      → write_diff lib p z v (r, tp ∷ diff) ≡ (
          zone_soaserial_addtuple lib v (tp ∷ diff) >>= λ numbered.
          returns (with_serial lib p z v numbered))
  write_numbered p z v r tp diff fin = rw fin refl

  with_serial-Passed :
      (chgtype : Phase) (name : Name) (p : Pass lib) (z : Stored lib) (v : lib.Version)
      (diff : List lib.Tuple) (q : IscResult) (all : List lib.Tuple)
      → lib.newversion z.current ≡ ok v
      → Difference chgtype name p v diff
      → finished lib p ≡ true
      → (is_success q ≡ false) ⊎ (WithSerial lib v diff all)
      → Passed chgtype name p z (with_serial lib p z v (q, all))
  with_serial-Passed chgtype name p z v diff q all n d fin outcome =
      elim (Bool-cases (is_success q)) [
        | inr f ↦ rw f (failed chgtype name p z q f)
        | inl e ↦ elim outcome [
          | inl f ↦ absurd (ground (arith, e, f))
          | inr s ↦
              rw e (journaled_commit-Passed chgtype name p z v diff all (z.serials + 1) n d fin s)
        ]
      ]

  -- A diff that has something in it.
  pub written-Passed :
      (chgtype : Phase) (name : Name) (p : Pass lib) (z : Stored lib) (v : lib.Version)
      (r : IscResult) (tp : lib.Tuple) (diff : List lib.Tuple)
      → lib.newversion z.current ≡ ok v
      → Difference chgtype name p v (tp ∷ diff)
      → Ends (Passed chgtype name p z) (write_diff lib p z v (r, tp ∷ diff))
  written-Passed chgtype name p z v r tp diff n d = elim (Bool-cases (finished lib p)) [
    | inr f ↦ (
      commit lib p z v (tp ∷ diff),
      write_now p z v r tp diff f,
      commit-Passed chgtype name p z v (tp ∷ diff) (tp ∷ diff) z.journal z.serials n d
          (inr (f, refl, refl)),
    )
    | inl fin ↦
        let (q, all, value, outcome) = zone_soaserial_addtuple_returns lib v (tp ∷ diff) in
        (
          with_serial lib p z v (q, all),
          write_numbered p z v r tp diff fin
              ∙ ap (λ m. m >>= λ numbered. returns (with_serial lib p z v numbered)) value,
          with_serial-Passed chgtype name p z v (tp ∷ diff) q all n d fin outcome,
        )
  ]
