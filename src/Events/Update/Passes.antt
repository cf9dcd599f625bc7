-- ===== src/Events/Update/Passes.antt =====
-- What a pass of `update_record` does to the zone.
use bind_dyndb_ldap_pagure_i.Prelude.{
  ◌≡◌, refl, sym, subst, if◌then◌else◌, ◌∙◌, ap, ◌⊎◌, inl, inr, true, false, List, [], ◌∷◌,
  Bool-cases, arith,
}
use bind_dyndb_ldap_pagure_i.Isc.{
  IscResult, notfound, is_success, is_notfound, Result, ok, err, Result-cases,
}
use bind_dyndb_ldap_pagure_i.Zone.{Dns, Rdataset}
use bind_dyndb_ldap_pagure_i.Records.{RdatasetIter, diff_ldap_rbtdb}
use bind_dyndb_ldap_pagure_i.SyncPtr.Validate.{success_eq}
use bind_dyndb_ldap_pagure_i.Events.{Phase, phase_add, phase_modify, phase_delete, phase_other}
use bind_dyndb_ldap_pagure_i.Events.Update.{
  Stored, Pass, rdatalist, difference, last_result, checked_diff, update_pass,
}
use bind_dyndb_ldap_pagure_i.Events.Update.Writes.{Ends, Difference, Passed, failed, written-Passed}

notfound_eq : (r : IscResult) → is_notfound r ≡ true → r ≡ notfound
notfound_eq r h = ground (arith, h)

module _ {Name : Type 0} (lib : Dns Name) where
  of_entry_failed :
      (p : Pass lib) (e : IscResult)
      → (if is_success p.settings then p.parsed else err p.settings) ≡ err e
      → is_success e ≡ false
  of_entry_failed p e h = elim (Bool-cases (is_success p.settings)) [
    | inl f ↦ p.parsed_failed e (rw f refl ∙ h)
    | inr f ↦ ground (arith, f, h)
  ]

  rdatalist_failed :
      (chgtype : Phase) (p : Pass lib) (e : IscResult)
      → rdatalist lib chgtype p ≡ err e
      → is_success e ≡ false
  rdatalist_failed phase_add p e h = of_entry_failed p e h
  rdatalist_failed phase_modify p e h = of_entry_failed p e h
  rdatalist_failed phase_delete p e h = absurd (ground (arith, h))
  rdatalist_failed (phase_other n) p e h = absurd (ground (arith, h))

  -- What the checks up to the diff come to.
  abbrev Checked :
      Phase → Name → Pass lib → lib.Version → Result (IscResult × List lib.Tuple) → Type 0
  Checked chgtype name p v (err e) = is_success e ≡ false
  Checked chgtype name p v (ok (r, diff)) =
      (Difference lib chgtype name p v diff) ⊎ ((diff ≡ []) × (p.allrdatasets v ≡ err notfound))

  without_iter :
      (chgtype : Phase) (name : Name) (p : Pass lib) (v : lib.Version) (r : IscResult)
      (list : Result (List (Rdataset lib.Rdata)))
      → p.allrdatasets v ≡ err r
      → rdatalist lib chgtype p ≡ list
      → Checked chgtype name p v (difference lib chgtype name list (err r))
  without_iter chgtype name p v r (err e) a h = elim (Bool-cases (is_notfound r)) [
    | inl f ↦ rw f (rdatalist_failed chgtype p e h)
    | inr f ↦ rw f (p.allrdatasets_failed v r a)
  ]
  without_iter chgtype name p v r (ok list) a h = elim (Bool-cases (is_notfound r)) [
    | inl f ↦ rw f (inr (refl, a ∙ ap (λ x. err x) (notfound_eq r f)))
    | inr f ↦ rw f (p.allrdatasets_failed v r a)
  ]

  with_iter :
      (chgtype : Phase) (name : Name) (p : Pass lib) (v : lib.Version)
      (iter : RdatasetIter lib.Rdata) (list : Result (List (Rdataset lib.Rdata)))
      → p.allrdatasets v ≡ ok iter
      → rdatalist lib chgtype p ≡ list
      → Checked chgtype name p v (difference lib chgtype name list (ok iter))
  with_iter chgtype name p v iter (err e) a h = rdatalist_failed chgtype p e h
  with_iter chgtype name p v iter (ok list) a h =
      let (result, diff) = diff_ldap_rbtdb lib name list iter [] in
      elim (Bool-cases (is_success result)) [
        | inr f ↦ rw f f
        | inl e ↦ rw e (inl (list, iter, h, a, ap (λ x. (x, diff)) (success_eq result e)))
      ]

  checked_diff-Passed :
      (chgtype : Phase) (name : Name) (p : Pass lib) (z : Stored lib) (v : lib.Version)
      (d : Result (IscResult × List lib.Tuple))
      → lib.newversion z.current ≡ ok v
      → Checked chgtype name p v d
      → Ends (Passed lib chgtype name p z) (checked_diff lib p z v d)
  checked_diff-Passed chgtype name p z v (err e) n c =
      ((e, z), refl, failed lib chgtype name p z e c)
  checked_diff-Passed chgtype name p z v (ok (r, [])) n (inl d) =
      ((last_result lib p r, z), refl, inl (refl, refl, inr (v, n, inl d)))
  checked_diff-Passed chgtype name p z v (ok (r, [])) n (inr (e, a)) =
      ((last_result lib p r, z), refl, inl (refl, refl, inr (v, n, inr a)))
  checked_diff-Passed chgtype name p z v (ok (r, tp ∷ diff)) n (inl d) =
      written-Passed lib chgtype name p z v r tp diff n d
  checked_diff-Passed chgtype name p z v (ok (r, tp ∷ diff)) n (inr (e, a)) =
      absurd (ground (arith, e))

  Checked-difference :
      (chgtype : Phase) (name : Name) (p : Pass lib) (v : lib.Version)
      → Checked chgtype name p v
          (difference lib chgtype name (rdatalist lib chgtype p) (p.allrdatasets v))
  Checked-difference chgtype name p v = elim (Result-cases (p.allrdatasets v)) [
    | inr (r, a) ↦
        subst
          (λ x. Checked chgtype name p v (difference lib chgtype name (rdatalist lib chgtype p) x))
          (sym a) (without_iter chgtype name p v r (rdatalist lib chgtype p) a refl)
    | inl (iter, a) ↦
        subst
          (λ x. Checked chgtype name p v (difference lib chgtype name (rdatalist lib chgtype p) x))
          (sym a) (with_iter chgtype name p v iter (rdatalist lib chgtype p) a refl)
  ]

  -- A pass returns.
  pub update_pass-Passed :
      (chgtype : Phase) (name : Name) (p : Pass lib) (z : Stored lib)
      → ((v : lib.Version) (e : IscResult) → lib.newversion v ≡ err e → is_success e ≡ false)
      → Ends (Passed lib chgtype name p z) (update_pass lib chgtype name p z)
  unfolding update_pass
  update_pass-Passed chgtype name p z law = elim (Bool-cases (is_success p.dbs)) [
    | inr f ↦ ((p.dbs, z), rw f refl, failed lib chgtype name p z p.dbs f)
    | inl e ↦ elim (Result-cases (lib.newversion z.current)) [
      | inr (r, n) ↦ ((r, z), rw (e, n) refl, failed lib chgtype name p z r (law z.current r n))
      | inl (v, n) ↦ elim (Bool-cases (is_success p.node)) [
        | inr f ↦ ((p.node, z), rw (e, n, f) refl, failed lib chgtype name p z p.node f)
        | inl f ↦
            let (a, run, passed) =
              checked_diff-Passed chgtype name p z v
                (difference lib chgtype name (rdatalist lib chgtype p) (p.allrdatasets v)) n
                (Checked-difference chgtype name p v) in
            (a, rw (e, n, f) run, passed)
      ]
    ]
  ]
