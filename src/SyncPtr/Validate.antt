-- ===== src/SyncPtr/Validate.antt =====
-- The decision of `sync_ptr_validate`.
use bind_dyndb_ldap_pagure_i.Prelude.{
  ◌≡◌, ◌≢◌, refl, sym, ◌∙◌, ap, ◌⊎◌, inl, inr, true, false, Option, some, List, [], ◌∷◌, arith,
  Bool-cases,
}
use bind_dyndb_ldap_pagure_i.Isc.{
  IscResult, success, notimplemented, is_success, ok, Result-cases, returns,
}
use bind_dyndb_ldap_pagure_i.Zone.{Dns, Rdataset}
use bind_dyndb_ldap_pagure_i.SyncPtr.{
  ModOp, mod_add, mod_delete, SyncPtrev, is_missing, decide_missing, compare_name, validate_rdatas,
  sync_ptr_validate,
}

pub success_eq : (r : IscResult) → is_success r ≡ true → r ≡ success
success_eq r h = ground (arith, h)

module _ {Name : Type 0} (lib : Dns Name) where
  compare_name_success :
      (a_name ptr : Name) (mod_op : ModOp)
      → is_success (compare_name lib a_name mod_op (ok ptr)) ≡ true
      → (mod_op ≡ mod_delete) × (lib.equal ptr a_name ≡ true)
  compare_name_success a_name ptr mod_add h = absurd (ground (arith, h))
  compare_name_success a_name ptr mod_delete h = (refl, ground (arith, h))

  -- One record for the name of the A record, which is to be deleted.
  abbrev pub OneRecord : SyncPtrev Name → List lib.Rdata → Type 0
  OneRecord ev rdatas =
      (ev.mod_op ≡ mod_delete)
      × (rdata : lib.Rdata) × (ptr : Name) × (rdatas ≡ rdata ∷ [])
      × (lib.tostruct rdata ≡ ok ptr)
      × (lib.equal ptr ev.a_name ≡ true)

  validate_rdatas_returns :
      (ev : SyncPtrev Name) (rdatas : List lib.Rdata)
      → rdatas ≢ []
      → (r : IscResult) × (validate_rdatas lib ev.a_name ev.mod_op rdatas ≡ returns r)
        × ((is_success r ≡ false) ⊎ OneRecord ev rdatas)
  validate_rdatas_returns ev [] h = absurd (h refl)
  validate_rdatas_returns ev (_ ∷ _ ∷ _) h = (notimplemented, refl, inl refl)
  validate_rdatas_returns ev (rdata ∷ []) h =
      let result : IscResult = compare_name lib ev.a_name ev.mod_op (lib.tostruct rdata) in
      elim (Result-cases (lib.tostruct rdata)) [
        | inr (r, e) ↦ (
          result,
          refl,
          inl (
              ap (λ x. is_success (compare_name lib ev.a_name ev.mod_op x)) e
              ∙ lib.tostruct_failed rdata r e),
        )
        | inl (ptr, e) ↦ elim (Bool-cases (is_success result)) [
          | inr failed ↦ (result, refl, inl failed)
          | inl fine ↦
              let (deleted, same) =
                compare_name_success ev.a_name ptr ev.mod_op
                  (sym (ap (λ x. is_success (compare_name lib ev.a_name ev.mod_op x)) e) ∙ fine) in
              (result, refl, inr (deleted, rdata, ptr, refl, e, same))
        ]
      ]

  -- The search has found no PTR record, or one for the right name that is to be deleted.
  abbrev pub Allowed : SyncPtrev Name → IscResult → Option (Rdataset lib.Rdata) → Type 0
  Allowed ev result bound =
      ((ev.mod_op ≡ mod_add) × (is_missing result ≡ true))
      ⊎ ((s : Rdataset lib.Rdata) × (result ≡ success) × (bound ≡ some s) × OneRecord ev s.rdatas)

  found_returns :
      (ev : SyncPtrev Name) (v : lib.Version) (found : Name) (bound : Option (Rdataset lib.Rdata))
      → lib.find v ev.ptr_name ≡ (success, found, bound)
      → (r : IscResult) × (sync_ptr_validate lib ev v ≡ returns (r, bound))
        × ((is_success r ≡ false) ⊎ Allowed ev success bound)
  unfolding sync_ptr_validate
  found_returns ev v found bound e =
      let (same, s, is_s, nonempty) = lib.find_success v ev.ptr_name found bound e in
      let (r, value, outcome) = validate_rdatas_returns ev s.rdatas nonempty in
      (
        r,
        ground (arith, e, same, is_s, value),
        elim outcome [ inl failed ↦ inl failed | inr one ↦ inr (inr (s, refl, is_s, one)) ],
      )

  missing_outcome :
      (ev : SyncPtrev Name) (op : ModOp) (result : IscResult) (bound : Option (Rdataset lib.Rdata))
      → ev.mod_op ≡ op
      → is_missing result ≡ true
      → (is_success (decide_missing op) ≡ false) ⊎ Allowed ev result bound
  missing_outcome ev mod_add result bound o m = inr (inl (o, m))
  missing_outcome ev mod_delete result bound o m = inl refl

  -- With what is documented of the search no assertion fails, and where the result is ISC_R_SUCCESS
  -- the change is allowed.
  pub validate_returns :
      (ev : SyncPtrev Name) (v : lib.Version)
      → (r : IscResult) × (result : IscResult) × (found : Name) × (bound : Option
          (Rdataset lib.Rdata))
        × (lib.find v ev.ptr_name ≡ (result, found, bound))
        × (sync_ptr_validate lib ev v ≡ returns (r, bound))
        × ((is_success r ≡ false) ⊎ Allowed ev result bound)
  unfolding sync_ptr_validate
  validate_returns ev v =
      let (result, found, bound) = lib.find v ev.ptr_name in
      elim (Bool-cases (is_success result)) [
        | inl e ↦
            let search : lib.find v ev.ptr_name ≡ (success, found, bound) =
              ap (λ r. (r, found, bound)) (success_eq result e) in
            let (r, value, outcome) = found_returns ev v found bound search in
            (r, success, found, bound, search, value, outcome)
        | inr e ↦ elim (Bool-cases (is_missing result)) [
          | inl m ↦ (
            decide_missing ev.mod_op,
            result,
            found,
            bound,
            refl,
            rw (e, m) refl,
            missing_outcome ev ev.mod_op result bound refl m,
          )
          | inr n ↦ (result, result, found, bound, refl, rw (e, n) refl, inl e)
        ]
      ]
