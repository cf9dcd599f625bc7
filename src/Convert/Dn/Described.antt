-- ===== src/Convert/Dn/Described.antt =====
-- What a DN stands for, without the code of `dn_to_dnsname`, and that the part of the code behind the
-- loop does this.
use bind_dyndb_ldap_pagure_i.Prelude.{
  ℕ, ◌≡◌, ◌⊎◌, refl, Bool, true, false, Option, none, some, List, [], ◌∷◌, if◌then◌else◌, inl, inr,
  Bool-cases, subst, sym, not,
}
use bind_dyndb_ldap_pagure_i.Isc.{
  IscResult, unexpectedend, badownername, Result, ok, err, Result-cases,
}
use bind_dyndb_ldap_pagure_i.Convert.Dn.{
  Parts, Names, zone_names, owner_names, copies, ◌>>?◌, from_parts,
}

abbrev pub parts_of : List (List ℕ) → Parts
parts_of [] = record { idx = 0; name_buf = []; origin_buf = [] }
parts_of (v ∷ []) = record { idx = 1; name_buf = v; origin_buf = [] }
parts_of (v ∷ o ∷ _) = record { idx = 2; name_buf = v; origin_buf = o }

module _ {Name : Type 0} (lib : Names Name) (want_origin : Bool) where
  -- The copies that the caller gets: of the name, and of the origin if it is wanted.
  abbrev pub Copied : Name → Name → Name × Option Name → Type 0
  Copied name origin (target, otarget) =
      (lib.dup name ≡ ok target)
      × (((want_origin ≡ false) × (otarget ≡ none))
          ⊎ ((want_origin ≡ true)
              × (copy : Name) × (lib.dup origin ≡ ok copy)
              × (otarget ≡ some copy)))

  -- One of the copies could not be made.
  abbrev pub NotCopied : Name → Name → IscResult → Type 0
  NotCopied name origin r =
      (lib.dup name ≡ err r) ⊎ ((want_origin ≡ true) × (lib.dup origin ≡ err r))

  -- The name of a zone is absolute, and its origin is the root.
  abbrev pub ZoneName : List ℕ → Name → Name → Type 0
  ZoneName v name origin = (lib.copy lib.root ≡ ok origin) × (lib.fromtext v lib.root ≡ ok name)

  -- The origin of an owner name is absolute, the name is relative to it, and it lies strictly below.
  abbrev pub Relative : List ℕ → List ℕ → Name → Name → Type 0
  Relative v o name origin =
      (lib.fromtext o lib.root ≡ ok origin) × (lib.fromtext v origin ≡ ok name)

  abbrev pub IsBelow : Name → Name → Type 0
  IsBelow name origin = (lib.issubdomain name origin ≡ true) × (lib.equal name origin ≡ false)

  abbrev pub NotBelow : Name → Name → Type 0
  NotBelow name origin = (lib.issubdomain name origin ≡ false) ⊎ (lib.equal name origin ≡ true)

  abbrev pub Found : (Name → Name → Type 0) → Name × Option Name → Type 0
  Found P names = (name : Name) × (origin : Name) × P name origin × Copied name origin names

  abbrev pub CopyFailed : (Name → Name → Type 0) → IscResult → Type 0
  CopyFailed P r = (name : Name) × (origin : Name) × P name origin × NotCopied name origin r

  -- The result for one component, a zone.
  abbrev pub OfZone : List ℕ → Result (Name × Option Name) → Type 0
  OfZone v (ok names) = Found (ZoneName v) names
  OfZone v (err r) =
      (lib.copy lib.root ≡ err r) ⊎ (lib.fromtext v lib.root ≡ err r) ⊎ (CopyFailed (ZoneName v) r)

  -- The result for more components, an owner name and its origin.
  abbrev pub OfOwner : List ℕ → List ℕ → Result (Name × Option Name) → Type 0
  OfOwner v o (ok names) =
      Found (λ name origin. Relative v o name origin × IsBelow name origin) names
  OfOwner v o (err r) =
      (lib.fromtext o lib.root ≡ err r)
      ⊎ ((origin : Name) × (lib.fromtext o lib.root ≡ ok origin) × (lib.fromtext v origin ≡ err r))
      ⊎ ((name : Name) × (origin : Name) × Relative v o name origin
          × NotBelow name origin
          × (r ≡ badownername))
      ⊎ (CopyFailed (λ name origin. Relative v o name origin × IsBelow name origin) r)

  -- What a DN stands for, by the values of its components. The third one and those behind it do not
  -- count.
  abbrev pub Described : List (List ℕ) → Option Bool × Result (Name × Option Name) → Type 0
  Described [] (iszone, result) = (iszone ≡ none) × (result ≡ err unexpectedend)
  Described (v ∷ []) (iszone, result) = (iszone ≡ some true) × OfZone v result
  Described (v ∷ o ∷ _) (iszone, result) = (iszone ≡ some false) × OfOwner v o result

  -- What is made of a name and its origin that are fine.
  abbrev CopiesOf : Name → Name → Result (Name × Option Name) → Type 0
  CopiesOf name origin (ok names) = Copied name origin names
  CopiesOf name origin (err r) = NotCopied name origin r

  copies-CopiesOf :
      (name origin : Name) → CopiesOf name origin (copies lib want_origin (name, origin))
  copies-CopiesOf name origin = elim (Result-cases (lib.dup name)) [
    | inr (r, e) ↦ rw e (inl e)
    | inl (target, e) ↦ elim (Bool-cases want_origin) [
      | inr w ↦ rw (e, w) (e, inl (refl, refl))
      | inl w ↦ elim (Result-cases (lib.dup origin)) [
        | inr (r, d) ↦ rw (e, w, d) (inr (refl, d))
        | inl (copy, d) ↦ rw (e, w, d) (e, inr (refl, copy, d, refl))
      ]
    ]
  ]

  zone_copies-OfZone :
      (v : List ℕ) (name origin : Name) (result : Result (Name × Option Name))
      → ZoneName v name origin
      → CopiesOf name origin result
      → OfZone v result
  zone_copies-OfZone v name origin (ok names) z c = (name, origin, z, c)
  zone_copies-OfZone v name origin (err r) z c = inr (inr (name, origin, z, c))

  owner_copies-OfOwner :
      (v o : List ℕ) (name origin : Name) (result : Result (Name × Option Name))
      → Relative v o name origin
      → IsBelow name origin
      → CopiesOf name origin result
      → OfOwner v o result
  owner_copies-OfOwner v o name origin (ok names) r b c = (name, origin, (r, b), c)
  owner_copies-OfOwner v o name origin (err e) r b c = inr (inr (inr (name, origin, (r, b), c)))

  zone_names-OfZone : (v : List ℕ) → OfZone v (zone_names lib v >>? copies lib want_origin)
  zone_names-OfZone v = elim (Result-cases (lib.copy lib.root)) [
    | inr (r, e) ↦
        let value : (zone_names lib v >>? copies lib want_origin) ≡ err r = rw e refl in
        subst (OfZone v) (sym value) (inl e)
    | inl (origin, e) ↦ elim (Result-cases (lib.fromtext v lib.root)) [
      | inr (r, f) ↦
          let value : (zone_names lib v >>? copies lib want_origin) ≡ err r = rw (e, f) refl in
          subst (OfZone v) (sym value) (inr (inl f))
      | inl (name, f) ↦
          let value : (zone_names lib v >>? copies lib want_origin)
              ≡ copies lib want_origin (name, origin) =
            rw (e, f) refl in
          subst (OfZone v) (sym value) (
            zone_copies-OfZone v name origin (copies lib want_origin (name, origin)) (e, f)
              (copies-CopiesOf name origin))
    ]
  ]

  -- The two tests on a name and its origin.
  below-OfOwner :
      (v o : List ℕ) (name origin : Name)
      → Relative v o name origin
      → OfOwner v o (
          (if not (lib.issubdomain name origin)
            then err badownername
            else if lib.equal name origin
            then err badownername
            else ok (name, origin))
          >>? copies lib want_origin)
  below-OfOwner v o name origin r = elim (Bool-cases (lib.issubdomain name origin)) [
    | inr s ↦ rw s (inr (inr (inl (name, origin, r, inl s, refl))))
    | inl s ↦ elim (Bool-cases (lib.equal name origin)) [
      | inl q ↦ rw (s, q) (inr (inr (inl (name, origin, r, inr q, refl))))
      | inr q ↦
          rw (s, q)
            (owner_copies-OfOwner v o name origin (copies lib want_origin (name, origin)) r (s, q)
              (copies-CopiesOf name origin))
    ]
  ]

  owner_names-OfOwner :
      (v o : List ℕ) → OfOwner v o (owner_names lib v o >>? copies lib want_origin)
  owner_names-OfOwner v o = elim (Result-cases (lib.fromtext o lib.root)) [
    | inr (r, e) ↦
        let value : (owner_names lib v o >>? copies lib want_origin) ≡ err r = rw e refl in
        subst (OfOwner v o) (sym value) (inl e)
    | inl (origin, e) ↦ elim (Result-cases (lib.fromtext v origin)) [
      | inr (r, f) ↦
          let value : (owner_names lib v o >>? copies lib want_origin) ≡ err r = rw (e, f) refl in
          subst (OfOwner v o) (sym value) (inr (inl (origin, e, f)))
      | inl (name, f) ↦
          let value : (owner_names lib v o >>? copies lib want_origin) ≡ (
              (if not (lib.issubdomain name origin)
                then err badownername
                else if lib.equal name origin
                then err badownername
                else ok (name, origin))
              >>? copies lib want_origin) =
            rw (e, f) refl in
          subst (OfOwner v o) (sym value) (below-OfOwner v o name origin (e, f))
    ]
  ]

  pub from_parts-Described :
      (l : List (List ℕ)) → Described l (from_parts lib want_origin (parts_of l))
  unfolding from_parts
  from_parts-Described [] = (refl, refl)
  from_parts-Described (v ∷ []) = (refl, zone_names-OfZone v)
  from_parts-Described (v ∷ o ∷ _) = (refl, owner_names-OfOwner v o)
