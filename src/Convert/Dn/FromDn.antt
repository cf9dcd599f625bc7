-- ===== src/Convert/Dn/FromDn.antt =====
-- `dn_to_dnsname` and the components of the DN that it reads.
use bind_dyndb_ldap_pagure_i.Prelude.{
  ℕ, ◌≡◌, refl, ap, Bool, true, Option, some, List, [], ◌∷◌, if◌then◌else◌, arith, All, inl, inr,
  Bool-cases,
}
use bind_dyndb_ldap_pagure_i.Isc.{Result, ok, returns, ◌>>=◌}
use bind_dyndb_ldap_pagure_i.Convert.Dn.{
  Ava, is_idns_name, walk, Names, of_walk, from_parts, dn_to_dnsname,
}
use bind_dyndb_ldap_pagure_i.Convert.Dn.Described.{parts_of, Described, from_parts-Described}

-- An RDN of one value, which is a string.
abbrev pub Single : List Ava → Type 0
Single (a ∷ []) = a.is_string ≡ true
Single _ = ⊥

-- The values of the idnsName components that the DN begins with.
unfoldable pub leading_values : List (List Ava) → List (List ℕ)
leading_values ((a ∷ []) ∷ rest) =
    let more = leading_values rest in if is_idns_name a then a.value ∷ more else []
leading_values _ = []

walk_third :
    (v o : List ℕ) (dn : List (List Ava))
    → All Single dn
    → walk (record { idx = 2; name_buf = v; origin_buf = o }) dn
      ≡ returns (ok (record { idx = 2; name_buf = v; origin_buf = o }))
unfolding walk
walk_third v o [] h = refl
walk_third v o ([] ∷ rest) h = absurd (h.0)
walk_third v o ((a ∷ []) ∷ rest) h = ground (arith, h.0)
walk_third v o ((a ∷ b ∷ more) ∷ rest) h = absurd (h.0)

walk_second :
    (v : List ℕ) (dn : List (List Ava))
    → All Single dn
    → walk (record { idx = 1; name_buf = v; origin_buf = [] }) dn
      ≡ returns (ok (parts_of (v ∷ leading_values dn)))
unfolding walk leading_values is_idns_name
walk_second v [] h = refl
walk_second v ([] ∷ rest) h = absurd (h.0)
walk_second v ((a ∷ []) ∷ rest) h = elim (Bool-cases (is_idns_name a)) [
  | inl e ↦ rw (h.0, e) (walk_third v a.value rest (h.1))
  | inr e ↦ rw (h.0, e) refl
]
walk_second v ((a ∷ b ∷ more) ∷ rest) h = absurd (h.0)

walk_first :
    (dn : List (List Ava))
    → All Single dn
    → walk (record { idx = 0; name_buf = []; origin_buf = [] }) dn
      ≡ returns (ok (parts_of (leading_values dn)))
unfolding walk leading_values is_idns_name
walk_first [] h = refl
walk_first ([] ∷ rest) h = absurd (h.0)
walk_first ((a ∷ []) ∷ rest) h = elim (Bool-cases (is_idns_name a)) [
  | inl e ↦ rw (h.0, e) (walk_second a.value rest (h.1))
  | inr e ↦ rw (h.0, e) refl
]
walk_first ((a ∷ b ∷ more) ∷ rest) h = absurd (h.0)

module _ {Name : Type 0} (lib : Names Name) (want_origin : Bool) where
  -- For a DN whose RDNs all have one value, which is a string, `dn_to_dnsname` ends and reads the
  -- values of the idnsName components that the DN begins with, whatever comes behind the first two.
  -- For none it fails with ISC_R_UNEXPECTEDEND. For one it gives the absolute name of a zone, with
  -- the root as its origin. For two or more it gives the name of the first relative to the second,
  -- with the second as its origin, if that name is a proper subdomain of the origin, and
  -- DNS_R_BADOWNERNAME if it is not. Every other failure is one of the DNS library on these names.
  pub dn_to_dnsname_lem :
      (str2dn : List ℕ → Option (List (List Ava))) (dn_str : List ℕ) (dn : List (List Ava))
      → str2dn dn_str ≡ some dn
      → All Single dn
      → (found : Option Bool × Result (Name × Option Name)) × (dn_to_dnsname lib str2dn dn_str
            want_origin
          ≡ returns found)
        × Described lib want_origin (leading_values dn) found
  unfolding dn_to_dnsname
  dn_to_dnsname_lem str2dn dn_str dn h s = (
    from_parts lib want_origin (parts_of (leading_values dn)),
    rw (h, dn_to_dnsname)
        (ap (λ m. m >>= λ w. returns (of_walk lib want_origin w)) (walk_first dn s)),
    from_parts-Described lib want_origin (leading_values dn),
  )
