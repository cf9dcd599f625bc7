-- ===== src/Strings/Growth.antt =====
-- The growth of a buffer by doubling.
use bind_dyndb_ldap_pagure_i.Prelude.{
  ℕ, zero, suc, ◌*◌, ◌%◌, ◌^◌, ◌<◌, ◌≤◌, ◌≡◌, refl, ap, ◌∙◌, ◌⊎◌, inl, inr, false, arith, leb,
  Bool-cases,
}
use bind_dyndb_ldap_pagure_i.Isc.{returns}
use bind_dyndb_ldap_pagure_i.Strings.{grow, grow_fuel, size_max, max, alloc_base_size}

-- A size after so many doublings.
doubled : ℕ → ℕ → ℕ
doubled size zero = size
doubled size (suc n) = doubled (size * 2) n

doubled_mono : (a b n : ℕ) → a ≤ b → doubled a n ≤ doubled b n
unfolding doubled
doubled_mono a b zero h = h
doubled_mono a b (suc n) h = doubled_mono (a * 2) (b * 2) n (omega arith)

doubled_base : doubled 16 64 ≡ 16 * 2 ^ 64
unfolding doubled
doubled_base = refl

-- The first size in the series that is larger than the length, which at most doubles the length.
grow-doubled :
    (fuel size len : ℕ)
    → 0 < size
    → len < 2 ^ 63
    → len < doubled size fuel
    → (n : ℕ) × (grow (suc fuel) size len ≡ returns n) × (len < n) × ((n ≡ size) ⊎ (n ≤ 2 * len))
unfolding grow doubled
grow-doubled zero size len p b h =
    let e : leb size len ≡ false = ground (arith, h) in (size, rw e refl, h, inl refl)
grow-doubled (suc fuel) size len p b h = elim (Bool-cases (leb size len)) [
  | inr e ↦ (size, rw e refl, ground (arith, e), inl refl)
  | inl e ↦
      let small : size ≤ len = ground (arith, e) in
      let same : size * 2 % size_max ≡ size * 2 = omega (arith, small) in
      let (n, run, above, below) = grow-doubled fuel (size * 2) len (omega (arith, p)) b h in
      (
        n,
        rw e (ap (λ k. grow (suc fuel) k len) same ∙ run),
        above,
        inr (omega (arith, below, small)),
      )
]

-- The loop of `str_alloc` ends for every length below 2^63, at a size that is larger than the length
-- and at most twice as large, if it had to grow at all.
pub grow_ends :
    (allocated len : ℕ)
    → len < 2 ^ 63
    → (n : ℕ) × (grow grow_fuel (max allocated alloc_base_size) len ≡ returns n)
      × (len < n)
      × ((n ≡ max allocated alloc_base_size) ⊎ (n ≤ 2 * len))
grow_ends allocated len h =
    let base : 16 ≤ max allocated alloc_base_size = ground arith in
    let far : doubled 16 64 ≤ doubled (max allocated alloc_base_size) 64 =
      doubled_mono 16 (max allocated alloc_base_size) 64 base in
    grow-doubled 64 (max allocated alloc_base_size) len (omega (arith, base)) h
      (omega (arith, far, doubled_base, h))
