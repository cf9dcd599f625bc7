-- ===== src/Pool/Sums.antt =====
-- Sums over the threads.
use bind_dyndb_ldap_pagure_i.Prelude.{
  ℕ, zero, suc, ◌+◌, ◌≤◌, ◌≡◌, some, List, [], ◌∷◌, arith, get_elem?, set,
}
use bind_dyndb_ldap_pagure_i.Pool.{Thread}

unfoldable pub total : (Thread → ℕ) → List Thread → ℕ
total weight [] = 0
total weight (t ∷ rest) = weight t + total weight rest

-- One thread that moves changes a sum by its own weight.
pub total-set :
    (weight : Thread → ℕ) (ts : List Thread) (i : ℕ) (old new : Thread)
    → get_elem? ts i ≡ some old
    → total weight (set ts i new) + weight old ≡ total weight ts + weight new
unfolding total
total-set weight [] i old new h = cc
total-set weight (t ∷ ts) zero old new h = ground (arith, h)
total-set weight (t ∷ ts) (suc i) old new h = omega (arith, total-set weight ts i old new h)

pub weight_le-total :
    (weight : Thread → ℕ) (ts : List Thread) (i : ℕ) (t : Thread)
    → get_elem? ts i ≡ some t
    → weight t ≤ total weight ts
unfolding total
weight_le-total weight [] i t h = cc
weight_le-total weight (s ∷ ts) zero t h = ground (arith, h)
weight_le-total weight (s ∷ ts) (suc i) t h = omega (arith, weight_le-total weight ts i t h)

-- Two sums over one list, weight by weight.
pub total_split :
    (v w u : Thread → ℕ)
    → ((t : Thread) → v t ≡ w t + u t)
    → (ts : List Thread) → total v ts ≡ total w ts + total u ts
unfolding total
total_split v w u h [] = omega arith
total_split v w u h (t ∷ ts) = omega (arith, h t, total_split v w u h ts)
