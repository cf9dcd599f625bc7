-- ===== src/Settings/Resolve.antt =====
-- What a search up the chain of sets of src/settings.c finds.
use bind_dyndb_ldap_pagure_i.Prelude.{
  ℕ, zero, suc, ◌<◌, String, ◌≡◌, refl, ◌≢◌, ◌↔◌, ◌⊎◌, inl, inr, true, false, none, some, List, [],
  ◌∷◌, arith, eq_iff, get_elem?, if◌then◌else◌, Option-cases,
}
use bind_dyndb_ldap_pagure_i.Settings.{Setting, SettingsSet, find_in, setting_find}
use bind_dyndb_ldap_pagure_i.Settings.Find.{IsFirst}

IsFirst-unique :
    (n : String) (l : List Setting) (i j : ℕ) (s t : Setting)
    → IsFirst n l i s
    → IsFirst n l j t
    → s ≡ t
IsFirst-unique n [] i j s t p q = cc (p.0)
IsFirst-unique n (x ∷ l) zero zero s t p q = cc (p.0, q.0)
IsFirst-unique n (x ∷ l) zero (suc j) s t p q = absurd (q.2 zero s (omega arith) p.0 p.1)
IsFirst-unique n (x ∷ l) (suc i) zero s t p q = absurd (p.2 zero t (omega arith) q.0 q.1)
IsFirst-unique n (x ∷ l) (suc i) (suc j) s t p q =
    IsFirst-unique n l i j s t (p.0, p.1, λ k u h. p.2 (suc k) u (omega arith))
      (q.0, q.1, λ k u h. q.2 (suc k) u (omega arith))

IsFirst-cons :
    (n : String) (x : Setting) (l : List Setting) (i : ℕ) (s : Setting)
    → x.name ≢ n
    → IsFirst n l i s
    → IsFirst n (x ∷ l) (suc i) s
IsFirst-cons n x l i s d p = (p.0, p.1, earlier)
  where
    earlier : (j : ℕ) (t : Setting) → j < suc i → get_elem? (x ∷ l) j ≡ some t → t.name ≢ n
    earlier zero t h e q = d (cc (e, q))
    earlier (suc j) t h e q = p.2 j t (omega arith) e q

find_in_sound :
    (n : String) (l : List Setting) (i : ℕ) (s : Setting)
    → find_in n true l ≡ some (i, s)
    → IsFirst n l i s × (s.filled ≡ true)
unfolding find_in
find_in_sound n [] i s h = cc
find_in_sound n (x ∷ l) zero s h = (
  (ground arith, ground (arith, eq_iff n x.name), λ j t lt e. absurd (omega arith)),
  ground arith,
)
find_in_sound n (x ∷ l) (suc i) s h =
    let rest : IsFirst n l i s × (s.filled ≡ true) = find_in_sound n l i s (ground arith) in
    (IsFirst-cons n x l i s (λ e. ground (arith, eq_iff n x.name)) rest.0, rest.1)

find_in_complete :
    (n : String) (l : List Setting) (i : ℕ) (s : Setting)
    → IsFirst n l i s
    → find_in n true l ≡ (if s.filled then some (i, s) else none)
unfolding find_in
find_in_complete n [] i s p = cc (p.0)
find_in_complete n (x ∷ l) zero s p = ground (arith, eq_iff n x.name)
find_in_complete n (x ∷ l) (suc i) s p = ground (
  arith,
  eq_iff n x.name,
  p.2 zero x (omega arith) refl,
  find_in_complete n l i s (p.0, p.1, λ j t h. p.2 (suc j) t (omega arith)),
)

-- The set has no value for the name: the first setting of that name, if any, is not filled.
abbrev pub IsSilent : String → SettingsSet → Type 0
IsSilent n st = (i : ℕ) (t : Setting) → IsFirst n st.first_setting i t → t.filled ≡ false

-- `s` is the value of `n`: it comes from the nearest set that is not silent.
abbrev pub Resolves : String → List SettingsSet → Setting → Type 0
Resolves n [] s = ⊥
Resolves n (st ∷ parents) s =
    ((i : ℕ) × IsFirst n st.first_setting i s × (s.filled ≡ true))
    ⊎ (IsSilent n st × Resolves n parents s)

setting_find_sound :
    (n : String) (sets : List SettingsSet) (i : ℕ) (s : Setting)
    → setting_find n sets true true ≡ some (i, s)
    → Resolves n sets s
unfolding setting_find
setting_find_sound n [] i s h = cc
setting_find_sound n (st ∷ parents) i s h = elim (Option-cases (find_in n true st.first_setting)) [
  | inl e ↦ inr (
    λ j t p. ground (arith, e, find_in_complete n st.first_setting j t p),
    setting_find_sound n parents i s (ground (arith, e)),
  )
  | inr ((j, t), e) ↦
      let found : IsFirst n st.first_setting i s × (s.filled ≡ true) =
        find_in_sound n st.first_setting i s (ground (arith, e)) in
      inl (i, found.0, found.1)
]

setting_find_complete :
    (n : String) (sets : List SettingsSet) (s : Setting)
    → Resolves n sets s
    → (i : ℕ) × (setting_find n sets true true ≡ some (i, s))
unfolding setting_find
setting_find_complete n [] s r = elim r [ ]
setting_find_complete n (st ∷ parents) s (inl (i, p, f)) =
    (i, ground (arith, find_in_complete n st.first_setting i s p))
setting_find_complete n (st ∷ parents) s (inr (silent, r)) =
    elim (Option-cases (find_in n true st.first_setting)) [
      | inl e ↦ let (i, up) = setting_find_complete n parents s r in (i, ground (arith, e, up))
      | inr ((j, t), e) ↦
          let found : IsFirst n st.first_setting j t × (t.filled ≡ true) =
            find_in_sound n st.first_setting j t e in
          cc (silent j t found.0, found.1)
    ]

-- A recursive search for a filled setting finds the value of the nearest set that has one, where a
-- set has one when the first setting of that name in it is filled; and it finds nothing else.
pub setting_find-Resolves :
    (n : String) (sets : List SettingsSet) (s : Setting)
    → ((i : ℕ) × (setting_find n sets true true ≡ some (i, s))) ↔ Resolves n sets s
setting_find-Resolves n sets s =
    (λ found. setting_find_sound n sets found.0 s found.1, setting_find_complete n sets s)
