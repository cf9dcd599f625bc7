-- ===== src/Settings/Find.antt =====
-- How a search for a setting and a write at the place it found fit together.
use bind_dyndb_ldap_pagure_i.Prelude.{
  ℕ, zero, suc, ◌<◌, String, ◌≡◌, ◌≢◌, Bool, true, false, none, some, List, [], ◌∷◌, arith, eq_iff,
  set, get_elem?, if◌then◌else◌,
}
use bind_dyndb_ldap_pagure_i.Settings.{Setting, find_in}

-- The first setting of the name: it stands at `i`, and no earlier one has the name.
abbrev pub IsFirst : String → List Setting → ℕ → Setting → Type 0
IsFirst n l i s =
    (get_elem? l i ≡ some s)
    × (s.name ≡ n)
    × ((j : ℕ) (t : Setting) → j < i → get_elem? l j ≡ some t → t.name ≢ n)

pub find_in-set :
    (n : String) (l : List Setting) (i : ℕ) (s s' : Setting)
    → find_in n false l ≡ some (i, s)
    → s'.name ≡ s.name
    → find_in n true (set l i s') ≡ (if s'.filled then some (i, s') else none)
unfolding find_in
find_in-set n [] i s s' h e = cc
find_in-set n (x ∷ l) zero s s' h e = ground (arith, eq_iff n x.name, eq_iff n s'.name)
find_in-set n (x ∷ l) (suc i) s s' h e = ground (arith, find_in-set n l i s s')

pub find_in-set_ne :
    (n m : String) (fo : Bool) (l : List Setting) (i : ℕ) (s s' : Setting)
    → m ≢ n
    → find_in n false l ≡ some (i, s)
    → s'.name ≡ s.name
    → find_in m fo (set l i s') ≡ find_in m fo l
unfolding find_in
find_in-set_ne n m fo [] i s s' d h e = cc
find_in-set_ne n m fo (x ∷ l) zero s s' d h e =
    ground (arith, eq_iff n x.name, eq_iff m s'.name, eq_iff m x.name)
find_in-set_ne n m fo (x ∷ l) (suc i) s s' d h e = ground (arith, find_in-set_ne n m fo l i s s')

pub find_in_filled :
    (n : String) (l : List Setting) (i : ℕ) (s : Setting)
    → find_in n false l ≡ some (i, s)
    → find_in n true l ≡ (if s.filled then some (i, s) else none)
unfolding find_in
find_in_filled n [] i s h = cc
find_in_filled n (x ∷ l) zero s h = ground (arith, eq_iff n x.name)
find_in_filled n (x ∷ l) (suc i) s h = ground (arith, find_in_filled n l i s)
