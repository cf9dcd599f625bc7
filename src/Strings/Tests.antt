-- ===== src/Strings/Tests.antt =====
-- Runs of src/str.c, and the theorems about it at concrete arguments.
use bind_dyndb_ldap_pagure_i.Prelude.{
  ℕ, zero, suc, ◌*◌, ◌<◌, ◌≤◌, ◌≡◌, ◌≢◌, refl, ap, ◌⊎◌, Option, none, some, List, [], ◌∷◌, ◌++◌,
  arith, length, All,
}
use bind_dyndb_ldap_pagure_i.Isc.{success, returns}
use bind_dyndb_ldap_pagure_i.Strings.{
  LdString, grow, grow_fuel, max, alloc_base_size, str_alloc, str_clear, alloc_more, move_to,
  str_len_internal, str_cat_char, str_cat_char_len, str_init_char,
}
use bind_dyndb_ldap_pagure_i.Strings.Memory.{read, write, strlen}
use bind_dyndb_ldap_pagure_i.Strings.Growth.{grow_ends}
use bind_dyndb_ldap_pagure_i.Strings.Alloc.{IsGet, Holds}
use bind_dyndb_ldap_pagure_i.Strings.Content.{
  Adds, str_cat_char_lem, str_cat_char_len_lem, str_init_char_lem,
}

abbrev filled_with : ℕ → ℕ → List ℕ
filled_with c zero = []
filled_with c (suc n) = c ∷ filled_with c n

-- Memory whose bytes are all 7.
abbrev sevens : ℕ → Option (List ℕ)
sevens n = some (filled_with 7 n)

length-filled_with : (c n : ℕ) → length (filled_with c n) ≡ n
length-filled_with c zero = refl
length-filled_with c (suc n) = ap suc (length-filled_with c n)

sevens-IsGet : IsGet sevens
sevens-IsGet n b h = ground (arith, h, length-filled_with 7 n)

abbrev empty : LdString
empty = record { buffer = none; allocated = 0 }

abbrev ab : List ℕ
ab = 97 ∷ 98 ∷ []

abbrev ab_string : LdString
ab_string = record { buffer = some (97 ∷ 98 ∷ 0 ∷ filled_with 7 13); allocated = 16 }

cat_run : str_cat_char sevens empty (some ab) ≡ returns (success, ab_string)
unfolding str_cat_char str_len_internal str_alloc alloc_more grow move_to write read strlen
cat_run = refl

clear_run : str_clear empty ≡ returns (success, empty)
unfolding str_clear
clear_run = refl

empty-Holds : Holds empty []
empty-Holds = (tt, (refl, refl))

ab-NonZero : All (λ c. c ≢ 0) ab
ab-NonZero = (omega arith, (omega arith, tt))

ab-Holds : Holds ab_string ab
ab-Holds = (ab-NonZero, (refl, filled_with 7 13, refl))

grow_ends_example :
    (n : ℕ) × (grow grow_fuel (max 16 alloc_base_size) 100 ≡ returns n)
    × (100 < n)
    × ((n ≡ max 16 alloc_base_size) ⊎ (n ≤ 2 * 100))
grow_ends_example = grow_ends 16 100 (omega arith)

str_cat_char_lem_example : Adds (str_cat_char sevens ab_string (some ab)) ab_string (ab ++ ab)
str_cat_char_lem_example =
    str_cat_char_lem sevens sevens-IsGet ab_string ab ab ab-Holds ab-NonZero (omega arith)

str_cat_char_len_lem_example :
    Adds (str_cat_char_len sevens ab_string (some (ab ++ ab)) 2) ab_string (ab ++ ab)
str_cat_char_len_lem_example =
    str_cat_char_len_lem sevens sevens-IsGet ab_string ab ab ab-Holds ab-NonZero ab (omega arith)

str_init_char_lem_example : Adds (str_init_char sevens ab_string (some ab)) ab_string ab
str_init_char_lem_example =
    str_init_char_lem sevens sevens-IsGet ab_string ab ab ab-Holds ab-NonZero (omega arith)
