-- ===== src/Registers/Rbt.antt =====
-- `dns_rbt` of the DNS library as the registers use it (dns/rbt.h): its three operations, the view
-- of a tree as the names that have data, and what is documented of the operations in that view.
-- Names that differ in the case of letters only are one `Name`.
use bind_dyndb_ldap_pagure_i.Prelude.{◌≡◌, ◌≢◌, ◌⊎◌, Option, none, some}
use bind_dyndb_ldap_pagure_i.Isc.{IscResult, success, nomemory, notfound, exists, partialmatch}

pub record Rbt (Name D : Type 0) : Type 1 where
  pub Tree : Type 0
  pub entry : Tree → Name → Option D
  pub findname : Tree → Name → IscResult × Option D
  pub addname : Tree → Name → D → IscResult × Tree
  pub deletename : Tree → Name → IscResult × Tree
  -- the exact name, or an ancestor of it at most
  pub findname_exact :
      (t : Tree) (n : Name) (d : D) → entry t n ≡ some d → findname t n ≡ (success, some d)
  pub findname_missing :
      (t : Tree) (n : Name)
      → entry t n ≡ none
      → ((findname t n).0 ≡ notfound) ⊎ ((findname t n).0 ≡ partialmatch)
  -- a name with data is not added again, and a tree is left alone where an addition fails
  pub addname_exists :
      (t : Tree) (n : Name) (d e : D) → entry t n ≡ some d → addname t n e ≡ (exists, t)
  pub addname_new :
      (t : Tree) (n : Name) (e : D)
      → entry t n ≡ none
      → (addname t n e ≡ (nomemory, t))
        ⊎ (((addname t n e).0 ≡ success) × (entry ((addname t n e).1) n ≡ some e))
  pub addname_others :
      (t : Tree) (n m : Name) (e : D) → m ≢ n → entry ((addname t n e).1) m ≡ entry t m
  pub deletename_missing : (t : Tree) (n : Name) → entry t n ≡ none → deletename t n ≡ (notfound, t)
  pub deletename_exact :
      (t : Tree) (n : Name) (d : D)
      → entry t n ≡ some d
      → ((deletename t n).0 ≡ success) × (entry ((deletename t n).1) n ≡ none)
  pub deletename_others : (t : Tree) (n m : Name) → m ≢ n → entry ((deletename t n).1) m ≡ entry t m

-- The two results that both registers turn into another.
abbrev pub missing_is_fine : IscResult → IscResult
missing_is_fine notfound = success
missing_is_fine r = r

abbrev pub partial_is_missing : IscResult → IscResult
partial_is_missing partialmatch = notfound
partial_is_missing r = r

-- The output parameter of a search, which is set on ISC_R_SUCCESS only.
abbrev pub found {ℓ} : {A : Type ℓ} → IscResult × Option A → IscResult × Option A
found (success, stored) = (success, stored)
found (r, stored) = (partial_is_missing r, none)

abbrev pub used {ℓ κ} : {A : Type ℓ} {B : Type κ} → (A → B) → Option A → Option B
used f none = none
used f (some a) = some (f a)
