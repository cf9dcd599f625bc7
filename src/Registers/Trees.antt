-- ===== src/Registers/Trees.antt =====
-- A tree of the DNS library that is an association list, which shows that what is taken of
-- `dns_rbt` can hold.
use bind_dyndb_ldap_pagure_i.Prelude.{
  ℕ, ◌≡◌, ◌≢◌, refl, inl, inr, Option, none, some, List, [], ◌∷◌, arith, ◌==◌, if◌then◌else◌,
}
use bind_dyndb_ldap_pagure_i.Isc.{IscResult, success, notfound, exists}
use bind_dyndb_ldap_pagure_i.Registers.Rbt.{Rbt}

module _ {D : Type 0} where
  unfoldable pub find : List (ℕ × D) → ℕ → Option D
  find [] n = none
  find ((m, d) ∷ rest) n = let later = find rest n in if m == n then some d else later

  unfoldable pub remove : List (ℕ × D) → ℕ → List (ℕ × D)
  remove [] n = []
  remove ((m, d) ∷ rest) n = let later = remove rest n in if m == n then later else (m, d) ∷ later

  abbrev pub found_in : Option D → IscResult × Option D
  found_in none = (notfound, none)
  found_in (some d) = (success, some d)

  abbrev pub add_to : List (ℕ × D) → ℕ → D → Option D → IscResult × List (ℕ × D)
  add_to t n e (some d) = (exists, t)
  add_to t n e none = (success, (n, e) ∷ t)

  abbrev pub remove_from : List (ℕ × D) → ℕ → Option D → IscResult × List (ℕ × D)
  remove_from t n (some d) = (success, remove t n)
  remove_from t n none = (notfound, t)

  pub find-remove : (t : List (ℕ × D)) (n : ℕ) → find (remove t n) n ≡ none
  unfolding find remove
  find-remove [] n = refl
  find-remove ((m, d) ∷ rest) n = ground (arith, find-remove rest n)

  pub find-remove_ne : (t : List (ℕ × D)) (n m : ℕ) → m ≢ n → find (remove t n) m ≡ find t m
  unfolding find remove
  find-remove_ne [] n m h = refl
  find-remove_ne ((k, d) ∷ rest) n m h = ground (arith, find-remove_ne rest n m h)

  pub find-add_ne :
      (t : List (ℕ × D)) (n m : ℕ) (e : D) (o : Option D)
      → m ≢ n
      → find (add_to t n e o).1 m ≡ find t m
  unfolding find
  find-add_ne t n m e (some d) h = refl
  find-add_ne t n m e none h = ground arith

  pub find-remove_from_ne :
      (t : List (ℕ × D)) (n m : ℕ) (o : Option D) → m ≢ n → find (remove_from t n o).1 m ≡ find t m
  find-remove_from_ne t n m (some d) h = find-remove_ne t n m h
  find-remove_from_ne t n m none h = refl

  pub find-here : (t : List (ℕ × D)) (n : ℕ) (e : D) → find ((n, e) ∷ t) n ≡ some e
  unfolding find
  find-here t n e = ground arith

  abbrev pub lists : Rbt ℕ D
  lists = record {
    Tree = List (ℕ × D);
    entry = find;
    findname = λ t n. found_in (find t n);
    addname = λ t n e. add_to t n e (find t n);
    deletename = λ t n. remove_from t n (find t n);
    findname_exact = λ t n d e. rw e refl;
    findname_missing = λ t n e. inl (rw e refl);
    addname_exists = λ t n d e h. rw h refl;
    addname_new = λ t n e h. inr (rw h refl, rw h (find-here t n e));
    addname_others = λ t n m e h. find-add_ne t n m e (find t n) h;
    deletename_missing = λ t n e. rw e refl;
    deletename_exact = λ t n d e. (rw e refl, rw e (find-remove t n));
    deletename_others = λ t n m h. find-remove_from_ne t n m (find t n) h;
  }
