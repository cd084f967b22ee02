-- ===== src/Memtree/Lists.antt =====
-- Lists with an element inserted, cut, or replaced.
use zeroskip.Prelude.{
  ℕ, zero, suc, ◌+◌, ◌<◌, ◌≤◌, ◌≡◌, refl, sym, ap, ◌∙◌, take-append-drop, some, List, [], ◌∷◌, ◌++◌,
  arith, length, get_elem?, set, take, drop,
}
use zeroskip.Memtree.{insert_at}

module _ {ℓ} {A : Type ℓ} where
  -- With the element at its place, or last where the list is shorter.
  abbrev pub inserted : ℕ → A → List A → List A
  inserted zero x ys = x ∷ ys
  inserted (suc n) x [] = x ∷ []
  inserted (suc n) x (y ∷ ys) = y ∷ inserted n x ys

  pub insert_at-inserted :
      (n : ℕ) (x : A) (ys : List A) → n ≤ length ys → insert_at n x ys ≡ some (inserted n x ys)
  unfolding insert_at
  insert_at-inserted zero x ys h = refl
  insert_at-inserted (suc n) x [] h = elim h [ ]
  insert_at-inserted (suc n) x (y ∷ ys) h = rw (insert_at-inserted n x ys (omega arith))

  pub length-inserted : (n : ℕ) (x : A) (ys : List A) → length (inserted n x ys) ≡ suc (length ys)
  length-inserted zero x ys = refl
  length-inserted (suc n) x [] = refl
  length-inserted (suc n) x (y ∷ ys) = ap suc (length-inserted n x ys)

  pub inserted-take-drop :
      (n : ℕ) (x : A) (ys : List A) → inserted n x ys ≡ take n ys ++ x ∷ drop n ys
  inserted-take-drop zero x ys = refl
  inserted-take-drop (suc n) x [] = refl
  inserted-take-drop (suc n) x (y ∷ ys) = ap (◌∷◌ y) (inserted-take-drop n x ys)

  -- An insertion before a cut is one in the first part, and one behind it in the second.
  pub take-inserted_le :
      (n k : ℕ) (x : A) (ys : List A)
      → n ≤ k
      → inserted n x (take k ys) ≡ take (suc k) (inserted n x ys)
  take-inserted_le zero k x ys h = refl
  take-inserted_le (suc n) zero x ys h = elim h [ ]
  take-inserted_le (suc n) (suc k) x [] h = refl
  take-inserted_le (suc n) (suc k) x (y ∷ ys) h =
      ap (◌∷◌ y) (take-inserted_le n k x ys (omega arith))

  pub drop-inserted_le :
      (n k : ℕ) (x : A) (ys : List A)
      → n ≤ k
      → k ≤ length ys
      → drop k ys ≡ drop (suc k) (inserted n x ys)
  drop-inserted_le zero k x ys h in_list = refl
  drop-inserted_le (suc n) zero x ys h in_list = elim h [ ]
  drop-inserted_le (suc n) (suc k) x [] h in_list = elim in_list [ ]
  drop-inserted_le (suc n) (suc k) x (y ∷ ys) h in_list =
      drop-inserted_le n k x ys (omega arith) (omega arith)

  pub take-inserted_ge :
      (n k : ℕ) (x : A) (ys : List A) → k ≤ n → k ≤ length ys → take k ys ≡ take k (inserted n x ys)
  take-inserted_ge n zero x ys h in_list = refl
  take-inserted_ge zero (suc k) x ys h in_list = elim h [ ]
  take-inserted_ge (suc n) (suc k) x [] h in_list = elim in_list [ ]
  take-inserted_ge (suc n) (suc k) x (y ∷ ys) h in_list =
      ap (◌∷◌ y) (take-inserted_ge n k x ys (omega arith) (omega arith))

  pub drop-inserted_ge :
      (n k : ℕ) (x : A) (ys : List A)
      → k ≤ length ys
      → inserted n x (drop k ys) ≡ drop k (inserted (k + n) x ys)
  drop-inserted_ge n zero x ys h = let e : 0 + n ≡ n = omega arith in rw e
  drop-inserted_ge n (suc k) x [] h = elim h [ ]
  drop-inserted_ge n (suc k) x (y ∷ ys) h =
      let e : suc k + n ≡ suc (k + n) = omega arith in
      rw e (drop-inserted_ge n k x ys (omega arith))

  pub take-take : (m n : ℕ) (xs : List A) → m ≤ n → take m (take n xs) ≡ take m xs
  take-take zero n xs h = refl
  take-take (suc m) zero xs h = elim h [ ]
  take-take (suc m) (suc n) [] h = refl
  take-take (suc m) (suc n) (x ∷ xs) h = ap (◌∷◌ x) (take-take m n xs (omega arith))

  pub get-take : (i n : ℕ) (xs : List A) → i < n → get_elem? (take n xs) i ≡ get_elem? xs i
  get-take i zero xs h = elim h [ ]
  get-take i (suc n) [] h = refl
  get-take zero (suc n) (x ∷ xs) h = refl
  get-take (suc i) (suc n) (x ∷ xs) h = get-take i n xs (omega arith)

  pub get-drop :
      (i : ℕ) (xs : List A) (x : A) → get_elem? xs i ≡ some x → x ∷ drop (suc i) xs ≡ drop i xs
  get-drop i [] x e = cc e
  get-drop zero (y ∷ xs) x e = cc e
  get-drop (suc i) (y ∷ xs) x e = get-drop i xs x e

  pub take-get-drop :
      (i : ℕ) (xs : List A) (x : A)
      → get_elem? xs i ≡ some x
      → xs ≡ take i xs ++ x ∷ drop (suc i) xs
  take-get-drop i xs x e = rw (get-drop i xs x e) (sym (take-append-drop i xs))

  pub set-first :
      (i : ℕ) (xs : List A) (x : A) → i < length xs → set (drop i xs) 0 x ≡ x ∷ drop (suc i) xs
  set-first i [] x h = elim h [ ]
  set-first zero (y ∷ xs) x h = refl
  set-first (suc i) (y ∷ xs) x h = set-first i xs x (omega arith)

  pub get-set : (i : ℕ) (xs : List A) (x : A) → i < length xs → get_elem? (set xs i x) i ≡ some x
  get-set i [] x h = elim h [ ]
  get-set zero (y ∷ xs) x h = refl
  get-set (suc i) (y ∷ xs) x h = get-set i xs x (omega arith)

  pub take-set : (i : ℕ) (xs : List A) (x : A) → take i (set xs i x) ≡ take i xs
  take-set zero xs x = refl
  take-set (suc i) [] x = refl
  take-set (suc i) (y ∷ xs) x = ap (◌∷◌ y) (take-set i xs x)

  pub drop-set : (i : ℕ) (xs : List A) (x : A) → drop (suc i) (set xs i x) ≡ drop (suc i) xs
  drop-set i [] x = refl
  drop-set zero (y ∷ xs) x = refl
  drop-set (suc i) (y ∷ xs) x = drop-set i xs x

  pub set-take-drop :
      (i : ℕ) (xs : List A) (x : A) → i < length xs → set xs i x ≡ take i xs ++ x ∷ drop (suc i) xs
  set-take-drop i xs x h =
      take-get-drop i (set xs i x) x (get-set i xs x h) ∙ rw (take-set i xs x, drop-set i xs x)
