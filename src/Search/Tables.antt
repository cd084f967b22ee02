-- ===== src/Search/Tables.antt =====
-- Tables of keys in ascending order, and what a search knows of the keys on either side.
use Prim.Native.Nat.{Ordering, lt, eq, gt}
use zeroskip.Prelude.{
  ℕ, zero, suc, ◌+◌, ◌<◌, ◌≤◌, ◌≡◌, ◌⊎◌, inl, inr, refl, some, List, [], ◌∷◌, arith, length,
  get_elem?,
}
use zeroskip.Search.Order.{lex, lex_flip, lex_flip_lt, lex_trans}

abbrev pub IsAscending : List (List ℕ) → Type 0
IsAscending ks =
    (i j : ℕ) (a b : List ℕ)
    → i < j
    → get_elem? ks i ≡ some a
    → get_elem? ks j ≡ some b
    → lex a b ≡ lt

-- The keys before place `n` are below `key`; those from place `n` on are above it.
abbrev pub Below : List (List ℕ) → List ℕ → ℕ → Type 0
Below ks key n = (j : ℕ) (b : List ℕ) → j < n → get_elem? ks j ≡ some b → lex key b ≡ gt

abbrev pub Above : List (List ℕ) → List ℕ → ℕ → Type 0
Above ks key n = (j : ℕ) (b : List ℕ) → n ≤ j → get_elem? ks j ≡ some b → lex key b ≡ lt

pub get_elem?-in :
    {A : Type 0} (xs : List A) (i : ℕ) → i < length xs → (x : A) × (get_elem? xs i ≡ some x)
get_elem?-in [] i h = elim h [ ]
get_elem?-in (x ∷ xs) zero h = (x, refl)
get_elem?-in (x ∷ xs) (suc i) h = get_elem?-in xs i (omega arith)

pub get_elem?-out :
    {A : Type 0} (xs : List A) (i : ℕ) (x : A) → get_elem? xs i ≡ some x → i < length xs
get_elem?-out [] i x e = cc e
get_elem?-out (y ∷ xs) zero x e = omega arith
get_elem?-out (y ∷ xs) (suc i) x e = let h = get_elem?-out xs i x e in omega (arith, h)

le_cases : (i j : ℕ) → i ≤ j → (i < j) ⊎ (i ≡ j)
le_cases i j h = ground (arith, h)

module _ (ks : List (List ℕ)) (key k : List ℕ) (m : ℕ) (ascending : IsAscending ks)
    (here : get_elem? ks m ≡ some k) where
  pub Below-step : lex key k ≡ gt → Below ks key (m + 1)
  Below-step more j b h there = elim (le_cases j m (omega arith)) [
    | inl less ↦
        let under = ascending j m b k less there here in
        lex_flip_lt b key (lex_trans b k key under (lex_flip key k more))
    | inr same ↦ let e : k ≡ b = cc (same, here, there) in rw (← e) more
  ]

  pub Above-step : lex key k ≡ lt → Above ks key m
  Above-step less j b h there = elim (le_cases m j h) [
    | inl later ↦ lex_trans key k b less (ascending m j k b later here there)
    | inr same ↦ let e : k ≡ b = cc (same, here, there) in rw (← e) less
  ]

pub ordering_cases : (o : Ordering) → (o ≡ eq) ⊎ ((o ≡ gt) ⊎ (o ≡ lt))
ordering_cases eq = inl refl
ordering_cases gt = inr (inl refl)
ordering_cases lt = inr (inr refl)
