-- ===== src/Search/Order.antt =====
-- The order of keys: `memcmp_raw` of include/libzeroskip/util.h is the lexicographic order.
use Prim.Native.Nat.{compare, Ordering, lt, eq, gt}
use zeroskip.Prelude.{
  ℕ, zero, suc, ◌<◌, ◌≡◌, refl, sym, ap, ◌∙◌, ◌⊎◌, inl, inr, Bool, true, false, List, [], ◌∷◌,
  arith, length, ltb, if◌then◌else◌, le→ltb, lt→ltb,
}

-- The first comparison decides, unless it finds no difference.
abbrev pub first : Ordering → Ordering → Ordering
first lt o = lt
first gt o = gt
first eq o = o

abbrev pub lex : List ℕ → List ℕ → Ordering
lex [] [] = eq
lex [] (y ∷ ys) = lt
lex (x ∷ xs) [] = gt
lex (x ∷ xs) (y ∷ ys) = first (compare x y) (lex xs ys)

-- The sign of `memcmp (s1, s2, n)`.
abbrev pub memcmp : List ℕ → List ℕ → ℕ → Ordering
memcmp s1 s2 zero = eq
memcmp (x ∷ xs) (y ∷ ys) (suc n) = first (compare x y) (memcmp xs ys n)
memcmp s1 s2 (suc n) = eq

abbrev pub shorter : ℕ → ℕ → ℕ
shorter l1 l2 = if ltb l1 l2 then l1 else l2

-- The common part decides, or else the length.
abbrev pub by_length : ℕ → ℕ → Ordering → Ordering
by_length l1 l2 eq = if ltb l2 l1 then gt else if ltb l1 l2 then lt else eq
by_length l1 l2 lt = lt
by_length l1 l2 gt = gt

-- The sign of `memcmp_raw (s1, length s1, s2, length s2)`.
unfoldable pub memcmp_raw : List ℕ → List ℕ → Ordering
memcmp_raw s1 s2 =
    let l1 = length s1 in let l2 = length s2 in by_length l1 l2 (memcmp s1 s2 (shorter l1 l2))

compare_cases :
    (x y : ℕ)
    → ((x < y) × (compare x y ≡ lt))
      ⊎ (((x ≡ y) × (compare x y ≡ eq)) ⊎ ((y < x) × (compare x y ≡ gt)))
compare_cases x y = ground arith

lt-not-gt : {A : Type 0} → lt ≡ gt → A
lt-not-gt e = cc e

lt-not-eq : {A : Type 0} → lt ≡ eq → A
lt-not-eq e = cc e

-- Turned around.
pub lex_flip : (a b : List ℕ) → lex a b ≡ gt → lex b a ≡ lt
lex_flip [] [] e = cc e
lex_flip [] (y ∷ ys) e = cc e
lex_flip (x ∷ xs) [] e = refl
lex_flip (x ∷ xs) (y ∷ ys) e = elim (compare_cases x y) [
  | inl (less, c) ↦ lt-not-gt (rw c at e)
  | inr (inl (same, c)) ↦
      let d : compare y x ≡ eq = ground (arith, same) in rw d (lex_flip xs ys (rw c at e))
  | inr (inr (more, c)) ↦ let d : compare y x ≡ lt = ground (arith, more) in rw d
]

pub lex_flip_lt : (a b : List ℕ) → lex a b ≡ lt → lex b a ≡ gt
lex_flip_lt [] [] e = cc e
lex_flip_lt (x ∷ xs) [] e = cc e
lex_flip_lt [] (y ∷ ys) e = refl
lex_flip_lt (x ∷ xs) (y ∷ ys) e = elim (compare_cases x y) [
  | inl (less, c) ↦ let d : compare y x ≡ gt = ground (arith, less) in rw d
  | inr (inl (same, c)) ↦
      let d : compare y x ≡ eq = ground (arith, same) in rw d (lex_flip_lt xs ys (rw c at e))
  | inr (inr (more, c)) ↦ lt-not-gt (sym (rw c at e))
]

pub lex_trans : (a b c : List ℕ) → lex a b ≡ lt → lex b c ≡ lt → lex a c ≡ lt
lex_trans a [] [] e f = cc f
lex_trans [] (y ∷ ys) [] e f = cc f
lex_trans (x ∷ xs) (y ∷ ys) [] e f = cc f
lex_trans [] b (z ∷ zs) e f = refl
lex_trans (x ∷ xs) [] (z ∷ zs) e f = cc e
lex_trans (x ∷ xs) (y ∷ ys) (z ∷ zs) e f = elim (compare_cases x y) [
  | inl (less, c) ↦ elim (compare_cases y z) [
    | inl (less', c') ↦ let d : compare x z ≡ lt = ground (arith, less, less') in rw d
    | inr (inl (same, c')) ↦ let d : compare x z ≡ lt = ground (arith, less, same) in rw d
    | inr (inr (more, c')) ↦ lt-not-gt (sym (rw c' at f))
  ]
  | inr (inl (same, c)) ↦ elim (compare_cases y z) [
    | inl (less', c') ↦ let d : compare x z ≡ lt = ground (arith, same, less') in rw d
    | inr (inl (same', c')) ↦
        let d : compare x z ≡ eq = ground (arith, same, same') in
        rw d (lex_trans xs ys zs (rw c at e) (rw c' at f))
    | inr (inr (more, c')) ↦ lt-not-gt (sym (rw c' at f))
  ]
  | inr (inr (more, c)) ↦ lt-not-gt (sym (rw c at e))
]

pub lex-eq : (a b : List ℕ) → lex a b ≡ eq → a ≡ b
lex-eq [] [] e = refl
lex-eq [] (y ∷ ys) e = cc e
lex-eq (x ∷ xs) [] e = cc e
lex-eq (x ∷ xs) (y ∷ ys) e = elim (compare_cases x y) [
  | inl (less, c) ↦ lt-not-eq (rw c at e)
  | inr (inl (same, c)) ↦ let rest = lex-eq xs ys (rw c at e) in cc (same, rest)
  | inr (inr (more, c)) ↦ cc (rw c at e)
]

lengths_suc : (m n : ℕ) (o : Ordering) → by_length (suc m) (suc n) o ≡ by_length m n o
lengths_suc m n lt = refl
lengths_suc m n gt = refl
lengths_suc m n eq = ground arith

shorter-suc : (m n : ℕ) → shorter (suc m) (suc n) ≡ suc (shorter m n)
shorter-suc m n = ground arith

by_first : (m n : ℕ) (c o : Ordering) → by_length m n (first c o) ≡ first c (by_length m n o)
by_first m n lt o = refl
by_first m n gt o = refl
by_first m n eq o = refl

-- `memcmp_raw` orders byte strings lexicographically, a prefix before what it is a prefix of.
pub memcmp_raw-lex : (a b : List ℕ) → memcmp_raw a b ≡ lex a b
unfolding memcmp_raw
memcmp_raw-lex [] [] = refl
memcmp_raw-lex [] (y ∷ ys) =
    let a : ltb 0 (suc (length ys)) ≡ true = lt→ltb _ _ (omega arith) in
    let b : ltb (suc (length ys)) 0 ≡ false = le→ltb _ _ (omega arith) in
    rw (a, b) (ap (λ (t : Bool). if t then lt else eq) a)
memcmp_raw-lex (x ∷ xs) [] =
    let a : ltb 0 (suc (length xs)) ≡ true = lt→ltb _ _ (omega arith) in
    let b : ltb (suc (length xs)) 0 ≡ false = le→ltb _ _ (omega arith) in rw (b, a) refl
memcmp_raw-lex (x ∷ xs) (y ∷ ys) =
    let m = length xs in
    let n = length ys in
    let c = compare x y in
    rw (shorter-suc m n) (
      lengths_suc m n (first c (memcmp xs ys (shorter m n)))
      ∙ by_first m n c (memcmp xs ys (shorter m n))
      ∙ ap (λ (o : Ordering). first c o) (memcmp_raw-lex xs ys))
