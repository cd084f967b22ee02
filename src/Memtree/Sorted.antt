-- ===== src/Memtree/Sorted.antt =====
-- Sorted lists of records: what a tree stands for.
use Prim.Native.Nat.{compare, Ordering, lt, eq, gt}
use zeroskip.Prelude.{
  ℕ, zero, suc, ◌<◌, ◌≤◌, ◌≡◌, refl, sym, ap, inl, inr, some, none, Option, List, [], ◌∷◌, ◌++◌,
  arith, length, get_elem?, take, drop,
}
use zeroskip.Search.Order.{lex, lex-eq, lex_flip, lex_flip_lt, lex_trans}
use zeroskip.Search.Tables.{IsAscending, ordering_cases}
use zeroskip.Memtree.{Entry}
use zeroskip.Memtree.Find.{keys, overwrite}
use zeroskip.Memtree.Inorder.{All}

-- A record with a lesser key, or a greater one.
abbrev pub Under : List ℕ → Entry → Type 0
Under key x = lex x.key key ≡ lt

abbrev pub Over : List ℕ → Entry → Type 0
Over key x = lex key x.key ≡ lt

abbrev pub Sorted : List Entry → Type 0
Sorted [] = Unit
Sorted (x ∷ xs) = All (Over x.key) xs × Sorted xs

-- The map that a sorted list is: a record that is put in replaces the one with its key.
abbrev pub place : Ordering → Entry → Entry → List Entry → List Entry → List Entry
place lt r x xs rest = r ∷ x ∷ xs
place eq r x xs rest = overwrite x r ∷ xs
place gt r x xs rest = x ∷ rest

abbrev pub put : Entry → List Entry → List Entry
put r [] = r ∷ []
put r (x ∷ xs) = place (lex r.key x.key) r x xs (put r xs)

abbrev pub seek : Ordering → Entry → Option Entry → Option Entry
seek lt x rest = none
seek eq x rest = some x
seek gt x rest = rest

abbrev pub lookup : List ℕ → List Entry → Option Entry
lookup key [] = none
lookup key (x ∷ xs) = seek (lex key x.key) x (lookup key xs)

pub lex_same : (a : List ℕ) → lex a a ≡ eq
lex_same [] = refl
lex_same (x ∷ xs) = let e : compare x x ≡ eq = ground arith in rw e (lex_same xs)

pub All-map :
    {P Q : Entry → Type 0} (f : (x : Entry) → P x → Q x) (xs : List Entry) → All P xs → All Q xs
All-map f [] all = tt
All-map f (x ∷ xs) all = (f x all.0, All-map f xs all.1)

pub All-append_left : (P : Entry → Type 0) (xs ys : List Entry) → All P (xs ++ ys) → All P xs
All-append_left P [] ys all = tt
All-append_left P (x ∷ xs) ys all = (all.0, All-append_left P xs ys all.1)

pub All-append_right : (P : Entry → Type 0) (xs ys : List Entry) → All P (xs ++ ys) → All P ys
All-append_right P [] ys all = all
All-append_right P (x ∷ xs) ys all = All-append_right P xs ys all.1

pub All-append : (P : Entry → Type 0) (xs ys : List Entry) → All P xs → All P ys → All P (xs ++ ys)
All-append P [] ys a b = b
All-append P (x ∷ xs) ys a b = (a.0, All-append P xs ys a.1 b)

pub Sorted-left : (xs ys : List Entry) → Sorted (xs ++ ys) → Sorted xs
Sorted-left [] ys s = tt
Sorted-left (x ∷ xs) ys s = (All-append_left (Over x.key) xs ys s.0, Sorted-left xs ys s.1)

pub Sorted-right : (xs ys : List Entry) → Sorted (xs ++ ys) → Sorted ys
Sorted-right [] ys s = s
Sorted-right (x ∷ xs) ys s = Sorted-right xs ys s.1

-- What stands before a record is under it.
pub Sorted-Under :
    (xs : List Entry) (y : Entry) (ys : List Entry) → Sorted (xs ++ y ∷ ys) → All (Under y.key) xs
Sorted-Under [] y ys s = tt
Sorted-Under (x ∷ xs) y ys s =
    ((All-append_right (Over x.key) xs (y ∷ ys) s.0).0, Sorted-Under xs y ys s.1)

pub put-Under :
    (r : Entry) (xs ys : List Entry) → All (Under r.key) xs → put r (xs ++ ys) ≡ xs ++ put r ys
put-Under r [] ys under = refl
put-Under r (x ∷ xs) ys under =
    let e : lex r.key x.key ≡ gt = lex_flip_lt x.key r.key under.0 in
    rw e (ap (◌∷◌ x) (put-Under r xs ys under.1))

pub put-Over : (r : Entry) (ys : List Entry) → All (Over r.key) ys → put r ys ≡ r ∷ ys
put-Over r [] over = refl
put-Over r (y ∷ ys) over = rw over.0

pub put-same : (r x : Entry) (ys : List Entry) → x.key ≡ r.key → put r (x ∷ ys) ≡ overwrite x r ∷ ys
put-same r x ys same = let e : lex r.key x.key ≡ eq = rw same (lex_same r.key) in rw e

pub lookup-Under :
    (key : List ℕ) (xs ys : List Entry) → All (Under key) xs → lookup key (xs ++ ys) ≡ lookup key ys
lookup-Under key [] ys under = refl
lookup-Under key (x ∷ xs) ys under =
    let e : lex key x.key ≡ gt = lex_flip_lt x.key key under.0 in
    rw e (lookup-Under key xs ys under.1)

pub lookup-Over : (key : List ℕ) (ys : List Entry) → All (Over key) ys → lookup key ys ≡ none
lookup-Over key [] over = refl
lookup-Over key (y ∷ ys) over = rw over.0

pub lookup-same :
    (key : List ℕ) (x : Entry) (ys : List Entry) → x.key ≡ key → lookup key (x ∷ ys) ≡ some x
lookup-same key x ys same = let e : lex key x.key ≡ eq = rw same (lex_same key) in rw e

-- The keys of a sorted list, as the search wants them.
pub get-keys :
    (xs : List Entry) (i : ℕ) (b : List ℕ)
    → get_elem? (keys xs) i ≡ some b
    → (x : Entry) × (get_elem? xs i ≡ some x) × (x.key ≡ b)
unfolding keys
get-keys [] i b e = cc e
get-keys (x ∷ xs) zero b e = (x, refl, cc e)
get-keys (x ∷ xs) (suc i) b e = get-keys xs i b e

pub length-keys : (xs : List Entry) → length (keys xs) ≡ length xs
unfolding keys
length-keys [] = refl
length-keys (x ∷ xs) = ap suc (length-keys xs)

All-at :
    (P : Entry → Type 0) (xs : List Entry) (i : ℕ) (x : Entry)
    → All P xs
    → get_elem? xs i ≡ some x
    → P x
All-at P [] i x all e = cc e
All-at P (y ∷ xs) zero x all e = let same : y ≡ x = cc e in rw (← same) all.0
All-at P (y ∷ xs) (suc i) x all e = All-at P xs i x all.1 e

pub Sorted-IsAscending : (xs : List Entry) → Sorted xs → IsAscending (keys xs)
unfolding keys
Sorted-IsAscending [] s i j a b less here there = cc here
Sorted-IsAscending (x ∷ xs) s zero zero a b less here there = elim less [ ]
Sorted-IsAscending (x ∷ xs) s zero (suc j) a b less here there =
    let (y, at, same) = get-keys xs j b there in
    let e : x.key ≡ a = cc here in rw (← e, ← same) (All-at (Over x.key) xs j y s.0 at)
Sorted-IsAscending (x ∷ xs) s (suc i) zero a b less here there = elim less [ ]
Sorted-IsAscending (x ∷ xs) s (suc i) (suc j) a b less here there =
    Sorted-IsAscending xs s.1 i j a b (omega (arith, less)) here there

pub take-Under :
    (key : List ℕ) (n : ℕ) (xs : List Entry)
    → ((j : ℕ) (b : List ℕ) → j < n → get_elem? (keys xs) j ≡ some b → lex key b ≡ gt)
    → All (Under key) (take n xs)
unfolding keys
take-Under key zero xs below = tt
take-Under key (suc n) [] below = tt
take-Under key (suc n) (x ∷ xs) below = (
  lex_flip key x.key (below 0 x.key (omega arith) refl),
  take-Under key n xs (λ j b less at. below (suc j) b (omega (arith, less)) at),
)

pub drop-Over :
    (key : List ℕ) (n : ℕ) (xs : List Entry)
    → ((j : ℕ) (b : List ℕ) → n ≤ j → get_elem? (keys xs) j ≡ some b → lex key b ≡ lt)
    → All (Over key) (drop n xs)
unfolding keys
drop-Over key zero [] above = tt
drop-Over key (suc n) [] above = tt
drop-Over key zero (x ∷ xs) above = (
  above 0 x.key (omega arith) refl,
  drop-Over key zero xs (λ j b more at. above (suc j) b (omega arith) at),
)
drop-Over key (suc n) (x ∷ xs) above =
    drop-Over key n xs (λ j b more at. above (suc j) b (omega (arith, more)) at)

pub All-put :
    (k : List ℕ) (r : Entry) (xs : List Entry)
    → Over k r
    → All (Over k) xs
    → All (Over k) (put r xs)
All-put k r [] o all = (o, tt)
All-put k r (x ∷ xs) o all = elim (ordering_cases (lex r.key x.key)) [
  | inl same ↦ rw same all
  | inr (inl more) ↦ rw more (all.0, All-put k r xs o all.1)
  | inr (inr less) ↦ rw less (o, all)
]

pub put-Sorted : (r : Entry) (xs : List Entry) → Sorted xs → Sorted (put r xs)
put-Sorted r [] s = (tt, tt)
put-Sorted r (x ∷ xs) s = elim (ordering_cases (lex r.key x.key)) [
  | inl same ↦ rw same s
  | inr (inl more) ↦
      rw more (All-put x.key r xs (lex_flip r.key x.key more) s.0, put-Sorted r xs s.1)
  | inr (inr less) ↦ rw less ((less, All-map (λ y h. lex_trans r.key x.key y.key less h) xs s.0), s)
]

-- The answer for the key itself, or the one for another key.
abbrev pub pick : {A : Type 0} → Ordering → A → A → A
pick lt own other = other
pick eq own other = own
pick gt own other = other

overwrite_all : (x r : Entry) → x.key ≡ r.key → overwrite x r ≡ r
overwrite_all x r e = ap (λ (k : List ℕ). record r { key = k }) e

-- Looking in a list after a record has been put in it.
pub lookup-put :
    (k : List ℕ) (r : Entry) (xs : List Entry)
    → lookup k (put r xs) ≡ pick (lex k r.key) (some r) (lookup k xs)
lookup-put k r [] = elim (ordering_cases (lex k r.key)) [
  | inl same ↦ rw same
  | inr (inl more) ↦ rw more
  | inr (inr less) ↦ rw less
]
lookup-put k r (x ∷ xs) = elim (ordering_cases (lex r.key x.key)) [
  | inl same ↦
      let e = sym (lex-eq r.key x.key same) in
      let o = overwrite_all x r e in
      elim (ordering_cases (lex k x.key)) [
        | inl s ↦ let s' : lex k r.key ≡ eq = rw e at s in rw (same, o, s, s')
        | inr (inl s) ↦ let s' : lex k r.key ≡ gt = rw e at s in rw (same, o, s, s')
        | inr (inr s) ↦ let s' : lex k r.key ≡ lt = rw e at s in rw (same, o, s, s')
      ]
  | inr (inl more) ↦
      let under = lex_flip r.key x.key more in
      elim (ordering_cases (lex k x.key)) [
        | inl s ↦
            let e = lex-eq k x.key s in let s' : lex k r.key ≡ lt = rw e under in rw (more, s, s')
        | inr (inl s) ↦ rw (more, s) (lookup-put k r xs)
        | inr (inr s) ↦ let s' = lex_trans k x.key r.key s under in rw (more, s, s')
      ]
  | inr (inr less) ↦ elim (ordering_cases (lex k r.key)) [
    | inl s ↦ rw (less, s)
    | inr (inl s) ↦ rw (less, s)
    | inr (inr s) ↦ let s' = lex_trans k r.key x.key s less in rw (less, s, s')
  ]
]
