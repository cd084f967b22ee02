-- ===== src/Vecu64/Queries.antt =====
-- Taking elements out of a vector, and looking for one.
use mathlib.Core.List.{foldl}
use zeroskip.Prelude.{
  ℕ, zero, suc, ◌+◌, ◌-◌, ◌^◌, ◌<◌, ◌≡◌, refl, sym, ap, ◌∙◌, true, false, Option, none, some, List,
  [], ◌∷◌, ◌++◌, arith, length, ltb, leb, ◌==◌, ==_refl, take, length-take, append_assoc,
  append-nil, length-append, le→ltb, lt→ltb, if-false, ◌>>=◌, if◌then◌else◌,
}
use zeroskip.Word.{u64}
use zeroskip.Buffer.{blit, slice}
use zeroskip.Vecu64.{
  Vecu64, unsigned_add_overflows, ensure_alloc, vecu64_insert, vecu64_remove, vecu64_find,
  find_loop, foreach_loop, vecu64_foreach,
}
use zeroskip.Vecu64.Holds.{Holds, blit-middle, slice-middle, get-middle}

-- A list with its last element apart.
split_last :
    (x : ℕ) (xs : List ℕ)
    → (t : List ℕ) × (w : ℕ) × (x ∷ xs ≡ t ++ (w ∷ [])) × (length t ≡ length xs)
split_last x [] = ([], x, refl, refl)
split_last x (y ∷ xs) =
    let (t, w, whole, size) = split_last y xs in (x ∷ t, w, ap (◌∷◌ x) whole, ap suc size)

-- The cells behind the one at `idx` move down by one, and a 0 takes the last place.
remove_cells :
    (g : List ℕ → ℕ × Vecu64) (a b rest : List ℕ) (x idx left : ℕ)
    → idx ≡ length a
    → left ≡ length (a ++ b)
    → (do
      cells ←
          if ltb idx left
          then (slice (a ++ ((x ∷ b) ++ rest)) (idx + 1) (left - idx) >>= λ part.
              blit (a ++ ((x ∷ b) ++ rest)) idx part)
          else some (a ++ ((x ∷ b) ++ rest))
      cells ← blit cells left (0 ∷ [])
      some (g cells))
      ≡ some (g ((a ++ b) ++ (0 ∷ rest)))
remove_cells g a [] rest x idx left e f =
    let whole = append-nil a in
    let last : ltb idx left ≡ false = le→ltb _ _ (omega (arith, e, f, length-append a [])) in
    rw (
      last,
      blit-middle a (x ∷ []) rest (0 ∷ []) left (omega (arith, f, length-append a [])) refl,
      whole,
    )
remove_cells g a (z ∷ b) rest x idx left e f =
    let (t, w, whole, size) = split_last x (z ∷ b) in
    let sizes = length-append a (z ∷ b) in
    let inside : ltb idx left ≡ true = lt→ltb _ _ (omega (arith, e, f, sizes)) in
    let behind : a ++ ((x ∷ (z ∷ b)) ++ rest) ≡ (a ++ (x ∷ [])) ++ ((z ∷ b) ++ rest) =
      simp append_assoc in
    let part : slice (a ++ ((x ∷ (z ∷ b)) ++ rest)) (idx + 1) (left - idx) ≡ some (z ∷ b) =
      rw behind (
        slice-middle (a ++ (x ∷ [])) (z ∷ b) rest (idx + 1) (left - idx)
          (omega (arith, e, length-append a (x ∷ []))) (omega (arith, e, f, sizes))) in
    let parted : a ++ ((x ∷ (z ∷ b)) ++ rest) ≡ a ++ (t ++ (w ∷ rest)) =
      ap (λ (ys : List ℕ). a ++ (ys ++ rest)) whole
      ∙ ap (λ (ys : List ℕ). a ++ ys) (append_assoc t (w ∷ []) rest) in
    let moved : blit (a ++ ((x ∷ (z ∷ b)) ++ rest)) idx (z ∷ b)
        ≡ some (a ++ ((z ∷ b) ++ (w ∷ rest))) =
      ap (λ (ys : List ℕ). blit ys idx (z ∷ b)) parted
      ∙ blit-middle a t (w ∷ rest) (z ∷ b) idx e (sym size) in
    let zeroed : blit (a ++ ((z ∷ b) ++ (w ∷ rest))) left (0 ∷ [])
        ≡ some ((a ++ (z ∷ b)) ++ (0 ∷ rest)) =
      rw (← append_assoc a (z ∷ b) (w ∷ rest))
        (blit-middle (a ++ (z ∷ b)) (w ∷ []) rest (0 ∷ []) left f refl) in
    rw (inside, part, moved, zeroed)

-- Removing the element at a position in the list returns it, and the vector holds the others.
pub vecu64_remove-Holds :
    (v : Vecu64) (a b : List ℕ) (x : ℕ)
    → Holds v (a ++ (x ∷ b))
    → (v' : Vecu64) × (vecu64_remove v (length a) ≡ some (x, v')) × Holds v' (a ++ b)
unfolding vecu64_remove
vecu64_remove-Holds v a b x h =
    let rest = h.stores.spare in
    let left = v.count - 1 in
    let sizes = length-append a (x ∷ b) in
    let sizes' = length-append a b in
    let flat = h.stores.cells ∙ append_assoc a (x ∷ b) rest in
    let v' : Vecu64 = record v { data_of = (a ++ b) ++ (0 ∷ rest); count = left } in
    let inside : leb v.count (length a) ≡ false = ground (arith, h.counted, sizes) in
    let found = get-middle a (b ++ rest) x (length a) refl in
    let taken =
      remove_cells (λ cells. (x, record v { data_of = cells; count = left })) a b rest x (length a)
        left refl (omega (arith, h.counted, sizes, sizes')) in
    let holds : Holds v' (a ++ b) = record {
      stores = record {
        spare = 0 ∷ rest;
        cells = refl;
        sized = omega (
          arith,
          h.stores.sized,
          ap (length {A = ℕ}) flat,
          length-append a ((x ∷ b) ++ rest),
          length-append (x ∷ b) rest,
          length-append (a ++ b) (0 ∷ rest),
          sizes',
        );
        bounded = h.stores.bounded;
      };
      counted = omega (arith, h.counted, sizes, sizes');
    } in
    (v', if-false _ _ _ inside ∙ rw (flat, found) taken, holds)

-- `n` is not in the list.
abbrev pub Avoids : ℕ → List ℕ → Type 0
Avoids n [] = Unit
Avoids n (x ∷ xs) = ((x == n) ≡ false) × Avoids n xs

find_first :
    (a pre post : List ℕ) (n left i : ℕ)
    → Avoids n pre
    → length pre < left
    → i ≡ length a
    → find_loop left (a ++ (pre ++ (n ∷ post))) n i ≡ some (i + length pre)
unfolding find_loop
find_first a pre post n zero i away enough e = elim enough [ ]
find_first a [] post n (suc left) i away enough e =
    rw (get-middle a post n i e, ==_refl n) (ap some (omega arith))
find_first a (x ∷ pre) post n (suc left) i (differs, away) enough e =
    let one : (a ++ (x ∷ [])) ++ (pre ++ (n ∷ post)) ≡ a ++ ((x ∷ pre) ++ (n ∷ post)) =
      simp append_assoc in
    let later = rw one at (
      find_first (a ++ (x ∷ [])) pre post n left (i + 1) away (omega arith)
        (omega (arith, e, length-append a (x ∷ [])))) in
    rw (get-middle a (pre ++ (n ∷ post)) x i e, differs, later) (ap some (omega arith))

find_none :
    (a b rest : List ℕ) (n i left : ℕ)
    → Avoids n b
    → i ≡ length a
    → left ≡ length b
    → find_loop left (a ++ (b ++ rest)) n i ≡ some (2 ^ 64 - 1)
unfolding find_loop
find_none a [] rest n i left away e f = rw f
find_none a (x ∷ b) rest n i left (differs, away) e f =
    let one : (a ++ (x ∷ [])) ++ (b ++ rest) ≡ a ++ ((x ∷ b) ++ rest) = simp append_assoc in
    let later = rw one at (
      find_none (a ++ (x ∷ [])) b rest n (i + 1) (length b) away
        (omega (arith, e, length-append a (x ∷ []))) refl) in
    rw (f, get-middle a (b ++ rest) x i e, differs, later)

-- Looking from position `length a` on for a number that stands behind `a` and `pre`, and is not in
-- `pre`, finds its position.
pub vecu64_find-first :
    (v : Vecu64) (a pre post : List ℕ) (n : ℕ)
    → Holds v (a ++ (pre ++ (n ∷ post)))
    → Avoids n pre
    → vecu64_find v n (length a) ≡ some (length (a ++ pre))
unfolding vecu64_find
vecu64_find-first v a pre post n h away =
    let rest = h.stores.spare in
    let flat : v.data_of ≡ a ++ (pre ++ (n ∷ (post ++ rest))) =
      h.stores.cells ∙ simp append_assoc in
    let sizes = length-append a (pre ++ (n ∷ post)) in
    let sizes' = length-append pre (n ∷ post) in
    let inside : leb v.count (length a) ≡ false = ground (arith, h.counted, sizes, sizes') in
    if-false _ _ _ inside
    ∙ rw flat (
        find_first a pre (post ++ rest) n (v.count - length a) (length a) away
          (omega (arith, h.counted, sizes, sizes')) refl)
    ∙ ap some (sym (length-append a pre))

-- Looking for a number that is not in the rest of the list gives 2 ^ 64 - 1, the -1 of the source,
-- where that rest is not empty.
pub vecu64_find-none :
    (v : Vecu64) (a b : List ℕ) (n : ℕ)
    → Holds v (a ++ b)
    → Avoids n b
    → 0 < length b
    → vecu64_find v n (length a) ≡ some (2 ^ 64 - 1)
unfolding vecu64_find
vecu64_find-none v a b n h away some_left =
    let rest = h.stores.spare in
    let flat = h.stores.cells ∙ append_assoc a b rest in
    let sizes = length-append a b in
    let inside : leb v.count (length a) ≡ false = ground (arith, h.counted, sizes) in
    if-false _ _ _ inside
    ∙ rw flat (
        find_none a b rest n (length a) (v.count - length a) away refl
          (omega (arith, h.counted, sizes)))

module _ {S : Type 0} (cb : S → ℕ → S) where
  foreach_all :
      (a b rest : List ℕ) (i left : ℕ) (s : S)
      → i ≡ length a
      → left ≡ length b
      → foreach_loop cb left (a ++ (b ++ rest)) i s ≡ some (foldl cb s b)
  unfolding foreach_loop
  foreach_all a [] rest i left s e f = rw f
  foreach_all a (x ∷ b) rest i left s e f =
      let one : (a ++ (x ∷ [])) ++ (b ++ rest) ≡ a ++ ((x ∷ b) ++ rest) = simp append_assoc in
      let later = rw one at (
        foreach_all (a ++ (x ∷ [])) b rest (i + 1) (length b) (cb s x)
          (omega (arith, e, length-append a (x ∷ []))) refl) in
      rw (f, get-middle a (b ++ rest) x i e, later)

  -- The callback is called once for each element, in order; the result is 0 for an empty vector
  -- and 1 otherwise.
  pub vecu64_foreach-foldl :
      (v : Vecu64) (xs : List ℕ) (s : S)
      → Holds v xs
      → vecu64_foreach cb v s ≡ some (if v.count == 0 then 0 else 1, foldl cb s xs)
  unfolding vecu64_foreach
  vecu64_foreach-foldl v xs s h =
      let all = foreach_all [] xs h.stores.spare 0 v.count s refl h.counted in
      rw (h.stores.cells, all) (cases xs h)
    where
      cases :
          (ys : List ℕ)
          → Holds v ys
          → if◌then◌else◌ {A = Option (ℕ × S)}
              (v.count == 0)
              (some (0, s))
              (some (1, foldl cb s ys))
            ≡ some (if v.count == 0 then 0 else 1, foldl cb s ys)
      cases [] k = let e = k.counted in rw e
      cases (y ∷ ys) k =
          let e = k.counted in let more : (v.count == 0) ≡ false = ground (arith, e) in rw more

-- Inserting at position 0 of a vector that is not empty and whose array is full moves the last
-- element behind the array.
pub vecu64_insert-overrun :
    (junk : ℕ) (v : Vecu64) (x : ℕ) (xs : List ℕ) (n : ℕ)
    → Holds v (x ∷ xs)
    → v.count ≡ v.alloc
    → vecu64_insert junk v 0 n ≡ none
unfolding vecu64_insert ensure_alloc slice blit
vecu64_insert-overrun junk v x xs n h full =
    let none_over : unsigned_add_overflows v.count 0 ≡ false = le→ltb _ _ (omega arith) in
    let total : u64 (v.count + 0) ≡ v.count = omega (arith, full, h.stores.bounded) in
    let kept : ltb v.alloc v.count ≡ false = le→ltb _ _ (omega (arith, full)) in
    let inside : ltb 0 v.count ≡ true = lt→ltb _ _ (omega (arith, h.counted)) in
    let all : ltb (length v.data_of) (0 + (v.count - 0)) ≡ false =
      le→ltb _ _ (omega (arith, h.stores.sized, full)) in
    let size : length (take (v.count - 0) v.data_of) ≡ v.count =
      omega (arith, length-take (v.count - 0) v.data_of, h.stores.sized, full) in
    let over : ltb (length v.data_of) (1 + length (take (v.count - 0) v.data_of)) ≡ true =
      lt→ltb _ _ (omega (arith, h.stores.sized, full, size)) in
    if-false _ _ _ none_over ∙ rw (total, kept, inside, all, over)
