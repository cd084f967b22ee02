-- ===== src/Vecu64/Inserts.antt =====
-- What appending to a vector of src/vecu64.c and inserting in it make of the list that it holds.
use zeroskip.Prelude.{
  ℕ, ◌+◌, ◌-◌, ◌^◌, ◌<◌, ◌≡◌, refl, sym, ap, ◌∙◌, ◌⊎◌, inl, inr, true, false, some, List, [], ◌∷◌,
  ◌++◌, arith, length, ltb, append_assoc, length-append, le→ltb, lt→ltb, if-false, ◌>>=◌,
  if◌then◌else◌,
}
use zeroskip.Word.{u64}
use zeroskip.Buffer.{blit, slice}
use zeroskip.Vecu64.{Vecu64, vecu64_append, vecu64_insert}
use zeroskip.Vecu64.Holds.{
  Stores, Holds, blit-middle, slice-middle, ensure_alloc_lem, spare_cell, no_overflow,
}

module _ (junk : ℕ) where
  -- Appending to a vector of fewer than 2 ^ 58 elements returns its old length, and the vector
  -- holds the element behind the others.
  pub vecu64_append-Holds :
      (v : Vecu64) (xs : List ℕ) (n : ℕ)
      → Holds v xs
      → length xs < 2 ^ 58
      → (v' : Vecu64) × (vecu64_append junk v n ≡ some (length xs, v')) × Holds v' (xs ++ (n ∷ []))
  unfolding vecu64_append
  vecu64_append-Holds v xs n h small =
      let more : Vecu64 = record v { count = v.count + 1 } in
      let s : Stores more xs = record {
        spare = h.stores.spare;
        cells = h.stores.cells;
        sized = h.stores.sized;
        bounded = h.stores.bounded;
      } in
      let (w, grown, sw, kept, enough, larger) =
        ensure_alloc_lem junk more xs (v.count + 2) s (omega (arith, h.counted)) in
      let (y, rest, cells) = spare_cell junk w xs sw (omega (arith, h.counted, enough)) in
      let stored = blit-middle xs (y ∷ []) rest (n ∷ []) v.count h.counted refl in
      let v' : Vecu64 = record w { data_of = xs ++ ((n ∷ []) ++ rest) } in
      let total : u64 (v.count + 2) ≡ v.count + 2 = omega (arith, h.counted) in
      let fine = no_overflow junk v.count 1 (omega (arith, h.counted)) in
      let holds : Holds v' (xs ++ (n ∷ [])) = record {
        stores = record {
          spare = rest;
          cells = sym (append_assoc xs (n ∷ []) rest);
          sized = omega (
            arith,
            sw.sized,
            ap (length {A = ℕ}) cells,
            length-append xs (y ∷ rest),
            length-append xs (n ∷ rest),
          );
          bounded = sw.bounded;
        };
        counted = omega (arith, kept, h.counted, length-append xs (n ∷ []));
      } in
      (
        v',
        if-false _ _ _ fine
            ∙ rw (total, grown, cells, stored) (ap (λ (p : ℕ). some (p, v')) h.counted),
        holds,
      )

  -- The cells behind `a` move up by one, and `n` takes the place that is free.
  insert_cells :
      (g : List ℕ → Vecu64) (a b rest : List ℕ) (y n idx k : ℕ)
      → idx ≡ length a
      → k ≡ length (a ++ b)
      → (do
        cells ←
            if ltb idx k
            then (slice (a ++ (b ++ (y ∷ rest))) idx (k - idx) >>= λ part.
                blit (a ++ (b ++ (y ∷ rest))) (idx + 1) part)
            else some (a ++ (b ++ (y ∷ rest)))
        cells ← blit cells idx (n ∷ [])
        some (g cells))
        ≡ some (g (a ++ (n ∷ (b ++ rest))))
  insert_cells g a [] rest y n idx k e f =
      let last : ltb idx k ≡ false = le→ltb _ _ (omega (arith, e, f, length-append a [])) in
      rw (last, blit-middle a (y ∷ []) rest (n ∷ []) idx e refl)
  insert_cells g a (z ∷ b) rest y n idx k e f =
      let sizes = length-append a (z ∷ b) in
      let inside : ltb idx k ≡ true = lt→ltb _ _ (omega (arith, e, f, sizes)) in
      let part = slice-middle a (z ∷ b) (y ∷ rest) idx (k - idx) e (omega (arith, e, f, sizes)) in
      let split : a ++ ((z ∷ b) ++ (y ∷ rest)) ≡ (a ++ (z ∷ [])) ++ ((b ++ (y ∷ [])) ++ rest) =
        simp append_assoc in
      let moved : blit (a ++ ((z ∷ b) ++ (y ∷ rest))) (idx + 1) (z ∷ b)
          ≡ some (a ++ (z ∷ ((z ∷ b) ++ rest))) =
        rw split (
          blit-middle (a ++ (z ∷ [])) (b ++ (y ∷ [])) rest (z ∷ b) (idx + 1)
            (omega (arith, e, length-append a (z ∷ []))) (omega (arith, length-append b (y ∷ [])))
          ∙ ap some (append_assoc a (z ∷ []) ((z ∷ b) ++ rest))) in
      rw (inside, part, moved, blit-middle a (z ∷ []) ((z ∷ b) ++ rest) (n ∷ []) idx e refl)

  -- Inserting at a position in the list, in a vector of fewer than 2 ^ 57 elements: the vector
  -- holds the element at the position, those behind it moved by one. At position 0 the array has
  -- to have a spare cell already.
  pub vecu64_insert-Holds :
      (v : Vecu64) (a b : List ℕ) (n : ℕ)
      → Holds v (a ++ b)
      → length (a ++ b) < 2 ^ 57
      → (0 < length a) ⊎ (v.count < v.alloc)
      → (v' : Vecu64) × (vecu64_insert junk v (length a) n ≡ some v') × Holds v' (a ++ (n ∷ b))
  unfolding vecu64_insert
  vecu64_insert-Holds v a b n h small fits =
      let xs = a ++ b in
      let idx = length a in
      let sizes = length-append a b in
      let (w, grown, sw, kept, enough, larger) =
        ensure_alloc_lem junk v xs (v.count + idx) h.stores (omega (arith, h.counted, sizes)) in
      let room : length xs < w.alloc = elim fits [
        | inl pos ↦ omega (arith, h.counted, enough)
        | inr spare ↦ omega (arith, h.counted, larger)
      ] in
      let (y, rest, cells) = spare_cell junk w xs sw room in
      let flat = cells ∙ append_assoc a b (y ∷ rest) in
      let stored =
        insert_cells (λ cells. record w { data_of = cells; count = v.count + 1 }) a b rest y n idx
          v.count refl h.counted in
      let total : u64 (v.count + idx) ≡ v.count + idx = omega (arith, h.counted, sizes) in
      let fine = no_overflow junk v.count idx (omega (arith, h.counted, sizes)) in
      let v' : Vecu64 = record w { data_of = a ++ (n ∷ (b ++ rest)); count = v.count + 1 } in
      let holds : Holds v' (a ++ (n ∷ b)) = record {
        stores = record {
          spare = rest;
          cells = sym (append_assoc a (n ∷ b) rest);
          sized = omega (
            arith,
            sw.sized,
            ap (length {A = ℕ}) flat,
            length-append a (b ++ (y ∷ rest)),
            length-append b (y ∷ rest),
            length-append a (n ∷ (b ++ rest)),
            length-append b rest,
          );
          bounded = sw.bounded;
        };
        counted = omega (arith, h.counted, sizes, length-append a (n ∷ b));
      } in
      (v', if-false _ _ _ fine ∙ rw (total, grown, flat) stored, holds)
