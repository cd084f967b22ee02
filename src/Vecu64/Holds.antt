-- ===== src/Vecu64/Holds.antt =====
-- Vectors of src/vecu64.c as the lists that they hold, and the growing of the array.
use zeroskip.Prelude.{
  ℕ, ◌+◌, ◌-◌, ◌^◌, ◌≤◌, ◌<◌, ◌≡◌, refl, ap, ◌∙◌, inl, inr, Bool-cases, false, some, List, [], ◌∷◌,
  ◌++◌, arith, length, ltb, get_elem?, replicate, append_assoc, length-append, length-replicate,
  take-append, drop-append, drop-append_add, le→ltb, ltb→le, ltb→lt, if-true, if-false,
  if◌then◌else◌,
}
use zeroskip.Buffer.{blit, slice, slice-append}
use zeroskip.Vecu64.{Vecu64, alloc_nr, unsigned_add_overflows, realloc_to, ensure_alloc}

-- `xs` stands at the start of the array.
pub record Stores (v : Vecu64) (xs : List ℕ) : Type 0 where
  pub spare : List ℕ
  pub cells : v.data_of ≡ xs ++ spare
  pub sized : v.alloc ≡ length v.data_of
  pub bounded : v.alloc < 2 ^ 60

pub record Holds (v : Vecu64) (xs : List ℕ) : Type 0 where
  pub stores : Stores v xs
  pub counted : v.count ≡ length xs

-- A piece of the array is replaced by another of its length.
pub blit-middle :
    (a b c b' : List ℕ) (n : ℕ)
    → n ≡ length a
    → length b' ≡ length b
    → blit (a ++ (b ++ c)) n b' ≡ some (a ++ (b' ++ c))
unfolding blit
blit-middle a b c b' n e same =
    let fits : ltb (length (a ++ (b ++ c))) (length a + length b) ≡ false =
      le→ltb _ _ (omega (arith, length-append a (b ++ c), length-append b c)) in
    rw (
      e,
      same,
      fits,
      take-append a (b ++ c),
      drop-append_add a (b ++ c) (length b),
      drop-append b c,
    )

pub slice-middle :
    (a b c : List ℕ) (n m : ℕ) → n ≡ length a → m ≡ length b → slice (a ++ (b ++ c)) n m ≡ some b
slice-middle a b c n m e f = rw (e, f) (slice-append a b c)

pub get-middle : (a b : List ℕ) (x n : ℕ) → n ≡ length a → get_elem? (a ++ (x ∷ b)) n ≡ some x
get-middle [] b x n e = rw e
get-middle (y ∷ a) b x n e = rw e (get-middle a b x (length a) refl)

module _ (junk : ℕ) where
  realloc_lem :
      (v : Vecu64) (xs : List ℕ) (m : ℕ)
      → Stores v xs
      → v.alloc ≤ m
      → m < 2 ^ 60
      → Stores (realloc_to junk v m) xs
  unfolding realloc_to
  realloc_lem v xs m h more small =
      let new : List ℕ = replicate (m - v.alloc) junk in
      record {
        spare = h.spare ++ new;
        cells = ap (λ (ys : List ℕ). ys ++ new) h.cells ∙ append_assoc xs h.spare new;
        sized = omega (
          arith,
          length-append v.data_of new,
          length-replicate {A = ℕ} (m - v.alloc) junk,
          h.sized,
        );
        bounded = small;
      }

  -- The array has at least `n` cells, and holds what it did.
  abbrev pub Grown : Vecu64 → List ℕ → ℕ → Type 0
  Grown v xs n =
      (w : Vecu64) × (ensure_alloc junk v n ≡ w)
      × Stores w xs
      × (w.count ≡ v.count)
      × (n ≤ w.alloc)
      × (v.alloc ≤ w.alloc)

  new_size : ℕ → ℕ → ℕ
  new_size alloc n = if ltb (alloc_nr alloc) n then n else alloc_nr alloc

  new_size_lem :
      (alloc n : ℕ)
      → alloc < n
      → n < 2 ^ 59
      → (n ≤ new_size alloc n) × (new_size alloc n < 2 ^ 60) × (alloc ≤ new_size alloc n)
  unfolding new_size
  new_size_lem alloc n h small = elim (Bool-cases (ltb (alloc_nr alloc) n)) [
    | inl less ↦ rw less (omega arith, omega arith, omega arith)
    | inr enough ↦
        let bound = ltb→le (alloc_nr alloc) n enough in rw enough (bound, omega arith, omega arith)
  ]

  pub ensure_alloc_lem :
      (v : Vecu64) (xs : List ℕ) (n : ℕ) → Stores v xs → n < 2 ^ 59 → Grown v xs n
  unfolding ensure_alloc new_size
  ensure_alloc_lem v xs n h small = elim (Bool-cases (ltb v.alloc n)) [
    | inl short ↦
        let (a, b, c) = new_size_lem v.alloc n (ltb→lt v.alloc n short) small in
        (
          realloc_to junk v (new_size v.alloc n),
          if-true _ _ _ short,
          realloc_lem v xs (new_size v.alloc n) h c b,
          refl,
          a,
          c,
        )
    | inr enough ↦ (v, if-false _ _ _ enough, h, refl, ltb→le v.alloc n enough, omega arith)
  ]

  -- An array that is longer than its list has a cell behind it.
  pub spare_cell :
      (v : Vecu64) (xs : List ℕ)
      → Stores v xs
      → length xs < v.alloc
      → (y : ℕ) × (rest : List ℕ) × (v.data_of ≡ xs ++ (y ∷ rest))
  spare_cell v xs h room = go h.spare h.cells
    where
      go :
          (spare : List ℕ)
          → v.data_of ≡ xs ++ spare
          → (y : ℕ) × (rest : List ℕ) × (v.data_of ≡ xs ++ (y ∷ rest))
      go [] e = absurd (omega (arith, ap (length {A = ℕ}) e, length-append xs [], h.sized))
      go (y ∷ rest) e = (y, rest, e)

  pub no_overflow : (a b : ℕ) → a + b < 2 ^ 64 → unsigned_add_overflows a b ≡ false
  no_overflow a b h = le→ltb _ _ (omega arith)
