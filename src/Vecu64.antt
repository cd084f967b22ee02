-- ===== src/Vecu64.antt =====
-- Vectors of 64-bit words (src/vecu64.c, with ALLOC_GROW of include/libzeroskip/util.h). `none` is
-- an access outside the allocated array, or the exit on an overflow of the count. The cells that
-- `realloc` adds hold `junk`.
pub mod Holds
pub mod Inserts
pub mod Queries
use zeroskip.Prelude.{
  ℕ, zero, suc, ◌+◌, ◌-◌, ◌*◌, ◌/◌, ◌^◌, Bool, Option, none, some, List, [], ◌∷◌, ◌++◌, ◌==◌, ltb,
  leb, length, get_elem?, replicate, if◌then◌else◌, ◌>>=◌,
}
use zeroskip.Word.{u64}
use zeroskip.Buffer.{blit, slice}

-- `alloc` is the length of the array behind `data`.
pub record Vecu64 : Type 0 where
  pub data_of : List ℕ
  pub count : ℕ
  pub alloc : ℕ

abbrev pub alloc_nr : ℕ → ℕ
alloc_nr x = u64 (u64 (x + 16) * 3) / 2

abbrev pub unsigned_add_overflows : ℕ → ℕ → Bool
unsigned_add_overflows a b = ltb (2 ^ 64 - 1 - a) b

unfoldable pub vecu64_new : Vecu64
vecu64_new = record { data_of = []; count = 0; alloc = 0 }

module _ (junk : ℕ) where
  -- `realloc` to `n` cells, which never fails but by an exit.
  realloc_to : Vecu64 → ℕ → Vecu64
  realloc_to v n = record v { data_of = v.data_of ++ replicate (n - v.alloc) junk; alloc = n }

  pub ensure_alloc : Vecu64 → ℕ → Vecu64
  unfolding realloc_to
  ensure_alloc v newsize =
      if ltb v.alloc newsize
      then realloc_to v (if ltb (alloc_nr v.alloc) newsize then newsize else alloc_nr v.alloc)
      else v

  -- With the position of the new element.
  pub vecu64_append : Vecu64 → ℕ → Option (ℕ × Vecu64)
  unfolding ensure_alloc
  vecu64_append v n =
      let pos = v.count in
      let grown = ensure_alloc (record v { count = v.count + 1 }) (u64 (v.count + 2)) in
      let store =
        blit grown.data_of pos (n ∷ []) >>= λ cells. some (pos, record grown { data_of = cells }) in
      if unsigned_add_overflows v.count 1 then none else store

  pub vecu64_insert : Vecu64 → ℕ → ℕ → Option Vecu64
  unfolding ensure_alloc
  vecu64_insert v idx n =
      let grown = ensure_alloc v (u64 (v.count + idx)) in
      let moved : Option (List ℕ) =
        if ltb idx v.count
        then (slice grown.data_of idx (v.count - idx) >>= λ part. blit grown.data_of (idx + 1) part)
        else some grown.data_of in
      let store : Option Vecu64 = do
        cells ← moved
        cells ← blit cells idx (n ∷ [])
        some (record grown { data_of = cells; count = v.count + 1 })
      in if unsigned_add_overflows v.count idx then none else store

-- With the element that is gone, or 0.
pub vecu64_remove : Vecu64 → ℕ → Option (ℕ × Vecu64)
vecu64_remove v idx =
    let left = v.count - 1 in
    let take_out : Option (ℕ × Vecu64) = do
      n ← get_elem? v.data_of idx
      cells ←
          if ltb idx left
          then (slice v.data_of (idx + 1) (left - idx) >>= λ part. blit v.data_of idx part)
          else some v.data_of
      cells ← blit cells left (0 ∷ [])
      some (n, record v { data_of = cells; count = left })
    in if leb v.count idx then some (0, v) else take_out

-- `for (i = idx; i < v->count; i++)`, with the number of rounds left; -1 is 2 ^ 64 - 1.
find_loop : ℕ → List ℕ → ℕ → ℕ → Option ℕ
find_loop zero cells n i = some (2 ^ 64 - 1)
find_loop (suc left) cells n i =
    let later = find_loop left cells n (i + 1) in
    get_elem? cells i >>= λ x. if x == n then some i else later

pub vecu64_find : Vecu64 → ℕ → ℕ → Option ℕ
unfolding find_loop
vecu64_find v n idx = if leb v.count idx then some 0 else find_loop (v.count - idx) v.data_of n idx

vecu64_size : Vecu64 → ℕ
vecu64_size v = v.count

-- The calls of the callback `cb`, in their order, on the caller's data.
foreach_loop : {S : Type 0} → (S → ℕ → S) → ℕ → List ℕ → ℕ → S → Option S
foreach_loop cb zero cells i s = some s
foreach_loop cb (suc left) cells i s =
    get_elem? cells i >>= λ x. foreach_loop cb left cells (i + 1) (cb s x)

pub vecu64_foreach : {S : Type 0} → (S → ℕ → S) → Vecu64 → S → Option (ℕ × S)
unfolding foreach_loop
vecu64_foreach cb v s =
    if v.count == 0
    then some (0, s)
    else (foreach_loop cb v.count v.data_of 0 s >>= λ s'. some (1, s'))
