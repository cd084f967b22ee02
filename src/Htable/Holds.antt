-- ===== src/Htable/Holds.antt =====
-- What a hash table holds, and what htable_put and rehash make of it.
use mathlib.Core.List.{Permᴰ}
use mathlib.Core.List.Permᴰ
use native.Mathlib.Nat.{one-le-pow, pow-le-pow_right, mod-lt}
use zeroskip.Prelude.{
  ℕ, zero, suc, ◌+◌, ◌-◌, ◌%◌, ◌^◌, ◌<◌, ◌≤◌, ◌≡◌, ◌≢◌, inl, inr, refl, sym, ap, ◌∙◌, subst, some,
  List, [], ◌∷◌, ◌++◌, append_assoc, arith, length, get_elem?, set, replicate, length-set,
  length-replicate,
}
use zeroskip.Word.{u64}
use zeroskip.Word.Bits.{bit_and-low}
use zeroskip.Search.Tables.{get_elem?-in, get_elem?-out}
use zeroskip.Pqueue.Order.{same_or_not}
use zeroskip.Memtree.Lists.{get-set}
use zeroskip.Memtree.Inorder.{All}
use zeroskip.Htable.{
  HtableFns, Htable, alloc_htable, bucket, link, rehash_chain, rehash_table, rehash,
}

abbrev pub flatten : {E : Type 0} → List (List E) → List E
flatten [] = []
flatten (chain ∷ chains) = chain ++ flatten chains

flatten-set :
    {E : Type 0} (e : E) (chain : List E) (table : List (List E)) (b : ℕ)
    → get_elem? table b ≡ some chain
    → Permᴰ (flatten (set table b (e ∷ chain))) (e ∷ flatten table)
flatten-set e chain [] b at = cc at
flatten-set e chain (c ∷ table) zero at =
    let same : c ≡ chain = cc at in rw same (Permᴰ.refl (e ∷ (chain ++ flatten table)))
flatten-set e chain (c ∷ table) (suc b) at =
    Permᴰ.trans (Permᴰ.append_left c (flatten-set e chain table b at))
      (Permᴰ.middle e c (flatten table))

flatten-replicate : {E : Type 0} (n : ℕ) → flatten {E = E} (replicate n []) ≡ []
flatten-replicate zero = refl
flatten-replicate (suc n) = flatten-replicate n

get-replicate : {A : Type 0} (n i : ℕ) (a x : A) → get_elem? (replicate n a) i ≡ some x → x ≡ a
get-replicate zero i a x e = cc e
get-replicate (suc n) zero a x e = cc e
get-replicate (suc n) (suc i) a x e = get-replicate n i a x e

pub get-set_other :
    {A : Type 0} (xs : List A) (i j : ℕ) (x : A) → i ≢ j → get_elem? (set xs i x) j ≡ get_elem? xs j
get-set_other [] i j x d = refl
get-set_other (y ∷ xs) zero zero x d = absurd (d refl)
get-set_other (y ∷ xs) zero (suc j) x d = refl
get-set_other (y ∷ xs) (suc i) zero x d = refl
get-set_other (y ∷ xs) (suc i) (suc j) x d = get-set_other xs i j x (λ e. d (ap suc e))

-- The number of buckets is a power of two.
abbrev pub IsSize : ℕ → Type 0
IsSize size = (k : ℕ) × (size ≡ 2 ^ k) × (k ≤ 30)

pub size_bounds : (k : ℕ) → k ≤ 30 → (1 ≤ 2 ^ k) × (2 ^ k ≤ 2 ^ 30)
size_bounds k h = (one-le-pow k 2 (omega arith), pow-le-pow_right (omega arith) h)

module _ {E K : Type 0} (fns : HtableFns E K) where
  -- Every entry is in its bucket.
  abbrev pub AreIn : List E → ℕ → ℕ → Type 0
  AreIn chain size b = All (λ e. fns.hash e % size ≡ b) chain

  pub record Holds (ht : Htable E) (es : List E) : Type 0 where
    pub sized : length ht.table ≡ ht.size
    pub power : IsSize ht.size
    pub placed :
        (b : ℕ) (chain : List E) → get_elem? ht.table b ≡ some chain → AreIn chain ht.size b
    pub content : Permᴰ (flatten ht.table) es

  pub bucket_lem :
      (ht : Htable E) (e : E)
      → IsSize ht.size
      → (bucket fns ht e ≡ fns.hash e % ht.size) × (fns.hash e % ht.size < ht.size)
  unfolding bucket
  bucket_lem ht e (k, is_size, small) =
      let (low, high) = size_bounds k small in
      let mask : u64 (2 ^ k + 2 ^ 64 - 1) ≡ 2 ^ k - 1 = omega (arith, low, high) in
      let less = mod-lt (fns.hash e) {m = 2 ^ k} (omega (arith, low)) in
      (rw (is_size, mask, bit_and-low k (fns.hash e)) (omega (arith, less, high)), rw is_size less)

  pub reordered : (ht : Htable E) (es es' : List E) → Holds ht es → Permᴰ es es' → Holds ht es'
  reordered ht es es' h p = record {
    sized = h.sized;
    power = h.power;
    placed = h.placed;
    content = Permᴰ.trans h.content p;
  }

  still :
      (table : List (List E)) (size b b' : ℕ) (e : E) (chain chain' : List E)
      → fns.hash e % size ≡ b
      → get_elem? table b ≡ some chain
      → ((b : ℕ) (chain : List E) → get_elem? table b ≡ some chain → AreIn chain size b)
      → get_elem? (set table b (e ∷ chain)) b' ≡ some chain'
      → AreIn chain' size b'
  still table size b b' e chain chain' is_in at placed at' = elim (same_or_not b b') [
    | inl same ↦
        let now = get-set b table (e ∷ chain) (get_elem?-out table b chain at) in
        let is : e ∷ chain ≡ chain' = cc (now, at', same) in
        rw (← is) (subst (λ (n : ℕ). AreIn (e ∷ chain) size n) same (is_in, placed b chain at))
    | inr other ↦ placed b' chain' (sym (get-set_other table b b' (e ∷ chain) other) ∙ at')
  ]

  linked :
      (ht : Htable E) (e : E) (b : ℕ) (chain : List E)
      → bucket fns ht e ≡ b
      → get_elem? ht.table b ≡ some chain
      → link fns e ht ≡ some (record ht { table = set ht.table b (e ∷ chain) })
  unfolding link
  linked ht e b chain is_bucket at = rw (is_bucket, at)

  pub link-Holds :
      (ht : Htable E) (e : E) (es : List E)
      → Holds ht es
      → (ht' : Htable E) × (link fns e ht ≡ some ht')
        × Holds ht' (e ∷ es)
        × (ht'.size ≡ ht.size)
        × (ht'.count ≡ ht.count)
        × (ht'.shrink_mark ≡ ht.shrink_mark)
  link-Holds ht e es h =
      let (is_bucket, inside) = bucket_lem ht e h.power in
      let (chain, at) =
        get_elem?-in ht.table (fns.hash e % ht.size) (omega (arith, inside, h.sized)) in
      let b = fns.hash e % ht.size in
      (
        record ht { table = set ht.table b (e ∷ chain) },
        linked ht e b chain is_bucket at,
        record {
          sized = length-set ht.table b (e ∷ chain) ∙ h.sized;
          power = h.power;
          placed = λ b' chain' at'. still ht.table ht.size b b' e chain chain' refl at h.placed at';
          content = Permᴰ.trans (flatten-set e chain ht.table b at) (Permᴰ.cons refl h.content);
        },
        refl,
        refl,
        refl,
      )

  chain-Holds :
      (chain : List E) (ht : Htable E) (es : List E)
      → Holds ht es
      → (ht' : Htable E) × (rehash_chain fns chain ht ≡ some ht')
        × Holds ht' (chain ++ es)
        × (ht'.size ≡ ht.size)
        × (ht'.count ≡ ht.count)
  unfolding rehash_chain
  chain-Holds [] ht es h = (ht, refl, h, refl, refl)
  chain-Holds (e ∷ chain) ht es h =
      let (ht1, ran, h1, size1, count1, mark1) = link-Holds ht e es h in
      let (ht2, rest, h2, size2, count2) = chain-Holds chain ht1 (e ∷ es) h1 in
      (
        ht2,
        rw ran rest,
        reordered ht2 (chain ++ e ∷ es) (e ∷ (chain ++ es)) h2 (Permᴰ.middle e chain es),
        size2 ∙ size1,
        count2 ∙ count1,
      )

  table-Holds :
      (chains : List (List E)) (ht : Htable E) (es : List E)
      → Holds ht es
      → (ht' : Htable E) × (rehash_table fns chains ht ≡ some ht')
        × Holds ht' (flatten chains ++ es)
        × (ht'.size ≡ ht.size)
        × (ht'.count ≡ ht.count)
  unfolding rehash_table
  table-Holds [] ht es h = (ht, refl, h, refl, refl)
  table-Holds (chain ∷ chains) ht es h =
      let (ht1, first, h1, size1, count1) = chain-Holds chain ht es h in
      let (ht2, rest, h2, size2, count2) = table-Holds chains ht1 (chain ++ es) h1 in
      let order : Permᴰ (flatten chains ++ (chain ++ es)) ((chain ++ flatten chains) ++ es) =
        subst (λ (xs : List E). Permᴰ xs ((chain ++ flatten chains) ++ es))
          (append_assoc (flatten chains) chain es)
          (Permᴰ.append_right es (Permᴰ.append_comm (flatten chains) chain)) in
      (
        ht2,
        rw first rest,
        reordered ht2 (flatten chains ++ (chain ++ es)) ((chain ++ flatten chains) ++ es) h2 order,
        size2 ∙ size1,
        count2 ∙ count1,
      )

  alloc-Holds : (count size : ℕ) → IsSize size → Holds (alloc_htable count size) []
  unfolding alloc_htable
  alloc-Holds count size power = record {
    sized = length-replicate size [];
    power = power;
    placed = λ b chain at. let e = get-replicate size b [] chain at in rw e tt;
    content = rw (flatten-replicate {E = E} size) (Permᴰ.refl []);
  }

  -- Moving the entries to a new table, whose size is a power of two up to 2 ^ 30, keeps them, each
  -- in its bucket.
  pub rehash-Holds :
      (ht : Htable E) (es : List E) (newsize : ℕ)
      → Holds ht es
      → IsSize newsize
      → (ht' : Htable E) × (rehash fns ht newsize ≡ some ht')
        × Holds ht' es
        × (ht'.size ≡ newsize)
        × (ht'.count ≡ ht.count)
  unfolding rehash alloc_htable
  rehash-Holds ht es newsize h power =
      let (ht', ran, h', size, count) =
        table-Holds ht.table (alloc_htable ht.count newsize) []
          (alloc-Holds ht.count newsize power) in
      (
        ht',
        ran,
        reordered ht' (flatten ht.table ++ []) es h'
            (Permᴰ.trans (Permᴰ.append-nil (flatten ht.table)) h.content),
        size,
        count,
      )
