-- ===== src/Fetch/Files.antt =====
-- The search of the packed files in turn.
use Prim.Native.Nat.{lt, eq, gt}
use zeroskip.Prelude.{
  ℕ, zero, suc, ◌-◌, ◌<◌, ◌≤◌, ◌≡◌, ◌≢◌, ◌⊎◌, inl, inr, refl, ap, ◌∙◌, true, Option, none, some,
  List, [], ◌∷◌, arith, length, get_elem?,
}
use zeroskip.Word.{Host}
use zeroskip.Buffer.{slice}
use zeroskip.Format.Decode.{ZsKey}
use zeroskip.File.{zs_ok, zs_notfound}
use zeroskip.Record.{Run, returned}
use zeroskip.Search.Order.{lex, lex_flip, lex_flip_lt, lex_trans, memcmp_raw-lex}
use zeroskip.Search.Tables.{IsAscending, get_elem?-in, get_elem?-out, ordering_cases}
use zeroskip.Search.Packed.{IsIndex, Located, bsearch_index-Located, index_length}
use zeroskip.Memtree.Sorted.{pick, lex_same}
use zeroskip.Fetch.{
  PackedFile, Answer, zs_record_read_key_from_file_offset, compare_end, search_file, behind_first,
  search_packed,
}

-- The value of a key among pairs.
abbrev pub assoc : List ℕ → List (List ℕ) → List (List ℕ) → Option (List ℕ)
assoc key [] vals = none
assoc key (k ∷ keys) [] = none
assoc key (k ∷ keys) (v ∷ vals) = pick (lex key k) (some v) (assoc key keys vals)

pub assoc-at :
    (key val : List ℕ) (keys vals : List (List ℕ)) (i : ℕ)
    → IsAscending keys
    → get_elem? keys i ≡ some key
    → get_elem? vals i ≡ some val
    → assoc key keys vals ≡ some val
assoc-at key val [] vals i up e f = cc e
assoc-at key val (k ∷ keys) [] i up e f = cc f
assoc-at key val (k ∷ keys) (v ∷ vals) zero up e f =
    let same : k ≡ key = cc e in let o : lex key k ≡ eq = rw same (lex_same key) in rw o (cc f)
assoc-at key val (k ∷ keys) (v ∷ vals) (suc i) up e f =
    let o = lex_flip_lt k key (up 0 (suc i) k key (omega arith) refl e) in
    rw o (
      assoc-at key val keys vals i
        (λ m n a b less here there. up (suc m) (suc n) a b (omega (arith, less)) here there) e f)

pub assoc-none :
    (key : List ℕ) (keys vals : List (List ℕ))
    → ((j : ℕ) (b : List ℕ) → get_elem? keys j ≡ some b → lex key b ≢ eq)
    → assoc key keys vals ≡ none
assoc-none key [] vals h = refl
assoc-none key (k ∷ keys) [] h = refl
assoc-none key (k ∷ keys) (v ∷ vals) h =
    let rest = assoc-none key keys vals (λ j b at. h (suc j) b at) in
    elim (ordering_cases (lex key k)) [
      | inl same ↦ absurd (h 0 k refl same)
      | inr (inl more) ↦ rw more rest
      | inr (inr less) ↦ rw less rest
    ]

module _ (host : Host) where
  -- A packed file that is open, with its pairs: the keys ascend, and the keys at the two ends are
  -- read with their lengths.
  pub record IsPacked (f : PackedFile) (keys vals : List (List ℕ)) : Type 0 where
    pub opened : f.is_open ≡ true
    pub pairs : IsIndex host f.base f.index keys vals
    pub ascending : IsAscending keys
    pub filled : 0 < length f.index
    pub ends :
        (i offset : ℕ) (k : List ℕ) (k0 : ZsKey)
        → (i ≡ 0) ⊎ (i ≡ length f.index - 1)
        → get_elem? f.index i ≡ some offset
        → get_elem? keys i ≡ some k
        → (k' : ZsKey) × (zs_record_read_key_from_file_offset host f offset k0 ≡ some (zs_ok, k'))
          × (slice f.base k'.data_at k'.slen ≡ some k)

  abbrev pub ArePacked : List PackedFile → List (List (List ℕ) × List (List ℕ)) → Type 0
  ArePacked [] [] = Unit
  ArePacked (f ∷ fs) ((keys, vals) ∷ rest) = IsPacked f keys vals × ArePacked fs rest
  ArePacked fs rest = ⊥

  at_end :
      (f : PackedFile) (keys vals : List (List ℕ)) (key : List ℕ) (i : ℕ) (k0 : ZsKey)
      → IsPacked f keys vals
      → (i ≡ 0) ⊎ (i ≡ length f.index - 1)
      → (k : List ℕ) × (k' : ZsKey) × (get_elem? keys i ≡ some k)
        × (compare_end host none f key i k0 ≡ some (lex key k, k'))
  unfolding compare_end
  at_end f keys vals key i k0 p side =
      let size = index_length host f.base f.index keys vals p.pairs in
      let inside : i < length f.index = elim side [
        | inl first ↦ omega (arith, first, p.filled)
        | inr last ↦ omega (arith, last, p.filled)
      ] in
      let (offset, at) = get_elem?-in f.index i inside in
      let (k, key_at) = get_elem?-in keys i (omega (arith, size, inside)) in
      let (k', read, bytes) = p.ends i offset k k0 side at key_at in
      (k, k', key_at, rw (at, read, bytes, memcmp_raw-lex key k))

abbrev pub answer : Option (List ℕ) → Run Answer → Run Answer
answer none rest = rest
answer (some val) rest = returned (zs_ok, some val)

module _ (host : Host) (f : PackedFile) (keys vals : List (List ℕ)) (key : List ℕ)
    (p : IsPacked host f keys vals) where
  search_file-assoc :
      (rest : Run Answer) → search_file host none f key rest ≡ answer (assoc key keys vals) rest
  unfolding search_file Located
  search_file-assoc rest =
      elim (bsearch_index-Located host f.base f.index keys vals key p.pairs p.ascending
        (suc (length f.index)) (0, 0) (omega arith)) [
          | inl (i, val, at, at_key, at_val, ran, bytes) ↦
              rw (search_file, ran, bytes, assoc-at key val keys vals i p.ascending at_key at_val)
          | inr (i, q, ran, inside, below, above) ↦
              let lacks : assoc key keys vals ≡ none = assoc-none key keys vals (λ j b at e.
                elim (side j i) [
                  | inl less ↦ cc (below j b less at, e)
                  | inr more ↦ cc (above j b more at, e)
                ]) in
              rw (search_file, ran, lacks)
        ]
    where
      side : (j i : ℕ) → (j < i) ⊎ (i ≤ j)
      side j i = ground arith

-- What the files hold for a key, the first of them first.
abbrev pub packed_value : List ℕ → List (List (List ℕ) × List (List ℕ)) → Option (List ℕ)
packed_value key [] = none
packed_value key ((keys, vals) ∷ rest) = elim (assoc key keys vals) [
  | none ↦ packed_value key rest
  | some val ↦ some val
]

abbrev pub packed_answer : Option (List ℕ) → Run Answer
packed_answer none = returned (zs_notfound, none)
packed_answer (some val) = returned (zs_ok, some val)

then_answer :
    (o p : Option (List ℕ))
    → answer o (packed_answer p) ≡ packed_answer (elim o [ none ↦ p | some val ↦ some val ])
then_answer none p = refl
then_answer (some val) p = refl

-- A key outside the range of the keys is not among them.
less_than_first :
    (keys vals : List (List ℕ)) (key k : List ℕ)
    → IsAscending keys
    → get_elem? keys 0 ≡ some k
    → lex key k ≡ lt
    → assoc key keys vals ≡ none
less_than_first keys vals key k up at less = assoc-none key keys vals (below up at)
  where
    below :
        IsAscending keys
        → get_elem? keys 0 ≡ some k
        → (j : ℕ) (b : List ℕ) → get_elem? keys j ≡ some b
        → lex key b ≢ eq
    below up at zero b there e = let same : k ≡ b = cc (at, there) in cc (rw same at less, e)
    below up at (suc j) b there e =
        cc (lex_trans key k b less (up 0 (suc j) k b (omega arith) at there), e)

by_last : (j n m : ℕ) → m ≡ suc n → j < m → (j < n) ⊎ (j ≡ n)
by_last j n m e h = ground (arith, e, h)

greater_than_last :
    (keys vals : List (List ℕ)) (key k : List ℕ) (n : ℕ)
    → IsAscending keys
    → length keys ≡ suc n
    → get_elem? keys n ≡ some k
    → lex key k ≡ gt
    → assoc key keys vals ≡ none
greater_than_last keys vals key k n up size at more = assoc-none key keys vals (λ j b there e.
    elim (by_last j n (length keys) size (get_elem?-out keys j b there)) [
      | inl less ↦
          let under = up j n b k less there at in
          let over = lex_flip_lt b key (lex_trans b k key under (lex_flip key k more)) in
          cc (over, e)
      | inr same ↦ let is : k ≡ b = cc (same, at, there) in cc (rw is at more, e)
    ])

module _ (host : Host) (f : PackedFile) (keys vals : List (List ℕ)) (key : List ℕ)
    (p : IsPacked host f keys vals) where
  behind_first-assoc :
      (k0 : ZsKey) (rest : Run Answer)
      → behind_first host none f key k0 rest ≡ answer (assoc key keys vals) rest
  unfolding behind_first
  behind_first-assoc k0 rest =
      let n = length f.index - 1 in
      let (k, k', at, compared) = at_end host f keys vals key n k0 p (inr refl) in
      let size = index_length host f.base f.index keys vals p.pairs in
      let searched = search_file-assoc host f keys vals key p rest in
      elim (ordering_cases (lex key k)) [
        | inl same ↦ rw (behind_first, compared, same) searched
        | inr (inl more) ↦
            let lacks =
              greater_than_last keys vals key k n p.ascending (omega (arith, size, p.filled)) at
                more in
            rw (behind_first, compared, more, lacks)
        | inr (inr less) ↦ rw (behind_first, compared, less) searched
      ]

  first_file :
      (fs : List PackedFile) (k0 : ZsKey)
      → search_packed host none (f ∷ fs) key k0
        ≡ answer (assoc key keys vals) (search_packed host none fs key k0)
  unfolding search_packed
  first_file fs k0 =
      let (k, k', at, compared) = at_end host f keys vals key 0 k0 p (inl refl) in
      let rest = search_packed host none fs key k0 in
      let behind = behind_first-assoc k' rest in
      elim (ordering_cases (lex key k)) [
        | inl same ↦ rw (search_packed, compared, same) behind
        | inr (inl more) ↦ rw (search_packed, compared, more) behind
        | inr (inr less) ↦
            let lacks = less_than_first keys vals key k p.ascending at less in
            rw (search_packed, compared, less, lacks)
      ]

pub search_packed-first :
    (host : Host) (fs : List PackedFile) (tables : List (List (List ℕ) × List (List ℕ)))
    (key : List ℕ) (k0 : ZsKey)
    → ArePacked host fs tables
    → search_packed host none fs key k0 ≡ packed_answer (packed_value key tables)
unfolding search_packed
search_packed-first host [] [] key k0 h = refl
search_packed-first host [] (t ∷ tables) key k0 h = elim h [ ]
search_packed-first host (f ∷ fs) [] key k0 h = elim h [ ]
search_packed-first host (f ∷ fs) ((keys, vals) ∷ tables) key k0 (p, later) =
    first_file host f keys vals key p fs k0
    ∙ ap (answer (assoc key keys vals)) (search_packed-first host fs tables key k0 later)
    ∙ then_answer (assoc key keys vals) (packed_value key tables)
