-- ===== src/Tests/Queues.antt =====
-- A priority queue of numbers (src/pqueue.c).
use Prim.Native.Nat.{gt, compare}
use zeroskip.Prelude.{ℕ, zero, suc, ◌+◌, ◌≡◌, ◌≢◌, List, [], ◌∷◌, some, length, get_elem?, arith}
use zeroskip.Record.{returned}
use zeroskip.Pqueue.{pqueue_put, pqueue_get}
use zeroskip.Pqueue.Get.{pqueue_get-IsHeap}
use zeroskip.Pqueue.Order.{IsOrder}
use zeroskip.Pqueue.Put.{IsHeap, total, pqueue_put-IsHeap}

compare-IsOrder : IsOrder compare
compare-IsOrder = record {
  turned = λ a b e. ground (arith, e);
  trans = λ a b c e f g. ground (arith, e, f, g);
}

abbrev pub a_heap : List ℕ
a_heap = 2 ∷ 5 ∷ []

a_heap-IsHeap : IsHeap compare a_heap
a_heap-IsHeap zero a b pos e f = elim pos [ ]
a_heap-IsHeap (suc zero) a b pos e f =
    let p : 2 ≡ a = cc e in let q : 5 ≡ b = cc f in λ g. ground (arith, p, q, g)
a_heap-IsHeap (suc (suc k)) a b pos e f = cc f

pqueue_put-IsHeap_example :
    (arr' : List ℕ) × (pqueue_put compare 3 a_heap 1 ≡ returned arr')
    × IsHeap compare arr'
    × (length arr' ≡ 3)
    × ((f : ℕ → ℕ) → total f arr' ≡ total f a_heap + f 1)
pqueue_put-IsHeap_example =
    pqueue_put-IsHeap compare compare-IsOrder 3 a_heap 1 a_heap-IsHeap (omega arith)

pqueue_get-IsHeap_example :
    (arr' : List ℕ) × (pqueue_get compare 2 a_heap ≡ returned (some 2, arr'))
    × IsHeap compare arr'
    × (length arr' ≡ 1)
    × ((f : ℕ → ℕ) → total f arr' + f 2 ≡ total f a_heap)
    × ((k : ℕ) (b : ℕ) → get_elem? a_heap k ≡ some b → compare 2 b ≢ gt)
pqueue_get-IsHeap_example =
    pqueue_get-IsHeap compare compare-IsOrder 2 2 (5 ∷ []) a_heap-IsHeap (omega arith)
