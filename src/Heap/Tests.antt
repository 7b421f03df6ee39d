-- ===== src/Heap/Tests.antt =====
-- src/heap.c with one block of 4096 bytes in use.
use foreign_linux.Base.{◌+◌, ◌*◌, ◌≡◌, refl, List, [], ◌∷◌, arith}
use foreign_linux.Heap.{Bucket, Pool, kmalloc, kfree, chain}
use foreign_linux.Heap.Chain.{objects, alloc_bucket-overrun}
use foreign_linux.Heap.RoundTrip.{IsChain, IsHeap, kfree-kmalloc}

abbrev page_bucket : Bucket
page_bucket = record { base = 65536; ref_cnt = 2; free = 73752 ∷ [] }

abbrev page_pool : List Pool
page_pool = record { objsize = 4096; buckets = page_bucket ∷ [] } ∷ []

alloc_bucket-overrun_example :
    (chain 24 16384 65536 ≡ 81944 ∷ 98328 ∷ 114712 ∷ [])
    × (65536 + 24 + 3 * 16384 + 16384 ≡ 65536 + 65536 + 24)
unfolding objects
alloc_bucket-overrun_example =
    alloc_bucket-overrun 24 16384 65536 3 (omega arith) (omega arith) refl

page_pool-IsHeap : IsHeap 131072 page_pool
unfolding IsHeap IsChain
page_pool-IsHeap = (
  (record { used = omega arith; bound = omega arith; inside = (refl, tt) }, ground arith, tt, refl),
  tt,
)

kfree-kmalloc_example : kfree 73752 4096 (kmalloc 24 131072 4096 page_pool).1 ≡ page_pool
unfolding kmalloc
kfree-kmalloc_example =
    kfree-kmalloc 24 131072 4096 73752 page_pool refl (omega arith) page_pool-IsHeap refl
