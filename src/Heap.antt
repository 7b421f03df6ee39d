-- ===== src/Heap.antt =====
-- src/heap.c: kmalloc and kfree over pools of objects of one size, in blocks of 64 kB.
-- The chain of the free objects of a bucket is the list of their addresses, the chain of the
-- buckets a list. `mm_mmap` is a parameter: `fresh` is the block that it gives in a call.
pub mod Tests
pub mod Chain
pub mod RoundTrip
use foreign_linux.Base.{
  ℕ, zero, suc, ◌+◌, ◌-◌, ◌*◌, ◌%◌, Bool, true, false, Option, none, some, List, [], ◌∷◌, ltb, leb,
  ◌==◌, if◌then◌else◌,
}

pub record Bucket : Type 0 where
  pub base : ℕ
  pub ref_cnt : ℕ
  pub free : List ℕ

pub record Pool : Type 0 where
  pub objsize : ℕ
  pub buckets : List Bucket

abbrev pub block_size : ℕ
block_size = 65536

abbrev pub empty_pool : ℕ → Pool
empty_pool n = record { objsize = n; buckets = [] }

abbrev pub heap_init : List Pool
heap_init =
    empty_pool 16
    ∷ empty_pool 32
    ∷ empty_pool 64
    ∷ empty_pool 128
    ∷ empty_pool 256
    ∷ empty_pool 512
    ∷ empty_pool 1024
    ∷ empty_pool 2048
    ∷ empty_pool 4096
    ∷ empty_pool 8192
    ∷ empty_pool 16384
    ∷ []

-- The loop of `alloc_bucket`: the objects after `c`, up to the end `limit` of the block.
pub chain_loop : (fuel limit objsize c : ℕ) → List ℕ
chain_loop zero limit objsize c = []
chain_loop (suc fuel) limit objsize c =
    let rest = chain_loop fuel limit objsize (c + objsize) in
    if ltb (c + objsize) limit then (c + objsize) ∷ rest else []

-- A counter of type `int`, as its 32-bit pattern.
abbrev pub count_up : ℕ → ℕ
count_up n = (n + 1) % 4294967296

abbrev pub count_down : ℕ → ℕ
count_down n = (n + 4294967295) % 4294967296

-- `header` is the aligned size of `struct bucket`: 12 with pointers of 4 bytes, 24 with 8.
module _ (header objsize : ℕ) where
  abbrev pub first_object : (fresh : ℕ) → ℕ
  first_object fresh = fresh + header

  -- The objects of a new bucket behind the first one.
  pub chain : (fresh : ℕ) → List ℕ
  unfolding chain_loop
  chain fresh = chain_loop block_size (fresh + block_size) objsize (first_object fresh)

  pub alloc_bucket : (fresh : ℕ) → Bucket
  unfolding chain
  alloc_bucket fresh = record { base = fresh; ref_cnt = 0; free = first_object fresh ∷ chain fresh }

-- The object that `first_free` points to leaves the bucket.
abbrev pub take_object : Bucket → List ℕ → Bucket
take_object b rest = record b { free = rest; ref_cnt = count_up b.ref_cnt }

-- One bucket of that walk, with its free objects and what the walk along the next ones gives.
abbrev pub visit :
    (free : List ℕ) (b : Bucket) (next : ℕ × List Bucket) (bs : List Bucket) → ℕ × List Bucket
visit [] b next bs = (next.0, b ∷ next.1)
visit (c ∷ cs) b next bs = (c, take_object b cs ∷ bs)

module _ (header objsize fresh : ℕ) where
  -- The walk of `kmalloc` along the buckets, with a new one at the end where none has an object.
  unfoldable pub take_slot : List Bucket → ℕ × List Bucket
  unfolding chain
  take_slot [] = (
    first_object header objsize fresh,
    take_object (alloc_bucket header objsize fresh) (chain header objsize fresh) ∷ [],
  )
  take_slot (b ∷ bs) = visit b.free b (take_slot bs) bs

-- The first pool whose objects are large enough: none, and `NULL` with it, if the size is too large.
unfoldable pub kmalloc : (header fresh size : ℕ) → List Pool → Option ℕ × List Pool
unfolding take_slot
kmalloc header fresh size [] = (none, [])
kmalloc header fresh size (p ∷ ps) =
    let (slot, after) = take_slot header p.objsize fresh p.buckets in
    let (found, rest) = kmalloc header fresh size ps in
    if leb size p.objsize then (some slot, record p { buckets = after } ∷ ps) else (found, p ∷ rest)

-- `mem & -BLOCK_SIZE`
abbrev pub bucket_addr : ℕ → ℕ
bucket_addr mem = mem - mem % block_size

abbrev pub put_object : Bucket → ℕ → Bucket
put_object b mem = record b { free = mem ∷ b.free; ref_cnt = count_down b.ref_cnt }

-- The walk of `kfree` along the buckets; a bucket without objects in use leaves the chain.
pub give_back : (mem : ℕ) → List Bucket → List Bucket
give_back mem [] = []
give_back mem (b ∷ bs) =
    let rest = give_back mem bs in
    if b.base == bucket_addr mem
    then (if count_down b.ref_cnt == 0 then bs else put_object b mem ∷ bs)
    else b ∷ rest

pub kfree : (mem size : ℕ) → List Pool → List Pool
unfolding give_back
kfree mem size [] = []
kfree mem size (p ∷ ps) =
    let rest = kfree mem size ps in
    if leb size p.objsize then record p { buckets = give_back mem p.buckets } ∷ ps else p ∷ rest
