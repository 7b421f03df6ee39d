-- ===== src/Heap/Chain.antt =====
-- src/heap.c: the objects of a new bucket, and the end of the last one.
use foreign_linux.Base.{
  ℕ, zero, suc, ◌+◌, ◌-◌, ◌*◌, ◌≤◌, ◌<◌, ◌≡◌, refl, List, [], ◌∷◌, ltb, arith, true,
}
use foreign_linux.Heap.{chain_loop, chain, block_size, first_object}

-- `n` objects of `objsize` bytes, one behind the other, the first one at `c`.
unfoldable pub objects : (n objsize c : ℕ) → List ℕ
objects zero objsize c = []
objects (suc n) objsize c = c ∷ objects n objsize (c + objsize)

le-mul : (n k : ℕ) → 0 < k → n ≤ n * k
le-mul zero k h = omega arith
le-mul (suc n) k h = omega (arith, le-mul n k h)

chain_loop_lem :
    (fuel limit objsize c n rest : ℕ)
    → n < fuel
    → 0 < rest
    → rest ≤ objsize
    → c + n * objsize + rest ≡ limit
    → chain_loop fuel limit objsize c ≡ objects n objsize (c + objsize)
unfolding chain_loop objects
chain_loop_lem zero limit objsize c n rest h p q e = absurd (omega arith)
chain_loop_lem (suc fuel) limit objsize c zero rest h p q e = ground arith
chain_loop_lem (suc fuel) limit objsize c (suc n) rest h p q e =
    let r : c + objsize + n * objsize + rest ≡ limit = omega arith in
    let next = chain_loop_lem fuel limit objsize (c + objsize) n rest (omega arith) p q r in
    let t : ltb (c + objsize) limit ≡ true = ground arith in rw (t, next) refl

-- A new bucket of objects that divide the block has as many objects behind its first one as fit
-- before the end of the block by their start: the last one starts `objsize - header` bytes before
-- the end, so that it reaches `header` bytes beyond it.
pub alloc_bucket-overrun :
    (header objsize fresh n : ℕ)
    → 0 < header
    → header < objsize
    → (n + 1) * objsize ≡ block_size
    → (chain header objsize fresh ≡ objects n objsize (first_object header objsize fresh + objsize))
      × (first_object header objsize fresh + n * objsize + objsize ≡ fresh + block_size + header)
unfolding chain
alloc_bucket-overrun header objsize fresh n h k e = (
  chain_loop_lem block_size (fresh + block_size) objsize (fresh + header) n (objsize - header)
      (omega (arith, le-mul (n + 1) objsize (omega arith))) (omega arith) (omega arith)
      (omega arith),
  omega arith,
)
