-- ===== src/Heap/RoundTrip.antt =====
-- src/heap.c: kfree undoes kmalloc.
use foreign_linux.Base.{
  ℕ, ◌+◌, ◌%◌, ◌≤◌, ◌<◌, ◌≡◌, ◌≢◌, refl, sym, ap, ◌∙◌, some, List, [], ◌∷◌, leb, ◌==◌, arith, All,
  ==_refl, Bool-cases, inl, inr, true, false,
}
use foreign_linux.Heap.{
  Bucket, Pool, block_size, bucket_addr, take_slot, give_back, kmalloc, kfree, chain, alloc_bucket,
  count_up, count_down, take_object, visit,
}

-- A bucket of the chain: objects in use, fewer than an `int` counts, and free objects in its block.
pub record IsBucket (b : Bucket) : Type 0 where
  pub used : 1 ≤ b.ref_cnt
  pub bound : b.ref_cnt < 2147483647
  pub inside : All (λ c. bucket_addr c ≡ b.base) b.free

-- The buckets are apart from each other and from the block `fresh`.
unfoldable pub IsChain : ℕ → List Bucket → Type 0
IsChain fresh [] = fresh ≡ fresh
IsChain fresh (b ∷ bs) =
    IsBucket b × (fresh ≢ b.base) × All (λ x. x.base ≢ b.base) bs × IsChain fresh bs

other : (a b : ℕ) → b ≢ a → (a == b) ≡ false
other a b n = ground arith

give_back-last :
    (b : Bucket) (mem : ℕ)
    → (b.base == bucket_addr mem) ≡ true
    → b.ref_cnt ≡ 1
    → give_back mem (b ∷ []) ≡ []
unfolding give_back
give_back-last b mem t u = rw (t, u) refl

module _ (header objsize fresh : ℕ) (aligned : fresh % block_size ≡ 0)
    (small : header < block_size) where
  first_object-block : bucket_addr (fresh + header) ≡ fresh
  first_object-block = omega arith

  visit-apart :
      (a : ℕ) (free : List ℕ) (b : Bucket) (next : ℕ × List Bucket) (bs : List Bucket)
      → All (λ c. bucket_addr c ≡ b.base) free
      → b.base ≢ a
      → bucket_addr next.0 ≢ a
      → bucket_addr (visit free b next bs).0 ≢ a
  visit-apart a [] b next bs i h n = n
  visit-apart a (c ∷ cs) b next bs i h n = λ e. h (sym i.0 ∙ e)

  -- The slot lies in a block of the chain or in the fresh one.
  take_slot-apart :
      (a : ℕ) (bs : List Bucket)
      → IsChain fresh bs
      → fresh ≢ a
      → All (λ x. x.base ≢ a) bs
      → bucket_addr (take_slot header objsize fresh bs).0 ≢ a
  unfolding take_slot IsChain
  take_slot-apart a [] c f h = λ e. f (sym first_object-block ∙ e)
  take_slot-apart a (b ∷ bs) (i, g, d, c) f (h, k) =
      visit-apart a b.free b (take_slot header objsize fresh bs) bs i.inside h
        (take_slot-apart a bs c f k)

  give_back-visit :
      (free : List ℕ) (b : Bucket) (next : ℕ × List Bucket) (bs : List Bucket)
      → b.free ≡ free
      → IsBucket b
      → All (λ c. bucket_addr c ≡ b.base) free
      → bucket_addr next.0 ≢ b.base
      → give_back next.0 next.1 ≡ bs
      → give_back (visit free b next bs).0 (visit free b next bs).1 ≡ b ∷ bs
  unfolding give_back
  give_back-visit [] b next bs e i k n r =
      let t : (b.base == bucket_addr next.0) ≡ false = other b.base (bucket_addr next.0) n in
      rw (t, r) refl
  give_back-visit (c ∷ cs) b next bs e i k n r =
      let t : (b.base == bucket_addr c) ≡ true = rw (k.0) (==_refl b.base) in
      let d : count_down (count_up b.ref_cnt) ≡ b.ref_cnt = omega (arith, i.used, i.bound) in
      let z : (b.ref_cnt == 0) ≡ false = ground (arith, i.used) in rw (t, d, z, ← e) refl

  give_back-take_slot :
      (bs : List Bucket)
      → IsChain fresh bs
      → give_back (take_slot header objsize fresh bs).0 (take_slot header objsize fresh bs).1 ≡ bs
  unfolding take_slot IsChain alloc_bucket
  give_back-take_slot [] c =
      give_back-last (take_object (alloc_bucket header objsize fresh) (chain header objsize fresh))
        (fresh + header) (rw first_object-block (==_refl fresh)) refl
  give_back-take_slot (b ∷ bs) (i, g, d, c) =
      give_back-visit b.free b (take_slot header objsize fresh bs) bs refl i i.inside
        (take_slot-apart b.base bs c g d) (give_back-take_slot bs c)

-- All pools have well-formed chains.
unfoldable pub IsHeap : ℕ → List Pool → Type 0
IsHeap fresh ps = All (λ p. IsChain fresh p.buckets) ps

module _ (header fresh size : ℕ) (p : Pool) (ps : List Pool) where
  kmalloc-fits :
      leb size p.objsize ≡ true
      → kmalloc header fresh size (p ∷ ps) ≡ (
        some (take_slot header p.objsize fresh p.buckets).0,
        record p { buckets = (take_slot header p.objsize fresh p.buckets).1 } ∷ ps,
      )
  unfolding kmalloc
  kmalloc-fits t = rw t refl

  kmalloc-next :
      leb size p.objsize ≡ false
      → kmalloc header fresh size (p ∷ ps)
        ≡ ((kmalloc header fresh size ps).0, p ∷ (kmalloc header fresh size ps).1)
  unfolding kmalloc
  kmalloc-next t = rw t refl

kfree-fits :
    (mem size : ℕ) (p : Pool) (ps : List Pool)
    → leb size p.objsize ≡ true
    → kfree mem size (p ∷ ps) ≡ record p { buckets = give_back mem p.buckets } ∷ ps
unfolding kfree
kfree-fits mem size p ps t = rw t refl

kfree-next :
    (mem size : ℕ) (p : Pool) (ps : List Pool)
    → leb size p.objsize ≡ false
    → kfree mem size (p ∷ ps) ≡ p ∷ kfree mem size ps
unfolding kfree
kfree-next mem size p ps t = rw t refl

kfree-nothing : (header fresh size mem : ℕ) → kfree mem size (kmalloc header fresh size []).1 ≡ []
unfolding kmalloc kfree
kfree-nothing header fresh size mem = refl

some-inj : {a b : ℕ} → some a ≡ some b → a ≡ b
some-inj e = ground arith

-- With a header smaller than a block and a block `fresh` that is aligned and apart from the buckets
-- of the pools: if kmalloc returns an object, kfree of it with the same size makes the pools what
-- they were, the block taken for it given back too.
pub kfree-kmalloc :
    (header fresh size mem : ℕ) (ps : List Pool)
    → fresh % block_size ≡ 0
    → header < block_size
    → IsHeap fresh ps
    → (kmalloc header fresh size ps).0 ≡ some mem
    → kfree mem size (kmalloc header fresh size ps).1 ≡ ps
unfolding IsHeap
kfree-kmalloc header fresh size mem [] a l h e = kfree-nothing header fresh size mem
kfree-kmalloc header fresh size mem (p ∷ ps) a l (c, h) e = elim (Bool-cases (leb size p.objsize)) [
  | inl t ↦
      let bs = (take_slot header p.objsize fresh p.buckets).1 in
      let hit = kmalloc-fits header fresh size p ps t in
      let slot : (take_slot header p.objsize fresh p.buckets).0 ≡ mem =
        some-inj (sym (ap (λ r. r.0) hit) ∙ e) in
      ap (λ r. kfree mem size r.1) hit
      ∙ kfree-fits mem size (record p { buckets = bs }) ps t
      ∙ ap (λ x. record p { buckets = give_back x bs } ∷ ps) (sym slot)
      ∙ ap (λ x. record p { buckets = x } ∷ ps)
          (give_back-take_slot header p.objsize fresh a l p.buckets c)
  | inr t ↦
      let next = kmalloc-next header fresh size p ps t in
      let found : (kmalloc header fresh size ps).0 ≡ some mem = sym (ap (λ r. r.0) next) ∙ e in
      ap (λ r. kfree mem size r.1) next
      ∙ kfree-next mem size p (kmalloc header fresh size ps).1 t
      ∙ ap (λ x. p ∷ x) (kfree-kmalloc header fresh size mem ps a l h found)
]
