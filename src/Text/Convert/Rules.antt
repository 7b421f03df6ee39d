-- ===== src/Text/Convert/Rules.antt =====
-- Rules for the two loops of the conversions, over any reader and writer.
use foreign_linux.Base.{
  ℕ, zero, suc, ◌+◌, ◌-◌, ◌≤◌, ◌≡◌, ap, ◌∙◌, none, some, List, [], ◌∷◌, ◌++◌, arith, length,
  length-append, All,
}
use foreign_linux.Text.Convert.{len, Reader, Writer, store_loop, count_loop, convert}

-- The code units of a text.
unfoldable pub encode_all : (ℕ → List ℕ) → List ℕ → List ℕ
encode_all enc [] = []
encode_all enc (cp ∷ cps) = enc cp ++ encode_all enc cps

-- One round of a loop, from the equation of the reader.
module _ (read : Reader) (fuel : ℕ) (cp : ℕ) (rest : List ℕ) where
  pub store_loop-step :
      (write : Writer) (l us : List ℕ) (room outlen : ℕ)
      → 1 ≤ length l
      → read l ≡ some (cp, rest)
      → write cp room ≡ some us
      → store_loop read write (suc fuel) l room outlen ≡ (
          let r = store_loop read write fuel rest (room - length us) (outlen + length us) in
          (r.0, us ++ r.1))
  unfolding store_loop
  store_loop-step write [] us room outlen h e w = absurd (omega arith)
  store_loop-step write (x ∷ xs) us room outlen h e w = ground arith

  pub count_loop-step :
      (count : ℕ → ℕ) (l : List ℕ) (outlen : ℕ)
      → 1 ≤ length l
      → read l ≡ some (cp, rest)
      → count_loop read count (suc fuel) l outlen
        ≡ count_loop read count fuel rest (outlen + count cp)
  unfolding count_loop
  count_loop-step count [] outlen h e = absurd (omega arith)
  count_loop-step count (x ∷ xs) outlen h e = rw (e, count_loop)

-- A reader of the encoding form `enc`, on the characters that `Valid` allows.
pub record Reads (read : Reader) (enc : ℕ → List ℕ) (Valid : ℕ → Type 0) : Type 0 where
  pub reads : (cp : ℕ) (rest : List ℕ) → Valid cp → read (enc cp ++ rest) ≡ some (cp, rest)
  pub nonempty : (cp : ℕ) → 1 ≤ length (enc cp)

pub Reads_mono :
    {read : Reader} {enc : ℕ → List ℕ} {V W : ℕ → Type 0}
    → Reads read enc V
    → ((cp : ℕ) → W cp → V cp)
    → Reads read enc W
Reads_mono r sub = record { reads = λ cp rest w. r.reads cp rest (sub cp w); nonempty = r.nonempty }

module _ {read : Reader} {enc : ℕ → List ℕ} {Valid : ℕ → Type 0} (r : Reads read enc Valid) where
  length-cons : (cp : ℕ) (l : List ℕ) → suc (length l) ≤ length (enc cp ++ l)
  length-cons cp l = omega (arith, length-append (enc cp) l, r.nonempty cp)

  -- A well-formed text with enough room is stored whole, and its size returned.
  pub store_loop-encode_all :
      (write : Writer) (enc' : ℕ → List ℕ)
      → ((cp room : ℕ) → Valid cp → length (enc' cp) ≤ room → write cp room ≡ some (enc' cp))
      → (fuel : ℕ) (cps : List ℕ) (room outlen : ℕ) → All Valid cps
      → length (encode_all enc cps) ≤ fuel
      → length (encode_all enc' cps) ≤ room
      → store_loop read write fuel (encode_all enc cps) room outlen
        ≡ (len (outlen + length (encode_all enc' cps)), encode_all enc' cps)
  unfolding store_loop encode_all
  store_loop-encode_all write enc' writes fuel [] room outlen v f h =
      ap (λ n. (len n, [])) (omega arith)
  store_loop-encode_all write enc' writes zero (cp ∷ cps) room outlen v f h =
      absurd (omega (arith, length-cons cp (encode_all enc cps)))
  store_loop-encode_all write enc' writes (suc fuel) (cp ∷ cps) room outlen v f h =
      store_loop-step read fuel cp (encode_all enc cps) write (enc cp ++ encode_all enc cps)
        (enc' cp) room outlen (omega (arith, length-cons cp (encode_all enc cps)))
        (r.reads cp _ v.0)
        (writes cp room v.0 (omega (arith, length-append (enc' cp) (encode_all enc' cps))))
      ∙ rw
          (store_loop-encode_all write enc' writes fuel cps (room - length (enc' cp))
            (outlen + length (enc' cp)) v.1 (omega (arith, length-cons cp (encode_all enc cps)))
            (omega (arith, length-append (enc' cp) (encode_all enc' cps))))
          (ap (λ n. (len n, enc' cp ++ encode_all enc' cps))
            (omega (arith, length-append (enc' cp) (encode_all enc' cps))))

  count_loop-encode_all :
      (count : ℕ → ℕ) (enc' : ℕ → List ℕ)
      → ((cp : ℕ) → Valid cp → count cp ≡ length (enc' cp))
      → (fuel : ℕ) (cps : List ℕ) (outlen : ℕ) → All Valid cps
      → length (encode_all enc cps) ≤ fuel
      → count_loop read count fuel (encode_all enc cps) outlen
        ≡ len (outlen + length (encode_all enc' cps))
  unfolding count_loop encode_all
  count_loop-encode_all count enc' counts fuel [] outlen v f = ap len (omega arith)
  count_loop-encode_all count enc' counts zero (cp ∷ cps) outlen v f =
      absurd (omega (arith, length-cons cp (encode_all enc cps)))
  count_loop-encode_all count enc' counts (suc fuel) (cp ∷ cps) outlen v f =
      count_loop-step read fuel cp (encode_all enc cps) count (enc cp ++ encode_all enc cps) outlen
        (omega (arith, length-cons cp (encode_all enc cps))) (r.reads cp _ v.0)
      ∙ count_loop-encode_all count enc' counts fuel cps (outlen + count cp) v.1
          (omega (arith, length-cons cp (encode_all enc cps)))
      ∙ ap len (omega (arith, counts cp v.0, length-append (enc' cp) (encode_all enc' cps)))

  -- Both arms of a conversion on a well-formed text.
  pub convert-encode_all :
      (write : Writer) (count : ℕ → ℕ) (enc' : ℕ → List ℕ)
      → ((cp room : ℕ) → Valid cp → length (enc' cp) ≤ room → write cp room ≡ some (enc' cp))
      → ((cp : ℕ) → Valid cp → count cp ≡ length (enc' cp))
      → (cps : List ℕ) (dstlen : ℕ) → All Valid cps
      → length (encode_all enc' cps) ≤ dstlen
      → (convert read write count (encode_all enc cps) (some dstlen)
          ≡ (len (length (encode_all enc' cps)), encode_all enc' cps))
        × (convert read write count (encode_all enc cps) none
            ≡ (len (length (encode_all enc' cps)), []))
  unfolding convert
  convert-encode_all write count enc' writes counts cps dstlen v h = (
    store_loop-encode_all write enc' writes _ cps dstlen 0 v (omega arith) h
        ∙ ap (λ n. (len n, encode_all enc' cps)) (omega arith),
    ap (λ n. (n, []))
        (count_loop-encode_all count enc' counts _ cps 0 v (omega arith) ∙ ap len (omega arith)),
  )
