-- ===== src/Sync/Bloom/Laws.antt =====
-- The filter never forgets a key.
use native.Mathlib.Nat.{mod-lt}
use cross_pilot.Prelude.Text.{String}
use cross_pilot.Prelude.Result.{Result, ok, err, ◌>>=◌}
use cross_pilot.Prelude.{
  length, All, All-map, ℕ, zero, suc, ◌+◌, ◌*◌, ◌/◌, ◌≤◌, ◌<◌, ◌≡◌, refl, ap, ◌∙◌, Bool, true, List,
  [], ◌∷◌, arith,
}
use cross_pilot.Sync.Bloom.{
  BloomError, Digest, or_one, indexes_from, bloom_indexes, blank_bits, memory_bit_store, set_bit,
  get_bit, enable, read, all, BloomFilter, add, might_contain, remember_all, probably_seen,
  dedup_hint,
}

-- A value was returned, and satisfies `P`.
abbrev pub Succeeds : {E A : Type 0} → (A → Type 0) → Result E A → Type 0
Succeeds P (ok a) = P a
Succeeds P (err e) = ⊥

-- `after` has as many bits as `before`, and all that are set there.
pub record Grows (before after : List Bool) : Type 0 where
  pub size : length after ≡ length before
  pub keeps : (i : ℕ) → get_bit i before ≡ ok true → get_bit i after ≡ ok true

Grows-refl : (bits : List Bool) → Grows bits bits
Grows-refl bits = record { size = refl; keeps = λ i h. h }

Grows-trans : (a b c : List Bool) → Grows a b → Grows b c → Grows a c
Grows-trans a b c h k = record { size = k.size ∙ h.size; keeps = λ i e. k.keeps i (h.keeps i e) }

cons-Grows : (b : Bool) (xs ys : List Bool) → Grows xs ys → Grows (b ∷ xs) (b ∷ ys)
cons-Grows b xs ys h = record { size = ap suc h.size; keeps = at }
  where
    at : (i : ℕ) → get_bit i (b ∷ xs) ≡ ok true → get_bit i (b ∷ ys) ≡ ok true
    at zero e = unfold get_bit in (unfold get_bit in e)
    at (suc i) e = unfold get_bit in h.keeps i e

set-Grows : (b : Bool) (bits : List Bool) → Grows (b ∷ bits) (true ∷ bits)
set-Grows b bits = record { size = refl; keeps = at }
  where
    at : (i : ℕ) → get_bit i (b ∷ bits) ≡ ok true → get_bit i (true ∷ bits) ≡ ok true
    at zero e = unfold get_bit in refl
    at (suc i) e = unfold get_bit in e

abbrev IsLit : ℕ → List Bool → Type 0
IsLit i bits = get_bit i bits ≡ ok true

set_bit-Sets :
    (i : ℕ) (bits : List Bool)
    → i < length bits
    → Succeeds (λ after. IsLit i after × Grows bits after) (set_bit i bits)
unfolding set_bit get_bit
set_bit-Sets i [] h = absurd (omega (arith, h))
set_bit-Sets zero (b ∷ bits) h = (refl, set-Grows b bits)
set_bit-Sets (suc i) (b ∷ bits) h = go (set_bit i bits) (set_bit-Sets i bits (omega (arith, h)))
  where
    go :
        (r : Result BloomError (List Bool))
        → Succeeds (λ after. IsLit i after × Grows bits after) r
        → Succeeds
            (λ after. IsLit (suc i) after × Grows (b ∷ bits) after)
            (r >>= λ rest. ok (b ∷ rest))
    go (ok after) k = (k.0, cons-Grows b bits after k.1)
    go (err e) k = k

enable-Sets :
    (indexes : List ℕ) (bits : List Bool)
    → All (λ i. i < length bits) indexes
    → Succeeds (λ after. All (λ i. IsLit i after) indexes × Grows bits after) (enable indexes bits)
unfolding enable
enable-Sets [] bits h = (tt, Grows-refl bits)
enable-Sets (i ∷ indexes) bits h =
    first (set_bit i bits) (set_bit-Sets i bits h.0)
      (λ after size. enable-Sets indexes after (fits after size))
  where
    fits : (after : List Bool) → length after ≡ length bits → All (λ j. j < length after) indexes
    fits after size = rw size h.1

    then_more :
        (after : List Bool) (r : Result BloomError (List Bool))
        → IsLit i after × Grows bits after
        → Succeeds (λ last. All (λ j. IsLit j last) indexes × Grows after last) r
        → Succeeds (λ last. All (λ j. IsLit j last) (i ∷ indexes) × Grows bits last) r
    then_more after (ok last) k m = ((m.1.keeps i k.0, m.0), Grows-trans bits after last k.1 m.1)
    then_more after (err e) k m = m

    first :
        (r : Result BloomError (List Bool))
        → Succeeds (λ after. IsLit i after × Grows bits after) r
        → ((after : List Bool)
            → length after ≡ length bits
            → Succeeds
                (λ last. All (λ j. IsLit j last) indexes × Grows after last)
                (enable indexes after))
        → Succeeds
            (λ last. All (λ j. IsLit j last) (i ∷ indexes) × Grows bits last)
            (r >>= λ after. enable indexes after)
    first (ok after) k rest = then_more after (enable indexes after) k (rest after k.1.size)
    first (err e) k rest = k

read-IsLit :
    (indexes : List ℕ) (bits : List Bool)
    → All (λ i. IsLit i bits) indexes
    → (read indexes bits >>= λ found. ok (all found)) ≡ ok true
unfolding read all
read-IsLit [] bits h = refl
read-IsLit (i ∷ indexes) bits h = rw (h.0) (go (read indexes bits) (read-IsLit indexes bits h.1))
  where
    go :
        (r : Result BloomError (List Bool))
        → (r >>= λ found. ok (all found)) ≡ ok true
        → ((r >>= λ rest. ok (true ∷ rest)) >>= λ found. ok (all found)) ≡ ok true
    go (ok found) k = k
    go (err e) k = absurd (cc k)

indexes-Bounded :
    (first second bit_size n i : ℕ)
    → 0 < bit_size
    → All (λ j. j < bit_size) (indexes_from first second bit_size n i)
unfolding indexes_from
indexes-Bounded first second bit_size zero i h = tt
indexes-Bounded first second bit_size (suc n) i h =
    (mod-lt (first + i * second) h, indexes-Bounded first second bit_size n (suc i) h)

length-blank_bits : (n : ℕ) → length (blank_bits n) ≡ n
unfolding blank_bits
length-blank_bits zero = refl
length-blank_bits (suc n) = ap suc (length-blank_bits n)

-- The store has a bit for every index.
store_holds : (bit_size : ℕ) → bit_size ≤ length (memory_bit_store bit_size)
unfolding memory_bit_store
store_holds bit_size = rw (length-blank_bits (8 * ((bit_size + 7) / 8))) (omega arith)

bloom_indexes-Bounded :
    (digest : Digest) (key : String) (bit_size hash_count : ℕ)
    → 0 < bit_size
    → bloom_indexes digest key bit_size hash_count
      ≡ ok (indexes_from (digest key).0 (or_one (digest key).1) bit_size hash_count 0)
unfolding bloom_indexes
bloom_indexes-Bounded digest key bit_size hash_count h = ground arith

-- The indexes of a key.
abbrev key_indexes : BloomFilter → String → List ℕ
key_indexes bloom key =
    indexes_from (bloom.digest key).0 (or_one (bloom.digest key).1) bloom.bit_size bloom.hash_count
      0

add-Sets :
    (bloom : BloomFilter) (key : String) (bits : List Bool)
    → 0 < bloom.bit_size
    → bloom.bit_size ≤ length bits
    → Succeeds
        (λ after. All (λ i. IsLit i after) (key_indexes bloom key) × Grows bits after)
        (add bloom key bits)
unfolding add
add-Sets bloom key bits h fits =
    rw (bloom_indexes-Bounded bloom.digest key bloom.bit_size bloom.hash_count h) (
      enable-Sets (key_indexes bloom key) bits (
        All-map (λ i. i < bloom.bit_size) (λ i. i < length bits) (key_indexes bloom key)
          (λ i k. omega (arith, k, fits))
          (indexes-Bounded (bloom.digest key).0 (or_one (bloom.digest key).1) bloom.bit_size
            bloom.hash_count 0 h)))

-- Adding more keys keeps what is set.
remember_all-Grows :
    (bloom : BloomFilter) (keys : List String) (bits : List Bool)
    → 0 < bloom.bit_size
    → bloom.bit_size ≤ length bits
    → Succeeds
        (λ after.
          All (λ key. All (λ i. IsLit i after) (key_indexes bloom key)) keys × Grows bits after)
        (remember_all bloom keys bits)
unfolding remember_all
remember_all-Grows bloom [] bits h fits = (tt, Grows-refl bits)
remember_all-Grows bloom (key ∷ keys) bits h fits =
    go (add bloom key bits) (add-Sets bloom key bits h fits)
      (λ after size. remember_all-Grows bloom keys after h (rw size fits))
  where
    then_more :
        (after : List Bool) (r : Result BloomError (List Bool))
        → All (λ i. IsLit i after) (key_indexes bloom key) × Grows bits after
        → Succeeds
            (λ last.
              All (λ k. All (λ i. IsLit i last) (key_indexes bloom k)) keys × Grows after last)
            r
        → Succeeds
            (λ last.
              All (λ k. All (λ i. IsLit i last) (key_indexes bloom k)) (key ∷ keys)
              × Grows bits last)
            r
    then_more after (ok last) k m = (
      (
        All-map (λ i. IsLit i after) (λ i. IsLit i last) (key_indexes bloom key)
            (λ i e. m.1.keeps i e) k.0,
        m.0,
      ),
      Grows-trans bits after last k.1 m.1,
    )
    then_more after (err e) k m = m

    go :
        (r : Result BloomError (List Bool))
        → Succeeds (λ after. All (λ i. IsLit i after) (key_indexes bloom key) × Grows bits after) r
        → ((after : List Bool)
            → length after ≡ length bits
            → Succeeds
                (λ last.
                  All (λ k. All (λ i. IsLit i last) (key_indexes bloom k)) keys × Grows after last)
                (remember_all bloom keys after))
        → Succeeds
            (λ last.
              All (λ k. All (λ i. IsLit i last) (key_indexes bloom k)) (key ∷ keys)
              × Grows bits last)
            (r >>= λ after. remember_all bloom keys after)
    go (ok after) k rest = then_more after (remember_all bloom keys after) k (rest after k.1.size)
    go (err e) k rest = k

hinted :
    (bloom : BloomFilter) (key : String) (bits : List Bool)
    → 0 < bloom.bit_size
    → All (λ i. IsLit i bits) (key_indexes bloom key)
    → dedup_hint bloom key bits ≡ ok probably_seen
unfolding dedup_hint might_contain
hinted bloom key bits h set =
    rw
      (
        bloom_indexes-Bounded bloom.digest key bloom.bit_size bloom.hash_count h,
        read-IsLit (key_indexes bloom key) bits set,
      )
      refl

-- With a positive number of bits, the remembering of keys from the empty store never raises, and then
-- each of them is hinted as probably seen, whatever was remembered after it and however its digest
-- falls together with those of others.
pub remembered-Seen :
    (bloom : BloomFilter) (keys : List String)
    → 0 < bloom.bit_size
    → Succeeds
        (λ bits. All (λ key. dedup_hint bloom key bits ≡ ok probably_seen) keys)
        (remember_all bloom keys (memory_bit_store bloom.bit_size))
remembered-Seen bloom keys h =
    go (remember_all bloom keys (memory_bit_store bloom.bit_size)) (
      remember_all-Grows bloom keys (memory_bit_store bloom.bit_size) h
        (store_holds bloom.bit_size))
  where
    go :
        (r : Result BloomError (List Bool))
        → Succeeds
            (λ last.
              All (λ key. All (λ i. IsLit i last) (key_indexes bloom key)) keys
              × Grows (memory_bit_store bloom.bit_size) last)
            r
        → Succeeds (λ bits. All (λ key. dedup_hint bloom key bits ≡ ok probably_seen) keys) r
    go (ok bits) k =
        All-map (λ key. All (λ i. IsLit i bits) (key_indexes bloom key))
          (λ key. dedup_hint bloom key bits ≡ ok probably_seen) keys
          (λ key set. hinted bloom key bits h set) k.0
    go (err e) k = k
