-- ===== src/Sync/Bloom.antt =====
-- The Bloom filter over order keys: backend/app/sync_engine/idempotency.py, with its store in memory. The
-- bytes of the store are told by their bits, eight to a byte; the digest of a key is a parameter.
pub mod Laws
use cross_pilot.Prelude.Text.{String}
use cross_pilot.Prelude.Result.{Result, ok, err, ◌>>=◌, ◌>>◌}
use cross_pilot.Prelude.{
  ◌==◌, if◌then◌else◌, ℕ, zero, suc, ◌+◌, ◌*◌, ◌/◌, ◌%◌, Bool, true, false, not, ◌&&◌, List, [],
  ◌∷◌,
}

pub data BloomError : Type 0 where
  index_error division_by_zero : BloomError

-- The two numbers that `bloom_indexes` reads from the digest of a key.
abbrev pub Digest : Type 0
Digest = String → ℕ × ℕ

-- `... or 1`
abbrev pub or_one : ℕ → ℕ
or_one zero = 1
or_one (suc n) = suc n

-- `(first + i * second) % bit_size` for the numbers i from the given one on
unfoldable pub indexes_from : ℕ → ℕ → ℕ → ℕ → ℕ → List ℕ
indexes_from first second bit_size zero i = []
indexes_from first second bit_size (suc n) i =
    ((first + i * second) % bit_size) ∷ indexes_from first second bit_size n (suc i)

unfoldable pub bloom_indexes : Digest → String → ℕ → ℕ → Result BloomError (List ℕ)
unfolding indexes_from
bloom_indexes digest key bit_size hash_count =
    if bit_size == 0 && not (hash_count == 0)
    then err division_by_zero
    else ok (indexes_from (digest key).0 (or_one (digest key).1) bit_size hash_count 0)

unfoldable pub blank_bits : ℕ → List Bool
blank_bits zero = []
blank_bits (suc n) = false ∷ blank_bits n

-- `bytearray((bit_size + 7) // 8)`
unfoldable pub memory_bit_store : ℕ → List Bool
unfolding blank_bits
memory_bit_store bit_size = blank_bits (8 * ((bit_size + 7) / 8))

unfoldable pub set_bit : ℕ → List Bool → Result BloomError (List Bool)
set_bit i [] = err index_error
set_bit zero (b ∷ bits) = ok (true ∷ bits)
set_bit (suc i) (b ∷ bits) = do rest ← set_bit i bits; ok (b ∷ rest)

unfoldable pub get_bit : ℕ → List Bool → Result BloomError Bool
get_bit i [] = err index_error
get_bit zero (b ∷ bits) = ok b
get_bit (suc i) (b ∷ bits) = get_bit i bits

unfoldable pub enable : List ℕ → List Bool → Result BloomError (List Bool)
unfolding set_bit
enable [] bits = ok bits
enable (i ∷ indexes) bits = do bits' ← set_bit i bits; enable indexes bits'

unfoldable pub read : List ℕ → List Bool → Result BloomError (List Bool)
unfolding get_bit
read [] bits = ok []
read (i ∷ indexes) bits = do b ← get_bit i bits; rest ← read indexes bits; ok (b ∷ rest)

unfoldable pub all : List Bool → Bool
all [] = true
all (b ∷ bits) = b && all bits

pub record BloomFilter : Type 0 where
  pub digest : Digest
  pub bit_size : ℕ
  pub hash_count : ℕ

unfoldable pub add : BloomFilter → String → List Bool → Result BloomError (List Bool)
unfolding bloom_indexes enable
add bloom key bits = do
  indexes ← bloom_indexes bloom.digest key bloom.bit_size bloom.hash_count
  enable indexes bits

unfoldable pub might_contain : BloomFilter → String → List Bool → Result BloomError Bool
unfolding bloom_indexes read all
might_contain bloom key bits = do
  indexes ← bloom_indexes bloom.digest key bloom.bit_size bloom.hash_count
  found ← read indexes bits
  ok (all found)

-- `remember`, for one key after the other
unfoldable pub remember_all : BloomFilter → List String → List Bool → Result BloomError (List Bool)
remember_all bloom [] bits = ok bits
remember_all bloom (key ∷ keys) bits = do bits' ← add bloom key bits; remember_all bloom keys bits'

pub data DedupHint : Type 0 where
  probably_new probably_seen : DedupHint

unfoldable pub dedup_hint : BloomFilter → String → List Bool → Result BloomError DedupHint
dedup_hint bloom key bits = do
  seen ← might_contain bloom key bits
  ok (if seen then probably_seen else probably_new)
