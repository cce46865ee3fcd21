-- ===== src/Sync/States.antt =====
-- The store of states that the workers share: `MemoryJsonKv` and `JsonStateStore` of
-- backend/app/sync_engine/state_store.py. The codec of the states is an argument; a text that it
-- cannot decode, for which the source catches an exception, is none. Before each write of a value the
-- next of the given batches is what other workers have written since it was read.
pub mod Laws
use cross_pilot.Prelude.Text.{String, str_eq, dict_get, dict_set}
use cross_pilot.Prelude.Result.{Result, ok, err}
use cross_pilot.Prelude.{
  if◌then◌else◌, ℕ, zero, suc, Bool, true, false, Option, none, some, List, [], ◌∷◌,
}

-- `_MAX_ATTEMPTS`
abbrev pub max_attempts : ℕ
max_attempts = 8

pub data StoreError : Type 0 where
  store_unavailable : StoreError

-- `_encode` and `_decode`
pub record Codec (A : Type 0) : Type 0 where
  pub encode : A → String
  pub decode : String → Option A

-- `_values`
abbrev pub Kv : Type 0
Kv = List (String × String)

abbrev pub same_text : Option String → Option String → Bool
same_text none none = true
same_text (some a) (some b) = str_eq a b
same_text a b = false

-- `MemoryJsonKv.compare_set`
unfoldable pub compare_set : String → Option String → String → Kv → Bool × Kv
compare_set key expected value kv =
    if same_text (dict_get key kv) expected then (true, dict_set key value kv) else (false, kv)

unfoldable pub write_all : List (String × String) → Kv → Kv
write_all [] kv = kv
write_all (w ∷ ws) kv = write_all ws (dict_set w.0 w.1 kv)

-- What the other workers do before the next write, and what they do after it.
abbrev pub Others : Type 0
Others = List (List (String × String))

abbrev pub meanwhile : Others → Kv → Kv
meanwhile [] kv = kv
meanwhile (batch ∷ others) kv = write_all batch kv

abbrev pub afterwards : Others → Others
afterwards [] = []
afterwards (batch ∷ others) = others

module _ {A : Type 0} (codec : Codec A) where
  abbrev pub decode_raw : Option String → Option A
  decode_raw none = none
  decode_raw (some raw) = codec.decode raw

  -- `JsonStateStore.read`
  abbrev pub read_state : String → Kv → Option A
  read_state key kv = decode_raw (dict_get key kv)

  -- `JsonStateStore.update`, with the attempts that it has left
  unfoldable pub update_state : ℕ → String → (Option A → A) → Others → Kv → Result StoreError A × Kv
  update_state zero key mutator others kv = (err store_unavailable, kv)
  update_state (suc left) key mutator others kv =
      let raw = dict_get key kv in
      let new_state = mutator (decode_raw raw) in
      let written = compare_set key raw (codec.encode new_state) (meanwhile others kv) in
      let again = update_state left key mutator (afterwards others) written.1 in
      if written.0 then (ok new_state, written.1) else again
