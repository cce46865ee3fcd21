-- ===== src/Sync/States/Laws.antt =====
-- An update of a shared state is atomic.
use cross_pilot.Sync.States.{
  max_attempts, StoreError, Codec, Kv, same_text, compare_set, Others, meanwhile, afterwards,
  decode_raw, read_state, update_state,
}
use cross_pilot.Prelude.Text.{String, eq_iff, eq_refl, dict_get, dict_set}
use cross_pilot.Prelude.Result.{Result, ok, err}
use cross_pilot.Prelude.{
  Bool-cases, ℕ, zero, suc, ◌<◌, ◌≡◌, refl, sym, ap, ◌≢◌, inl, inr, true, false, Option, none, some,
  arith,
}

same_text_eq : (a b : Option String) → same_text a b ≡ true → a ≡ b
same_text_eq none none h = refl
same_text_eq none (some b) h = absurd (cc h)
same_text_eq (some a) none h = absurd (cc h)
same_text_eq (some a) (some b) h = ap (λ t. some t) ((eq_iff a b).0 h)

same_text_refl : (a : Option String) → same_text a a ≡ true
same_text_refl none = refl
same_text_refl (some a) = eq_refl a

same_text_ne : (a b : Option String) → same_text a b ≡ false → a ≢ b
same_text_ne a b h e = absurd (cc (rw (e, same_text_refl b) at h))

-- The values after as many batches of the others.
unfoldable pub later : ℕ → Others → Kv → Kv
later zero others kv = kv
later (suc k) others kv = later k (afterwards others) (meanwhile others kv)

module _ {A : Type 0} (codec : Codec A) (key : String) (mutator : Option A → A) where
  -- In each of so many attempts the value changed between its reading and the writing.
  abbrev pub Contended : ℕ → Others → Kv → Type 0
  Contended zero others kv = Unit
  Contended (suc n) others kv =
      (dict_get key (meanwhile others kv) ≢ dict_get key kv)
      × Contended n (afterwards others) (meanwhile others kv)

  -- The update took place at one moment, or was given up because the value changed in each attempt.
  abbrev pub Atomic : ℕ → Others → Kv → Result StoreError A × Kv → Type 0
  Atomic n others kv (ok new, kv') =
      (k : ℕ) × (k < n)
      × (new ≡ mutator (read_state codec key (later (suc k) others kv)))
      × (kv' ≡ dict_set key (codec.encode new) (later (suc k) others kv))
  Atomic n others kv (err e, kv') = (kv' ≡ later n others kv) × Contended n others kv

  later-Atomic :
      (n : ℕ) (others : Others) (kv : Kv) (r : Result StoreError A × Kv)
      → dict_get key (meanwhile others kv) ≢ dict_get key kv
      → Atomic n (afterwards others) (meanwhile others kv) r
      → Atomic (suc n) others kv r
  unfolding later
  later-Atomic n others kv (ok new, kv') moved (k, below, at, write) =
      (suc k, omega arith, at, write)
  later-Atomic n others kv (err e, kv') moved (stays, changes) = (stays, (moved, changes))

  update_state-Atomic :
      (n : ℕ) (others : Others) (kv : Kv)
      → Atomic n others kv (update_state codec n key mutator others kv)
  unfolding update_state compare_set later
  update_state-Atomic zero others kv = (refl, tt)
  update_state-Atomic (suc n) others kv =
      elim (Bool-cases (same_text (dict_get key (meanwhile others kv)) (dict_get key kv))) [
        | inl same ↦
            let e : dict_get key (meanwhile others kv) ≡ dict_get key kv =
              same_text_eq (dict_get key (meanwhile others kv)) (dict_get key kv) same in
            rw same (0, omega arith, ap (λ raw. mutator (decode_raw codec raw)) (sym e), refl)
        | inr other ↦ rw other (
            later-Atomic n others kv
              (update_state codec n key mutator (afterwards others) (meanwhile others kv))
              (same_text_ne (dict_get key (meanwhile others kv)) (dict_get key kv) other)
              (update_state-Atomic n (afterwards others) (meanwhile others kv)))
      ]

  -- An update takes place at one moment: a state that it returns is what the mutator makes of the
  -- value that stood in the store right before the write, whatever others wrote until then, and the
  -- write is all that it changes. It gives up only where the value changed between the reading and the
  -- writing of each of its eight attempts, and then it has written nothing.
  pub update-Atomic :
      (others : Others) (kv : Kv)
      → Atomic max_attempts others kv (update_state codec max_attempts key mutator others kv)
  update-Atomic others kv = update_state-Atomic max_attempts others kv
