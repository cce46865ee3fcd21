-- ===== src/Stock/Level/Parallel/Steps.antt =====
-- What a step of one thread does to the level and the count.
use native.Mathlib.Nat.{mul-le-mul_right}
use cross_pilot.Prelude.{
  leb, ◌==◌, if◌then◌else◌, leb→le, Bool-cases, ℕ, zero, suc, ◌+◌, ◌-◌, ◌*◌, ◌≤◌, ◌<◌, ◌≡◌, refl,
  inl, inr, true, false, List, [], ◌∷◌, arith,
}
use cross_pilot.Prelude.Int.{pos, ◌+ℤ◌, ◌-ℤ◌}
use cross_pilot.Prelude.Result.{ok}
use cross_pilot.Stock.Level.{applied, insufficient, StockLevel, try_reserve}
use cross_pilot.Stock.Level.Parallel.{Attempt, trying, won, loaded, over, attempt_step}

-- The bin after `k` reservations of `q` from `a` goods.
abbrev pub at : ℕ → ℕ → ℕ → StockLevel
at a q k = record { available = pos a; occupied = pos (k * q); version = k }

reserve-fits :
    (a q k : ℕ) → (k + 1) * q ≤ a → try_reserve (at a q k) (pos q) k ≡ ok (at a q (k + 1), applied)
unfolding try_reserve ◌+ℤ◌ ◌-ℤ◌
reserve-fits a q k h = let e : (k + 1) * q ≡ k * q + q = omega arith in ground arith

reserve-full :
    (a q k : ℕ) → a < (k + 1) * q → try_reserve (at a q k) (pos q) k ≡ ok (at a q k, insufficient)
unfolding try_reserve ◌-ℤ◌
reserve-full a q k h = let e : (k + 1) * q ≡ k * q + q = omega arith in ground arith

-- Whether a thread holds goods, and whether it has counted them.
abbrev pub holds : Attempt → ℕ
holds (trying rounds) = 0
holds won = 1
holds (loaded m) = 1
holds (over true) = 1
holds (over false) = 0

abbrev pub counted : Attempt → ℕ
counted (over true) = 1
counted t = 0

abbrev pub total_of : (Attempt → ℕ) → List Attempt → ℕ
total_of f [] = 0
total_of f (t ∷ ts) = f t + total_of f ts

-- With `s` reservations and `o` raised counts: a thread that tries has a round left, what a thread has
-- read is no more than the counts raised, and one that gave up found the goods taken.
abbrev pub ThreadOk : ℕ → ℕ → ℕ → ℕ → Attempt → Type 0
ThreadOk a q s o (trying rounds) = 1 ≤ rounds
ThreadOk a q s o won = Unit
ThreadOk a q s o (loaded m) = m ≤ o
ThreadOk a q s o (over true) = Unit
ThreadOk a q s o (over false) = a < (s + 1) * q

pub ThreadOk-later :
    (a q s s' o o' : ℕ)
    → s ≤ s'
    → o ≤ o'
    → (t : Attempt) → ThreadOk a q s o t
    → ThreadOk a q s' o' t
ThreadOk-later a q s s' o o' hs ho (trying rounds) h = h
ThreadOk-later a q s s' o o' hs ho won h = tt
ThreadOk-later a q s s' o o' hs ho (loaded m) h = omega arith
ThreadOk-later a q s s' o o' hs ho (over true) h = tt
ThreadOk-later a q s s' o o' hs ho (over false) h = omega (arith, mul-le-mul_right q hs)

-- The steps that a thread may still need.
abbrev pub turns : Attempt → ℕ
turns (trying rounds) = 3
turns won = 2
turns (loaded m) = 1
turns (over b) = 0

unfoldable pub turns_at : ℕ → List Attempt → ℕ
turns_at j [] = 0
turns_at zero (t ∷ ts) = turns t
turns_at (suc j) (t ∷ ts) = turns_at j ts

-- How often a place is in a schedule.
unfoldable pub count : ℕ → List ℕ → ℕ
count j [] = 0
count j (i ∷ schedule) = (if i == j then 1 else 0) + count j schedule

-- One step of a thread, from `s` reservations, `o` raised counts and the count `n`.
pub record Advance (a q s o n : ℕ) (t : Attempt) : Type 0 where
  pub to : Attempt
  pub s' : ℕ
  pub o' : ℕ
  pub n' : ℕ
  pub run : attempt_step (pos q) t (at a q s, n) ≡ ok (to, (at a q s', n'))
  pub grown : (s ≤ s') × (o ≤ o') × (s' * q ≤ a) × (n' ≤ o')
  pub sums : (s' + holds t ≡ s + holds to) × (o' + counted t ≡ o + counted to)
  pub quicker : turns to ≤ turns t - 1
  pub fine : ThreadOk a q s' o' to

pub advance :
    (a q s o n : ℕ) (t : Attempt) → s * q ≤ a → n ≤ o → ThreadOk a q s o t → Advance a q s o n t
unfolding attempt_step
advance a q s o n (trying zero) fit le h = absurd (omega (arith, h))
advance a q s o n (trying (suc rounds)) fit le h = elim (Bool-cases (leb ((s + 1) * q) a)) [
  | inl yet ↦
      let fits : (s + 1) * q ≤ a = leb→le _ _ yet in
      record {
        to = won;
        s' = s + 1;
        o' = o;
        n' = n;
        run = rw (reserve-fits a q s fits) refl;
        grown = (omega arith, omega arith, fits, le);
        sums = (omega arith, omega arith);
        quicker = omega arith;
        fine = tt;
      }
  | inr full ↦
      let taken : a < (s + 1) * q = ground arith in
      record {
        to = over false;
        s' = s;
        o' = o;
        n' = n;
        run = rw (reserve-full a q s taken) refl;
        grown = (omega arith, omega arith, fit, le);
        sums = (omega arith, omega arith);
        quicker = omega arith;
        fine = taken;
      }
]
advance a q s o n won fit le h = record {
  to = loaded n;
  s' = s;
  o' = o;
  n' = n;
  run = refl;
  grown = (omega arith, omega arith, fit, le);
  sums = (omega arith, omega arith);
  quicker = omega arith;
  fine = le;
}
advance a q s o n (loaded m) fit le h = record {
  to = over true;
  s' = s;
  o' = o + 1;
  n' = m + 1;
  run = refl;
  grown = (omega arith, omega arith, fit, omega (arith, h));
  sums = (omega arith, omega arith);
  quicker = omega arith;
  fine = tt;
}
advance a q s o n (over b) fit le h = record {
  to = over b;
  s' = s;
  o' = o;
  n' = n;
  run = refl;
  grown = (omega arith, omega arith, fit, le);
  sums = (refl, refl);
  quicker = omega arith;
  fine = h;
}
