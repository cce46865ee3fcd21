-- ===== src/Stock/Level/Parallel/Laws.antt =====
-- What parallel reservations leave, however the threads take turns.
use cross_pilot.Stock.Level.Parallel.Schedules.{run_schedule-Advances}
use native.Mathlib.Decide.{ℕ_discrete}
use mathlib.Core.Path.{subst}
use cross_pilot.Prelude.{
  leb, Bool-cases, length, All, ℕ, zero, suc, ◌+◌, ◌-◌, ◌*◌, ◌≤◌, ◌<◌, ◌≡◌, refl, ap, ◌⊎◌, inl, inr,
  Bool, true, false, ◌&&◌, ◌||◌, List, [], ◌∷◌, arith,
}
use cross_pilot.Prelude.Int.{pos}
use cross_pilot.Prelude.Result.{ok}
use cross_pilot.Stock.Level.Parallel.{
  Attempt, trying, won, loaded, over, run_schedule, new_attempts, simulate_parallel_reserves,
}
use cross_pilot.Stock.Level.Parallel.Steps.{at, holds, counted, total_of, ThreadOk, turns_at, count}

abbrev pub is_running : Attempt → Bool
is_running (over b) = false
is_running t = true

abbrev pub any_running : List Attempt → Bool
any_running [] = false
any_running (t ∷ ts) = is_running t || any_running ts

counted_le : (ts : List Attempt) → total_of counted ts ≤ total_of holds ts
counted_le [] = omega arith
counted_le (trying n ∷ ts) = omega (arith, counted_le ts)
counted_le (won ∷ ts) = omega (arith, counted_le ts)
counted_le (loaded m ∷ ts) = omega (arith, counted_le ts)
counted_le (over true ∷ ts) = omega (arith, counted_le ts)
counted_le (over false ∷ ts) = omega (arith, counted_le ts)

-- When all threads have returned, all hold goods or the goods are taken.
ended_cases :
    (a q s o : ℕ) (ts : List Attempt)
    → All (ThreadOk a q s o) ts
    → (any_running ts ≡ true) ⊎ ((total_of holds ts ≡ length ts) ⊎ (a < (s + 1) * q))
ended_cases a q s o [] h = inr (inl refl)
ended_cases a q s o (trying n ∷ ts) h = inl refl
ended_cases a q s o (won ∷ ts) h = inl refl
ended_cases a q s o (loaded m ∷ ts) h = inl refl
ended_cases a q s o (over false ∷ ts) h = inr (inr h.0)
ended_cases a q s o (over true ∷ ts) h = elim (ended_cases a q s o ts h.1) [
  | inl runs ↦ inl runs
  | inr (inl all) ↦ inr (inl (omega (arith, all)))
  | inr (inr full) ↦ inr (inr full)
]

new_attempts-Ok :
    (a q n : ℕ)
    → All (ThreadOk a q 0 0) (new_attempts n)
      × (length (new_attempts n) ≡ n)
      × (total_of holds (new_attempts n) ≡ 0)
      × (total_of counted (new_attempts n) ≡ 0)
unfolding new_attempts
new_attempts-Ok a q zero = (tt, refl, refl, refl)
new_attempts-Ok a q (suc n) =
    let (fine, many, none_yet, uncounted) = new_attempts-Ok a q n in
    ((omega arith, fine), ap suc many, omega (arith, none_yet), omega (arith, uncounted))

-- Each of the first `n` threads gets three turns.
abbrev pub is_fair : ℕ → List ℕ → Bool
is_fair zero schedule = true
is_fair (suc n) schedule = leb 3 (count n schedule) && is_fair n schedule

fair_count :
    (n j : ℕ) (schedule : List ℕ) → is_fair n schedule ≡ true → j < n → 3 ≤ count j schedule
fair_count zero j schedule h l = absurd (omega arith)
fair_count (suc n) j schedule h l = elim (ℕ_discrete j n) [
  | yes e ↦ rw e (ground (arith, h))
  | no ne ↦ fair_count n j schedule (ground (arith, h)) (omega arith)
]

new_turns :
    (n j : ℕ) → (turns_at j (new_attempts n) ≡ 0) ⊎ ((j < n) × (turns_at j (new_attempts n) ≡ 3))
unfolding turns_at new_attempts
new_turns zero j = inl refl
new_turns (suc n) zero = inr (omega arith, refl)
new_turns (suc n) (suc j) = elim (new_turns n j) [
  | inl e ↦ inl e
  | inr (l, e) ↦ inr (omega (arith, l), e)
]

ended : (ts : List Attempt) → ((j : ℕ) → turns_at j ts ≡ 0) → any_running ts ≡ false
unfolding turns_at
ended [] h = refl
ended (trying rounds ∷ ts) h = absurd (omega (arith, h 0))
ended (won ∷ ts) h = absurd (omega (arith, h 0))
ended (loaded m ∷ ts) h = absurd (omega (arith, h 0))
ended (over b ∷ ts) h = ended ts (λ j. h (suc j))

fair_ends :
    (n : ℕ) (schedule : List ℕ) (ts : List Attempt)
    → ((j : ℕ) → turns_at j ts ≤ turns_at j (new_attempts n) - count j schedule)
    → (is_fair n schedule ≡ false) ⊎ (any_running ts ≡ false)
fair_ends n schedule ts h = elim (Bool-cases (is_fair n schedule)) [
  | inr unfair ↦ inl unfair
  | inl fair ↦ inr (
      ended ts (λ j. elim (new_turns n j) [
        | inl e ↦ omega (arith, h j, e)
        | inr (l, e) ↦ omega (arith, h j, e, fair_count n j schedule fair l)
      ]))
]

-- With `s` threads that hold goods: the level is reserved by exactly them, each of which has raised
-- the version by one, no more is reserved than there is, and the count `k` is no more than `s`. When
-- each attempt has had three turns all have returned, and when all have returned, all attempts hold
-- goods or no more goods were left.
pub record Reserved (a n q : ℕ) (schedule : List ℕ) : Type 0 where
  pub threads : List Attempt
  pub s : ℕ
  pub k : ℕ
  pub run :
      simulate_parallel_reserves (pos a) n (pos q) schedule
      ≡ ok (threads, (record { available = pos a; occupied = pos (s * q); version = s }, k))
  pub holders : total_of holds threads ≡ s
  pub within : s * q ≤ a
  pub count_le : k ≤ s
  pub returned : (is_fair n schedule ≡ false) ⊎ (any_running threads ≡ false)
  pub most : (any_running threads ≡ true) ⊎ ((s ≡ n) ⊎ (a < (s + 1) * q))

-- However the threads of parallel attempts to reserve `q` of `a` goods take turns, nothing raises, the
-- level is reserved by exactly the attempts that were applied, each of which raised the version by
-- one, never for more than the goods, and the count of successes is no more than those attempts. Once
-- each thread has had three turns, all have returned; when all have returned, all were applied or the
-- goods that are left are too few for another.
pub simulate-Reserved : (a n q : ℕ) (schedule : List ℕ) → Reserved a n q schedule
unfolding simulate_parallel_reserves
simulate-Reserved a n q schedule =
    let (fine, many, none_yet, uncounted) = new_attempts-Ok a q n in
    let z : 0 * q ≡ 0 = omega arith in
    let e =
      run_schedule-Advances a q 0 0 0 schedule (new_attempts n) (omega arith) (omega arith) fine in
    record {
      threads = e.to;
      s = e.s';
      k = e.n';
      run =
          subst
            (λ m.
              run_schedule (pos q) schedule (new_attempts n)
                (record { available = pos a; occupied = pos m; version = 0 }, 0)
              ≡ ok (e.to, (at a q e.s', e.n')))
            z e.run;
      holders = omega (arith, e.sums.0, none_yet);
      within = e.grown.2;
      count_le = omega (arith, e.grown.3, e.sums.0, e.sums.1, none_yet, uncounted, counted_le e.to);
      returned = fair_ends n schedule e.to e.turned;
      most = elim (ended_cases a q e.s' e.o' e.to e.fine) [
        | inl runs ↦ inl runs
        | inr (inl all) ↦ inr (inl (omega (arith, all, e.many, many, e.sums.0, none_yet)))
        | inr (inr full) ↦ inr (inr full)
      ];
    }
