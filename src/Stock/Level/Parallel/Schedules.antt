-- ===== src/Stock/Level/Parallel/Schedules.antt =====
-- What a schedule of steps does to the threads, the level and the count.
use cross_pilot.Prelude.{
  length, All, All-map, ℕ, zero, suc, ◌+◌, ◌-◌, ◌*◌, ◌≤◌, ◌≡◌, refl, ap, ◌∙◌, List, [], ◌∷◌, arith,
}
use cross_pilot.Prelude.Int.{pos}
use cross_pilot.Prelude.Result.{Result, ok}
use cross_pilot.Stock.Level.{ValueError}
use cross_pilot.Stock.Level.Parallel.{Attempt, Shared, step_at, run_schedule}
use cross_pilot.Stock.Level.Parallel.Steps.{
  at, holds, counted, total_of, ThreadOk, ThreadOk-later, turns, turns_at, count, advance,
}

-- Steps of threads, one after another.
pub record Advances (a q s o n : ℕ) (steps : List ℕ) (ts : List Attempt)
    (r : Result ValueError (List Attempt × Shared)) : Type 0 where
  pub to : List Attempt
  pub s' : ℕ
  pub o' : ℕ
  pub n' : ℕ
  pub run : r ≡ ok (to, (at a q s', n'))
  pub grown : (s ≤ s') × (o ≤ o') × (s' * q ≤ a) × (n' ≤ o')
  pub sums :
      (s' + total_of holds ts ≡ s + total_of holds to)
      × (o' + total_of counted ts ≡ o + total_of counted to)
  pub many : length to ≡ length ts
  pub turned : (j : ℕ) → turns_at j to ≤ turns_at j ts - count j steps
  pub fine : All (ThreadOk a q s' o') to

stay :
    (a q s o n : ℕ) (ts : List Attempt)
    → s * q ≤ a
    → n ≤ o
    → All (ThreadOk a q s o) ts
    → Advances a q s o n [] ts (ok (ts, (at a q s, n)))
stay a q s o n ts fit le h = record {
  to = ts;
  s' = s;
  o' = o;
  n' = n;
  run = refl;
  grown = (omega arith, omega arith, fit, le);
  sums = (refl, refl);
  many = refl;
  turned = λ j. unfold count in omega arith;
  fine = h;
}

turned_here :
    (t to : Attempt) (ts : List Attempt)
    → turns to ≤ turns t - 1
    → (j : ℕ) → turns_at j (to ∷ ts) ≤ turns_at j (t ∷ ts) - count j (zero ∷ [])
unfolding turns_at count
turned_here t to ts h zero = ground (arith, h)
turned_here t to ts h (suc j) = ground arith

turned_later :
    (i : ℕ) (t : Attempt) (ts to : List Attempt)
    → ((j : ℕ) → turns_at j to ≤ turns_at j ts - count j (i ∷ []))
    → (j : ℕ) → turns_at j (t ∷ to) ≤ turns_at j (t ∷ ts) - count j (suc i ∷ [])
unfolding turns_at count
turned_later i t ts to h zero = ground arith
turned_later i t ts to h (suc j) = ground (arith, h j)

turned_twice :
    (i j : ℕ) (schedule : List ℕ) (m k l : ℕ)
    → k ≤ m - count j (i ∷ [])
    → l ≤ k - count j schedule
    → l ≤ m - count j (i ∷ schedule)
unfolding count
turned_twice i j schedule m k l h h' = omega (arith, h, h')

advance_at :
    (a q s o n i : ℕ) (ts : List Attempt)
    → s * q ≤ a
    → n ≤ o
    → All (ThreadOk a q s o) ts
    → Advances a q s o n (i ∷ []) ts (step_at (pos q) i ts (at a q s, n))
unfolding step_at
advance_at a q s o n i [] fit le h = record {
  to = [];
  s' = s;
  o' = o;
  n' = n;
  run = refl;
  grown = (omega arith, omega arith, fit, le);
  sums = (refl, refl);
  many = refl;
  turned = λ j. unfold turns_at in omega arith;
  fine = tt;
}
advance_at a q s o n zero (t ∷ ts) fit le h =
    let one = advance a q s o n t fit le h.0 in
    record {
      to = one.to ∷ ts;
      s' = one.s';
      o' = one.o';
      n' = one.n';
      run = rw one.run refl;
      grown = one.grown;
      sums = (omega (arith, one.sums.0), omega (arith, one.sums.1));
      many = refl;
      turned = turned_here t one.to ts one.quicker;
      fine = (
        one.fine,
        All-map (ThreadOk a q s o) (ThreadOk a q one.s' one.o') ts
            (ThreadOk-later a q s one.s' o one.o' one.grown.0 one.grown.1) h.1,
      );
    }
advance_at a q s o n (suc i) (t ∷ ts) fit le h =
    let rest = advance_at a q s o n i ts fit le h.1 in
    record {
      to = t ∷ rest.to;
      s' = rest.s';
      o' = rest.o';
      n' = rest.n';
      run = rw rest.run refl;
      grown = rest.grown;
      sums = (omega (arith, rest.sums.0), omega (arith, rest.sums.1));
      many = ap suc rest.many;
      turned = turned_later i t ts rest.to rest.turned;
      fine = (ThreadOk-later a q s rest.s' o rest.o' rest.grown.0 rest.grown.1 t h.0, rest.fine);
    }

pub run_schedule-Advances :
    (a q s o n : ℕ) (schedule : List ℕ) (ts : List Attempt)
    → s * q ≤ a
    → n ≤ o
    → All (ThreadOk a q s o) ts
    → Advances a q s o n schedule ts (run_schedule (pos q) schedule ts (at a q s, n))
unfolding run_schedule
run_schedule-Advances a q s o n [] ts fit le h = stay a q s o n ts fit le h
run_schedule-Advances a q s o n (i ∷ schedule) ts fit le h =
    let one = advance_at a q s o n i ts fit le h in
    let rest =
      run_schedule-Advances a q one.s' one.o' one.n' schedule one.to one.grown.2 one.grown.3
        one.fine in
    record {
      to = rest.to;
      s' = rest.s';
      o' = rest.o';
      n' = rest.n';
      run = rw one.run rest.run;
      grown = (
        omega (arith, one.grown.0, rest.grown.0),
        omega (arith, one.grown.1, rest.grown.1),
        rest.grown.2,
        rest.grown.3,
      );
      sums = (omega (arith, one.sums.0, rest.sums.0), omega (arith, one.sums.1, rest.sums.1));
      many = rest.many ∙ one.many;
      turned = λ j. turned_twice i j schedule _ _ _ (one.turned j) (rest.turned j);
      fine = rest.fine;
    }
