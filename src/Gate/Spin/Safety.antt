-- ===== src/Gate/Spin/Safety.antt =====
-- InflightGuard.h: with the spin lock, no two threads hold a key of a shard at once.
use seckill_cpp.Base.{
  ℕ, Bool, true, false, not, ◌&&◌, ◌||◌, ◌==◌, List, [], ◌∷◌, ◌≡◌, refl, ◌∙◌, arith, inl, inr,
  Bool-cases,
}
use seckill_cpp.Gate.{contains}
use seckill_cpp.Gate.Spin.{Pc, move, System, placed, step, run, quiet, critical, owns}
use seckill_cpp.Gate.Spin.Moves.{Solo, Apart, move-Solo, move-others, move-Apart}

implied : (a b : Bool) → (a ≡ true → b ≡ true) → (not a || b) ≡ true
implied true b h = h refl
implied false b h = refl

and_comm : (a b : Bool) → (a && b) ≡ (b && a)
and_comm a b = ground arith

swap-Apart : (p q : Pc) → Apart p q → Apart q p
swap-Apart p q a = record {
  alone = and_comm (critical q) (critical p) ∙ a.alone;
  disjoint = λ k. and_comm (owns q k) (owns p k) ∙ a.disjoint k;
}

pub record Inv (s : System) : Type 0 where
  pub solo : (i : ℕ) → Solo s.mem (s.pc i)
  pub apart : (i j : ℕ) → (i == j) ≡ false → Apart (s.pc i) (s.pc j)

placed_at :
    (P : Pc → Type 0) (pc : ℕ → Pc) (i : ℕ) (p : Pc) (j : ℕ)
    → ((j == i) ≡ true → P p)
    → ((j == i) ≡ false → P (pc j))
    → P (placed pc i p j)
placed_at P pc i p j moved kept = elim (Bool-cases (j == i)) [
  | inl same ↦ rw same (moved same)
  | inr other ↦ rw other (kept other)
]

flip : (i j : ℕ) → (i == j) ≡ false → (j == i) ≡ false
flip i j h = ground (arith, h)

pub step-Inv : (i w : ℕ) (s : System) → Inv s → Inv (step i w s)
unfolding step
step-Inv i w s v = record {
  solo = λ j.
      placed_at (Solo (move w (s.pc i) s.mem).1) s.pc i (move w (s.pc i) s.mem).0 j
        (λ same. move-Solo w (s.pc i) s.mem (v.solo i))
        (λ other. move-others w (s.pc i) (s.pc j) s.mem (v.apart i j (flip j i other)) (v.solo j));
  apart = λ j k h.
      placed_at (λ p. Apart p (placed s.pc i (move w (s.pc i) s.mem).0 k)) s.pc i
        (move w (s.pc i) s.mem).0 j
        (λ same.
          placed_at (Apart (move w (s.pc i) s.mem).0) s.pc i (move w (s.pc i) s.mem).0 k
            (λ same'. absurd (ground (arith, h, same, same'))) (λ other. moved_apart k other))
        (λ other.
          placed_at (Apart (s.pc j)) s.pc i (move w (s.pc i) s.mem).0 k
            (λ same. swap-Apart _ (s.pc j) (moved_apart j other)) (λ other'. v.apart j k h));
}
  where
    moved_apart : (k : ℕ) → (k == i) ≡ false → Apart (move w (s.pc i) s.mem).0 (s.pc k)
    moved_apart k other =
        move-Apart w (s.pc i) (s.pc k) s.mem (v.solo i) (v.solo k) (v.apart i k (flip k i other))

run-Inv : (schedule : List (ℕ × ℕ)) (s : System) → Inv s → Inv (run schedule s)
unfolding run
run-Inv [] s v = v
run-Inv ((i, w) ∷ rest) s v = run-Inv rest (step i w s) (step-Inv i w s v)

pub quiet-Inv : Inv quiet
quiet-Inv = record {
  solo = λ i. record { locked = λ h. absurd (cc); listed = λ k h. absurd (cc); fresh = tt };
  apart = λ i j h. record { alone = refl; disjoint = λ k. refl };
}

-- However the threads interleave, an access to the memory at a time: no two of them are between
-- `lock` and `unlock` at once, and no two of them own a key at once. A key that one owns stands in
-- the set.
pub run_exclusive :
    (schedule : List (ℕ × ℕ)) (i j k : ℕ)
    → (i == j) ≡ false
    → ((critical ((run schedule quiet).pc i) && critical ((run schedule quiet).pc j)) ≡ false)
      × ((owns ((run schedule quiet).pc i) k && owns ((run schedule quiet).pc j) k) ≡ false)
      × ((not (owns ((run schedule quiet).pc i) k) || contains k (run schedule quiet).mem.keys)
          ≡ true)
run_exclusive schedule i j k h =
    let v = run-Inv schedule quiet quiet-Inv in
    let a = v.apart i j h in
    (
      a.alone,
      a.disjoint k,
      implied (owns ((run schedule quiet).pc i) k) (contains k (run schedule quiet).mem.keys)
          ((v.solo i).listed k),
    )
