-- ===== src/Gate/Spin/Moves.antt =====
-- InflightGuard.h: what a step of one thread does to it, to the shard and to another thread.
use seckill_cpp.Base.{
  ℕ, Bool, true, false, ◌&&◌, ◌==◌, ◌∷◌, ◌≡◌, refl, ◌∙◌, sym, arith, inl, inr, Bool-cases,
}
use seckill_cpp.Gate.{contains, erase}
use seckill_cpp.Gate.Words.{contains-erase}
use seckill_cpp.Gate.Spin.{
  Shard, Pc, idle, locking, inside, looked, leaving, owning, returning, erasing, left, test_and_set,
  unlock, move, critical, owns,
}

and_false : (b : Bool) → (b && false) ≡ false
and_false true = refl
and_false false = refl

-- What a look-up has seen is still so.
abbrev pub Fresh : Pc → Shard → Type 0
Fresh (looked k seen) m = contains k m.keys ≡ seen
Fresh _ m = Unit {0}

-- A thread and the shard.
pub record Solo (m : Shard) (p : Pc) : Type 0 where
  pub locked : critical p ≡ true → m.flag ≡ true
  pub listed : (k : ℕ) → owns p k ≡ true → contains k m.keys ≡ true
  pub fresh : Fresh p m

-- Two threads.
pub record Apart (p q : Pc) : Type 0 where
  pub alone : (critical p && critical q) ≡ false
  pub disjoint : (k : ℕ) → (owns p k && owns q k) ≡ false

Fresh-outside : (q : Pc) (m : Shard) → critical q ≡ false → Fresh q m
Fresh-outside (looked k seen) m h = absurd (cc)
Fresh-outside _ m h = tt

Fresh-flag : (q : Pc) (m : Shard) (b : Bool) → Fresh q m → Fresh q (record m { flag = b })
Fresh-flag (looked k seen) m b h = h
Fresh-flag _ m b h = tt

-- A thread outside the lock, while the shard changes and keeps the keys that the thread owns.
outside-Solo :
    (q : Pc) (m m' : Shard)
    → critical q ≡ false
    → ((k : ℕ) → owns q k ≡ true → contains k m.keys ≡ true → contains k m'.keys ≡ true)
    → Solo m q
    → Solo m' q
outside-Solo q m m' out kept v = record {
  locked = λ h. absurd (cc);
  listed = λ k h. kept k h (v.listed k h);
  fresh = Fresh-outside q m' out;
}

-- A thread at the loop of `lock`, and what it owns where it goes on.
grab-Solo :
    (flag : Bool) (wait next : Pc) (m : Shard)
    → Solo m wait
    → ((k : ℕ) → owns next k ≡ owns wait k)
    → Fresh next (record m { flag = true })
    → Solo (test_and_set flag wait next m).1 (test_and_set flag wait next m).0
unfolding test_and_set
grab-Solo true wait next m v same fresh = v
grab-Solo false wait next m v same fresh = record {
  locked = λ h. refl;
  listed = λ k h. v.listed k (sym (same k) ∙ h);
  fresh = fresh;
}

-- A thread that moves.
pub move-Solo : (w : ℕ) (p : Pc) (m : Shard) → Solo m p → Solo (move w p m).1 (move w p m).0
unfolding move unlock contains
move-Solo w idle m v = record { locked = λ h. absurd (cc); listed = λ k h. absurd (cc); fresh = tt }
move-Solo w (locking k) m v = grab-Solo m.flag (locking k) (inside k) m v (λ j. refl) tt
move-Solo w (inside k) m v = record {
  locked = λ h. v.locked refl;
  listed = λ j h. absurd (cc);
  fresh = refl;
}
move-Solo w (looked k true) m v = record {
  locked = λ h. v.locked refl;
  listed = λ j h. absurd (cc);
  fresh = tt;
}
move-Solo w (looked k false) m v = record {
  locked = λ h. v.locked refl;
  listed = λ j h. rw h;
  fresh = tt;
}
move-Solo w (leaving k true) m v = record {
  locked = λ h. absurd (cc);
  listed = v.listed;
  fresh = tt;
}
move-Solo w (leaving k false) m v = record {
  locked = λ h. absurd (cc);
  listed = λ j h. absurd (cc);
  fresh = tt;
}
move-Solo w (owning k) m v = record { locked = λ h. absurd (cc); listed = v.listed; fresh = tt }
move-Solo w (returning k) m v = grab-Solo m.flag (returning k) (erasing k) m v (λ j. refl) tt
move-Solo w (erasing k) m v = record {
  locked = λ h. v.locked refl;
  listed = λ j h. absurd (cc);
  fresh = tt;
}
move-Solo w left m v = record { locked = λ h. absurd (cc); listed = λ j h. absurd (cc); fresh = tt }

grab-others :
    (flag : Bool) (wait next : Pc) (m : Shard) (q : Pc)
    → Solo m q
    → Solo (test_and_set flag wait next m).1 q
unfolding test_and_set
grab-others true wait next m q v = v
grab-others false wait next m q v = record {
  locked = λ h. refl;
  listed = v.listed;
  fresh = Fresh-flag q m true v.fresh;
}

unlock-others :
    (m : Shard) (q : Pc) → critical q ≡ false → Solo m q → Solo (record m { flag = false }) q
unlock-others m q out v = outside-Solo q m (record m { flag = false }) out (λ k o h. h) v

put-others :
    (k : ℕ) (m : Shard) (q : Pc)
    → critical q ≡ false
    → Solo m q
    → Solo (record m { keys = k ∷ m.keys }) q
unfolding contains
put-others k m q out v =
    outside-Solo q m (record m { keys = k ∷ m.keys }) out (λ j o h. ground (arith, h)) v

erase-others :
    (k : ℕ) (m : Shard) (q : Pc)
    → Apart (erasing k) q
    → Solo m q
    → Solo (record m { keys = erase k m.keys }) q
erase-others k m q a v =
    outside-Solo q m (record m { keys = erase k m.keys }) a.alone
      (λ j o h. ground (arith, contains-erase j k m.keys, a.disjoint j, o, h)) v

-- A thread that does not move.
pub move-others : (w : ℕ) (p q : Pc) (m : Shard) → Apart p q → Solo m q → Solo (move w p m).1 q
unfolding move unlock
move-others w idle q m a v = v
move-others w (locking k) q m a v = grab-others m.flag (locking k) (inside k) m q v
move-others w (inside k) q m a v = v
move-others w (looked k true) q m a v = v
move-others w (looked k false) q m a v = put-others k m q a.alone v
move-others w (leaving k true) q m a v = unlock-others m q a.alone v
move-others w (leaving k false) q m a v = unlock-others m q a.alone v
move-others w (owning k) q m a v = v
move-others w (returning k) q m a v = grab-others m.flag (returning k) (erasing k) m q v
move-others w (erasing k) q m a v = erase-others k m q a v
move-others w left q m a v = unlock-others m q a.alone v

grab-Apart :
    (flag : Bool) (wait next : Pc) (m : Shard) (q : Pc)
    → m.flag ≡ flag
    → ((k : ℕ) → owns next k ≡ owns wait k)
    → Solo m q
    → Apart wait q
    → Apart (test_and_set flag wait next m).0 q
unfolding test_and_set
grab-Apart true wait next m q e same v a = a
grab-Apart false wait next m q e same v a = elim (Bool-cases (critical q)) [
  | inl busy ↦ absurd (ground (arith, e, v.locked busy))
  | inr out ↦ record {
    alone = rw out (and_false (critical next));
    disjoint = λ k. rw (same k) (a.disjoint k);
  }
]

-- The two of them.
pub move-Apart :
    (w : ℕ) (p q : Pc) (m : Shard) → Solo m p → Solo m q → Apart p q → Apart (move w p m).0 q
unfolding move unlock
move-Apart w idle q m v u a = record { alone = refl; disjoint = λ j. refl }
move-Apart w (locking k) q m v u a =
    grab-Apart m.flag (locking k) (inside k) m q refl (λ j. refl) u a
move-Apart w (inside k) q m v u a = record { alone = a.alone; disjoint = λ j. refl }
move-Apart w (looked k true) q m v u a = record { alone = a.alone; disjoint = λ j. refl }
move-Apart w (looked k false) q m v u a = record {
  alone = a.alone;
  disjoint = λ j. elim (Bool-cases (owns q j)) [
    | inr no_key ↦ rw no_key (and_false (j == k))
    | inl mine ↦ ground (arith, v.fresh, u.listed j mine)
  ];
}
move-Apart w (leaving k true) q m v u a = record { alone = refl; disjoint = a.disjoint }
move-Apart w (leaving k false) q m v u a = record { alone = refl; disjoint = λ j. refl }
move-Apart w (owning k) q m v u a = record { alone = a.alone; disjoint = a.disjoint }
move-Apart w (returning k) q m v u a =
    grab-Apart m.flag (returning k) (erasing k) m q refl (λ j. refl) u a
move-Apart w (erasing k) q m v u a = record { alone = a.alone; disjoint = λ j. refl }
move-Apart w left q m v u a = record { alone = refl; disjoint = λ j. refl }
