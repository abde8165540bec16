-- ===== src/Order/Shop/Flights.antt =====
-- Requests in flight whose keys do not clash: which keys they use, and what removing one does.
use seckill_cpp.Base.{
  ℕ, zero, suc, Bool, true, false, not, ◌&&◌, ◌||◌, some, List, [], ◌∷◌, get_elem?, ◌≡◌, arith,
}
use seckill_cpp.Gate.{Mode, is_none, make_key}
use seckill_cpp.Gate.Held.{clash_in}
use seckill_cpp.Order.Shop.{Flight, remove_at}

-- Clashing is an equivalence in every mode but `None`.
pub clash_refl : (m : Mode) (b j : ℕ) → is_none m ≡ false → clash_in m b j j ≡ true
clash_refl m b j h = ground arith

clash_sym : (m : Mode) (b j k : ℕ) → clash_in m b j k ≡ true → clash_in m b k j ≡ true
clash_sym m b j k h = ground arith

clash_trans :
    (m : Mode) (b i j k : ℕ)
    → clash_in m b i j ≡ true
    → clash_in m b j k ≡ true
    → clash_in m b i k ≡ true
clash_trans m b i j k h l = ground arith

abbrev pub key_of : Flight → ℕ
key_of f = make_key f.user f.sku

module _ (m : Mode) (bits : ℕ) where
  -- Whether a request in flight clashes with the key.
  unfoldable pub in_use : ℕ → List Flight → Bool
  in_use j [] = false
  in_use j (f ∷ fs) = clash_in m bits j (key_of f) || in_use j fs

  -- No two requests in flight clash, and each holds the token of its own key.
  abbrev pub Apart : List Flight → Type 0
  Apart [] = Unit {0}
  Apart (f ∷ fs) = (in_use (key_of f) fs ≡ false) × (f.token ≡ some (key_of f)) × Apart fs

  in_use_clash :
      (j k : ℕ) (fs : List Flight)
      → clash_in m bits j k ≡ true
      → in_use j fs ≡ true
      → in_use k fs ≡ true
  unfolding in_use
  in_use_clash j k [] h u = u
  in_use_clash j k (f ∷ fs) h u =
      ground
        (arith, in_use_clash j k fs h, clash_sym m bits j k h, clash_trans m bits k j (key_of f))

  pub in_use_at :
      (j i : ℕ) (fs : List Flight) (f : Flight)
      → get_elem? fs i ≡ some f
      → clash_in m bits j (key_of f) ≡ true
      → in_use j fs ≡ true
  unfolding in_use
  in_use_at j i [] f e h = absurd (cc)
  in_use_at j zero (f' ∷ fs) f e h = ground arith
  in_use_at j (suc i) (f' ∷ fs) f e h = ground (arith, in_use_at j i fs f e h)

  pub in_use-remove_at :
      (j i : ℕ) (fs : List Flight) (f : Flight)
      → Apart fs
      → get_elem? fs i ≡ some f
      → in_use j (remove_at i fs) ≡ (not (clash_in m bits j (key_of f)) && in_use j fs)
  unfolding in_use remove_at
  in_use-remove_at j i [] f a e = absurd (cc)
  in_use-remove_at j zero (f' ∷ fs) f a e = ground (arith, in_use_clash j (key_of f) fs)
  in_use-remove_at j (suc i) (f' ∷ fs) f a e = ground (
    arith,
    in_use-remove_at j i fs f a.2 e,
    in_use_at (key_of f') i fs f e,
    clash_sym m bits j (key_of f'),
    clash_trans m bits (key_of f') j (key_of f),
  )

  pub Apart-remove_at :
      (i : ℕ) (fs : List Flight) (f : Flight)
      → Apart fs
      → get_elem? fs i ≡ some f
      → Apart (remove_at i fs)
  unfolding remove_at
  Apart-remove_at i [] f a e = tt
  Apart-remove_at zero (f' ∷ fs) f a e = a.2
  Apart-remove_at (suc i) (f' ∷ fs) f a e =
      (ground (arith, in_use-remove_at (key_of f') i fs f a.2 e), a.1, Apart-remove_at i fs f a.2 e)

  pub token_at :
      (i : ℕ) (fs : List Flight) (f : Flight)
      → Apart fs
      → get_elem? fs i ≡ some f
      → f.token ≡ some (key_of f)
  token_at i [] f a e = absurd (cc)
  token_at zero (f' ∷ fs) f a e = ground (arith, a.1)
  token_at (suc i) (f' ∷ fs) f a e = token_at i fs f a.2 e
