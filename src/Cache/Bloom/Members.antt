-- ===== src/Cache/Bloom/Members.antt =====
-- The filter has no false negatives, for all sizes whose words a `size_t` counts.
use seckill_cpp.Base.Double.{Doubles}
use seckill_cpp.Base.{
  ℕ, ◌+◌, ◌*◌, ◌/◌, ◌%◌, ◌^◌, ◌≤◌, ◌<◌, true, false, ltb, ltb→lt, List, [], ◌∷◌, ◌++◌, length,
  length-replicate, ◌≡◌, refl, ◌∙◌, sym, arith, inl, inr, Bool-cases,
}
use seckill_cpp.Cache.Bloom.{
  BloomFilter, create, new_filter, ready, first_hash, second_hash, set_all, test_all, add,
  maybe_contains,
}
use seckill_cpp.Cache.Bloom.Bits.{test_all-Grows, set_all-Grows, length-set_all, set_all-test_all}

-- `add` for each of a list of ids, the order of `rebuildBloom`.
unfoldable pub add_all : List ℕ → BloomFilter → BloomFilter
add_all [] f = f
add_all (x ∷ xs) f = add_all xs (add x f)

record Fits (f : BloomFilter) : Type 0 where
  fits : f.bits_count ≤ 64 * length f.bits

new_filter-Fits : (m k : ℕ) → m + 63 < 2 ^ 64 → Fits (new_filter m k)
unfolding new_filter
new_filter-Fits m k h = record {
  fits = omega (arith, length-replicate {A = ℕ} ((m + 63) % 2 ^ 64 / 64) 0);
}

add_ready :
    (x : ℕ) (f : BloomFilter)
    → 0 < f.bits_count
    → add x f ≡ record f {
      bits = set_all (first_hash x) (second_hash x) f.bits_count f.hashes 0 f.bits;
      added = (f.added + 1) % 2 ^ 64;
    }
unfolding add ready
add_ready x f h = let on : ltb 0 f.bits_count ≡ true = ground arith in rw on

add_unready : (x : ℕ) (f : BloomFilter) → f.bits_count ≡ 0 → add x f ≡ f
unfolding add ready
add_unready x f h = let off : ltb 0 f.bits_count ≡ false = ground arith in rw off

contains_ready :
    (x : ℕ) (f : BloomFilter)
    → 0 < f.bits_count
    → maybe_contains x f ≡ test_all (first_hash x) (second_hash x) f.bits_count f.hashes 0 f.bits
unfolding maybe_contains ready
contains_ready x f h = let on : ltb 0 f.bits_count ≡ true = ground arith in rw on

contains_unready : (x : ℕ) (f : BloomFilter) → f.bits_count ≡ 0 → maybe_contains x f ≡ true
unfolding maybe_contains ready
contains_unready x f h = let off : ltb 0 f.bits_count ≡ false = ground arith in rw off

-- What one more id does to a filter: its sizes stay, and so does every id.
add-keeps :
    (x y : ℕ) (f : BloomFilter)
    → Fits f
    → Fits (add x f)
      × ((maybe_contains x (add x f) ≡ true)
          × (maybe_contains y f ≡ true → maybe_contains y (add x f) ≡ true))
add-keeps x y f v = elim (Bool-cases (ltb 0 f.bits_count)) [
  | inl on ↦
      let p : 0 < f.bits_count = ltb→lt 0 f.bits_count on in
      rw (add_ready x f p) (
        record {
          fits = omega (
            arith,
            v.fits,
            length-set_all (first_hash x) (second_hash x) f.bits_count f.hashes 0 f.bits,
          );
        },
        (
          contains_ready x _ p
              ∙ set_all-test_all (first_hash x) (second_hash x) f.bits_count f.hashes 0 f.bits p
                  v.fits,
          λ h.
              contains_ready y _ p
              ∙ test_all-Grows (first_hash y) (second_hash y) f.bits_count f.hashes 0 f.bits _
                  (set_all-Grows (first_hash x) (second_hash x) f.bits_count f.hashes 0 f.bits p
                    v.fits)
                  (sym (contains_ready y f p) ∙ h),
        ),
      )
  | inr off ↦
      let z : f.bits_count ≡ 0 = ground (arith, off) in
      rw (add_unready x f z) (v, (contains_unready x f z, λ h. h))
]

add_all-keeps :
    (xs : List ℕ) (y : ℕ) (f : BloomFilter)
    → Fits f
    → maybe_contains y f ≡ true
    → maybe_contains y (add_all xs f) ≡ true
unfolding add_all
add_all-keeps [] y f v h = h
add_all-keeps (x ∷ xs) y f v h =
    let (v', (self, keep)) = add-keeps x y f v in add_all-keeps xs y (add x f) v' (keep h)

add_all-Fits : (xs : List ℕ) (f : BloomFilter) → Fits f → Fits (add_all xs f)
unfolding add_all
add_all-Fits [] f v = v
add_all-Fits (x ∷ xs) f v = add_all-Fits xs (add x f) (add-keeps x x f v).0

add_all-append :
    (xs ys : List ℕ) (f : BloomFilter) → add_all (xs ++ ys) f ≡ add_all ys (add_all xs f)
unfolding add_all
add_all-append [] ys f = refl
add_all-append (x ∷ xs) ys f = add_all-append xs ys (add x f)

-- A new filter whose number of words does not wrap, to which any ids are added: it may contain every
-- one of them, also when it has no bits and is not ready.
maybe_contains-add_all :
    (bits hashes : ℕ) (xs ys : List ℕ) (x : ℕ)
    → bits + 63 < 2 ^ 64
    → maybe_contains x (add_all (xs ++ (x ∷ ys)) (new_filter bits hashes)) ≡ true
unfolding add_all
maybe_contains-add_all bits hashes xs ys x h =
    let f : BloomFilter = add_all xs (new_filter bits hashes) in
    let v : Fits f = add_all-Fits xs _ (new_filter-Fits bits hashes h) in
    let (v', (self, keep)) = add-keeps x x f v in
    rw (add_all-append xs (x ∷ ys) (new_filter bits hashes)) (add_all-keeps ys x (add x f) v' self)

pub maybe_contains-create :
    (F : Doubles) (count : ℕ) (rate : F.Double) (xs ys : List ℕ) (x : ℕ)
    → (create F count rate).bits_count + 63 < 2 ^ 64
    → maybe_contains x (add_all (xs ++ (x ∷ ys)) (create F count rate)) ≡ true
unfolding create new_filter
maybe_contains-create F count rate xs ys x h = maybe_contains-add_all _ _ xs ys x h
