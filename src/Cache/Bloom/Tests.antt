-- ===== src/Cache/Bloom/Tests.antt =====
-- A filter with three ids.
use seckill_cpp.Base.{false, [], ◌∷◌, ◌≡◌, refl}
use seckill_cpp.Cache.Bloom.{
  new_filter, add, maybe_contains, splitmix64, set_bit, test_bit, set_all, test_all, first_hash,
  second_hash, index, ready,
}
use seckill_cpp.Cache.Bloom.Members.{add_all}

-- An id that was not added is turned away.
turned_away : maybe_contains 7 (add_all (1001 ∷ 1002 ∷ 1003 ∷ []) (new_filter 44 10)) ≡ false
unfolding maybe_contains add_all new_filter add set_all test_all first_hash second_hash index ready
    splitmix64 set_bit test_bit
turned_away = refl
