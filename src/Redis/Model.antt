-- ===== src/Redis/Model.antt =====
-- A store that is its keys meets the interface. The tests run on it.
use seckill_cpp.Base.{◌+◌, none, some, refl}
use seckill_cpp.Redis.{
  Redis, IsRedis, Keys, text, count, put, is_live, value_of, ttl_of, count_of, left_of, expired,
  aged,
}

abbrev pub Plain : Redis
Plain = record {
  Store = Keys;
  keys = λ s. s;
  exists = λ s k. is_live (s k);
  get = λ s k. value_of (s k);
  ttl = λ s k. ttl_of (s k);
  incr = λ s k. (
    count_of (s k) + 1,
    put k (some (record { value = count (count_of (s k) + 1); left = left_of (s k) })) s,
  );
  expire = λ s k n. put k (expired n (s k)) s;
  setex = λ s k n v. put k (some (record { value = text v; left = some n })) s;
  del = λ s k. put k none s;
  elapse = λ n s k. aged n (s k);
}

pub Plain-IsRedis : IsRedis Plain
Plain-IsRedis = record {
  exists_law = λ s k. refl;
  get_law = λ s k. refl;
  ttl_law = λ s k. refl;
  incr_count = λ s k c. refl;
  incr_law = λ s k c. refl;
  expire_law = λ s k n. refl;
  setex_law = λ s k n v h. refl;
  del_law = λ s k. refl;
  elapse_law = λ n s k. refl;
}

abbrev pub empty : Keys
empty k = none
