-- ===== src/Redis.antt =====
-- What the code relies on of the Redis server, which is not part of the repository: the commands
-- that the Lua scripts and the services issue, as an interface with the documented effect of each
-- on the keys. A `Store` may hold anything besides its keys.
pub mod Model
pub mod Counters
use seckill_cpp.Base.{
  ℕ, suc, ◌+◌, ◌-◌, ◌<◌, Bool, true, false, Option, none, some, ◌≡◌, Bytes, str_eq, str_eq_refl,
  if◌then◌else◌, ltb,
}
use seckill_cpp.Base.Int.{ℤ, pos, negsuc}

-- A value is a text, or a decimal count that `INCR` keeps.
pub data Value : Type 0 where
  text : Bytes → Value
  count : ℕ → Value

-- A live key: its value, and the seconds that it has left (`none`: it does not expire).
pub record Item : Type 0 where
  pub value : Value
  pub left : Option ℕ

abbrev pub Keys : Type 0
Keys = Bytes → Option Item

abbrev pub put : Bytes → Option Item → Keys → Keys
put k i m j = if str_eq j k then i else m j

abbrev pub is_live : Option Item → Bool
is_live none = false
is_live (some i) = true

abbrev pub value_of : Option Item → Option Value
value_of none = none
value_of (some i) = some i.value

abbrev pub left_of : Option Item → Option ℕ
left_of none = none
left_of (some i) = i.left

-- TTL: -2 without the key, -1 without an expiry
abbrev pub seconds_left : Option ℕ → ℤ
seconds_left none = negsuc 0
seconds_left (some n) = pos n

abbrev pub ttl_of : Option Item → ℤ
ttl_of none = negsuc 1
ttl_of (some i) = seconds_left i.left

-- The count behind a key, and whether `INCR` takes the key: a text makes it fail.
abbrev pub count_in : Value → ℕ
count_in (count n) = n
count_in (text t) = 0

abbrev pub count_of : Option Item → ℕ
count_of none = 0
count_of (some i) = count_in i.value

abbrev pub IsCount : Value → Type 0
IsCount (count n) = Unit {0}
IsCount (text t) = ⊥

abbrev pub IsCounter : Option Item → Type 0
IsCounter none = Unit {0}
IsCounter (some i) = IsCount i.value

-- EXPIRE: a duration that is not positive deletes the key.
abbrev pub expired : ℤ → Option Item → Option Item
expired (pos (suc n)) (some i) = some (record i { left = some (suc n) })
expired _ _ = none

-- Time goes by.
abbrev pub age_item : ℕ → Item → Option ℕ → Option Item
age_item n i none = some i
age_item n i (some t) = if ltb n t then some (record i { left = some (t - n) }) else none

abbrev pub aged : ℕ → Option Item → Option Item
aged n none = none
aged n (some i) = age_item n i i.left

pub put_self : (k : Bytes) (i : Option Item) (m : Keys) → put k i m k ≡ i
put_self k i m = rw (str_eq_refl k)

pub put_ne : (k j : Bytes) (i : Option Item) (m : Keys) → str_eq j k ≡ false → put k i m j ≡ m j
put_ne k j i m h = rw h

pub record Redis : Type 1 where
  pub Store : Type 0
  pub keys : Store → Keys
  pub exists : Store → Bytes → Bool
  pub get : Store → Bytes → Option Value
  pub ttl : Store → Bytes → ℤ
  pub incr : Store → Bytes → ℕ × Store
  pub expire : Store → Bytes → ℤ → Store
  pub setex : Store → Bytes → ℕ → Bytes → Store
  pub del : Store → Bytes → Store
  pub elapse : ℕ → Store → Store

pub record IsRedis (R : Redis) : Type 0 where
  pub exists_law : (s : R.Store) (k : Bytes) → R.exists s k ≡ is_live (R.keys s k)
  pub get_law : (s : R.Store) (k : Bytes) → R.get s k ≡ value_of (R.keys s k)
  pub ttl_law : (s : R.Store) (k : Bytes) → R.ttl s k ≡ ttl_of (R.keys s k)
  pub incr_count :
      (s : R.Store) (k : Bytes)
      → IsCounter (R.keys s k)
      → (R.incr s k).0 ≡ count_of (R.keys s k) + 1
  pub incr_law :
      (s : R.Store) (k : Bytes)
      → IsCounter (R.keys s k)
      → R.keys (R.incr s k).1
        ≡ put k
            (some
              (record { value = count (count_of (R.keys s k) + 1); left = left_of (R.keys s k) }))
            (R.keys s)
  pub expire_law :
      (s : R.Store) (k : Bytes) (n : ℤ)
      → R.keys (R.expire s k n) ≡ put k (expired n (R.keys s k)) (R.keys s)
  pub setex_law :
      (s : R.Store) (k : Bytes) (n : ℕ) (v : Bytes)
      → 0 < n
      → R.keys (R.setex s k n v)
        ≡ put k (some (record { value = text v; left = some n })) (R.keys s)
  pub del_law : (s : R.Store) (k : Bytes) → R.keys (R.del s k) ≡ put k none (R.keys s)
  pub elapse_law : (n : ℕ) (s : R.Store) (k : Bytes) → R.keys (R.elapse n s) k ≡ aged n (R.keys s k)

-- How an asynchronous command ends: answered, never delivered, or carried out with the answer
-- lost. In the last two cases the exception callback runs.
pub data Link : Type 0 where
  answered unreachable answer_lost : Link

-- `execCommandAsync`: the answer, if there is one, and the store.
abbrev pub exec {ℓ} : {S A : Type ℓ} → Link → (S → A × S) → S → Option A × S
exec answered f s = let (a, s') = f s in (some a, s')
exec unreachable f s = (none, s)
exec answer_lost f s = let (a, s') = f s in (none, s')
