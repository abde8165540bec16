-- ===== src/Cache/LocalLru/Nodes.antt =====
-- LocalLruCache.h: the list of nodes, read through keys and through iterators. The plain view of
-- the cache is the list of its items.
use seckill_cpp.Base.{
  ℕ, ◌+◌, ◌≡◌, ◌==◌, false, refl, sym, ap, ◌∙◌, arith, Option, none, some, Bytes, if◌then◌else◌,
  str_eq, str_eq_refl, str_eq→eq, str_eq_iff, List, [], ◌∷◌, length, inl, inr, Bool-cases, ==_refl,
}
use seckill_cpp.Cache.LocalLru.{LruItem, Nodes, node_at, erase_node, back, pop_back}

abbrev pub items : Nodes → List LruItem
items [] = []
items ((n, x) ∷ l) = x ∷ items l

-- The item with a key, and the items without it.
unfoldable pub look : Bytes → List LruItem → Option LruItem
look k [] = none
look k (x ∷ l) = if str_eq k x.key then some x else look k l

unfoldable pub without : Bytes → List LruItem → List LruItem
without k [] = []
without k (x ∷ l) = if str_eq k x.key then l else x ∷ without k l

unfoldable pub drop_last : List LruItem → List LruItem
drop_last [] = []
drop_last (x ∷ []) = []
drop_last (x ∷ y ∷ l) = x ∷ drop_last (y ∷ l)

-- The node that holds a key.
unfoldable pub id_of : Bytes → Nodes → Option ℕ
id_of k [] = none
id_of k ((n, x) ∷ l) = if str_eq k x.key then some n else id_of k l

-- No key and no number stands twice.
abbrev pub Distinct : Nodes → Type 0
Distinct [] = Unit
Distinct ((n, x) ∷ l) = (id_of x.key l ≡ none) × (node_at n l ≡ none) × Distinct l

-- What the node of a key is.
pub node_at-id_of :
    (k : Bytes) (n : ℕ) (l : Nodes)
    → Distinct l
    → id_of k l ≡ some n
    → (x : LruItem) × (node_at n l ≡ some x) × (look k (items l) ≡ some x) × (x.key ≡ k)
unfolding node_at id_of look
node_at-id_of k n [] d e = absurd (cc)
node_at-id_of k n ((m, x) ∷ l) d e = elim (Bool-cases (str_eq k x.key)) [
  | inl same ↦ (x, ground (arith, same, e), rw same, sym (str_eq→eq k x.key same))
  | inr other ↦
      let (y, at, found, key) = node_at-id_of k n l d.2 (ground (arith, other, e)) in
      (y, ground (arith, at, d.1), rw other found, key)
]

pub look-id_of : (k : Bytes) (l : Nodes) → id_of k l ≡ none → look k (items l) ≡ none
unfolding id_of look
look-id_of k [] e = refl
look-id_of k ((m, x) ∷ l) e = ground (arith, look-id_of k l)

pub id_of-look : (k : Bytes) (l : Nodes) → look k (items l) ≡ none → id_of k l ≡ none
unfolding id_of look
id_of-look k [] e = refl
id_of-look k ((m, x) ∷ l) e = ground (arith, id_of-look k l)

-- To erase the node of a key is to remove the key.
pub items-erase_node :
    (k : Bytes) (n : ℕ) (l : Nodes)
    → Distinct l
    → id_of k l ≡ some n
    → items (erase_node n l) ≡ without k (items l)
unfolding id_of erase_node without
items-erase_node k n [] d e = absurd (cc)
items-erase_node k n ((m, x) ∷ l) d e = elim (Bool-cases (str_eq k x.key)) [
  | inl same ↦ ground (arith, same, e)
  | inr other ↦
      let tail : id_of k l ≡ some n = ground (arith, other, e) in
      let (y, at, found, key) = node_at-id_of k n l d.2 tail in
      ground (arith, other, at, d.1, items-erase_node k n l d.2 tail)
]

pub id_of-erase_node :
    (j k : Bytes) (n : ℕ) (l : Nodes)
    → Distinct l
    → id_of k l ≡ some n
    → id_of j (erase_node n l) ≡ (if str_eq j k then none else id_of j l)
unfolding id_of erase_node
id_of-erase_node j k n [] d e = absurd (cc)
id_of-erase_node j k n ((m, x) ∷ l) d e = elim (Bool-cases (str_eq k x.key)) [
  | inl same ↦
      ground (arith, same, e, str_eq→eq k x.key same, d.0, str_eq_iff j k, str_eq_iff j x.key)
  | inr other ↦
      let tail : id_of k l ≡ some n = ground (arith, other, e) in
      let (y, at, found, key) = node_at-id_of k n l d.2 tail in
      ground (
        arith,
        other,
        at,
        d.1,
        id_of-erase_node j k n l d.2 tail,
        str_eq_iff j k,
        str_eq_iff j x.key,
        str_eq_iff k x.key,
      )
]

pub node_at-erase_node :
    (m n : ℕ) (l : Nodes) → node_at m l ≡ none → node_at m (erase_node n l) ≡ none
unfolding node_at erase_node
node_at-erase_node m n [] e = refl
node_at-erase_node m n ((i, x) ∷ l) e = ground (arith, node_at-erase_node m n l)

-- The number of an erased node is free.
pub node_at-erase_node_self : (n : ℕ) (l : Nodes) → Distinct l → node_at n (erase_node n l) ≡ none
unfolding node_at erase_node
node_at-erase_node_self n [] d = refl
node_at-erase_node_self n ((i, x) ∷ l) d = ground (arith, d.1, node_at-erase_node_self n l d.2)

id_of-erase_node_none :
    (k : Bytes) (n : ℕ) (l : Nodes) → id_of k l ≡ none → id_of k (erase_node n l) ≡ none
unfolding id_of erase_node
id_of-erase_node_none k n [] e = refl
id_of-erase_node_none k n ((i, x) ∷ l) e = ground (arith, id_of-erase_node_none k n l)

pub erase_node-Distinct : (n : ℕ) (l : Nodes) → Distinct l → Distinct (erase_node n l)
unfolding erase_node
erase_node-Distinct n [] d = tt
erase_node-Distinct n ((i, x) ∷ l) d = elim (Bool-cases (i == n)) [
  | inl same ↦ rw same d.2
  | inr other ↦ rw other (
    id_of-erase_node_none x.key n l d.0,
    node_at-erase_node i n l d.1,
    erase_node-Distinct n l d.2,
  )
]

pub length-erase_node :
    (n : ℕ) (x : LruItem) (l : Nodes)
    → node_at n l ≡ some x
    → length (erase_node n l) + 1 ≡ length l
unfolding node_at erase_node
length-erase_node n x [] e = absurd (cc)
length-erase_node n x ((i, y) ∷ l) e = ground (arith, length-erase_node n x l)

keys_differ :
    (a b : Bytes) (n : ℕ) (l : Nodes) → id_of a l ≡ some n → id_of b l ≡ none → str_eq a b ≡ false
keys_differ a b n l e e' = elim (Bool-cases (str_eq a b)) [
  | inl same ↦ let eq = str_eq→eq a b same in absurd (cc)
  | inr other ↦ other
]

later_id :
    (k : Bytes) (i n : ℕ) (y : LruItem) (l : Nodes)
    → str_eq k y.key ≡ false
    → id_of k l ≡ some n
    → id_of k ((i, y) ∷ l) ≡ some n
unfolding id_of
later_id k i n y l other e = rw other e

only_id : (i : ℕ) (y : LruItem) → id_of y.key ((i, y) ∷ []) ≡ some i
unfolding id_of
only_id i y = rw (str_eq_refl y.key)

only_erase : (i : ℕ) (y : LruItem) → [] ≡ erase_node i ((i, y) ∷ [])
unfolding erase_node
only_erase i y = rw (==_refl i)

later_erase :
    (i n : ℕ) (y w : LruItem) (l : Nodes)
    → node_at i l ≡ none
    → node_at n l ≡ some w
    → erase_node n ((i, y) ∷ l) ≡ (i, y) ∷ erase_node n l
unfolding erase_node
later_erase i n y w l e e' = ground (arith, ap (λ m. node_at m l) {x = i} {y = n})

-- The last node: its key names it, and to pop it is to erase it.
pub back_lem :
    (i : ℕ) (y : LruItem) (l : Nodes)
    → Distinct ((i, y) ∷ l)
    → (n : ℕ) × (x : LruItem) × (back ((i, y) ∷ l) ≡ some x)
      × (id_of x.key ((i, y) ∷ l) ≡ some n)
      × (pop_back ((i, y) ∷ l) ≡ erase_node n ((i, y) ∷ l))
unfolding back pop_back
back_lem i y [] d = (i, y, refl, only_id i y, only_erase i y)
back_lem i y ((j, z) ∷ l) d =
    let (n, x, last, id, popped) = back_lem j z l d.2 in
    let (w, at, found, key) = node_at-id_of x.key n ((j, z) ∷ l) d.2 id in
    (
      n,
      x,
      last,
      later_id x.key i n y ((j, z) ∷ l) (keys_differ x.key y.key n ((j, z) ∷ l) id d.0) id,
      ap (◌∷◌ (i, y)) popped ∙ sym (later_erase i n y w ((j, z) ∷ l) d.1 at),
    )

pub items-pop_back : (l : Nodes) → items (pop_back l) ≡ drop_last (items l)
unfolding pop_back drop_last
items-pop_back [] = refl
items-pop_back ((n, x) ∷ []) = refl
items-pop_back ((n, x) ∷ (m, y) ∷ l) = ap (◌∷◌ x) (items-pop_back ((m, y) ∷ l))
