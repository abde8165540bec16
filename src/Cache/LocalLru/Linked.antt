-- ===== src/Cache/LocalLru/Linked.antt =====
-- LocalLruCache.h: that the list and the map agree, what each method does to them, and that no
-- method follows an iterator whose node is gone.
use seckill_cpp.Base.{
  ℕ, ◌+◌, ◌≡◌, ◌≤◌, ◌==◌, refl, sym, ◌∙◌, arith, Option, none, some, Bytes, str_eq, str_eq_refl,
  str_eq→eq, str_eq_iff, [], ◌∷◌, length, inl, inr, Bool-cases, ==_iff,
}
use seckill_cpp.Cache.LocalLru.{
  LruItem, Nodes, Index, node_at, erase_node, splice_front, erase_key, put_key,
}
use seckill_cpp.Cache.LocalLru.Nodes.{
  id_of, Distinct, node_at-id_of, id_of-erase_node, node_at-erase_node, node_at-erase_node_self,
  erase_node-Distinct, length-erase_node,
}

-- The map leads each key to the node that holds it and counts the nodes; numbers from `next` on
-- are free.
pub record Linked (next : ℕ) (m : Index) (l : Nodes) : Type 0 where
  pub agree : (k : Bytes) → m.at k ≡ id_of k l
  pub counted : m.size ≡ length l
  pub distinct : Distinct l
  pub free : (n : ℕ) → next ≤ n → node_at n l ≡ none

pub nothing-Linked : Linked 0 (record { at = λ k. none; size = 0 }) []
unfolding id_of node_at
nothing-Linked = record { agree = λ k. refl; counted = refl; distinct = tt; free = λ n h. refl }

front_id :
    (m : Bytes → Option ℕ) (l : Nodes) (j : Bytes) (n : ℕ) (x : LruItem)
    → Distinct l
    → m j ≡ id_of j l
    → id_of x.key l ≡ some n
    → m j ≡ id_of j ((n, x) ∷ erase_node n l)
unfolding id_of
front_id m l j n x d a e = elim (Bool-cases (str_eq j x.key)) [
  | inl same ↦ rw same (a ∙ rw (str_eq→eq j x.key same) e)
  | inr other ↦ rw other (a ∙ sym (id_of-erase_node j x.key n l d e ∙ rw other))
]

front_free :
    (l : Nodes) (i n : ℕ) (x y : LruItem)
    → node_at i l ≡ none
    → node_at n l ≡ some y
    → node_at i ((n, x) ∷ erase_node n l) ≡ none
unfolding node_at
front_free l i n x y f e = elim (Bool-cases (n == i)) [
  | inl same ↦ (let eq = (==_iff n i).0 same in absurd (cc))
  | inr other ↦ rw other (node_at-erase_node i n l f)
]

module _ (next : ℕ) (m : Index) (l : Nodes) (linked : Linked next m l) where
  -- To erase the node and the key together keeps the two in step.
  pub erase-Linked :
      (k : Bytes) (n : ℕ) → id_of k l ≡ some n → Linked next (erase_key k m) (erase_node n l)
  unfolding erase_key
  erase-Linked k n e =
      let (x, at, found, key) = node_at-id_of k n l linked.distinct e in
      record {
        agree = λ j. ground (arith, linked.agree j, id_of-erase_node j k n l linked.distinct e);
        counted = ground (arith, linked.agree k, e, linked.counted, length-erase_node n x l at);
        distinct = erase_node-Distinct n l linked.distinct;
        free = λ i h. node_at-erase_node i n l (linked.free i h);
      }

  -- A node for a new key.
  pub put-Linked :
      (x : LruItem)
      → id_of x.key l ≡ none
      → Linked (next + 1) (put_key x.key next m) ((next, x) ∷ l)
  unfolding put_key id_of node_at
  put-Linked x e = record {
    agree = λ j. ground (arith, linked.agree j, str_eq_iff j x.key);
    counted = ground (arith, linked.agree x.key, e, linked.counted);
    distinct = (e, linked.free next (omega arith), linked.distinct);
    free = λ i h. ground (arith, linked.free i (omega arith));
  }

  -- A node that moves to the front, with its key.
  pub splice-Linked :
      (n : ℕ) (x : LruItem) → id_of x.key l ≡ some n → Linked next m (splice_front n x l)
  unfolding splice_front
  splice-Linked n x e =
      let (y, at, found, key) = node_at-id_of x.key n l linked.distinct e in
      record {
        agree = λ j. front_id m.at l j n x linked.distinct (linked.agree j) e;
        counted = linked.counted ∙ omega (arith, length-erase_node n y l at);
        distinct = (
          id_of-erase_node x.key x.key n l linked.distinct e ∙ (rw (str_eq_refl x.key)),
          node_at-erase_node_self n l linked.distinct,
          erase_node-Distinct n l linked.distinct,
        );
        free = λ i h. front_free l i n x y (linked.free i h) at;
      }
