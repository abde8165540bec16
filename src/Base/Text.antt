-- ===== src/Base/Text.antt =====
-- `std::string` as a list of bytes.
use Prim.Native.Char.{code}
use Prim.Native.String.{String}
use Prim.Native.Nat.{ℕ}
use mathlib.Core.Path.{◌≡◌, refl}
use mathlib.Core.Bool.{Bool, true, false, ◌&&◌, ◌||◌}
use mathlib.Core.Logic.{◌↔◌}
use mathlib.Core.List.{List, [], ◌∷◌, ◌++◌}
use native.Mathlib.Omega.{arith}
use seckill_cpp.Base.Logic.{◌==◌}

abbrev pub Bytes : Type 0
Bytes = List ℕ

-- A string literal of the source. All of them are ASCII.
abbrev pub lit : String → Bytes
lit String.[] = []
lit (String.◌∷◌ c s) = code c ∷ lit s

-- `==` on strings
unfoldable pub str_eq : Bytes → Bytes → Bool
str_eq [] [] = true
str_eq [] (y ∷ ys) = false
str_eq (x ∷ xs) [] = false
str_eq (x ∷ xs) (y ∷ ys) = x == y && str_eq xs ys

pub str_eq_refl : (s : Bytes) → str_eq s s ≡ true
unfolding str_eq
str_eq_refl [] = refl
str_eq_refl (x ∷ xs) = ground (arith, str_eq_refl xs)

pub str_eq→eq : (s t : Bytes) → str_eq s t ≡ true → s ≡ t
unfolding str_eq
str_eq→eq [] [] h = refl
str_eq→eq [] (y ∷ ys) h = absurd (cc)
str_eq→eq (x ∷ xs) [] h = absurd (cc)
str_eq→eq (x ∷ xs) (y ∷ ys) h = ground (arith, str_eq→eq xs ys)

pub str_eq_iff : (s t : Bytes) → (str_eq s t ≡ true) ↔ (s ≡ t)
str_eq_iff s t = (str_eq→eq s t, λ e. ground (arith, str_eq_refl s))

-- `s.compare(0, p.size(), p) == 0` and `s.rfind(p, 0) == 0`
unfoldable pub starts_with : Bytes → Bytes → Bool
starts_with [] s = true
starts_with (x ∷ p) [] = false
starts_with (x ∷ p) (y ∷ s) = x == y && starts_with p s

-- `s.find(p) != std::string::npos`
unfoldable pub has_text : Bytes → Bytes → Bool
has_text p [] = starts_with p []
has_text p (y ∷ s) = starts_with p (y ∷ s) || has_text p s

-- `s.empty()`
abbrev pub is_empty : Bytes → Bool
is_empty [] = true
is_empty (x ∷ s) = false

pub append_left_cancel : (p : Bytes) {s t : Bytes} → p ++ s ≡ p ++ t → s ≡ t
append_left_cancel [] h = h
append_left_cancel (x ∷ p) h = append_left_cancel p (cc)
