-- ===== src/Auth/Password/Tests.antt =====
-- Two hashes that differ, and the theorem on two that do not.
use seckill_cpp.Base.{true, false, lit, ◌≡◌, ◌↔◌, refl, [], ◌∷◌}
use seckill_cpp.Auth.Password.{constant_time_equals, diff_from, to_hex}
use seckill_cpp.Auth.Password.Compare.{constant_time_equals_iff}

constant_time_equals_iff_example :
    (constant_time_equals (lit "ab") (lit "abc") ≡ true) ↔ (lit "ab" ≡ lit "abc")
constant_time_equals_iff_example = constant_time_equals_iff (lit "ab") (lit "abc")

longer_differs : constant_time_equals (lit "ab") (lit "abc") ≡ false
unfolding constant_time_equals diff_from
longer_differs = refl

hex : to_hex (10 ∷ 255 ∷ []) ≡ lit "0aff"
unfolding to_hex
hex = refl
