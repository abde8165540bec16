-- ===== src/Http/Account/Logout.antt =====
-- UserController.cc: the token in a header, and a logout by it.
use seckill_cpp.Base.{
  ℕ, true, false, ◌&&◌, some, Bytes, lit, ◌++◌, is_empty, starts_with, if◌then◌else◌, [], ◌∷◌, ◌≡◌,
  refl, ap, ◌∙◌,
}
use seckill_cpp.Base.Int.{pos}
use seckill_cpp.Json.{Json}
use seckill_cpp.Redis.{Redis, IsRedis, Link}
use seckill_cpp.Auth.Jwt.{JwtClaims, valid}
use seckill_cpp.Auth.Account.{World, State, Settings, logout, authenticate}
use seckill_cpp.Auth.Account.Sessions.{logged_out, authenticate-logout}
use seckill_cpp.Http.{answered, HttpResponse, ok_with_data}
use seckill_cpp.Http.Account.{
  drop_bytes, is_blank, trim_end, extract_bearer_token, logout_reply, logout_answered,
  logout_request,
}

abbrev pub AllBlank : Bytes → Type 0
AllBlank [] = Unit
AllBlank (c ∷ s) = (is_blank c ≡ true) × AllBlank s

-- The text is not empty, and its last byte is not blank.
abbrev pub EndsWell : Bytes → Type 0
EndsWell [] = ⊥
EndsWell (c ∷ []) = is_blank c ≡ false
EndsWell (c ∷ d ∷ s) = EndsWell (d ∷ s)

trim_blank : (b : Bytes) → AllBlank b → trim_end b ≡ []
unfolding trim_end
trim_blank [] h = refl
trim_blank (c ∷ b) h = rw (trim_blank b h.1, h.0)

is_empty-append : (t b : Bytes) → EndsWell t → is_empty (t ++ b) ≡ false
is_empty-append [] b h = absurd h
is_empty-append (c ∷ t) b h = refl

trim_step :
    (c : ℕ) (s rest : Bytes)
    → trim_end s ≡ rest
    → trim_end (c ∷ s) ≡ (if is_empty rest && is_blank c then [] else c ∷ rest)
unfolding trim_end
trim_step c s rest e = rw e

trim_end-append : (t b : Bytes) → EndsWell t → AllBlank b → trim_end (t ++ b) ≡ t
trim_end-append [] b h k = absurd h
trim_end-append (c ∷ []) b h k = trim_step c b [] (trim_blank b k) ∙ rw h
trim_end-append (c ∷ d ∷ t) b h k =
    trim_step c ((d ∷ t) ++ b) (d ∷ t) (trim_end-append (d ∷ t) b h k)

bearer-append :
    (t b : Bytes) → EndsWell t → AllBlank b → extract_bearer_token (lit "Bearer " ++ (t ++ b)) ≡ t
unfolding extract_bearer_token drop_bytes starts_with
bearer-append t b h k = rw (is_empty-append t b h) (trim_end-append t b h k)

is_empty_of_end : (t : Bytes) → EndsWell t → is_empty t ≡ false
is_empty_of_end [] h = absurd h
is_empty_of_end (c ∷ t) h = refl

module _ (J : Json) {W : World} {R : Redis} (law : IsRedis R) (cfg : Settings) where
  -- For a token that verifies and does not end in a blank, in a header `Bearer ` with any blanks
  -- after it: a logout that Redis answered is answered with 200, and the token then authenticates
  -- nobody, whatever sessions there were.
  pub authenticate-logout_request :
      (token blanks : Bytes) (c : JwtClaims) (now : ℕ) (st : State W R)
      → EndsWell token
      → AllBlank blanks
      → W.verify_token token now ≡ valid c
      → (r : HttpResponse J.Value) × (st' : State W R) × (logout_request J cfg Link.answered
            (lit "Bearer " ++ (token ++ blanks))
            now
            st
          ≡ answered r st')
        × (r.status ≡ 200)
        × ((authenticate cfg Link.answered token now st').0 ≡ some (pos 0))
  unfolding logout_request logout_answered logout_reply ok_with_data
  authenticate-logout_request token blanks c now st h k e =
      let (msg, left) = logged_out law cfg token c now st e in
      (
        logout_reply J (record { ok = true; token = []; msg = msg }),
        (logout cfg Link.answered token now st).1,
        rw (bearer-append token blanks h k, is_empty_of_end token h)
            (ap (logout_answered J cfg) left),
        refl,
        authenticate-logout law cfg token c now st e,
      )
