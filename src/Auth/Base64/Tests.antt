-- ===== src/Auth/Base64/Tests.antt =====
-- A text of the two unpadded kinds, and characters that are refused.
use seckill_cpp.Base.{none, some, lit, [], ◌∷◌, ◌≡◌, refl, arith}
use seckill_cpp.Auth.Base64.{
  base64_url_encode, base64_url_decode, symbol, decode_from, reverse, reverse_in, later, emit,
  shift_in, and_then,
}
use seckill_cpp.Auth.Base64.RoundTrip.{base64_url_decode-encode}

base64_url_decode-encode_example :
    base64_url_decode (base64_url_encode (255 ∷ 0 ∷ 128 ∷ 7 ∷ [])) ≡ some (255 ∷ 0 ∷ 128 ∷ 7 ∷ [])
base64_url_decode-encode_example =
    base64_url_decode-encode (255 ∷ 0 ∷ 128 ∷ 7 ∷ [])
      (omega arith, (omega arith, (omega arith, (omega arith, tt))))

encodes : base64_url_encode (lit "hello") ≡ lit "aGVsbG8"
unfolding base64_url_encode symbol
encodes = refl

refuses_plus : base64_url_decode (lit "ab+c") ≡ none
unfolding base64_url_decode decode_from reverse reverse_in later emit shift_in and_then
refuses_plus = refl
