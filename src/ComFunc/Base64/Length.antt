-- ===== src/ComFunc/Base64/Length.antt =====
-- How long an encoding is.
use business.Base.{◌+◌, ◌*◌, ◌/◌, ◌≡◌, ap, ◌∙◌, [], ◌∷◌, arith, length, length-append}
use business.Base.Text.{Text}
use business.ComFunc.Base64.{to_quad, letters, encode_from, encode_byte, encode_rest, base64_encode}
use business.ComFunc.Base64.RoundTrip.{encode_from-three}

length-encode_from : (s : Text) → length (encode_from s [] []) ≡ (length s + 2) / 3 * 4
unfolding encode_from encode_byte encode_rest letters
length-encode_from [] = omega arith
length-encode_from (x ∷ []) = omega arith
length-encode_from (x ∷ y ∷ []) = omega arith
length-encode_from (x ∷ y ∷ z ∷ s) =
    ap length (encode_from-three x y z s)
    ∙ omega (
      arith,
      length-append (letters (to_quad (x, y, z))) (encode_from s [] []),
      length-encode_from s,
    )

-- `base64_encode` writes four letters for every three bytes that are begun.
pub length-base64_encode : (s : Text) → length (base64_encode s) ≡ (length s + 2) / 3 * 4
unfolding base64_encode
length-base64_encode s = length-encode_from s
