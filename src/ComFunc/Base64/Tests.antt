-- ===== src/ComFunc/Base64/Tests.antt =====
-- Known encodings.
use business.Base.{◌+◌, ◌*◌, ◌/◌, length, ◌≡◌, refl, arith}
use business.ComFunc.Base64.Length.{length-base64_encode}
use business.Base.Text.{codes}
use business.ComFunc.Base64.RoundTrip.{base64_decode-base64_encode}
use business.ComFunc.Base64.{
  base64_encode, encode_from, encode_byte, encode_rest, to_quad, letters, letter, base64_decode,
  decode_from, is_base64, decode_byte, decode_rest, digit, to_triple,
}

encode_man : base64_encode (codes "Man!") ≡ codes "TWFuIQ=="
unfolding base64_encode encode_from encode_byte encode_rest to_quad letters letter codes
encode_man = refl

decode_man : base64_decode (codes "TWFuIQ==") ≡ codes "Man!"
unfolding base64_decode decode_from is_base64 decode_byte decode_rest digit to_triple codes
decode_man = refl

base64_decode-base64_encode_example : base64_decode (base64_encode (codes "Man!")) ≡ codes "Man!"
unfolding codes
base64_decode-base64_encode_example =
    base64_decode-base64_encode (codes "Man!")
      (omega arith, (omega arith, (omega arith, (omega arith, tt))))

length-base64_encode_example :
    length (base64_encode (codes "Man!")) ≡ (length (codes "Man!") + 2) / 3 * 4
length-base64_encode_example = length-base64_encode (codes "Man!")
