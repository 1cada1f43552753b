-- ===== src/ComFunc/Base64/RoundTrip.antt =====
-- Decoding an encoding gives the bytes back.
use business.Base.{
  ℕ, ◌<◌, ◌≡◌, refl, sym, ap, ap₂, ◌∙◌, List, [], ◌∷◌, ◌++◌, arith, All, append_assoc, append-nil,
  take,
}
use business.Base.Text.{Text, codes}
use business.ComFunc.Base64.{
  Quad, to_quad, to_triple, letter, letters, digit, encode_byte, encode_rest, encode_from,
  base64_encode, decode_byte, decode_rest, decode_from, base64_decode, find_from, bytes_of, padding,
}
use business.ComFunc.Base64.Bits.{
  InQuad, to_quad-InQuad, to_triple-to_quad, digit-letter, letter-is_base64,
}

abbrev pub IsByte : ℕ → Type 0
IsByte x = x < 256

decode_from-letter :
    (x : ℕ) (s : Text) (group ret : List ℕ)
    → x < 64
    → decode_from (letter x ∷ s) group ret
      ≡ (let (g, r) = decode_byte (letter x) group ret in decode_from s g r)
unfolding decode_from
decode_from-letter x s group ret h = rw (letter-is_base64 x h)

decode_from-pad :
    (s : Text) (group ret : List ℕ) → decode_from (b'=' ∷ s) group ret ≡ decode_rest group ret
unfolding decode_from
decode_from-pad s group ret = refl

-- Four letters that stand for six bits each become three bytes.
decode_from-letters :
    (q : Quad) (s ret : Text)
    → InQuad q
    → decode_from (letters q ++ s) [] ret ≡ decode_from s [] (ret ++ bytes_of (to_triple q))
unfolding letters decode_byte
decode_from-letters (a, b, c, d) s ret (ha, hb, hc, hd) =
    decode_from-letter a _ _ _ ha
    ∙ decode_from-letter b _ _ _ hb
    ∙ decode_from-letter c _ _ _ hc
    ∙ decode_from-letter d _ _ _ hd
    ∙ ap (λ q. decode_from s [] (ret ++ bytes_of (to_triple q)))
        (ground (arith, digit-letter a ha, digit-letter b hb, digit-letter c hc, digit-letter d hd))

-- What the unused entries of the array become.
digit-zero : digit 0 ≡ 255
unfolding digit find_from codes
digit-zero = refl

-- Two letters and the padding become one byte, three become two.
decode_from-two :
    (q : Quad) (s ret : Text)
    → InQuad q
    → decode_from (take 2 (letters q) ++ b'=' ∷ s) [] ret
      ≡ ret ++ take 1 (bytes_of (to_triple (q.0, q.1, 255, 255)))
unfolding letters decode_byte decode_rest
decode_from-two (a, b, c, d) s ret (ha, hb, hc, hd) =
    decode_from-letter a _ _ _ ha
    ∙ decode_from-letter b _ _ _ hb
    ∙ decode_from-pad s _ _
    ∙ ap (λ q. ret ++ take 1 (bytes_of (to_triple q)))
        (ground (arith, digit-letter a ha, digit-letter b hb, digit-zero))

decode_from-three :
    (q : Quad) (s ret : Text)
    → InQuad q
    → decode_from (take 3 (letters q) ++ b'=' ∷ s) [] ret
      ≡ ret ++ take 2 (bytes_of (to_triple (q.0, q.1, q.2, 255)))
unfolding letters decode_byte decode_rest
decode_from-three (a, b, c, d) s ret (ha, hb, hc, hd) =
    decode_from-letter a _ _ _ ha
    ∙ decode_from-letter b _ _ _ hb
    ∙ decode_from-letter c _ _ _ hc
    ∙ decode_from-pad s _ _
    ∙ ap (λ q. ret ++ take 2 (bytes_of (to_triple q)))
        (ground (arith, digit-letter a ha, digit-letter b hb, digit-letter c hc, digit-zero))

-- The text written so far stays in front.
encode_from-ret : (s ret : Text) → encode_from s [] ret ≡ ret ++ encode_from s [] []
unfolding encode_from encode_byte encode_rest
encode_from-ret [] ret = sym (append-nil ret)
encode_from-ret (x ∷ []) ret = append_assoc ret (take 2 (letters (to_quad (x, 0, 0)))) (padding 2)
encode_from-ret (x ∷ y ∷ []) ret =
    append_assoc ret (take 3 (letters (to_quad (x, y, 0)))) (padding 1)
encode_from-ret (x ∷ y ∷ z ∷ s) ret =
    encode_from-ret s (ret ++ letters (to_quad (x, y, z)))
    ∙ append_assoc ret (letters (to_quad (x, y, z))) (encode_from s [] [])
    ∙ ap (λ t. ret ++ t) (sym (encode_from-ret s (letters (to_quad (x, y, z)))))

-- The first bytes do not depend on the unused entries.
to_triple-first : (q : Quad) → (to_triple (q.0, q.1, 255, 255)).0 ≡ (to_triple q).0
unfolding to_triple
to_triple-first q = refl

to_triple-second : (q : Quad) → (to_triple (q.0, q.1, q.2, 255)).1 ≡ (to_triple q).1
unfolding to_triple
to_triple-second q = refl

to_triple-third : (q : Quad) → (to_triple (q.0, q.1, q.2, 255)).0 ≡ (to_triple q).0
unfolding to_triple
to_triple-third q = refl

decode_one :
    (x : ℕ) (ret : Text) → x < 256 → decode_from (encode_from (x ∷ []) [] []) [] ret ≡ ret ++ x ∷ []
unfolding encode_from encode_byte encode_rest
decode_one x ret h =
    decode_from-two (to_quad (x, 0, 0)) _ ret (to_quad-InQuad x 0 0 h (omega arith) (omega arith))
    ∙ ap (λ t. ret ++ t ∷ [])
        (to_triple-first (to_quad (x, 0, 0))
          ∙ ap (λ t. t.0) (to_triple-to_quad x 0 0 h (omega arith) (omega arith)))

decode_two :
    (x y : ℕ) (ret : Text)
    → x < 256
    → y < 256
    → decode_from (encode_from (x ∷ y ∷ []) [] []) [] ret ≡ ret ++ x ∷ y ∷ []
unfolding encode_from encode_byte encode_rest
decode_two x y ret h k =
    let back = to_triple-to_quad x y 0 h k (omega arith) in
    decode_from-three (to_quad (x, y, 0)) _ ret (to_quad-InQuad x y 0 h k (omega arith))
    ∙ ap₂ (λ s t. ret ++ s ∷ t ∷ []) (to_triple-third (to_quad (x, y, 0)) ∙ ap (λ t. t.0) back)
        (to_triple-second (to_quad (x, y, 0)) ∙ ap (λ t. t.1) back)

pub encode_from-three :
    (x y z : ℕ) (s : Text)
    → encode_from (x ∷ y ∷ z ∷ s) [] [] ≡ letters (to_quad (x, y, z)) ++ encode_from s [] []
unfolding encode_from encode_byte
encode_from-three x y z s = encode_from-ret s (letters (to_quad (x, y, z)))

decode-encode : (s ret : Text) → All IsByte s → decode_from (encode_from s [] []) [] ret ≡ ret ++ s
decode-encode [] ret h =
    unfold encode_from encode_rest decode_from decode_rest in sym (append-nil ret)
decode-encode (x ∷ []) ret h = decode_one x ret h.0
decode-encode (x ∷ y ∷ []) ret h = decode_two x y ret h.0 h.1.0
decode-encode (x ∷ y ∷ z ∷ s) ret (hx, (hy, (hz, hs))) =
    ap (λ t. decode_from t [] ret) (encode_from-three x y z s)
    ∙ decode_from-letters (to_quad (x, y, z)) (encode_from s [] []) ret
        (to_quad-InQuad x y z hx hy hz)
    ∙ ap (λ q. decode_from (encode_from s [] []) [] (ret ++ bytes_of q))
        (to_triple-to_quad x y z hx hy hz)
    ∙ decode-encode s (ret ++ x ∷ y ∷ z ∷ []) hs
    ∙ append_assoc ret (x ∷ y ∷ z ∷ []) s

-- `base64_decode` undoes `base64_encode` on every string of bytes.
pub base64_decode-base64_encode : (s : Text) → All IsByte s → base64_decode (base64_encode s) ≡ s
unfolding base64_encode base64_decode
base64_decode-base64_encode s h = decode-encode s [] h
