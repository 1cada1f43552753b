-- ===== src/ComFunc/Base64.antt =====
-- `base64_encode` and `base64_decode` of src/common/com_func.cpp. The arrays of three and four
-- `unsigned char` are tuples, or the list of the entries filled so far.
pub mod Bits
pub mod RoundTrip
pub mod Length
mod Tests
use Prim.Native.Nat.{bit_and}
use business.Base.{
  ℕ, suc, ◌+◌, ◌*◌, ◌/◌, ◌%◌, Bool, true, false, not, ◌&&◌, ◌||◌, List, [], ◌∷◌, ◌++◌, Option, none,
  some, leb, ◌==◌, get_or, take, if◌then◌else◌,
}
use business.Base.Text.{Text, codes}

-- `unsigned char`
abbrev pub u8 : ℕ → ℕ
u8 n = n % 256

abbrev pub base64_chars : Text
base64_chars = codes "ABCDEFGHIJKLMNOPQRSTUVWXYZabcdefghijklmnopqrstuvwxyz0123456789+/"

unfoldable pub is_alnum : ℕ → Bool
is_alnum c = (leb b'0' c && leb c b'9') || (leb b'A' c && leb c b'Z') || (leb b'a' c && leb c b'z')

unfoldable pub is_base64 : ℕ → Bool
unfolding is_alnum
is_base64 c = is_alnum c || (c == b'+') || (c == b'/')

-- `char_array_4` from `char_array_3`
abbrev pub Quad : Type 0
Quad = ℕ × ℕ × ℕ × ℕ

abbrev pub Triple : Type 0
Triple = ℕ × ℕ × ℕ

unfoldable pub to_quad : Triple → Quad
to_quad (a, b, c) = (
  u8 (bit_and a 0xfc / 4),
  u8 (bit_and a 0x03 * 16 + bit_and b 0xf0 / 16),
  u8 (bit_and b 0x0f * 4 + bit_and c 0xc0 / 64),
  u8 (bit_and c 0x3f),
)

unfoldable pub to_triple : Quad → Triple
to_triple (a, b, c, d) = (
  u8 (a * 4 + bit_and b 0x30 / 16),
  u8 (bit_and b 0xf * 16 + bit_and c 0x3c / 4),
  u8 (bit_and c 0x3 * 64 + d),
)

-- `base64_chars[i]`; past the end stands the terminator.
unfoldable pub letter : ℕ → ℕ
unfolding codes
letter i = get_or base64_chars i 0

unfoldable pub letters : Quad → Text
letters (a, b, c, d) = letter a ∷ letter b ∷ letter c ∷ letter d ∷ []

-- One byte read: the array grows, and a full one is written out.
unfoldable pub encode_byte : ℕ → List ℕ → Text → List ℕ × Text
encode_byte x (a ∷ b ∷ group) ret = ([], ret ++ letters (to_quad (a, b, x)))
encode_byte x group ret = (group ++ x ∷ [], ret)

-- `while ((i++ < 3)) ret += '=';`
abbrev pub padding : ℕ → Text
padding ℕ.zero = []
padding (suc n) = b'=' ∷ padding n

unfoldable pub encode_rest : List ℕ → Text → Text
encode_rest [] ret = ret
encode_rest (a ∷ []) ret = ret ++ take 2 (letters (to_quad (a, 0, 0))) ++ padding 2
encode_rest (a ∷ b ∷ group) ret = ret ++ take 3 (letters (to_quad (a, b, 0))) ++ padding 1

unfoldable pub encode_from : Text → List ℕ → Text → Text
encode_from [] group ret = encode_rest group ret
encode_from (x ∷ xs) group ret =
    let (group', ret') = encode_byte x group ret in encode_from xs group' ret'

unfoldable pub base64_encode : Text → Text
base64_encode bytes = encode_from bytes [] []

-- `base64_chars.find(c)`; `npos` as an `unsigned char` is 255.
unfoldable pub find_from : Text → ℕ → ℕ → ℕ
find_from [] c i = 255
find_from (x ∷ xs) c i = let later = find_from xs c (i + 1) in if x == c then i else later

unfoldable pub digit : ℕ → ℕ
unfolding find_from codes
digit c = find_from base64_chars c 0

abbrev pub bytes_of : Triple → Text
bytes_of (a, b, c) = a ∷ b ∷ c ∷ []

unfoldable pub decode_byte : ℕ → List ℕ → Text → List ℕ × Text
decode_byte x (a ∷ b ∷ c ∷ group) ret =
    ([], ret ++ bytes_of (to_triple (digit a, digit b, digit c, digit x)))
decode_byte x group ret = (group ++ x ∷ [], ret)

-- The unused entries are set to 0, which is no letter, and then looked up like the others.
unfoldable pub decode_rest : List ℕ → Text → Text
decode_rest [] ret = ret
decode_rest (a ∷ []) ret = ret
decode_rest (a ∷ b ∷ []) ret =
    ret ++ take 1 (bytes_of (to_triple (digit a, digit b, digit 0, digit 0)))
decode_rest (a ∷ b ∷ c ∷ group) ret =
    ret ++ take 2 (bytes_of (to_triple (digit a, digit b, digit c, digit 0)))

-- Reading stops at the end, at '=' and at any other character outside the alphabet.
unfoldable pub decode_from : Text → List ℕ → Text → Text
decode_from [] group ret = decode_rest group ret
decode_from (x ∷ xs) group ret =
    let rest = let (group', ret') = decode_byte x group ret in decode_from xs group' ret' in
    if not (x == b'=') && is_base64 x then rest else decode_rest group ret

unfoldable pub base64_decode : Text → Text
base64_decode s = decode_from s [] []
