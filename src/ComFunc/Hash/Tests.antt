-- ===== src/ComFunc/Hash/Tests.antt =====
-- Hashes of small texts.
use business.Base.{◌≡◌, ◌+◌, ◌%◌, ◌^◌, ◌++◌, refl, some}
use business.Base.Text.{codes}
use business.ComFunc.Hash.{bkdr_hash, bkdr_from, char_value, easy_hash, easy_hash-append}

bkdr_ab : bkdr_hash (codes "ab") 1999 ≡ some 811
unfolding bkdr_hash bkdr_from char_value codes
bkdr_ab = refl

easy_hash-append_example :
    easy_hash (codes "ab" ++ codes "c") ≡ (easy_hash (codes "ab") + easy_hash (codes "c")) % 2 ^ 32
unfolding codes
easy_hash-append_example = easy_hash-append (codes "ab") (codes "c") (refl, (refl, tt))
