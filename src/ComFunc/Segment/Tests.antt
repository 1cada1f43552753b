-- ===== src/ComFunc/Segment/Tests.antt =====
-- The last segment of a url.
use business.Base.{◌≡◌, ◌⊎◌, ◌++◌, ◌∷◌, refl}
use business.Base.Text.{Text, codes}
use business.ComFunc.Segment.{IsFree, getsplitstr, getsplitstr-last, find_last_of}

last_segment : getsplitstr (codes "s3/faces/b.jpg") ≡ codes "b.jpg"
unfolding getsplitstr find_last_of codes
last_segment = refl

getsplitstr-last_example :
    IsFree b'/' (getsplitstr (codes "s3/b"))
    × ((codes "s3/b" ≡ getsplitstr (codes "s3/b"))
        ⊎ ((front : Text) × (codes "s3/b" ≡ front ++ b'/' ∷ getsplitstr (codes "s3/b"))))
getsplitstr-last_example = getsplitstr-last (codes "s3/b")
