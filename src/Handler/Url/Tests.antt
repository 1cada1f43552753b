-- ===== src/Handler/Url/Tests.antt =====
-- An image url, taken apart.
use business.Base.{◌≡◌, refl, some}
use business.Base.Text.{codes}
use business.Handler.Url.{split_url, find, find_first}
use business.Handler.Url.Parts.{HasParts, split_url_iff}

split_image :
    split_url (codes "s3/faces/a/b.jpg") ≡ some (codes "s3", codes "faces", codes "a/b.jpg")
unfolding split_url find find_first codes
split_image = refl

split_url_iff_example :
    HasParts (codes "s3/faces/a/b.jpg") (codes "s3") (codes "faces") (codes "a/b.jpg")
split_url_iff_example =
    (split_url_iff (codes "s3/faces/a/b.jpg") (codes "s3") (codes "faces") (codes "a/b.jpg")).0
      split_image
