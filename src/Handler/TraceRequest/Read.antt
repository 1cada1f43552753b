-- ===== src/Handler/TraceRequest/Read.antt =====
-- What the tracing service reads in the request of `makeTraceSpaceRequest`.
use business.Base.{◌≡◌, refl, ap, ◌∙◌, List, [], ◌∷◌, ◌++◌, Option, none, some, if◌then◌else◌}
use business.Base.Int.{ℤ}
use business.Base.Text.{Text, codes, text_eq}
use business.ComFunc.Base64.{base64_decode}
use business.Json.{Parse, thrown, got, ◌>>=◌, call, collect, bind_got, JsonLib}
use business.Json.Writer.{JsonWriter, IsWriter}
use business.Json.Members.{last_set, set_all, at-set_all, is_member-set_all_other}
use business.Handler.TraceRequest.{Rect, undefined, no_rect, rect, TraceImage}
use business.Handler.TraceRequest.Document.{rect_text}

-- One image of a request, with the picture itself.
pub record Seen : Type 0 where
  pub url : Text
  pub rectangle : Option Text
  pub age : ℤ
  pub gender : ℤ
  pub picture : Text

-- A request, as far as the service needs it.
pub record Request : Type 0 where
  pub dossier_name : Text
  pub device_id : Text
  pub uid : Text
  pub replay : ℤ
  pub images : List Seen

module _ (J : JsonLib) where
  abbrev pub text_at : J.Value → Text → Parse Text
  text_at v key = call (J.at v key) >>= λ w. call (J.as_string w)

  abbrev pub int_at : J.Value → Text → Parse ℤ
  int_at v key = call (J.at v key) >>= λ w. call (J.as_int w)

  unfoldable pub read_image : J.Value → Parse Seen
  unfolding codes base64_decode
  read_image v = do
    url ← text_at v (codes "url")
    boxed ← call (J.is_member v (codes "face_rect"))
    rectangle ← (if boxed then (text_at v (codes "face_rect") >>= λ t. got (some t)) else got none)
    age ← int_at v (codes "age")
    gender ← int_at v (codes "gender")
    encoded ← text_at v (codes "image_base64")
    got (record {
      url = url;
      rectangle = rectangle;
      age = age;
      gender = gender;
      picture = base64_decode encoded;
    })

  unfoldable pub read_request : J.Value → Parse Request
  unfolding codes collect read_image
  read_request doc = do
    dossier_name ← text_at doc (codes "dossier_name")
    device_id ← text_at doc (codes "device_id")
    uid ← text_at doc (codes "uid")
    replay ← int_at doc (codes "replay")
    array ← call (J.at doc (codes "images"))
    images ← collect read_image (J.items array)
    got (record {
      dossier_name = dossier_name;
      device_id = device_id;
      uid = uid;
      replay = replay;
      images = images;
    })

-- The rectangle of an image as a text; a rectangle that was read beyond a box has none.
unfoldable pub shown : Rect → Parse (Option Text)
unfolding rect_text
shown undefined = thrown
shown no_rect = got none
shown (rect left top right bottom) = got (some (rect_text left top right bottom))

-- An image as it is seen, by what is shown of its rectangle.
abbrev pub seen_of : TraceImage → Option Text → Seen
seen_of image box = record {
  url = image.url;
  rectangle = box;
  age = image.age;
  gender = image.gender;
  picture = base64_decode image.image_base64;
}

module _ (J : JsonLib) (W : JsonWriter J) where
  abbrev pub box_members : Option Text → List (Text × J.Value)
  box_members none = []
  box_members (some t) = (codes "face_rect", W.of_text t) ∷ []

  -- The members of an image, by what is shown of its rectangle.
  abbrev pub image_members : TraceImage → Option Text → List (Text × J.Value)
  image_members image box =
      (codes "url", W.of_text image.url)
      ∷ (box_members box
          ++ ((codes "age", W.of_int image.age)
              ∷ (codes "gender", W.of_int image.gender)
              ∷ (codes "image_base64", W.of_text image.image_base64)
              ∷ []))

module _ (J : JsonLib) (W : JsonWriter J) (laws : IsWriter J W) where
  pub found_text :
      (members : List (Text × J.Value)) (key t : Text)
      → last_set J key members ≡ some (W.of_text t)
      → text_at J (set_all J W W.null_value members) key ≡ got t
  found_text members key t h =
      rw
        (
          (at-set_all J W laws W.null_value members key (W.of_text t) laws.doc_null h).0,
          laws.as_string_text t,
        )
        refl

  pub found_int :
      (members : List (Text × J.Value)) (key : Text) (n : ℤ)
      → last_set J key members ≡ some (W.of_int n)
      → int_at J (set_all J W W.null_value members) key ≡ got n
  found_int members key n h =
      rw
        (
          (at-set_all J W laws W.null_value members key (W.of_int n) laws.doc_null h).0,
          laws.as_int_int n,
        )
        refl

  described :
      (image : TraceImage) (box : Option Text)
      → (do
        age ← int_at J (set_all J W W.null_value (image_members J W image box)) (codes "age")
        gender ← int_at J (set_all J W W.null_value (image_members J W image box)) (codes "gender")
        encoded ←
            text_at J
              (set_all J W W.null_value (image_members J W image box))
              (codes "image_base64")
        got (record {
          url = image.url;
          rectangle = box;
          age = age;
          gender = gender;
          picture = base64_decode encoded;
        }))
        ≡ got (seen_of image box)
  unfolding codes text_eq last_set
  described image none =
      bind_got _ (found_int (image_members J W image none) (codes "age") image.age refl) (
        bind_got _ (found_int (image_members J W image none) (codes "gender") image.gender refl) (
          bind_got _
            (found_text (image_members J W image none) (codes "image_base64") image.image_base64
              refl)
            refl))
  described image (some t) =
      bind_got _ (found_int (image_members J W image (some t)) (codes "age") image.age refl) (
        bind_got _ (found_int (image_members J W image (some t)) (codes "gender") image.gender refl)
          (bind_got _
            (found_text (image_members J W image (some t)) (codes "image_base64") image.image_base64
              refl)
            refl))

  -- An image is read back from its members.
  pub read_image-members :
      (image : TraceImage) (box : Option Text)
      → read_image J (set_all J W W.null_value (image_members J W image box))
        ≡ got (seen_of image box)
  unfolding read_image codes text_eq last_set
  read_image-members image none =
      bind_got _ (found_text (image_members J W image none) (codes "url") image.url refl) (
        bind_got _
          (ap call (
            is_member-set_all_other J W laws W.null_value (image_members J W image none)
              (codes "face_rect") laws.doc_null refl
            ∙ laws.member_null (codes "face_rect")))
          (described image none))
  read_image-members image (some t) =
      bind_got _ (found_text (image_members J W image (some t)) (codes "url") image.url refl) (
        bind_got _
          (ap call
            (at-set_all J W laws W.null_value (image_members J W image (some t)) (codes "face_rect")
              (W.of_text t) laws.doc_null refl).1)
          (bind_got _
            (bind_got _ (found_text (image_members J W image (some t)) (codes "face_rect") t refl)
              refl)
            (described image (some t))))
