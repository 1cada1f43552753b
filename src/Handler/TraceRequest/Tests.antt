-- ===== src/Handler/TraceRequest/Tests.antt =====
-- The pictures of two faces, with their bodies.
use business.Base.{◌≡◌, refl, true, false, none, arith, List, [], ◌∷◌, map}
use business.Base.Int.{ℤ, pos, negsuc}
use business.Base.Text.{Text, codes, is_empty}
use business.Data.Capture.{Face}
use business.Data.{IpcInfo}
use business.Data.Event.{new_event_info, new_capture_face}
use business.Json.{Parse, got, ◌>>=◌, collect, JsonLib}
use business.Json.Small.{Json, json_with}
use business.Json.Writer.{JsonWriter, IsWriter}
use business.Json.SmallWriter.{writer_with, writer_with-IsWriter}
use business.Handler.TraceRequest.Document.{rect_text, make_trace_space_request}
use business.Handler.TraceRequest.Read.{read_request}
use business.Handler.TraceRequest.RoundTrip.{sent, make_trace_space_request-read}
use business.Handler.TraceRequest.{
  Rect, rect, no_rect, undefined, Sources, TraceImage, face_getters, event_getters, rect_of,
  trace_images, kept_images, own_image, trace_images-own,
}

abbrev face_of : Text → List ℤ → ℤ → Face
face_of url box age = record {
  tmst = pos 0;
  systm = pos 0;
  pic_box = pos 10 ∷ pos 20 ∷ [];
  face_box = box;
  url = url;
  gen_url = [];
  gen_url_expire = pos 0;
  age = age;
  gender = pos 1;
}

abbrev young : Face
young = face_of (codes "a.jpg") (pos 11 ∷ pos 22 ∷ pos 33 ∷ pos 44 ∷ []) (pos 20)

abbrev old : Face
old = face_of (codes "b.jpg") (pos 51 ∷ pos 52 ∷ pos 63 ∷ pos 64 ∷ []) (pos 70)

abbrev device : Sources
device = record { enable = true; face_rect_from = pos 0; face_attr_from = pos 0 }

abbrev both : List (Face × Text)
both = (young, codes "x") ∷ (old, codes "y") ∷ []

abbrev described : TraceImage → Text × Rect × ℤ
described image = (image.url, image.rectangle, image.age)

-- Where the first body is empty, the picture of the second face is sent with the box and the age of the
-- first.
confused :
    map described (
      trace_images device
        (face_getters (young ∷ old ∷ []) (pos 1) (pos 0))
        0
        (kept_images ((young, []) ∷ (old, codes "y") ∷ [])))
    ≡ (codes "b.jpg", rect (pos 1) (pos 2) (pos 23) (pos 24), pos 20) ∷ []
unfolding trace_images kept_images codes business.Base.Int.◌-ℤ◌ face_getters
confused = refl

-- A box of three numbers is read beyond its end.
short : rect_of (pos 1 ∷ pos 2 ∷ pos 3 ∷ []) (pos 0 ∷ pos 0 ∷ []) ≡ undefined
unfolding rect_of
short = refl

trace_images-own_example :
    trace_images device (face_getters (young ∷ old ∷ []) (pos 1) (pos 0)) 0 (kept_images both)
    ≡ map (own_image device) both
unfolding codes
trace_images-own_example = trace_images-own device both (pos 1) (pos 0) (refl, (refl, tt))

-- A rectangle that leaves the picture to the left.
printed_rect : rect_text (negsuc 11) (pos 0) (pos 120) (pos 7) ≡ codes "-12,0,120,7"
unfolding rect_text codes
printed_rect = refl

-- The second picture of an event has the second box, and the age is left open.
of_event :
    map described (
      trace_images device
        (event_getters (record new_event_info {
          capture_uris =
              new_capture_face
              ∷ record new_capture_face {
                pic_box = pos 1 ∷ pos 2 ∷ [];
                face_box = pos 3 ∷ pos 4 ∷ pos 5 ∷ pos 6 ∷ [];
              }
              ∷ [];
        }))
        0
        ((codes "a.jpg", codes "x") ∷ (codes "b.jpg", codes "y") ∷ []))
    ≡ (codes "a.jpg", no_rect, negsuc 0)
      ∷ (codes "b.jpg", rect (pos 2) (pos 2) (pos 4) (pos 4), negsuc 0)
      ∷ []
unfolding trace_images event_getters codes business.Base.Int.◌-ℤ◌
of_event = refl

abbrev json : JsonLib
json = json_with (λ t. none)

abbrev writer : JsonWriter json
writer = writer_with (λ t. none) (λ v. codes "document")

printed : (v : Json) → is_empty (writer.to_styled_string v) ≡ false
unfolding codes
printed v = refl

abbrev writer-IsWriter : IsWriter json writer
writer-IsWriter = writer_with-IsWriter (λ t. none) (λ v. codes "document") printed

abbrev ipc : IpcInfo
ipc = record {
  space_id = codes "space";
  app_id = codes "app";
  device_id = codes "cam";
  uid = codes "uid";
  version = [];
  timestamp = pos 1;
}

make_trace_space_request-read_example :
    (doc : Parse Json) × (make_trace_space_request json writer device ipc
        (codes "session")
        (face_getters (young ∷ old ∷ []) (pos 1) (pos 0))
        (kept_images both)
      ≡ (doc >>= λ v. got (record {
        method = codes "POST";
        path = codes "/api/xtrace/capture/identify?app_id=app";
        extra = [];
        body = codes "document";
      })))
    × ((doc >>= read_request json) ≡ (
        collect (sent device) both >>= λ images. got (record {
          dossier_name = codes "space";
          device_id = codes "cam";
          uid = codes "session";
          replay = pos 0;
          images = images;
        })))
unfolding codes
make_trace_space_request-read_example =
    make_trace_space_request-read json writer writer-IsWriter device ipc (codes "session")
      (young, codes "x") ((old, codes "y") ∷ []) (pos 1) (pos 0) (refl, (refl, tt))
      ((omega arith, tt), ((omega arith, tt), tt))
