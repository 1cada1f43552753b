-- ===== src/Handler/Request/Tests.antt =====
-- Requests of a capture with one face.
use business.Base.{◌≡◌, refl, true, false, [], ◌∷◌, none, some}
use business.Base.Int.{pos}
use business.Base.Text.{codes, is_empty}
use business.Json.{got, JsonLib}
use business.Json.Got.{is_got}
use business.Json.Small.{Json, json_with}
use business.Json.Writer.{JsonWriter, IsWriter}
use business.Json.SmallWriter.{writer_with, writer_with-IsWriter}
use business.Handler.Url.{split_url}
use business.Handler.Url.Parts.{split_url_iff}
use business.Handler.TraceRequest.{Sources, base_getters}
use business.Handler.Request.{Paths, Message, make_generate_url_request, pre_request}
use business.Handler.Request.Urls.{read_list, make_generate_url_request-read}
use business.Handler.Request.Agrees.{pre_request-make_request}
use business.Workflow.{Session, trace_space, capture_data, init}
use business.Workflow.Modules.{Answer, make_request}

abbrev json : JsonLib
json = json_with (λ t. none)

abbrev writer : JsonWriter json
writer = writer_with (λ t. none) (λ v. codes "document")

printed : (v : Json) → is_empty (writer.to_styled_string v) ≡ false
unfolding codes
printed v = refl

abbrev writer-IsWriter : IsWriter json writer
writer-IsWriter = writer_with-IsWriter (λ t. none) (λ v. codes "document") printed

abbrev paths : Paths
paths = record { path = some (codes "/get"); gen_url_path = some (codes "/link") }

-- The face's picture and the person's.
make_generate_url_request-read_example :
    (doc : Json) × (make_generate_url_request json writer paths
        (codes "s3/face/a.jpg" ∷ [])
        (codes "s3/reg/x/y.jpg")
      ≡ got (record {
        method = codes "POST";
        path = codes "/link";
        extra = (codes "Content-Type", codes "application/json") ∷ [];
        body = codes "document";
      }))
    × (read_list json doc ≡ got (codes "s3/face/a.jpg" ∷ codes "s3/reg/x/y.jpg" ∷ []))
unfolding codes split_url
make_generate_url_request-read_example =
    make_generate_url_request-read json writer writer-IsWriter paths (codes "/link")
      (codes "s3/face/a.jpg" ∷ []) (codes "s3/reg/x/y.jpg") refl
      (
        (
          codes "s3",
          codes "face",
          codes "a.jpg",
          (split_url_iff (codes "s3/face/a.jpg") (codes "s3") (codes "face") (codes "a.jpg")).0
              refl,
        ),
        (
          (
            codes "s3",
            codes "reg",
            codes "x/y.jpg",
            (split_url_iff (codes "s3/reg/x/y.jpg") (codes "s3") (codes "reg") (codes "x/y.jpg")).0
                refl,
          ),
          tt,
        ),
      )

abbrev message : Message
message = record {
  ipc = record {
    space_id = codes "space";
    app_id = codes "app";
    device_id = codes "cam";
    uid = codes "u";
    version = [];
    timestamp = pos 1;
  };
  plugin = record { enable = false; face_rect_from = pos 0; face_attr_from = pos 0 };
  getters = base_getters;
  session_id = codes "session";
}

-- A capture with one image, before the request for tracing.
abbrev session : Session
session = record (init none capture_data (codes "s3/face/a.jpg" ∷ []) (pos 2) none) {
  images = (codes "s3/face/a.jpg", codes "x") ∷ [];
}

abbrev answer : Answer
answer = record {
  path = true;
  reply = none;
  outputs = none;
  replayed = false;
  wait = some false;
  saved = true;
  plugin = none;
}

pre_request-make_request_example :
    ((pre_request json writer paths message trace_space session).0
      ≡ (make_request answer trace_space session).0)
    × (is_got (pre_request json writer paths message trace_space session).1
        ≡ (make_request answer trace_space session).1)
unfolding business.Handler.TraceRequest.trace_images
pre_request-make_request_example =
    pre_request-make_request json writer writer-IsWriter paths message trace_space session answer
      refl (λ e. (λ none_read. absurd cc, tt))

-- Without images the session ends and nothing is asked.
no_images :
    is_got (pre_request json writer paths message trace_space (record session { images = [] })).1
    ≡ false
unfolding pre_request
no_images = refl
