-- ===== src/Handler/TraceRequest/RoundTrip.antt =====
-- What the tracing service reads in the request for a capture.
use business.Base.{◌≡◌, refl, ap, fun_ext, ap₂, ◌∙◌, List, [], ◌∷◌, ◌++◌, map, All}
use business.Base.Int.{ℤ}
use business.Base.Text.{Text, codes}
use business.ComFunc.Base64.{base64_decode}
use business.ComFunc.Base64.RoundTrip.{IsByte, base64_decode-base64_encode}
use business.Json.{Parse, thrown, refused, got, ◌>>=◌, collect, JsonLib}
use business.Json.Writer.{JsonWriter, IsWriter}
use business.Json.Members.{set_all}
use business.Data.{IpcInfo}
use business.Data.Capture.{Face}
use business.Handler.TraceRequest.{
  Sources, Getters, TraceImage, trace_images, face_getters, kept_images, own_image, IsFull,
  trace_images-own,
}
use business.Handler.TraceRequest.Document.{
  image_value, trace_head, trace_document, make_trace_space_request,
}
use business.Handler.TraceRequest.Read.{
  Seen, read_image, read_request, shown, image_members, seen_of, read_image-members,
}
use business.Handler.TraceRequest.Written.{
  with_images, image_value-rect, trace_document-collect, request_of, read_request-head,
}
use business.Json.Collect.{collect-read}

-- A download as the service is to see it, with the error of a box that is too short.
abbrev pub sent : Sources → Face × Text → Parse Seen
sent plugin (face, body) = shown (own_image plugin (face, body)).rectangle >>= λ box. got (record {
  url = face.url;
  rectangle = box;
  age = (own_image plugin (face, body)).age;
  gender = (own_image plugin (face, body)).gender;
  picture = body;
})

abbrev pub AreBytes : Face × Text → Type 0
AreBytes (face, body) = All IsByte body

collect-own :
    (plugin : Sources) (downloads : List (Face × Text))
    → All AreBytes downloads
    → collect
        (λ image. shown image.rectangle >>= λ box. got (record {
          url = image.url;
          rectangle = box;
          age = image.age;
          gender = image.gender;
          picture = base64_decode image.image_base64;
        }))
        (map (own_image plugin) downloads)
      ≡ collect (sent plugin) downloads
unfolding collect own_image
collect-own plugin [] h = refl
collect-own plugin ((face, body) ∷ downloads) (one, h) =
    ap₂
      (λ picture rest.
        (shown (own_image plugin (face, body)).rectangle >>= λ box. got (record {
          url = face.url;
          rectangle = box;
          age = (own_image plugin (face, body)).age;
          gender = (own_image plugin (face, body)).gender;
          picture = picture;
        }))
        >>= λ y. rest >>= λ ys. got (y ∷ ys))
      (base64_decode-base64_encode body one) (collect-own plugin downloads h)

module _ (J : JsonLib) (W : JsonWriter J) (laws : IsWriter J W) where
  collect-image_value :
      (images : List TraceImage)
      → (collect (image_value J W) images >>= collect (read_image J))
        ≡ collect (λ image. shown image.rectangle >>= λ box. got (seen_of image box)) images
  collect-image_value images =
      ap (λ f. collect f images >>= collect (read_image J))
        (fun_ext (λ image. image_value-rect J W laws image image.rectangle refl))
      ∙ collect-read (λ image. shown image.rectangle)
          (λ image box. set_all J W W.null_value (image_members J W image box)) seen_of
          (read_image J) (read_image-members J W laws) images

  read_all :
      (ipc : IpcInfo) (session_id : Text) (getters : Getters) (values : Parse (List (J.Value)))
      → ((values >>= λ vs. got (with_images J W (trace_head J W ipc session_id getters) vs))
          >>= read_request J)
        ≡ ((values >>= collect (read_image J)) >>= λ seen.
            got (request_of ipc session_id getters seen))
  read_all ipc session_id getters thrown = refl
  read_all ipc session_id getters refused = refl
  read_all ipc session_id getters (got vs) = read_request-head J W laws ipc session_id getters vs

  trace_document-read :
      (plugin : Sources) (ipc : IpcInfo) (session_id : Text) (getters : Getters)
      (images : List (Text × Text))
      → (trace_document J W plugin ipc session_id getters images >>= read_request J) ≡ (
          collect
            (λ image. shown image.rectangle >>= λ box. got (seen_of image box))
            (trace_images plugin getters 0 images)
          >>= λ seen. got (request_of ipc session_id getters seen))
  unfolding trace_document codes
  trace_document-read plugin ipc session_id getters images =
      ap (λ d. d >>= read_request J)
        (trace_document-collect J W laws plugin ipc session_id getters images)
      ∙ read_all ipc session_id getters
          (collect (image_value J W) (trace_images plugin getters 0 images))
      ∙ ap (λ r. r >>= λ seen. got (request_of ipc session_id getters seen))
          (collect-image_value (trace_images plugin getters 0 images))

-- If a capture's first download and all others brought bytes and none was empty, the request of the tracing
-- service has the path of the capture's app, and its body is a document in which the service reads the
-- capture's space and device, the session's id, the capture's replay mark, and for each download, in order,
-- the face's url, the rectangle as a text unless a box is empty, the age and the gender, as far as the plugin
-- lets the device say them, and the bytes themselves out of base64. Where a box is too short, the request and
-- the reading both end in the error of the first such face.
pub make_trace_space_request-read :
    (J : JsonLib) (W : JsonWriter J) (laws : IsWriter J W) (plugin : Sources) (ipc : IpcInfo)
    (session_id : Text) (first : Face × Text) (downloads : List (Face × Text)) (track_id replay : ℤ)
    → All IsFull (first ∷ downloads)
    → All AreBytes (first ∷ downloads)
    → (doc : Parse (J.Value)) × (make_trace_space_request J W plugin ipc session_id
          (face_getters (map (λ d. d.0) (first ∷ downloads)) track_id replay)
          (kept_images (first ∷ downloads))
        ≡ (doc >>= λ v. got (record {
          method = codes "POST";
          path = codes "/api/xtrace/capture/identify?app_id=" ++ ipc.app_id;
          extra = [];
          body = W.to_styled_string v;
        })))
      × ((doc >>= read_request J) ≡ (
          collect (sent plugin) (first ∷ downloads) >>= λ images. got (record {
            dossier_name = ipc.space_id;
            device_id = ipc.device_id;
            uid = session_id;
            replay = replay;
            images = images;
          })))
unfolding make_trace_space_request kept_images face_getters
make_trace_space_request-read J W laws plugin ipc session_id first downloads track_id replay
      (one, full) bytes =
    (
      trace_document J W plugin ipc session_id getters (kept_images (first ∷ downloads)),
      rw one refl,
      trace_document-read J W laws plugin ipc session_id getters (kept_images (first ∷ downloads))
          ∙ ap (λ r. r >>= λ images. got (request_of ipc session_id getters images))
              (ap (collect (λ image. shown image.rectangle >>= λ box. got (seen_of image box)))
                  (trace_images-own plugin (first ∷ downloads) track_id replay (one, full))
                ∙ collect-own plugin (first ∷ downloads) bytes),
    )
  where
    getters : Getters
    getters = face_getters (map (λ d. d.0) (first ∷ downloads)) track_id replay
