-- ===== src/Handler/TraceRequest/Written.antt =====
-- What the loop of `makeTraceSpaceRequest` leaves in the document, and what is read in it.
use business.Base.{◌≡◌, refl, ap, List, [], ◌∷◌, ◌++◌}
use business.Base.Text.{Text, codes, text_eq}
use business.Json.{got, ◌>>=◌, call, collect, bind_got, JsonLib}
use business.Json.Writer.{JsonWriter, IsWriter}
use business.Json.Members.{doc_set_all, last_set, set_all, at-set_all}
use business.Json.Append.{append_loop-collect}
use business.Data.{IpcInfo}
use business.Handler.TraceRequest.{
  Sources, trace_images, Rect, undefined, no_rect, rect, Getters, TraceImage,
}
use business.Handler.TraceRequest.Document.{trace_document, image_value, add_images, trace_head}
use business.Handler.TraceRequest.Read.{
  Seen, Request, read_image, read_request, shown, image_members, found_text, found_int,
}

-- The request as it is seen.
abbrev pub request_of : IpcInfo → Text → Getters → List Seen → Request
request_of ipc session_id getters images = record {
  dossier_name = ipc.space_id;
  device_id = ipc.device_id;
  uid = session_id;
  replay = getters.replay;
  images = images;
}

module _ (J : JsonLib) (W : JsonWriter J) where
  abbrev pub with_images : J.Value → List (J.Value) → J.Value
  with_images head ws = W.set head (codes "images") (W.array ws)

  abbrev pub head_members : IpcInfo → Text → Getters → List (Text × J.Value)
  head_members ipc session_id getters =
      (codes "dossier_name", W.of_text ipc.space_id)
      ∷ (codes "model_version", W.of_text [])
      ∷ (codes "device_id", W.of_text ipc.device_id)
      ∷ (codes "uid", W.of_text session_id)
      ∷ (codes "ipc_tmst", W.of_int ipc.timestamp)
      ∷ (codes "track_id", W.of_int getters.track_id)
      ∷ (codes "replay", W.of_int getters.replay)
      ∷ []

module _ (J : JsonLib) (W : JsonWriter J) (laws : IsWriter J W) where
  pub image_value-rect :
      (image : TraceImage) (r : Rect)
      → image.rectangle ≡ r
      → image_value J W image
        ≡ (shown r >>= λ box. got (set_all J W W.null_value (image_members J W image box)))
  unfolding image_value shown codes
  image_value-rect image undefined e = rw e refl
  image_value-rect image no_rect e = rw e refl
  image_value-rect image (rect left top right bottom) e = rw e refl

  -- The loop leaves the array of the values of the images in the document.
  add_images-collect :
      (images : List TraceImage) (head : J.Value)
      → laws.IsDoc head
      → add_images J W images (with_images J W head [])
        ≡ (collect (image_value J W) images >>= λ vs. got (with_images J W head vs))
  unfolding add_images codes
  add_images-collect images head d =
      append_loop-collect J W laws (codes "images") (image_value J W) images head [] d

  doc_trace_head :
      (ipc : IpcInfo) (session_id : Text) (getters : Getters)
      → laws.IsDoc (trace_head J W ipc session_id getters)
  unfolding trace_head
  doc_trace_head ipc session_id getters =
      doc_set_all J W laws W.null_value (head_members J W ipc session_id getters) laws.doc_null

  -- The document is its head with the values of the images.
  pub trace_document-collect :
      (plugin : Sources) (ipc : IpcInfo) (session_id : Text) (getters : Getters)
      (images : List (Text × Text))
      → trace_document J W plugin ipc session_id getters images ≡ (
          collect (image_value J W) (trace_images plugin getters 0 images) >>= λ vs.
          got (with_images J W (trace_head J W ipc session_id getters) vs))
  unfolding trace_document codes
  trace_document-collect plugin ipc session_id getters images =
      add_images-collect (trace_images plugin getters 0 images)
        (trace_head J W ipc session_id getters) (doc_trace_head ipc session_id getters)

  pub read_request-head :
      (ipc : IpcInfo) (session_id : Text) (getters : Getters) (vs : List (J.Value))
      → read_request J (with_images J W (trace_head J W ipc session_id getters) vs)
        ≡ (collect (read_image J) vs >>= λ images. got (request_of ipc session_id getters images))
  unfolding read_request trace_head codes text_eq last_set
  read_request-head ipc session_id getters vs =
      let members : List (Text × J.Value) =
        head_members J W ipc session_id getters ++ (codes "images", W.array vs) ∷ [] in
      bind_got _ (found_text J W laws members (codes "dossier_name") ipc.space_id refl) (
        bind_got _ (found_text J W laws members (codes "device_id") ipc.device_id refl) (
          bind_got _ (found_text J W laws members (codes "uid") session_id refl) (
            bind_got _ (found_int J W laws members (codes "replay") getters.replay refl) (
              bind_got _
                (ap call
                  (at-set_all J W laws W.null_value members (codes "images") (W.array vs)
                    laws.doc_null refl).0)
                (ap
                  (λ ws. collect (read_image J) ws >>= λ images.
                    got (request_of ipc session_id getters images))
                  (laws.items_array vs))))))
