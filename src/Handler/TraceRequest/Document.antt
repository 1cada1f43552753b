-- ===== src/Handler/TraceRequest/Document.antt =====
-- The request of `makeTraceSpaceRequest` of src/handler/pre_handler_http_request.cpp as it is sent: its JSON,
-- its method and its path.
use business.Base.{List, [], ◌∷◌, ◌++◌}
use business.Base.Int.{ℤ}
use business.Base.Text.{Text, codes}
use business.Base.Decimal.{show_ℤ}
use business.Json.{Parse, thrown, refused, got, ◌>>=◌, JsonLib}
use business.Json.Writer.{JsonWriter}
use business.Json.Append.{append_loop}
use business.Data.{IpcInfo}
use business.Handler.TraceRequest.{
  undefined, no_rect, rect, Sources, Getters, TraceImage, trace_images,
}

-- The text that `getFaceRectByOrder` prints.
unfoldable pub rect_text : ℤ → ℤ → ℤ → ℤ → Text
unfolding show_ℤ
rect_text left top right bottom =
    show_ℤ left ++ (b',' ∷ (show_ℤ top ++ (b',' ∷ (show_ℤ right ++ (b',' ∷ show_ℤ bottom)))))

-- `RequestInfo`; `extra` are its headers.
pub record RequestInfo : Type 0 where
  pub method : Text
  pub path : Text
  pub extra : List (Text × Text)
  pub body : Text

module _ (J : JsonLib) (W : JsonWriter J) where
  abbrev pub set_description : TraceImage → J.Value → J.Value
  set_description image tmp =
      W.set
        (W.set (W.set tmp (codes "age") (W.of_int image.age)) (codes "gender")
          (W.of_int image.gender))
        (codes "image_base64") (W.of_text image.image_base64)

  -- `tmp` of the loop; `thrown` where a box is read beyond its end.
  unfoldable pub image_value : TraceImage → Parse (J.Value)
  unfolding codes rect_text
  image_value image =
      let tmp : J.Value = W.set W.null_value (codes "url") (W.of_text image.url) in
      elim image.rectangle [
        | undefined ↦ thrown
        | no_rect ↦ got (set_description image tmp)
        | rect left top right bottom ↦ got (
            set_description image
              (W.set tmp (codes "face_rect") (W.of_text (rect_text left top right bottom))))
      ]

  -- The loop over the images, which appends to the member of the document.
  unfoldable pub add_images : List TraceImage → J.Value → Parse (J.Value)
  unfolding codes image_value append_loop
  add_images images out_jv = append_loop J W (codes "images") image_value images out_jv

  -- The members before the images.
  unfoldable pub trace_head : IpcInfo → Text → Getters → J.Value
  unfolding codes
  trace_head ipc session_id getters =
      let place : J.Value =
        W.set (W.set W.null_value (codes "dossier_name") (W.of_text ipc.space_id))
          (codes "model_version") (W.of_text []) in
      let moment : J.Value =
        W.set
          (W.set (W.set place (codes "device_id") (W.of_text ipc.device_id)) (codes "uid")
            (W.of_text session_id))
          (codes "ipc_tmst") (W.of_int ipc.timestamp) in
      W.set (W.set moment (codes "track_id") (W.of_int getters.track_id)) (codes "replay")
        (W.of_int getters.replay)

  unfoldable pub trace_document :
      Sources → IpcInfo → Text → Getters → List (Text × Text) → Parse (J.Value)
  unfolding codes trace_head trace_images add_images
  trace_document plugin ipc session_id getters images =
      add_images (trace_images plugin getters 0 images)
        (W.set (trace_head ipc session_id getters) (codes "images") (W.array []))

  -- `makeTraceSpaceRequest` for a session with its handler; `refused` is the end with `kDownloadError`.
  unfoldable pub make_trace_space_request :
      Sources → IpcInfo → Text → Getters → List (Text × Text) → Parse RequestInfo
  unfolding codes trace_document
  make_trace_space_request plugin ipc session_id getters [] = refused
  make_trace_space_request plugin ipc session_id getters (image ∷ images) = do
    out_jv ← trace_document plugin ipc session_id getters (image ∷ images)
    got (record {
      method = codes "POST";
      path = codes "/api/xtrace/capture/identify?app_id=" ++ ipc.app_id;
      extra = [];
      body = W.to_styled_string out_jv;
    })
