-- ===== src/Handler/TraceRequest.antt =====
-- The images of `makeTraceSpaceRequest` of src/handler/pre_handler_http_request.cpp, with the getters by order
-- of src/data, and the images that `ProcImageResponse` keeps. The i-th image is described by the i-th face.
pub mod Document
pub mod Read
pub mod Written
pub mod RoundTrip
mod Tests
use business.Base.{
  ◌≡◌, refl, sym, ap, ap₂, ◌∙◌, subst, ℕ, zero, suc, ◌+◌, Bool, true, false, not, ◌&&◌, ◌||◌, List,
  [], ◌∷◌, ◌++◌, Option, none, some, map, All, length, get_elem?, arith, if◌then◌else◌,
  append_assoc, length-append, ltb,
}
use business.Base.Int.{ℤ, pos, negsuc, ◌-ℤ◌, eq_ℤ}
use business.Base.Text.{Text, is_empty}
use business.ComFunc.Base64.{base64_encode}
use business.Data.Capture.{Face, CaptureInfo, face_age, face_gender}
use business.Data.Event.{EventInfo}

-- The text of a rectangle by its numbers; `undefined` is a read beyond the end of a box.
pub data Rect : Type 0 where
  undefined no_rect : Rect
  rect : ℤ → ℤ → ℤ → ℤ → Rect

-- The corners of `face_box_` within `pic_box_`: elements 0 to 3 of the one, 0 and 1 of the other.
unfoldable pub rect_of : List ℤ → List ℤ → Rect
rect_of [] pic = no_rect
rect_of (f ∷ fs) [] = no_rect
rect_of (f0 ∷ f1 ∷ f2 ∷ f3 ∷ fs) (p0 ∷ p1 ∷ ps) = rect (f0 -ℤ p0) (f1 -ℤ p1) (f2 -ℤ p0) (f3 -ℤ p1)
rect_of _ _ = undefined

-- `getFaceRectByOrder`
unfoldable pub face_rect : List Face → ℕ → Rect
unfolding rect_of
face_rect faces face_num = elim (get_elem? faces face_num) [
  | none ↦ no_rect
  | some face ↦ rect_of face.face_box face.pic_box
]

-- What the request asks of the data class.
pub record Getters : Type 0 where
  pub rect_by_order : ℕ → Rect
  pub age_by_order : ℕ → ℤ
  pub gender_by_order : ℕ → ℤ
  pub track_id : ℤ
  pub replay : ℤ

-- The defaults of `BaseData`, which screenshots and xiashun events keep
abbrev pub base_getters : Getters
base_getters = record {
  rect_by_order = λ i. no_rect;
  age_by_order = λ i. negsuc 0;
  gender_by_order = λ i. negsuc 0;
  track_id = pos 0;
  replay = pos 0;
}

unfoldable pub face_getters : List Face → ℤ → ℤ → Getters
unfolding face_rect face_age face_gender
face_getters faces track_id replay = record {
  rect_by_order = face_rect faces;
  age_by_order = face_age faces;
  gender_by_order = face_gender faces;
  track_id = track_id;
  replay = replay;
}

-- `CaptureData`
abbrev pub capture_getters : CaptureInfo → Getters
capture_getters c = face_getters c.faces c.track_id c.replay

-- `xiashunCaptureData`, which does not override `getReplay`
abbrev pub xiashun_getters : CaptureInfo → Getters
xiashun_getters c = face_getters c.faces c.track_id (pos 0)

-- `BusinessData::getFaceRectByOrder`
unfoldable pub event_rect : EventInfo → ℕ → Rect
unfolding rect_of
event_rect event face_num = elim (get_elem? event.capture_uris face_num) [
  | none ↦ no_rect
  | some face ↦ rect_of face.face_box face.pic_box
]

-- `BusinessData`, which leaves the age and the gender to the defaults
unfoldable pub event_getters : EventInfo → Getters
unfolding event_rect
event_getters event = record base_getters {
  rect_by_order = event_rect event;
  track_id = event.track_id;
  replay = event.replay;
}

-- What the request reads of `PluginInfo`.
pub record Sources : Type 0 where
  pub enable : Bool
  pub face_rect_from : ℤ
  pub face_attr_from : ℤ

abbrev pub from_device : Sources → ℤ → Bool
from_device plugin source = not plugin.enable || eq_ℤ source (pos 0)

-- One element of the request's images; a rectangle that is empty is left out.
pub record TraceImage : Type 0 where
  pub url : Text
  pub rectangle : Rect
  pub age : ℤ
  pub gender : ℤ
  pub image_base64 : Text

-- `-2` says that the service is to find the attribute itself.
unfoldable pub trace_image : Sources → Getters → ℕ → Text × Text → TraceImage
unfolding base64_encode
trace_image plugin getters i (url, img) = record {
  url = url;
  rectangle = if from_device plugin plugin.face_rect_from then getters.rect_by_order i else no_rect;
  age = if from_device plugin plugin.face_attr_from then getters.age_by_order i else negsuc 1;
  gender = if from_device plugin plugin.face_attr_from then getters.gender_by_order i else negsuc 1;
  image_base64 = base64_encode img;
}

-- The loop over `session->images_`, from `i`.
unfoldable pub trace_images : Sources → Getters → ℕ → List (Text × Text) → List TraceImage
unfolding trace_image
trace_images plugin getters i [] = []
trace_images plugin getters i (image ∷ images) =
    trace_image plugin getters i image ∷ trace_images plugin getters (suc i) images

-- The images that the responses to the downloads leave, one response after the other: an empty body is no
-- image.
unfoldable pub kept_images : List (Face × Text) → List (Text × Text)
kept_images [] = []
kept_images ((face, body) ∷ downloads) =
    let rest = kept_images downloads in if is_empty body then rest else (face.url, body) ∷ rest

-- What an image is to be described by: the face that it was downloaded for.
pub own_image : Sources → Face × Text → TraceImage
own_image plugin (face, body) = record {
  url = face.url;
  rectangle =
      if from_device plugin plugin.face_rect_from
      then rect_of face.face_box face.pic_box
      else no_rect;
  age = if from_device plugin plugin.face_attr_from then face.age else negsuc 1;
  gender = if from_device plugin plugin.face_attr_from then face.gender else negsuc 1;
  image_base64 = base64_encode body;
}

get_at :
    (before : List Face) (face : Face) (after : List Face)
    → get_elem? (before ++ face ∷ after) (length before) ≡ some face
get_at [] face after = refl
get_at (x ∷ before) face after = get_at before face after

abbrev pub IsFull : Face × Text → Type 0
IsFull (face, body) = is_empty body ≡ false

trace_image-own :
    (plugin : Sources) (before : List Face) (face : Face) (after : List Face) (body : Text)
    (track_id replay : ℤ)
    → trace_image plugin
        (face_getters (before ++ face ∷ after) track_id replay)
        (length before)
        (face.url, body)
      ≡ own_image plugin (face, body)
unfolding trace_image face_getters face_rect face_age face_gender own_image
trace_image-own plugin before face after body track_id replay =
    rw (trace_image, face_getters, face_rect, face_age, face_gender, get_at before face after) refl

own_from :
    (plugin : Sources) (before : List Face) (downloads : List (Face × Text)) (track_id replay : ℤ)
    → All IsFull downloads
    → trace_images plugin
        (face_getters (before ++ map (λ d. d.0) downloads) track_id replay)
        (length before)
        (kept_images downloads)
      ≡ map (own_image plugin) downloads
unfolding trace_images kept_images
own_from plugin before [] track_id replay full = refl
own_from plugin before ((face, body) ∷ downloads) track_id replay (one, full) = rw one (
    ap₂ (λ x xs. x ∷ xs)
      (trace_image-own plugin before face (map (λ d. d.0) downloads) body track_id replay)
      (later (own_from plugin (before ++ face ∷ []) downloads track_id replay full)))
  where
    later :
        trace_images plugin
            (face_getters ((before ++ face ∷ []) ++ map (λ d. d.0) downloads) track_id replay)
            (length (before ++ face ∷ []))
            (kept_images downloads)
          ≡ map (own_image plugin) downloads
        → trace_images plugin
            (face_getters (before ++ face ∷ map (λ d. d.0) downloads) track_id replay)
            (suc (length before))
            (kept_images downloads)
          ≡ map (own_image plugin) downloads
    later h =
        ap₂
          (λ fs n. trace_images plugin (face_getters fs track_id replay) n (kept_images downloads))
          (sym (append_assoc before (face ∷ []) (map (λ d. d.0) downloads)))
          (omega (arith, length-append before (face ∷ [])))
        ∙ h

-- If no download of a capture's faces had an empty body, each image of the tracing request is described by
-- the rectangle, the age and the gender of the face that it was downloaded for, as far as the plugin
-- lets the device say them.
pub trace_images-own :
    (plugin : Sources) (downloads : List (Face × Text)) (track_id replay : ℤ)
    → All IsFull downloads
    → trace_images plugin
        (face_getters (map (λ d. d.0) downloads) track_id replay)
        0
        (kept_images downloads)
      ≡ map (own_image plugin) downloads
trace_images-own plugin downloads track_id replay full =
    own_from plugin [] downloads track_id replay full
