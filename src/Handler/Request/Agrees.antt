-- ===== src/Handler/Request/Agrees.antt =====
-- The session and the result of `makeRequest` as the workflow's modules take them, against the requests
-- themselves.
use business.Base.{
  ◌≡◌, refl, sym, ap, ap₂, ◌∙◌, not, ◌||◌, ◌≢◌, Bool, true, false, ◌&&◌, List, [], ◌∷◌, Option,
  none, some, All, all, length, arith, ◌==◌, if◌then◌else◌, Bool-cases, inl, inr,
}
use business.Base.Text.{Text, codes, is_empty}
use business.Json.{Parse, thrown, refused, got, ◌>>=◌, collect, JsonLib}
use business.Json.Writer.{JsonWriter, IsWriter}
use business.Json.Got.{is_got, is_got-demand, is_got-got, is_got-cons, asked}
use business.Json.Append.{array_or_null}
use business.Handler.Url.{split_url}
use business.Handler.TraceRequest.{Rect, undefined, no_rect, rect, TraceImage, trace_images}
use business.Handler.TraceRequest.Document.{trace_document, image_value, make_trace_space_request}
use business.Handler.TraceRequest.Written.{image_value-rect, trace_document-collect}
use business.Handler.TraceRequest.Read.{shown}
use business.Handler.Request.{
  Paths, Message, parts_value, url_value, posted, generate_url_document, make_generate_url_request,
  make_download_request, pre_request,
}
use business.Handler.Request.Urls.{all_urls, generate_url_document-list}
use business.Workflow.{
  ProcType, download_image, generate_url, trace_space, output_kafka, pic_wait, business_save,
  get_plugin, none_process, pre_process, max_proc_type, Session, get_next_url, download_error,
  final,
}
use business.Workflow.Modules.{Answer, make_request, splits}

abbrev pub has {ℓ} : {A : Type ℓ} → Option A → Bool
has none = false
has (some a) = true

-- No box is read beyond its end.
abbrev pub IsFit : TraceImage → Type 0
IsFit image = image.rectangle ≢ undefined

either {ℓ} :
    {A : Type ℓ} (b : Bool) (x y : A)
    → (r : A × Bool) → r ≡ (if b then (x, false) else (y, true))
    → ((if b then x else y) ≡ r.0) × (not b ≡ r.1)
either true x y r e = (ap (λ q. q.0) (sym e), ap (λ q. q.1) (sym e))
either false x y r e = (ap (λ q. q.0) (sym e), ap (λ q. q.1) (sym e))

all_urls_lem :
    (urls : List Text) (person_url : Text)
    → all splits (all_urls urls person_url)
      ≡ (all splits urls && (is_empty person_url || splits person_url))
all_urls_lem [] [] = refl
all_urls_lem [] (x ∷ person_url) = ground arith
all_urls_lem (uri ∷ urls) person_url = ground (arith, all_urls_lem urls person_url)

module _ (J : JsonLib) (W : JsonWriter J) (laws : IsWriter J W) where
  is_got-posted :
      (o : Parse (J.Value)) (path : Option Text)
      → is_got (o >>= posted J W path) ≡ is_got o && has path
  unfolding posted
  is_got-posted thrown path = refl
  is_got-posted refused path = refl
  is_got-posted (got v) none = refl
  is_got-posted (got v) (some p) = refl

  is_got-url_value : (uri : Text) → is_got (url_value J W uri) ≡ splits uri
  is_got-url_value uri = is_got-demand (parts_value J W) (split_url uri)

  is_got-collect : (urls : List Text) → is_got (collect (url_value J W) urls) ≡ all splits urls
  unfolding collect
  is_got-collect [] = refl
  is_got-collect (uri ∷ urls) =
      is_got-cons (url_value J W uri) (collect (url_value J W) urls)
      ∙ ap₂ (λ x y. x && y) (is_got-url_value uri) (is_got-collect urls)

  is_got-generate :
      (paths : Paths) (urls : List Text) (person_url : Text)
      → is_got (make_generate_url_request J W paths urls person_url)
        ≡ (all splits (all_urls urls person_url) && has paths.gen_url_path)
  unfolding make_generate_url_request
  is_got-generate paths urls person_url =
      is_got-posted (generate_url_document J W urls person_url) paths.gen_url_path
      ∙ ap (λ x. x && has paths.gen_url_path)
          (ap is_got (generate_url_document-list J W laws urls person_url)
            ∙ is_got-got (array_or_null J W (codes "list"))
                (collect (url_value J W) (all_urls urls person_url))
            ∙ is_got-collect (all_urls urls person_url))

  is_got-image_value :
      (image : TraceImage) (r : Rect)
      → image.rectangle ≡ r
      → r ≢ undefined
      → is_got (image_value J W image) ≡ true
  unfolding shown
  is_got-image_value image undefined e fit = absurd (fit refl)
  is_got-image_value image no_rect e fit = ap is_got (image_value-rect J W laws image no_rect e)
  is_got-image_value image (rect l t r b) e fit =
      ap is_got (image_value-rect J W laws image (rect l t r b) e)

  is_got-images :
      (images : List TraceImage)
      → All IsFit images
      → is_got (collect (image_value J W) images) ≡ true
  unfolding collect
  is_got-images [] fit = refl
  is_got-images (image ∷ images) (one, fit) =
      is_got-cons (image_value J W image) (collect (image_value J W) images)
      ∙ ap₂ (λ x y. x && y) (is_got-image_value image image.rectangle refl one)
          (is_got-images images fit)

  is_got-trace :
      (message : Message) (images : List (Text × Text))
      → All IsFit (trace_images message.plugin message.getters 0 images)
      → is_got (
          make_trace_space_request J W message.plugin message.ipc message.session_id message.getters
            images)
        ≡ not (length images == 0)
  unfolding make_trace_space_request trace_document
  is_got-trace message [] fit = refl
  is_got-trace message (image ∷ images) fit =
      is_got-got _ (
        trace_document J W message.plugin message.ipc message.session_id message.getters
          (image ∷ images))
      ∙ ap is_got (
          trace_document-collect J W laws message.plugin message.ipc message.session_id
            message.getters (image ∷ images))
      ∙ is_got-got _ (
          collect (image_value J W)
            (trace_images message.plugin message.getters 0 (image ∷ images)))
      ∙ is_got-images (trace_images message.plugin message.getters 0 (image ∷ images)) fit
      ∙ ground arith

  download_agrees :
      (paths : Paths) (s : Session) (a : Answer)
      → has paths.path ≡ a.path
      → ((make_download_request J W paths s).0 ≡ (make_request a download_image s).0)
        × (is_got (make_download_request J W paths s).1 ≡ (make_request a download_image s).1)
  unfolding make_download_request make_request
  download_agrees paths s a conf = elim (Bool-cases (length s.cursor.urls == 0)) [
    | inl missing ↦ rw (make_download_request, make_request, missing) (refl, refl)
    | inr some_url ↦
        rw (make_download_request, make_request, some_url)
          (
            refl,
            asked (is_empty (get_next_url s.cursor).0)
                (url_value J W (get_next_url s.cursor).0 >>= λ out_jv. posted J W paths.path out_jv)
                (splits (get_next_url s.cursor).0 && a.path)
                (is_got-posted (url_value J W (get_next_url s.cursor).0) paths.path
                  ∙ ap₂ (λ x y. x && y) (is_got-url_value (get_next_url s.cursor).0) conf),
          )
  ]

-- Whether the configuration has the path that a request needs; that of the tracing service is fixed.
abbrev pub is_configured : Paths → ProcType → Bool
is_configured paths download_image = has paths.path
is_configured paths generate_url = has paths.gen_url_path
is_configured paths _ = true

-- What the workflow assumes of `makeRequest` is what the requests do: for every step, the session after it is
-- the same, and it returns true exactly if the request is made. The answer in it on the configuration is that on the
-- path of the step, and for a tracing request no box of a face that an image is described by is too short.
pub pre_request-make_request :
    (J : JsonLib) (W : JsonWriter J) (laws : IsWriter J W) (paths : Paths) (message : Message)
    (type : ProcType) (s : Session) (a : Answer)
    → is_configured paths type ≡ a.path
    → (type ≡ trace_space → All IsFit (trace_images message.plugin message.getters 0 s.images))
    → ((pre_request J W paths message type s).0 ≡ (make_request a type s).0)
      × (is_got (pre_request J W paths message type s).1 ≡ (make_request a type s).1)
unfolding pre_request make_request
pre_request-make_request J W laws paths message download_image s a conf fit =
    download_agrees J W laws paths s a conf
pre_request-make_request J W laws paths message trace_space s a conf fit =
    let b = length s.images == 0 in
    (
      (either b (final download_error s) s (make_request a trace_space s) refl).0,
      is_got-trace J W laws message s.images (fit refl)
          ∙ (either b (final download_error s) s (make_request a trace_space s) refl).1,
    )
pre_request-make_request J W laws paths message generate_url s a conf fit = (
  refl,
  is_got-generate J W laws paths s.cursor.urls s.person_url
      ∙ ap₂ (λ x y. x && y) (all_urls_lem s.cursor.urls s.person_url) conf
      ∙ ground arith,
)
pre_request-make_request J W laws paths message none_process s a conf fit = (refl, refl)
pre_request-make_request J W laws paths message pre_process s a conf fit = (refl, refl)
pre_request-make_request J W laws paths message output_kafka s a conf fit = (refl, refl)
pre_request-make_request J W laws paths message pic_wait s a conf fit = (refl, refl)
pre_request-make_request J W laws paths message business_save s a conf fit = (refl, refl)
pre_request-make_request J W laws paths message get_plugin s a conf fit = (refl, refl)
pre_request-make_request J W laws paths message max_proc_type s a conf fit = (refl, refl)
