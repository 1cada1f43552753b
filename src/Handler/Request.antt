-- ===== src/Handler/Request.antt =====
-- `makeRequest` of src/handler/pre_handler_http_request.cpp, with the requests for a download and for links to
-- pictures, and `GetGenerateUrlData` of the data classes of src/data, which is the same code in each.
pub mod Agrees
pub mod Urls
mod Tests
use business.Base.{
  ℕ, Bool, true, false, List, [], ◌∷◌, Option, none, some, length, ◌==◌, if◌then◌else◌,
}
use business.Base.Text.{Text, codes, is_empty}
use business.Json.{Parse, refused, got, ◌>>=◌, demand, JsonLib}
use business.Json.Writer.{JsonWriter}
use business.Json.Append.{append_loop}
use business.Data.{IpcInfo}
use business.Handler.Url.{split_url}
use business.Handler.TraceRequest.{Sources, Getters}
use business.Handler.TraceRequest.Document.{RequestInfo, make_trace_space_request}
use business.Workflow.{
  ProcType, download_image, generate_url, trace_space, download_error, Session, final, get_next_url,
}

-- What the configuration has under `s3proxy`: `path` and `gen_url_path`.
pub record Paths : Type 0 where
  pub path : Option Text
  pub gen_url_path : Option Text

-- What the handler's message has beyond the urls, which are the session's cursor.
pub record Message : Type 0 where
  pub ipc : IpcInfo
  pub plugin : Sources
  pub getters : Getters
  pub session_id : Text

module _ (J : JsonLib) (W : JsonWriter J) where
  -- The members `endpoint`, `bucket` and `key`.
  unfoldable pub parts_value : Text × Text × Text → J.Value
  unfolding codes
  parts_value (endpoint, bucket, key) =
      W.set
        (W.set (W.set W.null_value (codes "endpoint") (W.of_text endpoint)) (codes "bucket")
          (W.of_text bucket))
        (codes "key") (W.of_text key)

  abbrev pub url_value : Text → Parse (J.Value)
  url_value uri = demand (split_url uri) >>= λ parts. got (parts_value parts)

  -- The end of both requests: the path, the header and the text of the document.
  unfoldable pub posted : Option Text → J.Value → Parse RequestInfo
  unfolding codes
  posted configured out_jv = demand configured >>= λ path. got (record {
    method = codes "POST";
    path = path;
    extra = (codes "Content-Type", codes "application/json") ∷ [];
    body = W.to_styled_string out_jv;
  })

  -- `GetGenerateUrlData`, for the urls of the faces
  unfoldable pub get_generate_url_data : List Text → J.Value → Parse (J.Value)
  unfolding codes append_loop parts_value
  get_generate_url_data urls out_jv = append_loop J W (codes "list") url_value urls out_jv

  -- The document of `makeGenerateUrlRequest`, to which the person's picture is appended if there is one.
  unfoldable pub generate_url_document : List Text → Text → Parse (J.Value)
  unfolding codes append_loop get_generate_url_data
  generate_url_document urls person_url = do
    out_jv ← get_generate_url_data urls W.null_value
    if is_empty person_url
        then got out_jv
        else append_loop J W (codes "list") url_value (person_url ∷ []) out_jv

  unfoldable pub make_generate_url_request : Paths → List Text → Text → Parse RequestInfo
  unfolding generate_url_document posted
  make_generate_url_request paths urls person_url =
      generate_url_document urls person_url >>= λ out_jv. posted paths.gen_url_path out_jv

  -- `makeDownloadRequest`, which takes the next url even if it cannot be asked for.
  unfoldable pub make_download_request : Paths → Session → Session × Parse RequestInfo
  unfolding get_next_url parts_value posted
  make_download_request paths s =
      if length s.cursor.urls == 0
      then (s, refused)
      else let (url, cursor) = get_next_url s.cursor in
        (
          record s { current_download_url = url; cursor = cursor },
          if is_empty url then refused else (url_value url >>= λ out_jv. posted paths.path out_jv),
        )

  -- `makeRequest`; without images the session ends in the request for tracing.
  unfoldable pub pre_request : Paths → Message → ProcType → Session → Session × Parse RequestInfo
  unfolding make_download_request make_generate_url_request make_trace_space_request
  pre_request paths message download_image s = make_download_request paths s
  pre_request paths message trace_space s = (
    if length s.images == 0 then final download_error s else s,
    make_trace_space_request J W message.plugin message.ipc message.session_id message.getters
        s.images,
  )
  pre_request paths message generate_url s =
      (s, make_generate_url_request paths s.cursor.urls s.person_url)
  pre_request paths message _ s = (s, refused)
