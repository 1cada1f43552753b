-- ===== src/Handler/Request/Urls.antt =====
-- What is read in the request for links to pictures.
use business.Base.{
  ◌≡◌, refl, sym, ap, fun_ext, ◌∙◌, List, [], ◌∷◌, ◌++◌, some, All, if◌then◌else◌, append-nil,
}
use business.Base.Text.{Text, codes, text_eq, is_empty}
use business.Json.{
  Parse, thrown, refused, got, ◌>>=◌, call, demand, collect, bind_got, bind_assoc, bind_nothing,
  JsonLib,
}
use business.Json.Writer.{JsonWriter, IsWriter}
use business.Json.Members.{last_set}
use business.Json.Collect.{collect-read}
use business.Json.Append.{append_loop, append_loop-append, append_loop-null, array_or_null}
use business.Handler.Url.{split_url}
use business.Handler.Url.Parts.{join_url, HasParts, split_url_iff}
use business.Handler.TraceRequest.Read.{text_at, found_text}
use business.Handler.Request.{
  parts_value, url_value, get_generate_url_data, generate_url_document, Paths, posted,
  make_generate_url_request,
}

-- The pictures that links are asked for: the faces', then the person's.
abbrev pub all_urls : List Text → Text → List Text
all_urls urls person_url = urls ++ (if is_empty person_url then [] else person_url ∷ [])

-- An endpoint, a bucket and a key that is not empty, between slashes.
abbrev pub HasSomeParts : Text → Type 0
HasSomeParts uri = (e : Text) × (b : Text) × (k : Text) × HasParts uri e b k

module _ (J : JsonLib) where
  -- A picture of the list, put together again.
  unfoldable pub read_parts : J.Value → Parse Text
  unfolding codes
  read_parts v = do
    endpoint ← text_at J v (codes "endpoint")
    bucket ← text_at J v (codes "bucket")
    key ← text_at J v (codes "key")
    got (join_url endpoint bucket key)

  unfoldable pub read_list : J.Value → Parse (List Text)
  unfolding codes collect read_parts
  read_list doc = call (J.at doc (codes "list")) >>= λ list. collect read_parts (J.items list)

abbrev joined : Text × Text × Text → Text
joined (e, b, k) = join_url e b k

not_thrown {ℓ} : {A : Type ℓ} (a : A) → got a ≡ thrown → ⊥
not_thrown a e = absurd cc

not_refused {ℓ} : {A : Type ℓ} (a : A) → got a ≡ refused → ⊥
not_refused a e = absurd cc

collect-joined :
    (urls : List Text)
    → All HasSomeParts urls
    → collect (λ uri. demand (split_url uri) >>= λ parts. got (joined parts)) urls ≡ got urls
unfolding collect
collect-joined [] h = refl
collect-joined (uri ∷ urls) ((e, b, k, (free_e, free_b, some_key, whole)), h) =
    bind_got _
      (bind_got _ (ap demand ((split_url_iff uri e b k).1 (free_e, free_b, some_key, whole)))
        (ap got (sym whole)))
      (bind_got _ (collect-joined urls h) refl)

module _ (J : JsonLib) (W : JsonWriter J) (laws : IsWriter J W) where
  read_parts-value :
      (parts : Text × Text × Text) → read_parts J (parts_value J W parts) ≡ got (joined parts)
  unfolding read_parts parts_value codes text_eq last_set
  read_parts-value (e, b, k) =
      let members : List (Text × J.Value) =
        (codes "endpoint", W.of_text e)
        ∷ (codes "bucket", W.of_text b)
        ∷ (codes "key", W.of_text k)
        ∷ [] in
      bind_got _ (found_text J W laws members (codes "endpoint") e refl) (
        bind_got _ (found_text J W laws members (codes "bucket") b refl)
          (bind_got _ (found_text J W laws members (codes "key") k refl) refl))

  -- The document is the list of the pictures, or null if there are none.
  pub generate_url_document-list :
      (urls : List Text) (person_url : Text)
      → generate_url_document J W urls person_url ≡ (
          collect (url_value J W) (all_urls urls person_url) >>= λ vs.
          got (array_or_null J W (codes "list") vs))
  unfolding generate_url_document get_generate_url_data codes append_loop
  generate_url_document-list urls [] =
      bind_nothing (append_loop J W (codes "list") (url_value J W) urls W.null_value)
      ∙ append_loop-null J W laws (codes "list") (url_value J W) urls
      ∙ ap (λ us. collect (url_value J W) us >>= λ vs. got (array_or_null J W (codes "list") vs))
          (sym (append-nil urls))
  generate_url_document-list urls (x ∷ person_url) =
      append_loop-append J W laws (codes "list") (url_value J W) urls ((x ∷ person_url) ∷ [])
        W.null_value
      ∙ append_loop-null J W laws (codes "list") (url_value J W) (urls ++ (x ∷ person_url) ∷ [])

  read_list-array :
      (vs : List (J.Value))
      → read_list J (array_or_null J W (codes "list") vs) ≡ collect (read_parts J) vs
  unfolding read_list codes collect
  read_list-array [] =
      bind_got _ (ap call (laws.at_null (codes "list")))
        (ap (collect (read_parts J)) laws.items_null)
  read_list-array (v ∷ vs) =
      bind_got _
        (ap call (laws.at_set W.null_value (codes "list") (W.array (v ∷ vs)) laws.doc_null))
        (ap (collect (read_parts J)) (laws.items_array (v ∷ vs)))

  list_of :
      (values : Parse (List (J.Value)))
      → ((values >>= λ vs. got (array_or_null J W (codes "list") vs)) >>= read_list J)
        ≡ (values >>= collect (read_parts J))
  list_of values = bind_assoc values _ _ ∙ ap (λ f. values >>= f) (fun_ext read_list-array)

  generate_url_document-read_in :
      (urls : List Text) (person_url : Text)
      → All HasSomeParts (all_urls urls person_url)
      → (generate_url_document J W urls person_url >>= read_list J) ≡ got (all_urls urls person_url)
  generate_url_document-read_in urls person_url whole =
      ap (λ d. d >>= read_list J) (generate_url_document-list urls person_url)
      ∙ list_of (collect (url_value J W) (all_urls urls person_url))
      ∙ collect-read (λ uri. demand (split_url uri)) (λ uri. parts_value J W) (λ uri. joined)
          (read_parts J) (λ uri. read_parts-value) (all_urls urls person_url)
      ∙ collect-joined (all_urls urls person_url) whole

-- If the picture of each face, and that of the person if there is one, has an endpoint, a bucket and a key,
-- the request for links posts to the configured path a document in which these pictures are read, in that order.
pub make_generate_url_request-read :
    (J : JsonLib) (W : JsonWriter J) (laws : IsWriter J W) (paths : Paths) (path : Text)
    (urls : List Text) (person_url : Text)
    → paths.gen_url_path ≡ some path
    → All HasSomeParts (all_urls urls person_url)
    → (doc : J.Value) × (make_generate_url_request J W paths urls person_url
        ≡ got (record {
          method = codes "POST";
          path = path;
          extra = (codes "Content-Type", codes "application/json") ∷ [];
          body = W.to_styled_string doc;
        }))
      × (read_list J doc ≡ got (all_urls urls person_url))
unfolding make_generate_url_request posted
make_generate_url_request-read J W laws paths path urls person_url conf whole =
    by_document (generate_url_document J W urls person_url) refl
  where
    reads :
        (generate_url_document J W urls person_url >>= read_list J) ≡ got (all_urls urls person_url)
    reads = generate_url_document-read_in J W laws urls person_url whole

    by_document :
        (o : Parse (J.Value))
        → generate_url_document J W urls person_url ≡ o
        → (doc : J.Value) × (make_generate_url_request J W paths urls person_url
            ≡ got (record {
              method = codes "POST";
              path = path;
              extra = (codes "Content-Type", codes "application/json") ∷ [];
              body = W.to_styled_string doc;
            }))
          × (read_list J doc ≡ got (all_urls urls person_url))
    by_document thrown e = absurd (not_thrown _ (sym reads ∙ ap (λ o. o >>= read_list J) e))
    by_document refused e = absurd (not_refused _ (sym reads ∙ ap (λ o. o >>= read_list J) e))
    by_document (got doc) e = (
      doc,
      bind_got _ e (bind_got _ (ap demand conf) refl),
      ap (λ o. o >>= read_list J) (sym e) ∙ reads,
    )
