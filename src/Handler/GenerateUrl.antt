-- ===== src/Handler/GenerateUrl.antt =====
-- How the links to the pictures are asked for and taken over: `GetGenerateUrlData` and `GetGenUrl` of
-- src/data/business_data.cpp and src/data/capture_data.cpp, which are the same code for two kinds of faces,
-- with `makeGenerateUrlRequest` and `ProcGenerateUrlResponse` of src/handler.
pub mod Own
mod Tests
use business.Base.{
  ℕ, suc, ◌+◌, Bool, true, false, List, [], ◌∷◌, ◌++◌, Option, none, some, length, ◌==◌,
  if◌then◌else◌,
}
use business.Base.Int.{ℤ, pos, eq_ℤ}
use business.Base.Text.{Text, codes, is_empty}
use business.Handler.Url.{split_url}
use business.Json.{
  Parse, refused, got, ◌>>=◌, demand, JsonLib, parse_json, text_field, int_field, array_field,
}

-- An entry of the request's list: the endpoint, the bucket and the key.
abbrev pub Entry : Type 0
Entry = Text × Text × Text

-- A picture with the link that is generated for it.
pub record Linked : Type 0 where
  pub url : Text
  pub gen_url : Text
  pub gen_url_expire : ℤ

-- `GetGenerateUrlData`; `none` is its `return false`.
unfoldable pub generate_url_data : List Linked → Option (List Entry)
generate_url_data [] = some []
generate_url_data (face ∷ faces) = elim (split_url face.url) [
  | none ↦ none
  | some tmp ↦ elim (generate_url_data faces) [ none ↦ none | some rest ↦ some (tmp ∷ rest) ]
]

-- The list of `makeGenerateUrlRequest`, in which the person's picture comes last, if there is one.
unfoldable pub generate_url_list : List Linked → Linked → Option (List Entry)
unfolding generate_url_data
generate_url_list faces person = elim (generate_url_data faces) [
  | none ↦ none
  | some list ↦
      if is_empty person.url
      then some list
      else elim (split_url person.url) [ none ↦ none | some tmp ↦ some (list ++ tmp ∷ []) ]
]

abbrev pub take_link : Option (Text × ℤ) → Linked → Linked
take_link none face = face
take_link (some (url, expire)) face = record face { gen_url = url; gen_url_expire = expire }

module _ (J : JsonLib) where
  -- One element of `resultlist`: its link, where its code is 1.
  unfoldable pub read_link : J.Value → Parse (Option (Text × ℤ))
  unfolding codes
  read_link v = do
    found_code ← int_field J v (codes "errorcode")
    errorcode ← demand found_code
    found_url ← text_field J v (codes "url")
    url ← demand found_url
    found_time ← int_field J v (codes "expiretime")
    expiretime ← demand found_time
    got (if eq_ℤ errorcode (pos 1) then some (url, expiretime) else none)

  -- The loop of `GetGenUrl`, with the elements that it leaves over. An element that is missing is null,
  -- which has no members.
  unfoldable pub gen_url_loop : List Linked → List (J.Value) → Parse (List Linked × List (J.Value))
  unfolding read_link
  gen_url_loop [] resultlist = got ([], resultlist)
  gen_url_loop (face ∷ faces) [] = refused
  gen_url_loop (face ∷ faces) (v ∷ resultlist) = do
    link ← read_link v
    (done_faces, rest) ← gen_url_loop faces resultlist
    got (take_link link face ∷ done_faces, rest)

  -- The end of `GetGenUrl`, for the person.
  unfoldable pub gen_url_person : Linked → List (J.Value) → Parse Linked
  unfolding read_link
  gen_url_person person [] = if is_empty person.url then got person else refused
  gen_url_person person (v ∷ rest) =
      if is_empty person.url
      then got person
      else (do link ← read_link v; got (take_link link person))

  unfoldable pub get_gen_url : List Linked → Linked → List (J.Value) → Parse (List Linked × Linked)
  unfolding gen_url_loop gen_url_person
  get_gen_url faces person resultlist = do
    (done_faces, rest) ← gen_url_loop faces resultlist
    done_person ← gen_url_person person rest
    got (done_faces, done_person)

  abbrev pub url_count : List Linked → Linked → ℕ
  url_count faces person = if is_empty person.url then length faces else length faces + 1

  -- `ProcGenerateUrlResponse`, for whether the status has "200" and the body
  unfoldable pub proc_generate_url_response :
      Bool → Text → List Linked → Linked → Parse (List Linked × Linked)
  unfolding codes parse_json get_gen_url
  proc_generate_url_response false body faces person = refused
  proc_generate_url_response true body faces person =
      if is_empty body then got (faces, person) else (do
        body_jv ← demand (parse_json J body)
        found ← array_field J body_jv (codes "resultlist")
        resultlist ← demand found
        if length resultlist == url_count faces person
            then get_gen_url faces person resultlist
            else refused)
