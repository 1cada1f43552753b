-- ===== src/Handler/GenerateUrl/Tests.antt =====
-- A picture and a person, and a service that answers for both.
use business.Base.{◌≡◌, refl, true, List, [], ◌∷◌, ◌++◌, some, map}
use business.Base.Int.{ℤ, pos}
use business.Base.Text.{Text, codes, text_eq}
use business.Handler.Url.{split_url}
use business.Handler.GenerateUrl.{
  Entry, Linked, generate_url_data, generate_url_list, read_link, proc_generate_url_response,
}
use business.Handler.GenerateUrl.Own.{own, own_person, proc_generate_url_response-own}
use business.Json.{JsonLib, got, refused, parse_json, field}
use business.Json.Small.{
  Json, number, text, no_items, item, no_members, member, json_with, items_of,
}

abbrev service : Entry → Text × ℤ
service (endpoint, bucket, key) = (codes "http" ++ key, pos 9)

abbrev answer : Text → Json
answer url =
    member (codes "errorcode") (number (pos 1))
      (member (codes "url") (text url) (member (codes "expiretime") (number (pos 9)) no_members))

abbrev answers : Json
answers = item (answer (codes "http1.jpg")) (item (answer (codes "http2.jpg")) no_items)

abbrev document : Json
document = member (codes "resultlist") answers no_members

abbrev json : JsonLib
json = json_with (λ t. some document)

abbrev picture : Text → Linked
picture url = record { url = url; gen_url = []; gen_url_expire = pos 0 }

abbrev faces : List Linked
faces = picture (codes "s3/b/1.jpg") ∷ []

abbrev person : Linked
person = picture (codes "s3/b/2.jpg")

abbrev entry : Text → Entry
entry key = (codes "s3", codes "b", key)

proc_generate_url_response-own_example :
    proc_generate_url_response json true (codes "body") faces person
    ≡ got (map (own service) faces, own_person service person)
unfolding codes text_eq split_url generate_url_data generate_url_list parse_json field read_link
proc_generate_url_response-own_example =
    proc_generate_url_response-own json service faces person
      (entry (codes "1.jpg") ∷ entry (codes "2.jpg") ∷ []) (codes "body") document
      (items_of answers) refl refl refl refl (refl, (refl, tt))

-- Too few answers are refused.
one_missing : proc_generate_url_response json true (codes "body") [] person ≡ refused
unfolding codes text_eq parse_json field proc_generate_url_response
one_missing = refl
