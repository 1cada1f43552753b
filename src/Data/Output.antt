-- ===== src/Data/Output.antt =====
-- The parts of the outputs that the data classes of src/data share: the attributes of the person, the
-- links to the pictures, and the topics.
pub mod Requests
pub mod Topics
pub mod Others
pub mod Own
mod Tests
use business.Base.{
  ℕ, Bool, true, false, ◌||◌, List, [], ◌∷◌, ◌++◌, Option, none, some, map, take, if◌then◌else◌,
}
use business.Base.Int.{ℤ, pos}
use business.Base.Text.{Text, codes, text_eq, is_empty}
use business.Json.{JsonLib}
use business.Json.Writer.{JsonWriter}
use business.Data.{IpcInfo}
use business.Handler.Person.{Attribute}
use business.Workflow.KafkaOutput.{KafkaOutputInfo}

-- What the outputs read of `session->person_result_` and `session->track_result_`.
pub record Person (J : JsonLib) : Type 0 where
  pub id : Text
  pub set_name : Text
  pub set_type : Text
  pub similar : J.Double
  pub gen_url : Text
  pub gen_url_expire : ℤ
  pub person_attributes : List Attribute
  pub track_age : ℤ
  pub track_gender : ℤ

-- What they read of `PluginInfo`.
pub record PluginInfo : Type 0 where
  pub enable : Bool
  pub datatype : ℤ
  pub topiclist : List Text

-- `"/" + app_id + "/" + space_id + "/" + device_id`
unfoldable pub source_of : IpcInfo → Text
source_of ipc = b'/' ∷ (ipc.app_id ++ (b'/' ∷ (ipc.space_id ++ (b'/' ∷ ipc.device_id))))

-- `id.substr(0,5) == "noreg"`
unfoldable pub is_noreg : Text → Bool
unfolding codes text_eq
is_noreg id = text_eq (take 5 id) (codes "noreg")

-- The text that the outputs send to each topic.
abbrev pub to_topics : Text → List Text → List KafkaOutputInfo
to_topics content topics = map (λ t. record { topic = t; content = content }) topics

-- `atoi` is that of the C library, `expire_text` is `gmtime_r` with `strftime` for "%Y-%m-%dT%H:%M:%SZ".
module _ (J : JsonLib) (W : JsonWriter J) (atoi : Text → ℤ) (expire_text : ℤ → Text) where
  -- An attribute by its type; `numeric` are the types whose value is written as a number.
  unfoldable pub set_attribute : (Text → Bool) → Attribute → J.Value → J.Value
  set_attribute numeric elem data_jv =
      if is_empty elem.type
      then data_jv
      else W.set data_jv elem.type
          (if numeric elem.type then W.of_int (atoi elem.value) else W.of_text elem.value)

  unfoldable pub set_attributes : (Text → Bool) → List Attribute → J.Value → J.Value
  unfolding set_attribute
  set_attributes numeric [] data_jv = data_jv
  set_attributes numeric (elem ∷ rest) data_jv =
      set_attributes numeric rest (set_attribute numeric elem data_jv)

  -- The link to a picture.
  unfoldable pub link : Text → ℤ → J.Value
  unfolding codes
  link url expire =
      W.set (W.set W.null_value (codes "expire") (W.of_text (expire_text expire))) (codes "url")
        (W.of_text url)

  -- The link to the person's picture, which is empty for a person who is not registered.
  unfoldable pub match_link : Person J → J.Value
  unfolding codes is_noreg
  match_link p =
      if is_noreg p.id
      then W.set (W.set W.null_value (codes "url") (W.of_text [])) (codes "expire") (W.of_text [])
      else W.set (W.set W.null_value (codes "url") (W.of_text p.gen_url)) (codes "expire")
          (W.of_text (expire_text p.gen_url_expire))

  -- The document around the data.
  unfoldable pub envelope : IpcInfo → J.Value → J.Value
  unfolding codes source_of
  envelope ipc data_jv =
      W.set (W.set W.null_value (codes "data") data_jv) (codes "source") (W.of_text (source_of ipc))

abbrev pub is_age_or_gender : Text → Bool
is_age_or_gender type =
    text_eq type (codes "gender") || text_eq type (codes "manual_age") || text_eq type (codes "age")
