-- ===== src/Workflow.antt =====
-- src/message/session.cpp and src/package/workflow/module_define.h: a session, the processing steps it
-- has left, and the list of image urls that the data classes step through
-- (include/data/base_data.h). The chains are those of include/handler/pre_handler.h and src/data.
-- A session owns the state of the Kafka message that it was made for; nobody else writes it while
-- the session is not final.
pub mod Modules
pub mod Termination
pub mod Success
pub mod Workers
pub mod PictureWait
pub mod KafkaOutput
pub mod GetPlugin
pub mod Save
pub mod Flow
mod Tests
use business.Base.{
  ℕ, suc, ◌+◌, ◌-◌, Bool, true, false, ◌&&◌, List, [], ◌∷◌, ◌++◌, Option, none, some, length,
  get_or, ltb, ◌==◌, if◌then◌else◌,
}
use business.Base.Int.{ℤ, pos, eq_ℤ}
use business.Base.Text.{Text}
use business.Consumer.Partition.{NodeState, done}

pub data ProcType : Type 0 where
  none_process pre_process download_image output_kafka pic_wait business_save generate_url
        trace_space get_plugin max_proc_type :
      ProcType

-- `ErrCode`, those that end a session
pub data ErrCode : Type 0 where
  success proc_terminate kafka_error download_error http_conn_error mongo_failed : ErrCode

-- The urls of `EventInfo` or `CaptureInfo::Person`, and `url_index_` or `face_index_`.
pub record Cursor : Type 0 where
  pub urls : List Text
  pub url_index : ℕ

unfoldable pub has_next_url : Cursor → Bool
has_next_url c = ltb c.url_index (length c.urls)

unfoldable pub get_next_url : Cursor → Text × Cursor
get_next_url c =
    if ltb c.url_index (length c.urls)
    then (get_or c.urls c.url_index [], record c { url_index = c.url_index + 1 })
    else ([], c)

unfoldable pub retreat_url : Cursor → Cursor
retreat_url c = if ltb 0 c.url_index then record c { url_index = c.url_index - 1 } else c

-- `node` is the state of `KafkaData_->data_`, which is null for a message that comes from redis;
-- `ended` is the error of the first `Final`.
pub record Session : Type 0 where
  pub proc_chain : List ProcType
  pub http_retry_time : ℕ
  pub cursor : Cursor
  pub current_download_url : Text
  pub images : List (Text × Text)
  pub person_url : Text
  pub datatype : ℤ
  pub node : Option NodeState
  pub is_finished : Bool
  pub ended : Option ErrCode

unfoldable pub final : ErrCode → Session → Session
final err s = if s.is_finished then s else record s {
  ended = some err;
  is_finished = true;
  node = elim s.node [ none ↦ none | some state ↦ some done ];
}

abbrev pub add_chain : ProcType → Session → Session
add_chain type s = record s { proc_chain = type ∷ s.proc_chain }

unfoldable pub pop_front : List ProcType → Session → ProcType × Session
pop_front [] s = (none_process, s)
pop_front (type ∷ chain) s = (type, record s { proc_chain = chain })

unfoldable pub next_processor : Session → ProcType × Session
unfolding pop_front
next_processor s = pop_front s.proc_chain s

-- The data classes, as far as their chains differ; a business message has its `msg_type_`.
pub data DataKind : Type 0 where
  business_data : ℤ → DataKind
  capture_data screenshot_data xiashun_business_data xiashun_capture_data : DataKind

-- The classes' `makeProcessChain`; `from_redis` is `from == kSrcFromRedis`.
abbrev pub business_chain : ℤ → Bool → List ProcType
business_chain msg_type from_redis =
    if eq_ℤ msg_type (pos 2)
    then if from_redis
      then get_plugin ∷ business_save ∷ generate_url ∷ output_kafka ∷ []
      else pic_wait ∷ get_plugin ∷ business_save ∷ generate_url ∷ output_kafka ∷ []
    else get_plugin ∷ business_save ∷ []

abbrev pub screenshot_chain : List ProcType
screenshot_chain = output_kafka ∷ []

abbrev pub xiashun_business_chain : List ProcType
xiashun_business_chain = business_save ∷ []

abbrev pub xiashun_capture_chain : List ProcType
xiashun_capture_chain =
    download_image ∷ trace_space ∷ business_save ∷ generate_url ∷ output_kafka ∷ []

-- `PreHandler::makeProcessChain`: a capture has no chain of its own and takes the default.
unfoldable pub make_process_chain : DataKind → Bool → List ProcType
make_process_chain (business_data msg_type) from_redis = business_chain msg_type from_redis
make_process_chain screenshot_data from_redis = screenshot_chain
make_process_chain xiashun_business_data from_redis = xiashun_business_chain
make_process_chain xiashun_capture_data from_redis = xiashun_capture_chain
make_process_chain capture_data from_redis =
    get_plugin ∷ download_image ∷ trace_space ∷ pic_wait ∷ generate_url ∷ output_kafka ∷ []

abbrev pub is_none {ℓ} : {A : Type ℓ} → Option A → Bool
is_none none = true
is_none (some a) = false

-- `Session::init`; the retries are those of the configuration, or 3.
unfoldable pub init : Option ℕ → DataKind → List Text → ℤ → Option NodeState → Session
init conf_retry kind urls datatype node = record {
  proc_chain = make_process_chain kind (is_none node);
  http_retry_time = elim conf_retry [ none ↦ 3 | some n ↦ n ];
  cursor = record { urls = urls; url_index = 0 };
  current_download_url = [];
  images = [];
  person_url = [];
  datatype = datatype;
  node = node;
  is_finished = false;
  ended = none;
}
