-- ===== src/Lib.antt =====
-- Verification of xbusiness, the service that reads business events and face captures from Kafka,
-- takes each through a chain of processing steps, and commits the offset of a message once every message
-- before it is done.
--
-- The parts, in the order in which a message meets them:
--
-- - Consumer/Partition: src/package/consumer/PartitionManager.cpp with
--   include/package/consumer/DataDefine.h. `PartitionManager` is `CPartitionManager`: its list of `PM_DATA`
--   and its commit number. `emplace_back`, `process_todo`, `remove_from_head` are the methods of these names.
--   `do_something` is `scan` (what runs under `m_mutex`) and then `settle` (the commit and the removal);
--   `Meddling` says which sessions end while the scan runs. System puts arrivals, ends of sessions and the
--   two halves of `do_something` in any order.
-- - Consumer/Process: src/package/consumer/ConsumeProcess.cpp with the loop, `pause` and `resume` of
--   src/common/kafka_consumer_imp.cpp. `process` hands a message to the manager of its partition, `round` is
--   a round of `Run`. Fleet has all partitions at once, each with the environment of
--   Consumer/Partition/System; Pressure is about the pause of consumption, Start about `Init` and `subscribe`.
-- - Json: the members of jsoncpp that the program calls, as a record of functions with a failure for an
--   exception, `parse_json` of src/common/com_func.cpp, and the type `Parse` of code that throws, returns
--   false early, or yields a result. Json/Laws has the documented laws of these functions,
--   Json/Writer the functions that write and their laws; Json/Members and Json/Append are about documents that
--   are written member by member and in loops.
-- - Data: include/data and src/data. `parse_data` is `ParseDataFactory::ParseData`; Event, Capture and
--   Screenshot have the `parse` of the classes and what it calls. The fields of a refused message are
--   dropped, since `CXBusinessHandler::handle` drops the object.
-- - Data/Output: `makeKafkaRequest` of all data classes, written with Json/Writer; `atoi` and the printing
--   of times are parameters, and so is what Mongo answers. Times are unbounded.
-- - Workflow: src/message/session.cpp (`Session`, `final`, `next_processor`, `add_chain`, `init`), the chains
--   of include/handler/pre_handler.h and src/data, and in Workflow/Modules the `Process` functions of
--   src/package/workflow with src/handler/pre_handler_http_request.cpp and
--   src/handler/pre_handler_http_response.cpp. An `Answer` is what HTTP, Kafka, redis, Mongo and the
--   configuration say during one step. `run` takes a session from the workers' queue to the queue; its
--   fuel is the number of steps. Eight steps more than retries and urls are enough: a chain costs seven
--   steps at most, and every other step uses up a retry or a url.
-- - Workflow/Workers: include/package/workflow/worker.hpp with `SendRequest` of
--   src/package/workflow/http_module_wrapper.cpp. `Buffer` is `FIFOBuffer`; `Pool` is a `Worker` with the requests
--   on their way and what each worker and each thread of the io service holds; a call that waits is `waits`. Begin
--   cuts the step of Workflow/Modules in two, the request and the reply.
-- - Workflow/KafkaOutput: src/package/workflow/module/module_kafka_output.cpp, with the producer of
--   librdkafka as a parameter.
-- - Workflow/PictureWait: src/package/workflow/module/module_picture_waiting.cpp, on Redis, which is
--   src/common/redis/RedisClient.cpp with the server as a parameter: `Outcome` is what `cpp_redis` makes of a
--   command. Slots has the protocol without redis and JSON. The loop of the lock has fuel for one round per
--   10 ms of its limit and two more, which Redis/Lock shows to be enough.
-- - Handler/Url: how an image url is taken apart for the storage proxy, in
--   src/handler/pre_handler_http_request.cpp and in `GetGenerateUrlData` of src/data.
-- - Handler/GenerateUrl: the links to the pictures, asked for and taken over; the request's JSON list is a list
--   of its entries.
-- - Workflow/GetPlugin: src/package/workflow/module/module_get_plugin.cpp, read by read of the document; Choice
--   has a reader without state, Refines compares the code with it and with the module of Workflow/Modules.
-- - Workflow/Flow: src/package/workflow/flow_manager.cpp with src/package/workflow/module_factory.cpp and the
--   `Initialize` functions of the modules; Redis/Connect is how the client of redis is made.
-- - Workflow/Save: `SaveBusinessMongo` of src/package/workflow/module/module_business_output.cpp; Documents has
--   what is written and asked for, with `GetSaveMongoData` of src/data, and Collection the collection of Mongo
--   as a parameter with its documented laws.
-- - Handler/Request: `makeRequest`, `makeDownloadRequest` and `makeGenerateUrlRequest` of
--   src/handler/pre_handler_http_request.cpp, with the requests that are sent; Workflow/Modules has only whether
--   one is made.
-- - Handler/TraceRequest: `makeTraceSpaceRequest` of src/handler/pre_handler_http_request.cpp. The images come
--   first as records, in which a rectangle is four numbers, with the getters of src/data and the downloads they come from;
--   Document is the JSON that is sent, Read a reader of it in place of the tracing service, Written and RoundTrip compare them.
-- - Handler/Person: `getPersonResult` of src/handler/pre_handler.cpp.
-- - Handler/TraceResponse: `ProcTraceSpaceResponse` of src/handler/pre_handler_http_response.cpp, and
--   `handleFromRedis` of src/package/consumer/XBusinessHandler.cpp, which reads what the former kept.
-- - ComFunc: base64, the hashes, the bands of ages and the last segment of a url, of
--   src/common/com_func.cpp.
-- - Base: names and lemmas that the parts share: tests on numbers, lists, signed integers, texts.
--
-- The parts meet where the code calls across files: the consumer hands a message to its partition, which
-- hands it to the handler, which reads it by Data; a message that is read becomes a session by `init`; and `final` of a session writes the
-- state that the partition's scan reads, which is `complete` there. The partition takes the decision of
-- the handler as the parameter `accepts`.
--
-- Integers are unbounded except where the code wraps on purpose or counts in `uint32_t` and `unsigned char`,
-- where the wrap is written out. A string is the list of its bytes.
--
-- Not modelled: logging and timing; the parser of the configuration, of which the values are
-- parameters; the connections to Kafka and Mongo; and the handlers and modules that the build leaves out.
mod Base
pub mod ComFunc
pub mod Consumer
pub mod Handler
pub mod Workflow
pub mod Json
pub mod Redis
pub mod Data
