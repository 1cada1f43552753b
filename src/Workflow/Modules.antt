-- ===== src/Workflow/Modules.antt =====
-- src/package/workflow: what each module does to a session, with src/handler/pre_handler_http_request.cpp
-- and src/handler/pre_handler_http_response.cpp for the HTTP modules, and the run of a session from
-- queue to queue. The services (HTTP, Kafka, redis, Mongo) answer as they like.
use business.Base.{
  ℕ, suc, ◌-◌, Bool, true, false, ◌&&◌, ◌||◌, List, [], ◌∷◌, ◌++◌, Option, none, some, all,
  if◌then◌else◌, length, ◌==◌, ltb,
}
use business.Base.Int.{pos, eq_ℤ}
use business.Base.Text.{Text, is_empty}
use business.Handler.Url.{split_url}
use business.Workflow.{
  ProcType, download_image, output_kafka, pic_wait, business_save, generate_url, trace_space,
  get_plugin, success, proc_terminate, kafka_error, download_error, http_conn_error, mongo_failed,
  Session, final, add_chain, next_processor, get_next_url, has_next_url, retreat_url,
}

-- A reply over HTTP: whether its status has "200", its body, and what the parsers make of the body, with
-- an exception of jsoncpp as `none`: the person's url in a tracing result that is accepted, and whether the
-- generated urls are.
pub record Reply : Type 0 where
  pub status_ok : Bool
  pub body : Text
  pub traced : Option (Option Text)
  pub generated : Option Bool

-- What the environment says during one step.
pub record Answer : Type 0 where
  -- the configuration has the path of the service
  pub path : Bool
  -- `none` is a network error
  pub reply : Option Reply
  -- the outputs that are made, each with whether its push succeeds; `none` if making them fails
  pub outputs : Option (List Bool)
  -- a replayed message whose plugin does not push replays
  pub replayed : Bool
  -- whether `getResultOfWait` is `WAIT`, with an exception or a fault as `none`
  pub wait : Option Bool
  -- `SaveBusinessMongo` returns 0
  pub saved : Bool
  -- `getInfoByAppId`: `none` if it fails, and whether a plugin has a channel for the data type
  pub plugin : Option Bool

-- Where a session goes after a step: nowhere, back to the queue, or the process is gone.
pub data Next : Type 0 where
  stop push crash : Next

-- `final` with success when no processor is left, else back to the queue.
unfoldable pub go_on : Session → Session × Next
go_on s = elim s.proc_chain [ [] ↦ (final success s, stop) | type ∷ chain ↦ (s, push) ]

abbrev pub splits : Text → Bool
splits uri = elim (split_url uri) [ none ↦ false | some parts ↦ true ]

-- `makeRequest`: the session after it, and its result.
unfoldable pub make_request : Answer → ProcType → Session → Session × Bool
make_request a download_image s =
    if length s.cursor.urls == 0
    then (s, false)
    else let (url, cursor) = get_next_url s.cursor in
      (
        record s { current_download_url = url; cursor = cursor },
        if is_empty url then false else splits url && a.path,
      )
make_request a trace_space s =
    if length s.images == 0 then (final download_error s, false) else (s, true)
make_request a generate_url s =
    (s, all splits s.cursor.urls && (is_empty s.person_url || splits s.person_url) && a.path)
make_request a _ s = (s, false)

unfoldable pub keep_image : Reply → Session → Session
keep_image r s =
    if is_empty r.body
    then s
    else record s { images = s.images ++ (s.current_download_url, r.body) ∷ [] }

-- `ProcResponse`: the session after it, and its result, with an exception as `none`.
unfoldable pub proc_response : Reply → ProcType → Session → Session × Option Bool
unfolding keep_image
proc_response r download_image s =
    if r.status_ok
    then (
      if has_next_url s.cursor then add_chain download_image (keep_image r s) else keep_image r s,
      some true,
    )
    else (s, some false)
proc_response r trace_space s =
    if r.status_ok
    then elim r.traced [
      | none ↦ (s, none)
      | some accepted ↦ elim accepted [
        | none ↦ (s, some false)
        | some url ↦ (record s { person_url = url }, some true)
      ]
    ]
    else (s, some false)
proc_response r generate_url s =
    (s, if r.status_ok then (if is_empty r.body then some true else r.generated) else some false)
proc_response r _ s = (s, some false)

abbrev pub retreat : ProcType → Session → Session
retreat download_image s = record s { cursor = retreat_url s.cursor }
retreat _ s = s

-- `HttpErrorProcess`
unfoldable pub http_error_process : ProcType → Session → Session × Next
http_error_process type s =
    let back = retreat type s in
    if ltb 0 back.http_retry_time
    then (add_chain type (record back { http_retry_time = back.http_retry_time - 1 }), push)
    else (final http_conn_error back, stop)

-- `HTTPModuleWrapper::ProcResponse`, given what the handler's `ProcResponse` leaves and returns; nobody
-- catches an exception on the thread of the io service, and the process ends.
unfoldable pub respond : Session × Option Bool → Session × Next
unfolding go_on
respond (read, none) = (read, crash)
respond (read, some true) = go_on read
respond (read, some false) = (final proc_terminate read, stop)

-- `SendRequest` with its callback, or the end of a session whose request cannot be made
unfoldable pub send : Answer → ProcType → Session × Bool → Session × Next
unfolding http_error_process proc_response respond
send a type (asked, false) = (final proc_terminate asked, stop)
send a type (asked, true) = elim a.reply [
  | none ↦ http_error_process type asked
  | some r ↦ respond (proc_response r type asked)
]

-- `HTTPModuleWrapper::Process`
unfoldable pub http_process : Answer → ProcType → Session → Session × Next
unfolding make_request send
http_process a type s = send a type (make_request a type s)

unfoldable pub kafka_process : Answer → Session → Session × Next
unfolding go_on
kafka_process a s = elim a.outputs [
  | none ↦ (final kafka_error s, stop)
  | some pushed ↦
      if a.replayed || all (λ ok. ok) pushed then go_on s else (final kafka_error s, stop)
]

-- `getResultOfWait` reads the payload of the message, which a message from redis does not have. A worker
-- catches no exception.
unfoldable pub wait_process : Answer → Session → Session × Next
unfolding go_on
wait_process a s = elim s.node [
  | none ↦ (s, crash)
  | some state ↦ elim a.wait [
    | none ↦ (s, crash)
    | some wait ↦ if wait then (final success s, stop) else go_on s
  ]
]

unfoldable pub save_process : Answer → Session → Session × Next
unfolding go_on
save_process a s = if a.saved then go_on s else (final mongo_failed s, stop)

unfoldable pub repair_proc_chain : Session → Session
repair_proc_chain s =
    if eq_ℤ s.datatype (pos 2) || eq_ℤ s.datatype (pos 3)
    then record s { proc_chain = s.proc_chain ++ output_kafka ∷ [] }
    else s

unfoldable pub plugin_process : Answer → Session → Session × Next
unfolding go_on repair_proc_chain
plugin_process a s = elim a.plugin [
  | none ↦ (final mongo_failed s, stop)
  | some channel ↦ go_on (if channel then repair_proc_chain s else s)
]

-- `getModule(type)->Process`; a type without a module ends the session.
unfoldable pub process_by : Answer → ProcType → Session → Session × Next
unfolding http_process kafka_process wait_process save_process plugin_process
process_by a download_image s = http_process a download_image s
process_by a trace_space s = http_process a trace_space s
process_by a generate_url s = http_process a generate_url s
process_by a output_kafka s = kafka_process a s
process_by a pic_wait s = wait_process a s
process_by a business_save s = save_process a s
process_by a get_plugin s = plugin_process a s
process_by a _ s = (final proc_terminate s, stop)

-- `Session::Process`
unfoldable pub process : Answer → Session → Session × Next
unfolding process_by next_processor
process a s = let (type, rest) = next_processor s in process_by a type rest

-- What follows a step that pushes the session is the rest of its run.
abbrev pub follow : Session × Next → Session × Next → Session × Next
follow (t, stop) rest = (t, stop)
follow (t, crash) rest = (t, crash)
follow (t, push) rest = rest

-- A session through the queue of the workers: the answers in their order, for at most `fuel` steps.
unfoldable pub run : (ℕ → Answer) → ℕ → ℕ → Session → Session × Next
unfolding process
run answers i ℕ.zero s = (s, push)
run answers i (suc fuel) s =
    let stepped = process (answers i) s in follow stepped (run answers (suc i) fuel stepped.0)
