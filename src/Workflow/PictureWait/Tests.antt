-- ===== src/Workflow/PictureWait/Tests.antt =====
-- Two events and a capture with the same pictures, on a small redis.
use business.Base.{
  ◌≡◌, refl, ℕ, suc, Bool, true, false, List, [], ◌∷◌, ◌++◌, Option, none, some, map, arith,
  append-nil, ◌*◌, if◌then◌else◌,
}
use business.Base.Text.{Text, codes, text_eq, is_empty}
use business.Base.Dict.{lookup, assign}
use business.Json.{Parse, got, JsonLib}
use business.Json.Small.{Json, text, no_members, member, json_with, items_of}
use business.Json.Small
use business.Json.SmallWriter.{items-array_of, writer_with, writer_with-IsWriter}
use business.Json.Writer.{JsonWriter, IsWriter}
use business.Redis.{Outcome, timed_out, RedisServer}
use business.Redis.Small.{Store, small_redis, small_redis-IsHealthy, set_in, view_empty}
use business.Workflow.PictureWait.{wait, only, get_result_of_wait, lock_key_of}
use business.Workflow.PictureWait.Slots.{
  Slot, waiting, passed, released, event, picture, session_of, document, promised, Arrival,
}
use business.Workflow.PictureWait.Handshake.Runs.{sessions, sessions-promised}

-- A printer and a parser for the documents: a mark, and the texts, each after a 0.
abbrev chars : Text → Text → Text
chars [] rest = rest
chars (c ∷ cs) rest = suc c ∷ chars cs rest

abbrev flatten : List Json → Text
flatten (text t ∷ vs) = 0 ∷ chars t (flatten vs)
flatten _ = []

abbrev unflatten : Text → Text × List Text
unflatten [] = ([], [])
unflatten (ℕ.zero ∷ r) = let (cur, found) = unflatten r in ([], cur ∷ found)
unflatten (suc c ∷ r) = let (cur, found) = unflatten r in (c ∷ cur, found)

abbrev text_or : Json → Text
text_or (text t) = t
text_or _ = []

abbrev print : Json → Text
print (member name v rest) =
    if text_eq name (codes "trace_result")
    then 2 ∷ text_or v
    else if Small.has_name rest (codes "trace_result")
    then 1 ∷ text_or (Small.lookup rest (codes "trace_result"))
    else 0 ∷ flatten (items_of (Small.lookup rest (codes "message_list")))
print _ = 3 ∷ []

abbrev json : JsonLib
json = json_with (λ t. none)

abbrev writer : JsonWriter json
writer = writer_with (λ t. none) print

print_full : (v : Json) → is_empty (print v) ≡ false
print_full (member name v rest) = ground arith
print_full v = refl

abbrev reader : Text → Option Json
reader (ℕ.zero ∷ r) = some (document json writer (waiting (unflatten r).1))
reader (suc ℕ.zero ∷ r) = some (document json writer (passed r))
reader (suc (suc ℕ.zero) ∷ r) = some (document json writer (released r))
reader t = none

unflatten-chars :
    (t : Text) (rest : Text)
    → unflatten (chars t rest) ≡ (t ++ (unflatten rest).0, (unflatten rest).1)
unflatten-chars [] rest = refl
unflatten-chars (c ∷ cs) rest = rw (unflatten-chars cs rest) refl

unflatten-flatten : (ps : List Text) → unflatten (flatten (map text ps)) ≡ ([], ps)
unflatten-flatten [] = refl
unflatten-flatten (p ∷ ps) =
    rw (unflatten-chars p (flatten (map text ps)), unflatten-flatten ps, append-nil p) refl

reads_back : (s : Slot) → reader (print (document json writer s)) ≡ some (document json writer s)
unfolding document codes text_eq
reads_back (waiting ps) = rw (items-array_of (map text ps), unflatten-flatten ps) refl
reads_back (passed r) = refl
reads_back (released r) = refl

writer-IsWriter : IsWriter json writer
writer-IsWriter = writer_with-IsWriter (λ t. none) print print_full

abbrev clock : ℕ → ℕ
clock i = 10 * suc i

abbrev key : Text
key = codes "7.jpg"

abbrev arrivals : List (Text × Arrival)
arrivals =
    (codes "u1", event (codes "a"))
    ∷ (codes "u2", event (codes "b"))
    ∷ (codes "u3", picture (codes "c") (codes "who"))
    ∷ (codes "u4", event (codes "d"))
    ∷ []

abbrev nothing : Store
nothing = []

sessions-promised_example :
    (last : Store) × (sessions small_redis json writer reader clock key arrivals nothing
      ≡ got (promised (map (λ x. x.1) arrivals), last))
sessions-promised_example =
    sessions-promised small_redis json writer reader clock key writer-IsWriter reads_back
      small_redis-IsHealthy arrivals nothing (unfold codes in refl) (view_empty key)
      (view_empty (lock_key_of key))

-- The same redis, which does not answer a command that keeps a document.
abbrev fails_to_keep : Bool → Text → Text → Store → Outcome × Store
fails_to_keep true k v st = set_in k v true st
fails_to_keep false k v st = (timed_out, st)

abbrev weak_redis : RedisServer
weak_redis = record small_redis { set_advanced = λ k v ttl nx st. fails_to_keep nx k v st }

-- Redis refuses the command that keeps the first event: the event is told to wait all the same.
abbrev told :
    Parse (business.Workflow.PictureWait.Outcome × weak_redis.State)
    → Option business.Workflow.PictureWait.Outcome
told (got (result, st)) = some result
told _ = none

event_lost :
    told (
      get_result_of_wait weak_redis json writer reader clock
        (session_of (codes "u1") key (event (codes "a")))
        nothing)
    ≡ some (only wait)
unfolding get_result_of_wait set_in lookup codes assign text_eq lock_key_of
event_lost = refl
