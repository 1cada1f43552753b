-- ===== src/Workflow/PictureWait/Slots.antt =====
-- What the picture wait is to do, without redis and JSON: a slot per key, which holds the events that wait
-- or the result of the capture.
use business.Base.{
  ◌≡◌, refl, sym, ap, ap₂, ◌∙◌, append_assoc, append-nil, List, [], ◌∷◌, ◌++◌, Option, none, some,
  map,
}
use business.Base.Int.{ℤ}
use business.Base.Text.{Text, codes}
use business.Json.{JsonLib}
use business.Json.Writer.{JsonWriter}
use business.Workflow.PictureWait.{
  Outcome, pass, wait, only, map_pairs, Waiting, business_type, trace_type,
}

-- The slot is filled by a capture that came first, or emptied of its events by one.
pub data Slot : Type 0 where
  waiting : List Text → Slot
  passed released : Text → Slot

abbrev pub type_of : Slot → ℤ
type_of (waiting ps) = business_type
type_of (passed r) = trace_type
type_of (released r) = trace_type

-- An event with its payload, or a capture with its payload and its tracing result.
pub data Arrival : Type 0 where
  event : Text → Arrival
  picture : Text → Text → Arrival

abbrev pub payload_of : Arrival → Text
payload_of (event payload) = payload
payload_of (picture payload result) = payload

abbrev pub ptype_of : Arrival → ℤ
ptype_of (event payload) = business_type
ptype_of (picture payload result) = trace_type

abbrev pub traced_of : Arrival → Text
traced_of (event payload) = []
traced_of (picture payload result) = result

abbrev pub session_of : Text → Text → Arrival → Waiting
session_of uid key a = record {
  uid_ = uid;
  payload = payload_of a;
  ptype = ptype_of a;
  key = key;
  trace_space_result_ = traced_of a;
}

abbrev pub asks : Text → Outcome
asks result = record { flag = pass; asked = some result; replayed = [] }

abbrev pub replays : List Text → Text → Outcome
replays messages result = record { flag = pass; asked = none; replayed = map_pairs messages result }

abbrev pub advance : Arrival → Option Slot → Outcome × Slot
advance (event p) none = (only wait, waiting (p ∷ []))
advance (event p) (some (waiting ps)) = (only wait, waiting (ps ++ p ∷ []))
advance (event p) (some (passed r)) = (asks r, passed r)
advance (event p) (some (released r)) = (asks r, released r)
advance (picture p r) none = (only pass, passed r)
advance (picture p r) (some (waiting ps)) = (replays ps r, released r)
advance (picture p r) (some (passed q)) = (only pass, passed q)
advance (picture p r) (some (released q)) = (only pass, released q)

abbrev pub slot_run : Option Slot → List Arrival → List Outcome
slot_run o [] = []
slot_run o (a ∷ rest) = (advance a o).0 ∷ slot_run (some (advance a o).1) rest

-- The same without slots: the events before the first capture, that capture's result with what comes
-- after it, and what each of these meets.
unfoldable pub events_before : List Arrival → List Text
events_before [] = []
events_before (event p ∷ rest) = p ∷ events_before rest
events_before (picture p r ∷ rest) = []

unfoldable pub first_picture : List Arrival → Option (Text × List Arrival)
first_picture [] = none
first_picture (event p ∷ rest) = first_picture rest
first_picture (picture p r ∷ rest) = some (r, rest)

abbrev pub later : Text → Arrival → Outcome
later r (event p) = asks r
later r (picture p q) = only pass

abbrev pub at_picture : List Text → Option (Text × List Arrival) → List Outcome
at_picture ps none = []
at_picture ps (some (r, rest)) = replays ps r ∷ map (later r) rest

-- Each event before the first capture waits; the capture replays them all, in order, with its result;
-- each later event asks for the person in this result, and a later capture does nothing.
unfoldable pub promised : List Arrival → List Outcome
unfolding events_before first_picture
promised arrivals =
    map (λ p. only wait) (events_before arrivals)
    ++ at_picture (events_before arrivals) (first_picture arrivals)

slot_run-passed :
    (r : Text) (arrivals : List Arrival)
    → slot_run (some (passed r)) arrivals ≡ map (later r) arrivals
slot_run-passed r [] = refl
slot_run-passed r (event p ∷ rest) = ap (λ os. asks r ∷ os) (slot_run-passed r rest)
slot_run-passed r (picture p q ∷ rest) = ap (λ os. only pass ∷ os) (slot_run-passed r rest)

slot_run-released :
    (r : Text) (arrivals : List Arrival)
    → slot_run (some (released r)) arrivals ≡ map (later r) arrivals
slot_run-released r [] = refl
slot_run-released r (event p ∷ rest) = ap (λ os. asks r ∷ os) (slot_run-released r rest)
slot_run-released r (picture p q ∷ rest) = ap (λ os. only pass ∷ os) (slot_run-released r rest)

slot_run-waiting :
    (ps : List Text) (arrivals : List Arrival)
    → slot_run (some (waiting ps)) arrivals
      ≡ map (λ p. only wait) (events_before arrivals)
        ++ at_picture (ps ++ events_before arrivals) (first_picture arrivals)
unfolding events_before first_picture
slot_run-waiting ps [] = refl
slot_run-waiting ps (event p ∷ rest) =
    ap (λ os. only wait ∷ os)
      (slot_run-waiting (ps ++ p ∷ []) rest
        ∙ ap (λ qs. map (λ p. only wait) (events_before rest) ++ at_picture qs (first_picture rest))
            (append_assoc ps (p ∷ []) (events_before rest)))
slot_run-waiting ps (picture p r ∷ rest) =
    ap₂ (λ qs os. replays qs r ∷ os) (sym (append-nil ps)) (slot_run-released r rest)

pub slot_run-promised : (arrivals : List Arrival) → slot_run none arrivals ≡ promised arrivals
unfolding promised events_before first_picture
slot_run-promised [] = refl
slot_run-promised (event p ∷ rest) = ap (λ os. only wait ∷ os) (slot_run-waiting (p ∷ []) rest)
slot_run-promised (picture p r ∷ rest) = ap (λ os. only pass ∷ os) (slot_run-passed r rest)

-- The document in redis that stands for a slot.
module _ (J : JsonLib) (W : JsonWriter J) where
  unfoldable pub document : Slot → J.Value
  unfolding codes
  document (waiting ps) =
      W.set (W.set W.null_value (codes "ptype") (W.of_int business_type)) (codes "message_list")
        (W.array (map W.of_text ps))
  document (passed r) =
      W.set (W.set W.null_value (codes "ptype") (W.of_int trace_type)) (codes "trace_result")
        (W.of_text r)
  document (released r) =
      W.set (W.set W.null_value (codes "trace_result") (W.of_text r)) (codes "ptype")
        (W.of_int trace_type)
