-- ===== src/Workflow/Workers/Acts.antt =====
-- What each call of a thread does: it leaves less to do, and no more sessions.
use business.Base.{
  ℕ, zero, suc, true, ◌+◌, ◌*◌, ◌≤◌, ◌≡◌, inl, inr, refl, ap, List, [], ◌∷◌, ◌++◌, Option, none,
  some, arith, length, ltb, Bool-cases, All, All-append, length-append,
}
use business.Workflow.{Session}
use business.Workflow.Modules.{Answer, Next, stop, push, crash, send}
use business.Workflow.Termination.Step.{measure, IsReady, IsClean, Progress}
use business.Workflow.Termination.Http.{flight_measure, send-lands}
use business.Workflow.Workers.{
  Buffer, as_size, put, get, front, Flight, Begun, landed, asking, begin, Shared, Tried, waits,
  land, take_off, take_session, give_session, pick, take_reply,
}
use business.Workflow.Workers.Begin.{OnBegun, begin-OnBegun}
use business.Workflow.Workers.Load.{
  queue_load, flight_load, flights_load, shared_load, shared_alive, FliesWell, AllReady, OnWorks,
  Acts,
}

-- A session that leaves a place that cost more than its step, for the thread.
land-Works :
    (n : ℕ) (r : Session × Next) (x x' : Shared)
    → Progress n r
    → AllReady x'
    → suc (3 * n + shared_load x') ≤ shared_load x
    → suc (shared_alive x') ≤ shared_alive x
    → x'.queue.max_size_ ≡ x.queue.max_size_
    → OnWorks none x (land r x')
land-Works n (t, stop) x x' h ready cost count bound = record {
  ready = tt;
  rest_ready = ready;
  less = omega (arith, cost);
  no_more = omega (arith, count);
  bound = bound;
}
land-Works n (t, push) x x' h ready cost count bound = record {
  ready = h.0;
  rest_ready = ready;
  less = omega (arith, cost, h.1);
  no_more = omega (arith, count);
  bound = bound;
}
land-Works n (t, crash) x x' h ready cost count bound = absurd h

flights_load-append :
    (fs gs : List Flight) → flights_load (fs ++ gs) ≡ flights_load fs + flights_load gs
unfolding flights_load
flights_load-append [] gs = omega arith
flights_load-append (f ∷ fs) gs = omega (arith, flights_load-append fs gs)

take_off-Works :
    (o : Begun) (s : Session) (rest : List Session) (x : Shared)
    → x.queue.data_ ≡ s ∷ rest
    → OnBegun (measure s) o
    → All IsReady rest
    → All FliesWell x.in_flight
    → OnWorks none x (take_off o (record x { queue = record x.queue { data_ = rest } }))
unfolding queue_load shared_load flights_load
take_off-Works (landed r) s rest x e h ready flying =
    land-Works (measure s) r x (record x { queue = record x.queue { data_ = rest } }) h
      (record { queue_ready = ready; flights_ready = flying }) (omega (arith, ap queue_load e))
      (omega (arith, ap length e)) refl
take_off-Works (asking type t) s rest x e h ready flying = record {
  ready = tt;
  rest_ready = record {
    queue_ready = ready;
    flights_ready = All-append FliesWell x.in_flight _ flying (h.0, tt);
  };
  less = omega (
    arith,
    ap queue_load e,
    h.1,
    flights_load-append x.in_flight (record { type = type; session = t } ∷ []),
  );
  no_more =
      omega
        (arith, ap length e, length-append x.in_flight (record { type = type; session = t } ∷ []));
  bound = refl;
}

abbrev pub taken :
    Answer → Shared → Option (Session × Buffer Session) → Tried (Option Session × Shared)
taken a x none = waits
taken a x (some (s, b)) = take_off (begin a s) (record x { queue = b })

take-front :
    (a : Answer) (xs : List Session) (x : Shared)
    → x.queue.data_ ≡ xs
    → IsClean a
    → All IsReady xs
    → All FliesWell x.in_flight
    → OnWorks none x (taken a x (front xs x.queue))
unfolding front
take-front a [] x e clean ready flying = tt
take-front a (s ∷ rest) x e clean ready flying =
    take_off-Works (begin a s) s rest x e (begin-OnBegun a s clean ready.0) ready.1 flying

pub take_session-Acts : (a : Answer) → IsClean a → Acts (take_session a)
unfolding take_session get
take_session-Acts a clean (some s) x h all = tt
take_session-Acts a clean none x h all =
    take-front a x.queue.data_ x refl clean all.queue_ready all.flights_ready

-- The request that is picked, and those that stay on their way.
pub record IsPicked (fs : List Flight) (f : Flight) (rest : List Flight) : Type 0 where
  pub flies : FliesWell f
  pub others : All FliesWell rest
  pub loads : flights_load fs ≡ flight_load f + flights_load rest
  pub one_less : length fs ≡ suc (length rest)

abbrev pub OnPick : List Flight → Option (Flight × List Flight) → Type 0
OnPick fs none = Unit
OnPick fs (some (f, rest)) = IsPicked fs f rest

pick-OnPick : (k : ℕ) (fs : List Flight) → All FliesWell fs → OnPick fs (pick k fs)
unfolding pick flights_load
pick-OnPick k [] h = tt
pick-OnPick zero (f ∷ fs) h = record { flies = h.0; others = h.1; loads = refl; one_less = refl }
pick-OnPick (suc k) (f ∷ fs) h = later (pick k fs) (pick-OnPick k fs h.1)
  where
    later :
        (o : Option (Flight × List Flight))
        → OnPick fs o
        → OnPick (f ∷ fs) (elim o [ none ↦ none | some (g, rest) ↦ some (g, f ∷ rest) ])
    later none p = tt
    later (some (g, rest)) p = record {
      flies = p.flies;
      others = (h.0, p.others);
      loads = omega (arith, p.loads);
      one_less = omega (arith, p.one_less);
    }

abbrev pub replied :
    Answer → Shared → Option (Flight × List Flight) → Tried (Option Session × Shared)
replied a x none = waits
replied a x (some (f, rest)) =
    land (send a f.type (f.session, true)) (record x { in_flight = rest })

replied-Works :
    (a : Answer) (x : Shared) (o : Option (Flight × List Flight))
    → IsClean a
    → All IsReady x.queue.data_
    → OnPick x.in_flight o
    → OnWorks none x (replied a x o)
unfolding shared_load
replied-Works a x none clean ready p = tt
replied-Works a x (some (f, rest)) clean ready p =
    land-Works (flight_measure f.type f.session) (send a f.type (f.session, true)) x
      (record x { in_flight = rest }) (send-lands a f.type f.session clean p.flies)
      (record { queue_ready = ready; flights_ready = p.others }) (omega (arith, p.loads))
      (omega (arith, p.one_less)) refl

pub take_reply-Acts : (k : ℕ) (a : Answer) → IsClean a → Acts (take_reply k a)
unfolding take_reply
take_reply-Acts k a clean (some s) x h all = tt
take_reply-Acts k a clean none x h all =
    replied-Works a x (pick k x.in_flight) clean all.queue_ready
      (pick-OnPick k x.in_flight all.flights_ready)

queue_load-append : (xs ys : List Session) → queue_load (xs ++ ys) ≡ queue_load xs + queue_load ys
unfolding queue_load
queue_load-append [] ys = omega arith
queue_load-append (x ∷ xs) ys = omega (arith, queue_load-append xs ys)

pub give_session-Acts : Acts give_session
unfolding give_session put queue_load shared_load
give_session-Acts none x h all = tt
give_session-Acts (some s) x h all =
    elim (Bool-cases (ltb (length x.queue.data_) (as_size x.queue.max_size_))) [
      | inr full ↦ rw (OnWorks, full) tt
      | inl room ↦
          rw (OnWorks, room)
            (record {
              ready = tt;
              rest_ready = record {
                queue_ready = All-append IsReady x.queue.data_ (s ∷ []) all.queue_ready (h, tt);
                flights_ready = all.flights_ready;
              };
              less = omega (arith, queue_load-append x.queue.data_ (s ∷ []));
              no_more = omega (arith, length-append x.queue.data_ (s ∷ []));
              bound = refl;
            })
    ]
