-- ===== src/Workflow/PictureWait/Handshake/Runs.antt =====
-- Sessions with the same pictures, one after the other.
use business.Base.{◌≡◌, refl, ap, ◌∙◌, ℕ, true, false, inr, List, [], ◌∷◌, Option, none, some, map}
use business.Base.Text.{Text, is_empty}
use business.Json.{JsonLib, Parse, got, ◌>>=◌}
use business.Json.Writer.{JsonWriter, IsWriter}
use business.Redis.{RedisServer, red_unlock}
use business.Redis.Laws.{IsHealthy}
use business.Workflow.PictureWait.{
  Outcome, unlock, after_lock, get_result_of_wait, lock_key_of, lock_timeout,
}
use business.Workflow.PictureWait.Slots.{
  Slot, Arrival, session_of, advance, document, slot_run, promised, slot_run-promised,
}
use business.Workflow.PictureWait.Handshake.{
  apart, apart_too, stored, advance_store, locked, view-advance_store, view-advance_store_ne,
  lock_taken,
}

module _ (S : RedisServer) (J : JsonLib) (W : JsonWriter J) (reader_parse : Text → Option (J.Value))
    (clock : ℕ → ℕ) (key : Text) where
  -- Sessions in the order in which they take the lock, each with its id.
  unfoldable pub sessions : List (Text × Arrival) → S.State → Parse (List Outcome × S.State)
  unfolding get_result_of_wait
  sessions [] st = got ([], st)
  sessions ((uid, a) ∷ rest) st = do
    (o, st') ← get_result_of_wait S J W reader_parse clock (session_of uid key a) st
    (os, last) ← sessions rest st'
    got (o ∷ os, last)

  module _ (laws : IsWriter J W)
      (back : (s : Slot)
        → reader_parse (W.to_styled_string (document J W s)) ≡ some (document J W s))
      (h : IsHealthy S) (full : is_empty key ≡ false) where
    -- The lock is free, and the key has the document of the slot.
    abbrev Holds : Option Slot → S.State → Type 0
    Holds o st = (h.view key st ≡ stored S J W o) × (h.view (lock_key_of key) st ≡ none)

    one_session :
        (uid : Text) (a : Arrival) (o : Option Slot) (st : S.State)
        → Holds o st
        → (st' : S.State) × (get_result_of_wait S J W reader_parse clock (session_of uid key a) st
            ≡ got ((advance a o).0, st'))
          × Holds (some (advance a o).1) st'
    unfolding get_result_of_wait after_lock unlock red_unlock
    one_session uid a o st (slot, free) =
        let lock = lock_key_of key in
        let st1 = (S.set_advanced lock uid lock_timeout true st).1 in
        let st2 = (S.get key st1).1 in
        let st3 = advance_store S J W key a o st2 in
        let slot1 = h.set_keeps key lock uid lock_timeout true st (apart key) ∙ slot in
        let slot3 =
          view-advance_store S J W laws reader_parse back h key a o st2
            (h.get_keeps key key st1 ∙ slot1) in
        let held3 =
          view-advance_store_ne S J W laws reader_parse back h lock key a o st2 (apart_too key)
          ∙ h.get_keeps lock key st1
          ∙ h.set_value lock uid lock_timeout true st (inr free) in
        (
          (S.eval_unlock lock uid st3).1,
          rw
              (
                full,
                lock_taken S J W laws reader_parse back h clock uid lock st free,
                locked S J W laws reader_parse back h uid key a o st1 slot1,
              )
              refl,
          (h.unlock_keeps key lock uid st3 (apart key) ∙ slot3, h.unlock_gone lock uid st3 held3),
        )

    all_sessions :
        (arrivals : List (Text × Arrival)) (o : Option Slot) (st : S.State)
        → Holds o st
        → (last : S.State) × (sessions arrivals st
            ≡ got (slot_run o (map (λ x. x.1) arrivals), last))
    unfolding sessions
    all_sessions [] o st holds = (st, refl)
    all_sessions ((uid, a) ∷ rest) o st holds =
        let (st', one, next) = one_session uid a o st holds in
        let (last, more) = all_sessions rest (some (advance a o).1) st' next in
        (last, rw (one, more) refl)

-- While redis and the writer of JSON keep their laws and no key expires: sessions with the same key,
-- which is not empty and not in use, that take the lock one after the other, events and captures in any
-- order, do together what is promised. Every event before the first capture waits, and is replayed
-- once, with that capture's result and in order, when the capture comes; every later event gets the
-- result at once; and nothing throws.
pub sessions-promised :
    (S : RedisServer) (J : JsonLib) (W : JsonWriter J) (reader_parse : Text → Option (J.Value))
    (clock : ℕ → ℕ) (key : Text) (laws : IsWriter J W)
    (back : (s : Slot) → reader_parse (W.to_styled_string (document J W s)) ≡ some (document J W s))
    (h : IsHealthy S) (arrivals : List (Text × Arrival)) (st : S.State)
    → is_empty key ≡ false
    → h.view key st ≡ none
    → h.view (lock_key_of key) st ≡ none
    → (last : S.State) × (sessions S J W reader_parse clock key arrivals st
        ≡ got (promised (map (λ x. x.1) arrivals), last))
sessions-promised S J W reader_parse clock key laws back h arrivals st full unused free =
    let (last, e) =
      all_sessions S J W reader_parse clock key laws back h full arrivals none st (unused, free) in
    (last, e ∙ ap (λ os. got (os, last)) (slot_run-promised (map (λ x. x.1) arrivals)))
