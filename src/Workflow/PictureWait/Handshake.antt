-- ===== src/Workflow/PictureWait/Handshake.antt =====
-- The picture wait does what the slots say.
pub mod Runs
use business.Base.{
  ◌≡◌, refl, sym, ap, ◌∙◌, subst, ℕ, ◌+◌, ◌/◌, suc, Bool, true, false, inl, inr, ◌⊎◌, List, [], ◌∷◌,
  ◌++◌, Option, none, some, arith, Bool-cases, length, length-append,
}
use business.Base.Text.{Text, codes, text_eq, is_empty, text_eq_sound, text_eq_refl}
use business.Json.{JsonLib, Parse, got, ◌>>=◌, call, int_field}
use business.Json.Writer.{JsonWriter, IsWriter}
use business.Redis.{
  RedisServer, get_value_by_key, set_advanced_key_value, red_lock, lock_loop, red_unlock, is_ok,
}
use business.Redis.Laws.{IsHealthy}
use business.Workflow.PictureWait.{
  Outcome, Waiting, keep, handle_without_key, handle_with_key, take_result, join_waiting, release,
  by_type, handle_locked, unlock, after_lock, get_result_of_wait, lock_key_of, lock_timeout,
}
use business.Workflow.PictureWait.Slots.{
  Slot, waiting, passed, released, Arrival, event, picture, session_of, advance, document, type_of,
}
use business.Workflow.PictureWait.Laws.{
  texts_of-array, ptype-document, list-document, result-passed, result-released, append_text-first,
  append_text-next, get-absent, get-present, view-keep, view-keep_ne,
}

pub apart : (key : Text) → text_eq key (lock_key_of key) ≡ false
unfolding lock_key_of codes
apart key = elim (Bool-cases (text_eq key (lock_key_of key))) [
  | inr other ↦ other
  | inl same ↦ absurd (
      let e = ap length (text_eq_sound key (lock_key_of key) same) in
      omega (arith, e, length-append (codes "lock_") key))
]

pub apart_too : (key : Text) → text_eq (lock_key_of key) key ≡ false
apart_too key = elim (Bool-cases (text_eq (lock_key_of key) key)) [
  | inr other ↦ other
  | inl same ↦ absurd (
      let e = text_eq_sound (lock_key_of key) key same in
      no_true (
        sym (subst (λ k. text_eq k (lock_key_of key) ≡ false) (sym e) (apart key))
        ∙ text_eq_refl (lock_key_of key)))
]
  where
    no_true : false ≡ true → ⊥
    no_true e = absurd cc

module _ (S : RedisServer) (J : JsonLib) (W : JsonWriter J) where
  -- The store after the slot advances: unchanged where the capture's result stays.
  unfoldable pub advance_store : Text → Arrival → Option Slot → S.State → S.State
  advance_store key (event p) (some (passed r)) st = st
  advance_store key (event p) (some (released r)) st = st
  advance_store key (picture p r) (some (passed q)) st = st
  advance_store key (picture p r) (some (released q)) st = st
  advance_store key a o st = keep S J W key (document J W (advance a o).1) st

  abbrev pub stored : Option Slot → Option Text
  stored none = none
  stored (some s) = some (W.to_styled_string (document J W s))

  module _ (laws : IsWriter J W) (reader_parse : Text → Option (J.Value)) where
    without_key :
        (uid key : Text) (a : Arrival) (st : S.State)
        → handle_without_key S J W (session_of uid key a) st
          ≡ got ((advance a none).0, advance_store key a none st)
    unfolding handle_without_key advance_store
    without_key uid key (event p) st = rw (append_text-first J W laws p) refl
    without_key uid key (picture p r) st = unfold document in refl

    by_slot :
        (uid key : Text) (a : Arrival) (s : Slot) (st : S.State)
        → by_type S J W (type_of s) (session_of uid key a) (document J W s) st
          ≡ got ((advance a (some s)).0, advance_store key a (some s) st)
    unfolding by_type advance_store take_result join_waiting release
    by_slot uid key (event p) (waiting ps) st = rw (append_text-next J W laws ps p) refl
    by_slot uid key (event p) (passed r) st = rw (result-passed J W laws r) refl
    by_slot uid key (event p) (released r) st = rw (result-released J W laws r) refl
    by_slot uid key (picture p r) (waiting ps) st =
        rw (list-document J W laws ps, laws.items_array, texts_of-array J W laws ps)
          (unfold document in refl)
    by_slot uid key (picture p r) (passed q) st = refl
    by_slot uid key (picture p r) (released q) st = refl

    module _
        (back : (s : Slot)
          → reader_parse (W.to_styled_string (document J W s)) ≡ some (document J W s)) where
      with_key :
          (uid key : Text) (a : Arrival) (s : Slot) (st : S.State)
          → handle_with_key S J W reader_parse
              (W.to_styled_string (document J W s))
              (session_of uid key a)
              st
            ≡ got ((advance a (some s)).0, advance_store key a (some s) st)
      unfolding handle_with_key
      with_key uid key a s st =
          rw (handle_with_key, back s, ptype-document J W laws s) (by_slot uid key a s st)

      module _ (h : IsHealthy S) where
        pub locked :
            (uid key : Text) (a : Arrival) (o : Option Slot) (st : S.State)
            → h.view key st ≡ stored o
            → handle_locked S J W reader_parse (get_value_by_key S key [] st) (session_of uid key a)
              ≡ got ((advance a o).0, advance_store key a o (S.get key st).1)
        unfolding handle_locked
        locked uid key a none st e = rw (get-absent S h key st e) (without_key uid key a _)
        locked uid key a (some s) st e =
            let full = laws.printed (document J W s) in
            rw (get-present S h key _ st e full, full) (with_key uid key a s _)

        pub view-advance_store :
            (key : Text) (a : Arrival) (o : Option Slot) (st : S.State)
            → h.view key st ≡ stored o
            → h.view key (advance_store key a o st) ≡ stored (some (advance a o).1)
        unfolding advance_store
        view-advance_store key (event p) none st e = view-keep S h J W key _ st
        view-advance_store key (event p) (some (waiting ps)) st e = view-keep S h J W key _ st
        view-advance_store key (event p) (some (passed r)) st e = e
        view-advance_store key (event p) (some (released r)) st e = e
        view-advance_store key (picture p r) none st e = view-keep S h J W key _ st
        view-advance_store key (picture p r) (some (waiting ps)) st e = view-keep S h J W key _ st
        view-advance_store key (picture p r) (some (passed q)) st e = e
        view-advance_store key (picture p r) (some (released q)) st e = e

        pub view-advance_store_ne :
            (j key : Text) (a : Arrival) (o : Option Slot) (st : S.State)
            → text_eq j key ≡ false
            → h.view j (advance_store key a o st) ≡ h.view j st
        unfolding advance_store
        view-advance_store_ne j key (event p) none st e = view-keep_ne S h J W j key _ st e
        view-advance_store_ne j key (event p) (some (waiting ps)) st e =
            view-keep_ne S h J W j key _ st e
        view-advance_store_ne j key (event p) (some (passed r)) st e = refl
        view-advance_store_ne j key (event p) (some (released r)) st e = refl
        view-advance_store_ne j key (picture p r) none st e = view-keep_ne S h J W j key _ st e
        view-advance_store_ne j key (picture p r) (some (waiting ps)) st e =
            view-keep_ne S h J W j key _ st e
        view-advance_store_ne j key (picture p r) (some (passed q)) st e = refl
        view-advance_store_ne j key (picture p r) (some (released q)) st e = refl

        -- The lock is free, and the first try takes it.
        pub lock_taken :
            (clock : ℕ → ℕ) (uid key : Text) (st : S.State)
            → h.view key st ≡ none
            → red_lock S clock (suc (lock_timeout / 10 + 1)) key uid lock_timeout lock_timeout st
              ≡ some (true, (S.set_advanced key uid lock_timeout true st).1)
        unfolding red_lock lock_loop set_advanced_key_value is_ok codes text_eq
        lock_taken clock uid key st e = rw (h.set_ok key uid lock_timeout true st (inr e)) refl
