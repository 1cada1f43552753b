-- ===== src/Data/Total.antt =====
-- Which messages are read without an exception of jsoncpp, and what reading ensures.
pub mod Shared
use business.Base.{◌≡◌, refl, Bool, true, false, List, [], ◌∷◌, All, Bool-cases, inl, inr, ◌++◌}
use business.Base.Int.{ℤ}
use business.Base.Text.{Text, codes, is_empty}
use business.Json.{refused, got, call, get_or_else, collect, JsonLib, parse_json}
use business.Json.Laws.{
  Ensures, Always, bind-Ensures, weaken-Ensures, call-Ensures, demand-Ensures, if-Ensures,
  collect-Ensures, IsJson, after-demand, OnSome-Always, after-text, after-int, after-int64,
  after-array, after-object, parse_json-IsObject,
}
use business.Data.Event.{
  ints, box_of, parse_capture_face, parse_event, parse_flow, parse_business, parse_xiashun_business,
}
use business.Data.Factory.{
  PayloadType, screenshot, xiashun_business, xiashun_capture, trace, business_event, payload_type,
  ParsedData, of_event, parse_data, parse,
}
use business.Data.{
  IpcInfo, new_ipc_info, default_space, checked_ipc, data_of, payload_of, parse_ipc_info, msg_id_of,
}
use business.Data.Total.Shared.{
  HasIds, parse_ipc_info-HasIds, data_of-IsObject, msg_id_of-Always, payload_of-IsObject,
}

abbrev pub is_event : PayloadType → Bool
is_event business_event = true
is_event xiashun_business = true
is_event _ = false

-- An event that was read, with its ids.
abbrev pub EventHasIds : ParsedData → Type 0
EventHasIds (of_event d) = HasIds d.ipc
EventHasIds _ = ⊥

module _ (J : JsonLib) (laws : IsJson J) where
  -- Events.
  ints-Always : (vs : List (J.Value)) → Ensures Always (ints J vs)
  unfolding ints
  ints-Always [] = tt
  ints-Always (v ∷ vs) =
      if-Ensures Always (J.is_int v) _ (ints J vs)
        (λ int.
          bind-Ensures Always Always (call (J.as_int v)) _ (call-Ensures Always _ (laws.int v int))
            λ n u. bind-Ensures Always Always (ints J vs) _ (ints-Always vs) λ ns u. tt)
        (λ other. ints-Always vs)

  pub box_of-Always :
      (face : J.Value) (key : Text) → J.is_object face ≡ true → Ensures Always (box_of J face key)
  unfolding box_of
  box_of-Always face key obj = after-array J laws Always face key obj _ λ found. ints-Always _

  parse_capture_face-Always : (face : J.Value) → Ensures Always (parse_capture_face J face)
  unfolding parse_capture_face
  parse_capture_face-Always face =
      if-Ensures Always (J.is_string face) _ _
        (λ text.
          bind-Ensures Always Always (call (J.as_string face)) _
            (call-Ensures Always _ (laws.string face text)) λ url u. tt)
        (λ other.
          if-Ensures Always (J.is_object face) _ _
            (λ obj. after-text J laws Always face _ obj _ λ url.
              bind-Ensures Always Always (box_of J face _) _ (box_of-Always face _ obj) λ pic u.
                bind-Ensures Always Always (box_of J face _) _ (box_of-Always face _ obj)
                  λ box u. tt)
            (λ neither. tt))

  All-Always : (vs : List (J.Value)) → All Always vs
  All-Always [] = tt
  All-Always (v ∷ vs) = (tt, All-Always vs)

  parse_event-Always :
      (payload_jv : J.Value)
      → J.is_object payload_jv ≡ true
      → Ensures Always (parse_event J payload_jv)
  unfolding parse_event
  parse_event-Always payload_jv obj =
      after-object J laws Always payload_jv _ obj _ λ found is_event.
        after-demand (λ w. J.is_object w ≡ true) Always found _ is_event
          λ event_jv e. after-int J laws Always event_jv _ e _ λ replay.
            after-text J laws Always event_jv _ e _ λ group_id.
              after-text J laws Always event_jv _ e _ λ extra.
                after-int64 J laws Always event_jv _ e _ λ event_time.
                  after-int64 J laws Always event_jv _ e _ λ send_time.
                    after-int J laws Always event_jv _ e _ λ line_id.
                      after-int J laws Always event_jv _ e _ λ event_type.
                        after-int J laws Always event_jv _ e _ λ msg_type.
                          after-int64 J laws Always event_jv _ e _ λ track_id.
                            after-array J laws Always event_jv _ e _ λ uris.
                              bind-Ensures Always Always
                                (collect (parse_capture_face J) (get_or_else uris [])) _
                                (collect-Ensures Always (parse_capture_face J) (get_or_else uris [])
                                  (λ v u. parse_capture_face-Always v) (All-Always _))
                                λ faces u.
                                  after-int J laws Always event_jv _ e _
                                    λ age. after-int J laws Always event_jv _ e _ λ gender. tt

  parse_flow-Always :
      (payload_jv : J.Value)
      → J.is_object payload_jv ≡ true
      → Ensures Always (parse_flow J payload_jv)
  unfolding parse_flow
  parse_flow-Always payload_jv obj = after-object J laws Always payload_jv _ obj _ λ found is_event.
      after-demand (λ w. J.is_object w ≡ true) Always found _ is_event
        λ event_jv e. after-int J laws Always event_jv _ e _ λ replay.
          after-int64 J laws Always event_jv _ e _ λ event_time.
            after-int J laws Always event_jv _ e _ λ line_id.
              after-int J laws Always event_jv _ e _
                λ event_type. after-int64 J laws Always event_jv _ e _ λ track_id. tt

  -- From an object, a business event is read without an exception, and one that is read has its ids.
  pub parse_business-HasIds :
      (unset : ℤ) (total_jv : J.Value)
      → J.is_object total_jv ≡ true
      → Ensures (λ d. HasIds d.ipc) (parse_business J unset total_jv)
  unfolding parse_business
  parse_business-HasIds unset total_jv obj =
      bind-Ensures _ _ (data_of J total_jv) _ (data_of-IsObject J laws total_jv obj) λ data_jv d.
        bind-Ensures Always _ (msg_id_of J total_jv) _ (msg_id_of-Always J laws total_jv obj)
          λ id u.
            bind-Ensures _ _ (payload_of J data_jv) _ (payload_of-IsObject J laws data_jv d)
              λ payload_jv p.
                bind-Ensures HasIds _ (parse_ipc_info J data_jv (new_ipc_info unset)) _
                  (parse_ipc_info-HasIds J laws data_jv (new_ipc_info unset) d)
                  λ ipc ids.
                    bind-Ensures Always _ (parse_event J payload_jv) _
                      (parse_event-Always payload_jv p) λ event u. ids

  pub parse_xiashun_business-HasIds :
      (unset : ℤ) (total_jv : J.Value)
      → J.is_object total_jv ≡ true
      → Ensures (λ d. HasIds d.ipc) (parse_xiashun_business J unset total_jv)
  unfolding parse_xiashun_business
  parse_xiashun_business-HasIds unset total_jv obj =
      bind-Ensures _ _ (data_of J total_jv) _ (data_of-IsObject J laws total_jv obj) λ data_jv d.
        bind-Ensures Always _ (msg_id_of J total_jv) _ (msg_id_of-Always J laws total_jv obj)
          λ id u.
            bind-Ensures _ _ (payload_of J data_jv) _ (payload_of-IsObject J laws data_jv d)
              λ payload_jv p.
                bind-Ensures HasIds _ (parse_ipc_info J data_jv (new_ipc_info unset)) _
                  (parse_ipc_info-HasIds J laws data_jv (new_ipc_info unset) d)
                  λ ipc ids.
                    bind-Ensures Always _ (parse_flow J payload_jv) _
                      (parse_flow-Always payload_jv p) λ event u. ids

  -- The factory, and the classes of events behind it.
  parse_data-IsObject :
      (payload : Text) → Ensures (λ found. J.is_object found.1 ≡ true) (parse_data J payload)
  unfolding parse_data
  parse_data-IsObject payload =
      after-demand _ _ (parse_json J payload) _ (parse_json-IsObject J laws payload) λ total_jv obj.
        bind-Ensures _ _ (data_of J total_jv) _ (data_of-IsObject J laws total_jv obj) λ data_jv d.
          after-int J laws _ data_jv _ d _ λ ptype.
            after-demand Always _ ptype _ (OnSome-Always ptype) λ number u.
              after-demand Always _ (payload_type number) _ (OnSome-Always _) λ type u. obj

  parse-EventHasIds :
      (unset : ℤ) (type : PayloadType) (total_jv : J.Value)
      → is_event type ≡ true
      → J.is_object total_jv ≡ true
      → Ensures EventHasIds (parse J unset (type, total_jv))
  unfolding parse
  parse-EventHasIds unset business_event total_jv event obj =
      bind-Ensures _ EventHasIds (parse_business J unset total_jv) _
        (parse_business-HasIds unset total_jv obj) λ d ids. ids
  parse-EventHasIds unset xiashun_business total_jv event obj =
      bind-Ensures _ EventHasIds (parse_xiashun_business J unset total_jv) _
        (parse_xiashun_business-HasIds unset total_jv obj) λ d ids. ids
  parse-EventHasIds unset trace total_jv event obj = absurd cc
  parse-EventHasIds unset xiashun_capture total_jv event obj = absurd cc
  parse-EventHasIds unset screenshot total_jv event obj = absurd cc

  -- Under the documented laws of jsoncpp, choosing the class of a message never throws, whatever the
  -- payload is; and if the class is one of events, reading the message does not throw either, and a
  -- message that is read has an application and a space.
  pub parse_data-EventHasIds :
      (unset : ℤ) (payload : Text)
      → Ensures
          (λ found. is_event found.0 ≡ true → Ensures EventHasIds (parse J unset found))
          (parse_data J payload)
  parse_data-EventHasIds unset payload =
      weaken-Ensures _ _ (parse_data J payload) (parse_data-IsObject payload)
        λ found obj event. parse-EventHasIds unset found.0 found.1 event obj
