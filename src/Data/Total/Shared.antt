-- ===== src/Data/Total/Shared.antt =====
-- What the parts that all classes read ensure.
use business.Base.{◌≡◌, refl, true, false, [], ◌∷◌, Bool-cases, inl, inr, ◌++◌}
use business.Base.Text.{Text, codes, is_empty}
use business.Json.{refused, got, call, JsonLib, parse_json}
use business.Json.Laws.{
  Ensures, Always, bind-Ensures, call-Ensures, demand-Ensures, if-Ensures, IsJson, after-demand,
  OnSome-Always, after-text, after-int64, parse_json-IsObject,
}
use business.Data.{
  IpcInfo, default_space, checked_ipc, data_of, payload_of, parse_ipc_info, msg_id_of,
}

-- The ids that every message needs further on.
abbrev pub HasIds : IpcInfo → Type 0
HasIds ipc = (is_empty ipc.app_id ≡ false) × (is_empty ipc.space_id ≡ false)

append-full : (a b : Text) → is_empty a ≡ false → is_empty (a ++ b) ≡ false
append-full [] b h = absurd cc
append-full (x ∷ a) b h = refl

default_space-HasIds : (ipc : IpcInfo) → is_empty ipc.app_id ≡ false → HasIds (default_space ipc)
unfolding default_space
default_space-HasIds ipc full = elim (Bool-cases (is_empty ipc.space_id)) [
  | inl empty ↦ rw (default_space, empty) (full, append-full ipc.app_id (codes "defaultspace") full)
  | inr given ↦ rw (default_space, given) (full, given)
]

checked_ipc-HasIds : (ipc : IpcInfo) → Ensures HasIds (checked_ipc ipc)
unfolding checked_ipc
checked_ipc-HasIds ipc =
    if-Ensures HasIds (is_empty ipc.app_id) refused (got (default_space ipc)) (λ empty. tt)
      (λ full. default_space-HasIds ipc full)

module _ (J : JsonLib) (laws : IsJson J) where
  pub parse_ipc_info-HasIds :
      (data_jv : J.Value) (ipc : IpcInfo)
      → J.is_object data_jv ≡ true
      → Ensures HasIds (parse_ipc_info J data_jv ipc)
  unfolding parse_ipc_info
  parse_ipc_info-HasIds data_jv ipc obj = after-text J laws HasIds data_jv _ obj _ λ uid.
      after-text J laws HasIds data_jv _ obj _ λ version.
        after-text J laws HasIds data_jv _ obj _ λ did.
          after-demand Always HasIds did _ (OnSome-Always did) λ device_id u.
            after-int64 J laws HasIds data_jv _ obj _ λ timestamp.
              after-text J laws HasIds data_jv _ obj _ λ app_id.
                after-text J laws HasIds data_jv _ obj _ λ space_id.
                  after-text J laws HasIds data_jv _ obj _ λ levelone_name.
                    after-text J laws HasIds data_jv _ obj _ λ leveltwo_name.
                      after-text J laws HasIds data_jv _ obj _ λ levelone_id.
                        after-text J laws HasIds data_jv _ obj _
                          λ leveltwo_id. search checked_ipc-HasIds

  -- What all classes read before the payload's own part.
  pub data_of-IsObject :
      (total_jv : J.Value)
      → J.is_object total_jv ≡ true
      → Ensures (λ w. J.is_object w ≡ true) (data_of J total_jv)
  unfolding data_of
  data_of-IsObject total_jv obj =
      bind-Ensures Always _ (call (J.is_member total_jv _)) _
        (call-Ensures Always _ (laws.member total_jv _ obj))
        λ there u.
          if-Ensures _ there _ _
            (λ is_there.
              bind-Ensures Always _ (call (J.at total_jv _)) _
                (call-Ensures Always _ (laws.at total_jv _ obj))
                λ w u.
                  if-Ensures _ (J.is_object w) _ _ (λ inner. inner)
                    λ other.
                      if-Ensures _ (J.is_string w) _ _
                        (λ text.
                          bind-Ensures Always _ (call (J.as_string w)) _
                            (call-Ensures Always _ (laws.string w text))
                            λ s u. demand-Ensures _ (parse_json J s) (parse_json-IsObject J laws s))
                        (λ neither. tt))
            (λ missing. tt)

  pub msg_id_of-Always :
      (total_jv : J.Value) → J.is_object total_jv ≡ true → Ensures Always (msg_id_of J total_jv)
  unfolding msg_id_of
  msg_id_of-Always total_jv obj = after-text J laws Always total_jv _ obj _ λ id. tt

  pub payload_of-IsObject :
      (data_jv : J.Value)
      → J.is_object data_jv ≡ true
      → Ensures (λ w. J.is_object w ≡ true) (payload_of J data_jv)
  unfolding payload_of
  payload_of-IsObject data_jv obj = after-text J laws _ data_jv _ obj _ λ text.
      after-demand Always _ text _ (OnSome-Always text)
        λ payload u. demand-Ensures _ (parse_json J payload) (parse_json-IsObject J laws payload)
