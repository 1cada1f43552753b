-- ===== src/Workflow/Save/Keys.antt =====
-- Whether two messages of src/package/workflow/module/module_business_output.cpp have the same key, and what
-- the documents set or keep of the fields that the filters ask for.
use business.Base.{
  ◌≡◌, ◌⊎◌, inl, inr, refl, true, false, [], ◌∷◌, ◌++◌, none, All, Bool-cases, ==_refl, append-nil,
  subst,
}
use business.Base.Int.{ℤ, pos, eq_ℤ}
use business.Base.Text.{Text, codes, text_eq, text_eq_sound, text_eq_refl}
use business.Base.Dict.{lookup, text_eq_laws, int_sound}
use business.Data.{IpcInfo}
use business.Workflow.Save.Documents.{
  SavedPerson, Passage, SaveData, collection_of, key_filter, big_filter, big_document,
  plain_document, document_of, with_replay,
}
use business.Workflow.Save.Collection.{
  Filter, Document, Sets, IsKept, Disagree, text, int, is_text, is_int,
}

-- The same device, track, app, space and direction.
pub record IsSame (ipc : IpcInfo) (d : SaveData) (ipc' : IpcInfo) (d' : SaveData) : Type 0 where
  pub device : text_eq ipc.device_id ipc'.device_id ≡ true
  pub track : eq_ℤ d.track_id d'.track_id ≡ true
  pub app : text_eq ipc.app_id ipc'.app_id ≡ true
  pub space : text_eq ipc.space_id ipc'.space_id ≡ true
  pub direction : eq_ℤ d.event_type d'.event_type ≡ true

pub IsSame-refl : (ipc : IpcInfo) (d : SaveData) → IsSame ipc d ipc d
IsSame-refl ipc d = record {
  device = text_eq_refl ipc.device_id;
  track = ==_refl _;
  app = text_eq_refl ipc.app_id;
  space = text_eq_refl ipc.space_id;
  direction = ==_refl _;
}

module _ (ipc : IpcInfo) (d : SaveData) (ipc' : IpcInfo) (d' : SaveData) where
  pub key-cases : IsSame ipc d ipc' d' ⊎ Disagree (key_filter ipc d) (big_filter ipc' d')
  unfolding key_filter big_filter codes text_eq lookup
  key-cases = elim (Bool-cases (text_eq ipc.device_id ipc'.device_id)) [
    | inr no_device ↦ inr (record {
      field = codes "device_sn";
      one = is_text ipc.device_id;
      other = is_text ipc'.device_id;
      in_one = refl;
      in_other = refl;
      differ = rw no_device refl;
    })
    | inl device ↦ elim (Bool-cases (eq_ℤ d.track_id d'.track_id)) [
      | inr no_track ↦ inr (record {
        field = codes "track_id";
        one = is_int d.track_id;
        other = is_int d'.track_id;
        in_one = refl;
        in_other = refl;
        differ = rw no_track refl;
      })
      | inl track ↦ elim (Bool-cases (text_eq ipc.app_id ipc'.app_id)) [
        | inr no_app ↦ inr (record {
          field = codes "app_id";
          one = is_text ipc.app_id;
          other = is_text ipc'.app_id;
          in_one = refl;
          in_other = refl;
          differ = rw no_app refl;
        })
        | inl app ↦ elim (Bool-cases (text_eq ipc.space_id ipc'.space_id)) [
          | inr no_space ↦ inr (record {
            field = codes "space_id";
            one = is_text ipc.space_id;
            other = is_text ipc'.space_id;
            in_one = refl;
            in_other = refl;
            differ = rw no_space refl;
          })
          | inl space ↦ elim (Bool-cases (eq_ℤ d.event_type d'.event_type)) [
            | inr no_direction ↦ inr (record {
              field = codes "in_out_type";
              one = is_int d.event_type;
              other = is_int d'.event_type;
              in_one = refl;
              in_other = refl;
              differ = rw no_direction refl;
            })
            | inl direction ↦ inl (record {
              device = device;
              track = track;
              app = app;
              space = space;
              direction = direction;
            })
          ]
        ]
      ]
    ]
  ]

module _ {Double : Type 0} (atoi : Text → ℤ) (now : Text) where
  -- A record of type 2 sets all that the filter asks for.
  pub big-Sets :
      (x : Passage Double) (p : SavedPerson Double) (d : SaveData) (ipc' : IpcInfo) (d' : SaveData)
      (tail : Document Double)
      → IsSame x.ipc d ipc' d'
      → eq_ℤ d.msg_type (pos 2) ≡ true
      → All (Sets (big_document atoi now x p d ++ tail)) (big_filter ipc' d')
  unfolding big_document key_filter big_filter codes text_eq lookup
  big-Sets x p d ipc' d' tail same two = (
    (text x.ipc.device_id, refl, same.device),
    (
      (int d.track_id, refl, same.track),
      (
        (text x.ipc.app_id, refl, same.app),
        (
          (text x.ipc.space_id, refl, same.space),
          ((int d.event_type, refl, same.direction), ((int d.msg_type, refl, two), tt)),
        ),
      ),
    ),
  )

  -- Any other record but one of type 1 leaves the type alone.
  plain-IsKept :
      (x : Passage Double) (d : SaveData) (ipc' : IpcInfo) (d' : SaveData) (tail : Document Double)
      → IsSame x.ipc d ipc' d'
      → lookup (codes "msg_type") tail ≡ none
      → All (IsKept (plain_document atoi now x d ++ tail)) (big_filter ipc' d')
  unfolding plain_document key_filter big_filter codes text_eq lookup
  plain-IsKept x d ipc' d' tail same untyped = (
    inr (text x.ipc.device_id, refl, same.device),
    (
      inr (int d.track_id, refl, same.track),
      (
        inr (text x.ipc.app_id, refl, same.app),
        (
          inr (text x.ipc.space_id, refl, same.space),
          (inr (int d.event_type, refl, same.direction), (inl untyped, tt)),
        ),
      ),
    ),
  )

  Sets-IsKept : (D : Document Double) (G : Filter) → All (Sets D) G → All (IsKept D) G
  Sets-IsKept D [] h = tt
  Sets-IsKept D (g ∷ G) (one, rest) = (inr one, Sets-IsKept D G rest)

  -- What `store` writes for a message that is not of type 1.
  pub document-IsKept :
      (x : Passage Double) (p : SavedPerson Double) (d : SaveData) (ipc' : IpcInfo) (d' : SaveData)
      → IsSame x.ipc d ipc' d'
      → eq_ℤ d.msg_type (pos 1) ≡ false
      → All (IsKept (document_of atoi now x p d)) (big_filter ipc' d')
        × All (IsKept (with_replay (document_of atoi now x p d))) (big_filter ipc' d')
  unfolding document_of with_replay codes text_eq lookup
  document-IsKept x p d ipc' d' same no_one = elim (Bool-cases (eq_ℤ d.msg_type (pos 2))) [
    | inl two ↦
        rw (document_of, two)
          (
            Sets-IsKept (big_document atoi now x p d) _ (
                subst (λ D. All (Sets D) (big_filter ipc' d'))
                  (append-nil (big_document atoi now x p d)) (big-Sets x p d ipc' d' [] same two)),
            Sets-IsKept (with_replay (big_document atoi now x p d)) _
                (big-Sets x p d ipc' d' ((codes "replay", int (pos 1)) ∷ []) same two),
          )
    | inr other ↦
        rw (document_of, other, no_one)
          (
            plain-IsKept x d ipc' d' [] same refl,
            plain-IsKept x d ipc' d' ((codes "replay", int (pos 1)) ∷ []) same refl,
          )
  ]

pub big_filter-eq :
    (ipc : IpcInfo) (d : SaveData) (ipc' : IpcInfo) (d' : SaveData)
    → IsSame ipc d ipc' d'
    → (big_filter ipc d ≡ big_filter ipc' d') × (collection_of ipc ≡ collection_of ipc')
unfolding big_filter key_filter collection_of
big_filter-eq ipc d ipc' d' same =
    let device = text_eq_sound _ _ same.device in
    let track = int_sound d.track_id d'.track_id same.track in
    let app = text_eq_sound _ _ same.app in
    let space = text_eq_sound _ _ same.space in
    let direction = int_sound d.event_type d'.event_type same.direction in
    (rw (device, track, app, space, direction) refl, rw app refl)
