-- ===== src/Workflow/Save/Kept.antt =====
-- A record of type 2 in the collection stays, whatever is saved after it.
use business.Base.{
  ◌≡◌, ◌⊎◌, inl, inr, refl, Bool, true, false, List, [], ◌∷◌, All, Bool-cases, if_holds, subst, sym,
}
use business.Base.Int.{ℤ, pos, eq_ℤ}
use business.Base.Text.{Text}
use business.Base.Dict.{text_eq_laws}
use business.Data.{IpcInfo}
use business.Workflow.Save.Documents.{
  SavedPerson, Passage, SaveData, MongoData, undefined, not_saved, to_save, get_save_mongo_data,
  get_replay, collection_of, key_filter, big_filter, replay_filter, document_of, with_replay,
}
use business.Workflow.Save.Collection.{Filter, Document, Mongo, IsMongo, IsKept, Disagree}
use business.Workflow.Save.Keys.{IsSame, key-cases, document-IsKept, big_filter-eq}
use business.Workflow.Save.{
  Written, written, unwritten, unnoticed, Env, switch_set, write, store, store_unless_big,
  with_data, after_set, save_business_mongo, state_after, run_saves,
}

module _ {Double : Type 0} (M : Mongo Double) (laws : IsMongo M) (atoi : Text → ℤ) where
  write-has :
      (w : Written) (c e : Text) (F G : Filter) (D : Document Double) (st : M.State)
      → All (IsKept D) G ⊎ Disagree F G
      → M.has e G st ≡ true
      → M.has e G (write M atoi w c F D st).1 ≡ true
  unfolding write
  write-has written c e F G D st h found = laws.has_kept c e F G D st h found
  write-has unwritten c e F G D st h found = found
  write-has unnoticed c e F G D st h found = laws.has_kept c e F G D st h found

  module _ (ipc' : IpcInfo) (d' : SaveData) where
    -- There is a record of type 2.
    abbrev pub IsHeld : M.State → Type 0
    IsHeld st = M.has (collection_of ipc') (big_filter ipc' d') st ≡ true

    Stays : IpcInfo → SaveData → Document Double → Type 0
    Stays ipc d D =
        All (IsKept D) (big_filter ipc' d') ⊎ Disagree (key_filter ipc d) (big_filter ipc' d')

    store-IsHeld :
        (env : Env) (x : Passage Double) (p : SavedPerson Double) (d : SaveData) (st : M.State)
        → Stays x.ipc d (document_of atoi env.current_time x p d)
        → Stays x.ipc d (with_replay (document_of atoi env.current_time x p d))
        → IsHeld st
        → IsHeld (store M atoi env x p d st).1
    unfolding store Stays
    store-IsHeld env x p d st plain marked held =
        if_holds P (eq_ℤ (get_replay x.source) (pos 1))
          (λ replayed.
            if_holds P env.finds_original
              (λ looked.
                if_holds P (M.has (collection_of x.ipc) (replay_filter x.ipc d) st) (λ kept. held)
                  (λ new. write-has env.update _ _ _ _ _ st marked held))
              (λ failed. held))
          (λ original. write-has env.update _ _ _ _ _ st plain held)
      where
        P : Bool × M.State → Type 0
        P r = IsHeld r.1

    -- A message of type 1 is not stored for the same key.
    pub small-unchanged :
        (env : Env) (x : Passage Double) (p : SavedPerson Double) (d : SaveData) (st : M.State)
        → IsSame x.ipc d ipc' d'
        → eq_ℤ d.msg_type (pos 1) ≡ true
        → IsHeld st
        → (store_unless_big M atoi env x p d st).1 ≡ st
    unfolding store_unless_big
    small-unchanged env x p d st same small held =
        let (filter, collection) = big_filter-eq x.ipc d ipc' d' same in
        elim (Bool-cases env.finds_big) [
          | inr failed ↦ rw (store_unless_big, small, failed) refl
          | inl looked ↦ rw (store_unless_big, small, looked, filter, collection, held) refl
        ]

    store_unless_big-IsHeld :
        (env : Env) (x : Passage Double) (p : SavedPerson Double) (d : SaveData) (st : M.State)
        → IsHeld st
        → IsHeld (store_unless_big M atoi env x p d st).1
    unfolding store_unless_big Stays
    store_unless_big-IsHeld env x p d st held = elim (key-cases x.ipc d ipc' d') [
      | inl same ↦ elim (Bool-cases (eq_ℤ d.msg_type (pos 1))) [
        | inl small ↦ subst IsHeld (sym (small-unchanged env x p d st same small held)) held
        | inr other ↦
            let (plain, marked) = document-IsKept atoi env.current_time x p d ipc' d' same other in
            rw (store_unless_big, other) (store-IsHeld env x p d st (inl plain) (inl marked) held)
      ]
      | inr apart ↦
          let stored = store-IsHeld env x p d st (inr apart) (inr apart) held in
          if_holds P (eq_ℤ d.msg_type (pos 1))
            (λ small.
              if_holds P env.finds_big
                (λ looked.
                  if_holds P (M.has (collection_of x.ipc) (big_filter x.ipc d) st) (λ there. held)
                    (λ new. stored))
                (λ failed. held))
            (λ other. stored)
    ]
      where
        P : Bool × M.State → Type 0
        P r = IsHeld r.1

    with_data-IsHeld :
        (env : Env) (x : Passage Double) (p : SavedPerson Double) (o : MongoData) (st : M.State)
        → IsHeld st
        → IsHeld (state_after M atoi (with_data M atoi env x p o st) st)
    with_data-IsHeld env x p undefined st held = held
    with_data-IsHeld env x p not_saved st held = held
    with_data-IsHeld env x p (to_save d) st held = store_unless_big-IsHeld env x p d st held

    after_set-IsHeld :
        (env : Env) (x : Passage Double) (r : Bool × SavedPerson Double) (st : M.State)
        → IsHeld st
        → IsHeld (state_after M atoi (after_set M atoi env x r st) st)
    after_set-IsHeld env x (false, p) st held = held
    after_set-IsHeld env x (true, p) st held =
        if_holds (λ r. IsHeld (state_after M atoi r st)) env.connected
          (λ yes_connected. with_data-IsHeld env x p (get_save_mongo_data x.source) st held)
          (λ not_connected. held)

    save_business_mongo-IsHeld :
        (env : Env) (x : Passage Double) (st : M.State)
        → IsHeld st
        → IsHeld (state_after M atoi (save_business_mongo M atoi env x st) st)
    unfolding save_business_mongo
    save_business_mongo-IsHeld env x st held =
        after_set-IsHeld env x (switch_set env.face_set x.person) st held

    pub run-IsHeld :
        (calls : List (Env × Passage Double)) (st : M.State)
        → IsHeld st
        → IsHeld (run_saves M atoi calls st)
    unfolding run_saves
    run-IsHeld [] st held = held
    run-IsHeld ((env, x) ∷ rest) st held =
        run-IsHeld rest _ (save_business_mongo-IsHeld env x st held)
