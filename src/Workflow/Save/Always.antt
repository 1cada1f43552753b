-- ===== src/Workflow/Save/Always.antt =====
-- What a saved record of type 2 means for all later messages
-- (src/package/workflow/module/module_business_output.cpp).
use business.Base.{
  ◌≡◌, refl, ap, ◌∙◌, Bool, true, false, List, [], some, All, if_holds, some-injective, append-nil,
  subst, sym,
}
use business.Base.Int.{ℤ, pos, eq_ℤ}
use business.Base.Text.{Text}
use business.Base.Dict.{text_eq_laws}
use business.Data.{IpcInfo}
use business.Workflow.Save.Documents.{
  SavedPerson, Passage, SaveData, to_save, get_save_mongo_data, get_replay, collection_of,
  key_filter, big_filter, big_document, document_of,
}
use business.Workflow.Save.Collection.{Filter, Document, Mongo, IsMongo, Sets}
use business.Workflow.Save.Keys.{IsSame, IsSame-refl, big-Sets}
use business.Workflow.Save.{
  Written, written, unwritten, unnoticed, Env, switch_set, write, store, store_unless_big,
  with_data, after_set, save_business_mongo, state_after, run_saves,
}
use business.Workflow.Save.Kept.{IsHeld, small-unchanged, run-IsHeld}

module _ {Double : Type 0} (M : Mongo Double) (laws : IsMongo M) (atoi : Text → ℤ) where
  write-written :
      (w : Written) (c : Text) (F G : Filter) (D : Document Double) (st st' : M.State)
      → All (Sets D) G
      → write M atoi w c F D st ≡ (true, st')
      → M.has c G st' ≡ true
  unfolding write
  write-written written c F G D st st' sets e =
      subst (λ t. M.has c G t ≡ true) (ap (λ r. r.1) e) (laws.has_set c F G D st sets)
  write-written unwritten c F G D st st' sets e = absurd (cc (ap (λ r. r.0) e))
  write-written unnoticed c F G D st st' sets e = absurd (cc (ap (λ r. r.0) e))

  unless_small :
      (env : Env) (x : Passage Double) (p : SavedPerson Double) (d : SaveData) (st : M.State)
      → eq_ℤ d.msg_type (pos 1) ≡ false
      → store_unless_big M atoi env x p d st ≡ store M atoi env x p d st
  unfolding store_unless_big
  unless_small env x p d st other = rw (store_unless_big, other) refl

  unless_replayed :
      (env : Env) (x : Passage Double) (p : SavedPerson Double) (d : SaveData) (st : M.State)
      → eq_ℤ (get_replay x.source) (pos 1) ≡ false
      → store M atoi env x p d st
        ≡ write M atoi env.update
            (collection_of x.ipc)
            (key_filter x.ipc d)
            (document_of atoi env.current_time x p d)
            st
  unfolding store
  unless_replayed env x p d st original = rw (store, original) refl

  of_type_two :
      (now : Text) (x : Passage Double) (p : SavedPerson Double) (d : SaveData)
      → d.msg_type ≡ pos 2
      → All (Sets (document_of atoi now x p d)) (big_filter x.ipc d)
  unfolding document_of
  of_type_two now x p d two =
      let test : eq_ℤ d.msg_type (pos 2) ≡ true = rw two refl in
      subst (λ D. All (Sets D) (big_filter x.ipc d))
        (append-nil (big_document atoi now x p d) ∙ rw (document_of, test) refl)
        (big-Sets atoi now x p d x.ipc d [] (IsSame-refl x.ipc d) test)

  -- A passage of type 2 that is saved.
  store-IsHeld_new :
      (env : Env) (x : Passage Double) (p : SavedPerson Double) (d : SaveData) (st st' : M.State)
      → d.msg_type ≡ pos 2
      → eq_ℤ (get_replay x.source) (pos 1) ≡ false
      → store_unless_big M atoi env x p d st ≡ (true, st')
      → IsHeld M laws atoi x.ipc d st'
  store-IsHeld_new env x p d st st' two original e =
      write-written env.update _ _ _ _ st st' (of_type_two env.current_time x p d two) (
        sym (unless_replayed env x p d st original)
        ∙ sym (unless_small env x p d st (rw two refl))
        ∙ e)

  after_set-IsHeld_new :
      (env : Env) (x : Passage Double) (r : Bool × SavedPerson Double) (d : SaveData)
      (st st' : M.State)
      → get_save_mongo_data x.source ≡ to_save d
      → d.msg_type ≡ pos 2
      → eq_ℤ (get_replay x.source) (pos 1) ≡ false
      → after_set M atoi env x r st ≡ some (true, st')
      → IsHeld M laws atoi x.ipc d st'
  after_set-IsHeld_new env x (false, p) d st st' is two original e =
      absurd (cc (ap (λ r. r.0) (some-injective e)))
  after_set-IsHeld_new env x (true, p) d st st' is two original e =
      if_holds (λ r. r ≡ some (true, st') → IsHeld M laws atoi x.ipc d st') env.connected
        (λ here saved.
          store-IsHeld_new env x p d st st' two original (
            some-injective
              (subst (λ o. with_data M atoi env x p o st ≡ some (true, st')) is saved)))
        (λ away saved. absurd (cc (ap (λ r. r.0) (some-injective saved)))) e

  -- What a message of type 1 does where a record of type 2 is.
  after_set-unchanged :
      (env : Env) (x : Passage Double) (r : Bool × SavedPerson Double) (d : SaveData)
      (ipc' : IpcInfo) (d' : SaveData) (st : M.State)
      → get_save_mongo_data x.source ≡ to_save d
      → IsSame x.ipc d ipc' d'
      → d.msg_type ≡ pos 1
      → IsHeld M laws atoi ipc' d' st
      → state_after M atoi (after_set M atoi env x r st) st ≡ st
  after_set-unchanged env x (false, p) d ipc' d' st is same one held = refl
  after_set-unchanged env x (true, p) d ipc' d' st is same one held =
      if_holds (λ r. state_after M atoi r st ≡ st) env.connected
        (λ here.
          subst (λ o. state_after M atoi (with_data M atoi env x p o st) st ≡ st) (sym is)
            (small-unchanged M laws atoi ipc' d' env x p d st same (rw one refl) held))
        (λ away. refl)

-- A record of type 2 is never lost to later messages. Once a message of type 2 that is no replay was saved
-- with success, then after any further calls, for whatever passages, replays and failures of Mongo, the
-- collection has a record of type 2 for its device, track, app, space and direction, and saving a
-- message of type 1 for these changes nothing.
pub save_business_mongo-IsHeld_always :
    {Double : Type 0} (M : Mongo Double) (laws : IsMongo M) (atoi : Text → ℤ) (env : Env)
    (x : Passage Double) (d : SaveData) (st st' : M.State) (calls : List (Env × Passage Double))
    (env' : Env) (y : Passage Double) (e : SaveData)
    → get_save_mongo_data x.source ≡ to_save d
    → d.msg_type ≡ pos 2
    → eq_ℤ (get_replay x.source) (pos 1) ≡ false
    → save_business_mongo M atoi env x st ≡ some (true, st')
    → get_save_mongo_data y.source ≡ to_save e
    → e.msg_type ≡ pos 1
    → IsSame y.ipc e x.ipc d
    → let now = run_saves M atoi calls st' in
      (M.has (collection_of x.ipc) (big_filter x.ipc d) now ≡ true)
      × (state_after M atoi (save_business_mongo M atoi env' y now) now ≡ now)
unfolding save_business_mongo
save_business_mongo-IsHeld_always M laws atoi env x d st st' calls env' y e is two original saved
      is_small one same =
    let held = run-IsHeld M laws atoi x.ipc d calls st' (
      after_set-IsHeld_new M laws atoi env x (switch_set env.face_set x.person) d st st' is two
        original saved) in
    (
      held,
      after_set-unchanged M laws atoi env' y (switch_set env'.face_set y.person) e x.ipc d
          (run_saves M atoi calls st') is_small same one held,
    )
