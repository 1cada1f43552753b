-- ===== src/Data/Output/Own.antt =====
-- What the outputs of xiashun captures and of screenshots say, and for whom.
use business.Base.{
  ◌≡◌, refl, ap, ap₂, ◌∙◌, true, List, [], ◌∷◌, some, map, if◌then◌else◌, Bool-cases, inl, inr,
}
use business.Base.Int.{ℤ}
use business.Base.Text.{Text, codes}
use business.Json.{JsonLib}
use business.Json.Writer.{JsonWriter, IsWriter}
use business.Data.{IpcInfo}
use business.Data.Capture.{Face, CaptureInfo}
use business.Data.Screenshot.{TaskInfo, is_output}
use business.Data.Output.{Person, is_noreg}
use business.Data.Output.Topics.{HidesPerson, doc_attributes, doc_person, doc_ipc, hides}
use business.Data.Output.Others.{
  is_group_or_gender, xiashun_data, xiashun_document, xiashun_request, screenshot_document, for_app,
  screenshot_loop, screenshot_request,
}
use business.Workflow.KafkaOutput.{KafkaOutputInfo}

-- The tasks that ask for a screenshot, in their order.
unfoldable pub asking : List TaskInfo → List TaskInfo
asking [] = []
asking (task ∷ tasks) = if is_output task then task ∷ asking tasks else asking tasks

module _ (J : JsonLib) (W : JsonWriter J) (laws : IsWriter J W) (atoi : Text → ℤ)
    (expire_text : ℤ → Text) where
  abbrev pub output_for : Text → J.Value → TaskInfo → KafkaOutputInfo
  output_for topic doc task = record {
    topic = topic;
    content = W.to_styled_string (for_app J W atoi expire_text doc task.uid);
  }

  -- After any number of tasks the document is the first one, or that with another app.
  screenshot_loop-asking :
      (topic : Text) (tasks : List TaskInfo) (doc out_jv : J.Value)
      → ((uid : Text)
          → for_app J W atoi expire_text out_jv uid ≡ for_app J W atoi expire_text doc uid)
      → laws.IsDoc doc
      → screenshot_loop J W atoi expire_text topic tasks out_jv
        ≡ map (output_for topic doc) (asking tasks)
  unfolding screenshot_loop asking
  screenshot_loop-asking topic [] doc out_jv same h = refl
  screenshot_loop-asking topic (task ∷ tasks) doc out_jv same h =
      elim (Bool-cases (is_output task)) [
        | inr other ↦ rw other (screenshot_loop-asking topic tasks doc out_jv same h)
        | inl wanted ↦ rw wanted (
            ap₂ (λ o os. o ∷ os)
              (ap (λ v. record { topic = topic; content = W.to_styled_string v }) (same task.uid))
              (screenshot_loop-asking topic tasks doc (for_app J W atoi expire_text out_jv task.uid)
                (λ uid.
                  ap (λ v. for_app J W atoi expire_text v uid) (same task.uid)
                  ∙ laws.set_again doc (codes "app_id") (W.of_text task.uid) (W.of_text uid) h)
                h))
      ]

  doc_screenshot :
      (ipc : IpcInfo) (payload_type : ℤ) (payload : Text)
      → laws.IsDoc (screenshot_document J W atoi expire_text ipc payload_type payload)
  unfolding screenshot_document
  doc_screenshot ipc payload_type payload =
      laws.doc_set _ _ _
        (laws.doc_set _ _ _ (laws.doc_set _ _ _ (laws.doc_set _ _ _ laws.doc_null)))

  doc_xiashun :
      (ipc : IpcInfo) (face : Face) (track_id : ℤ) (p : Person J)
      → laws.IsDoc (xiashun_data J W atoi expire_text ipc face track_id p)
  unfolding xiashun_data
  doc_xiashun ipc face track_id p = laws.doc_set _ _ _ (
      doc_attributes J W laws atoi expire_text is_group_or_gender p.person_attributes _ (
        laws.doc_set _ _ _ (
          laws.doc_set _ _ _ (
            laws.doc_set _ _ _ (
              doc_person J W laws atoi expire_text p _
                (laws.doc_set _ _ _ (doc_ipc J W laws atoi expire_text ipc)))))))

  xiashun_document-HidesPerson :
      (ipc : IpcInfo) (face : Face) (track_id : ℤ) (p : Person J)
      → is_noreg p.id ≡ true
      → HidesPerson J W laws (xiashun_document J W atoi expire_text ipc face track_id p)
  unfolding xiashun_document
  xiashun_document-HidesPerson ipc face track_id p noreg =
      hides J W laws atoi expire_text ipc p _ noreg
        (laws.doc_set _ _ _ (doc_xiashun ipc face track_id p))

-- A screenshot is sent once for each task that asks for one, in their order and to the configured topic,
-- with the picture's own data and that task's uid as the app: nothing of an earlier task is left in the
-- document, though the loop goes on with the same one. It never fails.
pub screenshot_request-asking :
    (J : JsonLib) (W : JsonWriter J) (laws : IsWriter J W) (atoi : Text → ℤ)
    (expire_text : ℤ → Text) (ipc : IpcInfo) (payload_type : ℤ) (payload : Text)
    (tasks : List TaskInfo) (topic : Text)
    → screenshot_request J W atoi expire_text ipc payload_type payload tasks topic ≡ (
      true,
      map
          (output_for J W laws atoi expire_text topic
            (screenshot_document J W atoi expire_text ipc payload_type payload))
          (asking tasks),
    )
unfolding screenshot_request
screenshot_request-asking J W laws atoi expire_text ipc payload_type payload tasks topic =
    ap (λ outputs. (true, outputs))
      (screenshot_loop-asking J W laws atoi expire_text topic tasks _ _ (λ uid. refl)
        (doc_screenshot J W laws atoi expire_text ipc payload_type payload))

-- The output of a xiashun capture with a face is one, to the configured topic, and if the id of its person
-- begins with "noreg", the link to the person's picture in it is empty, whatever the attributes are.
pub xiashun_request-HidesPerson :
    (J : JsonLib) (W : JsonWriter J) (laws : IsWriter J W) (atoi : Text → ℤ)
    (expire_text : ℤ → Text) (ipc : IpcInfo) (c : CaptureInfo) (p : Person J) (topic : Text)
    (face : Face) (faces : List Face)
    → c.faces ≡ face ∷ faces
    → is_noreg p.id ≡ true
    → (doc : J.Value) × (xiashun_request J W atoi expire_text ipc c p topic
        ≡ some (true, record { topic = topic; content = W.to_styled_string doc } ∷ []))
      × HidesPerson J W laws doc
unfolding xiashun_request
xiashun_request-HidesPerson J W laws atoi expire_text ipc c p topic face faces some_face noreg = (
  xiashun_document J W atoi expire_text ipc face c.track_id p,
  rw (xiashun_request, some_face) refl,
  xiashun_document-HidesPerson J W laws atoi expire_text ipc face c.track_id p noreg,
)
