-- ===== src/Workflow/KafkaOutput/Accepted.antt =====
-- What the producer has accepted after a session's outputs.
use business.Base.{
  ℕ, zero, suc, ◌<◌, ◌≡◌, refl, sym, ap, ◌∙◌, subst, Bool, true, false, List, [], ◌∷◌, ◌++◌, Option,
  none, some, if◌then◌else◌, arith, some-injective, Bool-cases, Option-cases, inl, inr, length,
  take, append_assoc, append-nil,
}
use business.Base.Text.{Text, text_eq}
use business.Base.Dict.{Dict, text_eq_laws, lookup, assign, lookup-assign, lookup-assign_ne}
use business.Base.Text.{text_eq_sound}
use business.Workflow.KafkaOutput.{
  Producer, KafkaOutputInfo, add_topic, find_topic, try_produce, send_to, push_data_to_kafka,
  push_all,
}

-- What librdkafka documents: a message that is enqueued is added to its topic's, one that is not is
-- dropped, and no other call enqueues.
pub record IsProducer (P : Producer) : Type 0 where
  pub name : P.Topic → Text
  pub accepted : P.State → List KafkaOutputInfo
  pub new_name :
      (t : Text) (st : P.State) (rkt : P.Topic) → (P.topic_new t st).0 ≡ some rkt → name rkt ≡ t
  pub new_keeps : (t : Text) (st : P.State) → accepted (P.topic_new t st).1 ≡ accepted st
  pub sent_adds :
      (rkt : P.Topic) (d : Text) (st : P.State)
      → (P.produce rkt d st).0 ≡ true
      → accepted (P.produce rkt d st).1
        ≡ accepted st ++ record { topic = name rkt; content = d } ∷ []
  pub failed_keeps :
      (rkt : P.Topic) (d : Text) (st : P.State)
      → (P.produce rkt d st).0 ≡ false
      → accepted (P.produce rkt d st).1 ≡ accepted st
  pub poll_keeps : (ms : ℕ) (st : P.State) → accepted (P.poll ms st) ≡ accepted st

module _ (P : Producer) (h : IsProducer P) where
  -- Each entry of `rkt_dict_` is a handle of its topic.
  abbrev pub IsNamed : Dict Text (P.Topic) → Type 0
  IsNamed d = (t : Text) (rkt : P.Topic) → lookup t d ≡ some rkt → h.name rkt ≡ t

  abbrev added : Bool → KafkaOutputInfo → List KafkaOutputInfo
  added true o = o ∷ []
  added false o = []

  try_produce-added :
      (n : ℕ) (rkt : P.Topic) (d : Text) (st : P.State)
      → let (sent, st') = try_produce P n rkt d st in
        h.accepted st' ≡ h.accepted st ++ added sent (record { topic = h.name rkt; content = d })
  unfolding try_produce
  try_produce-added zero rkt d st = sym (append-nil (h.accepted st))
  try_produce-added (suc n) rkt d st =
      let st' = (P.produce rkt d st).1 in
      elim (Bool-cases (P.produce rkt d st).0) [
        | inl sent ↦ rw sent (h.sent_adds rkt d st sent)
        | inr failed ↦ elim (Bool-cases (P.queue_is_full st')) [
          | inr other ↦
              rw (failed, other) (h.failed_keeps rkt d st failed ∙ sym (append-nil (h.accepted st)))
          | inl full ↦
              rw (failed, full)
                (try_produce-added n rkt d (P.poll 1000 st')
                  ∙ ap
                      (λ xs.
                        xs
                        ++ added (try_produce P n rkt d (P.poll 1000 st')).0
                            (record { topic = h.name rkt; content = d }))
                      (h.poll_keeps 1000 st' ∙ h.failed_keeps rkt d st failed))
        ]
      ]

  assign-IsNamed :
      (t : Text) (rkt : P.Topic) (d : Dict Text (P.Topic))
      → h.name rkt ≡ t
      → IsNamed d
      → IsNamed (assign t rkt d)
  assign-IsNamed t rkt d e named q other found = elim (Bool-cases (text_eq t q)) [
    | inl same ↦
        let at_q : lookup q (assign t rkt d) ≡ some rkt =
          subst (λ k. lookup k (assign t rkt d) ≡ some rkt) (text_eq_sound t q same)
            (lookup-assign t rkt d) in
        subst (λ r. h.name r ≡ q) (some-injective (sym at_q ∙ found)) (e ∙ text_eq_sound t q same)
    | inr differs ↦ named q other (sym (lookup-assign_ne t q rkt d differs) ∙ found)
  ]

  -- What a search for a topic leaves.
  record FoundTopic (topic : Text) (st : P.State)
      (r : Option (P.Topic) × Dict Text (P.Topic) × P.State) : Type 0 where
    dict_named : IsNamed r.1
    same : h.accepted r.2 ≡ h.accepted st
    right_name : (rkt : P.Topic) → r.0 ≡ some rkt → h.name rkt ≡ topic

  add_topic-Found :
      (topic : Text) (d : Dict Text (P.Topic)) (st : P.State) (o : Option (P.Topic) × P.State)
      → IsNamed d
      → h.accepted o.1 ≡ h.accepted st
      → ((rkt : P.Topic) → o.0 ≡ some rkt → h.name rkt ≡ topic)
      → FoundTopic topic st (add_topic P topic d o)
  unfolding add_topic
  add_topic-Found topic d st (none, st') named same right = record {
    dict_named = named;
    same = same;
    right_name = right;
  }
  add_topic-Found topic d st (some rkt, st') named same right = record {
    dict_named = assign-IsNamed topic rkt d (right rkt refl) named;
    same = same;
    right_name = right;
  }

  find_topic-Found :
      (topic : Text) (d : Dict Text (P.Topic)) (st : P.State)
      → IsNamed d
      → FoundTopic topic st (find_topic P topic d st)
  unfolding find_topic
  find_topic-Found topic d st named = elim (Option-cases (lookup topic d)) [
    | inr (rkt, e) ↦
        rw (find_topic, e)
          (record {
            dict_named = named;
            same = refl;
            right_name =
                λ r found. subst (λ x. h.name x ≡ topic) (some-injective found) (named topic rkt e);
          })
    | inl e ↦
        rw (find_topic, e)
          (add_topic-Found topic d st (P.topic_new topic st) named (h.new_keeps topic st)
            (h.new_name topic st))
  ]

  send_to-added :
      (topic : Text) (o : Option (P.Topic)) (content : Text) (st : P.State)
      → ((rkt : P.Topic) → o ≡ some rkt → h.name rkt ≡ topic)
      → let (sent, st') = send_to P o content st in
        h.accepted st' ≡ h.accepted st ++ added sent (record { topic = topic; content = content })
  unfolding send_to
  send_to-added topic none content st right = sym (append-nil (h.accepted st))
  send_to-added topic (some rkt) content st right =
      h.poll_keeps 0 (try_produce P 3 rkt content st).1
      ∙ try_produce-added 3 rkt content st
      ∙ ap
          (λ t.
            h.accepted st
            ++ added (try_produce P 3 rkt content st).0 (record { topic = t; content = content }))
          (right rkt refl)

  -- The outputs that were accepted are the first ones, and all of them if nothing failed.
  pub record Pushed (os : List KafkaOutputInfo) (st : P.State)
      (r : Bool × Dict Text (P.Topic) × P.State) : Type 0 where
    pub named : IsNamed r.1
    pub count : ℕ
    pub in_order : h.accepted r.2 ≡ h.accepted st ++ take count os
    pub all_sent : r.0 ≡ true → count ≡ length os
    pub one_failed : r.0 ≡ false → count < length os

  Pushed-next :
      (o : KafkaOutputInfo) (os : List KafkaOutputInfo) (st st' : P.State) (sent : Bool)
      (d : Dict Text (P.Topic)) (rest : Bool × Dict Text (P.Topic) × P.State)
      → IsNamed d
      → h.accepted st' ≡ h.accepted st ++ added sent o
      → Pushed os st' rest
      → Pushed (o ∷ os) st (if sent then rest else (false, d, st'))
  Pushed-next o os st st' true d rest named e p = record {
    named = p.named;
    count = suc p.count;
    in_order =
        p.in_order
        ∙ ap (λ xs. xs ++ take p.count os) e
        ∙ append_assoc (h.accepted st) (o ∷ []) (take p.count os);
    all_sent = λ ok. ap suc (p.all_sent ok);
    one_failed = λ failed. omega (arith, p.one_failed failed);
  }
  Pushed-next o os st st' false d rest named e p = record {
    named = named;
    count = 0;
    in_order = e;
    all_sent = λ ok. absurd cc;
    one_failed = λ failed. omega arith;
  }

  -- From topic handles with the right names: the producer has accepted the first of the session's
  -- outputs, in order, each once and for its topic, after what it had before, and nothing else; all of
  -- them if and only if no push failed, which is when the module goes on.
  pub push_all-Pushed :
      (os : List KafkaOutputInfo) (d : Dict Text (P.Topic)) (st : P.State)
      → IsNamed d
      → Pushed os st (push_all P os d st)
  unfolding push_all push_data_to_kafka
  push_all-Pushed [] d st named = record {
    named = named;
    count = 0;
    in_order = sym (append-nil (h.accepted st));
    all_sent = λ ok. refl;
    one_failed = λ failed. absurd cc;
  }
  push_all-Pushed (o ∷ os) d st named =
      let found = find_topic-Found o.topic d st named in
      let (rkt, d', st') = find_topic P o.topic d st in
      let (sent, st'') = send_to P rkt o.content st' in
      Pushed-next o os st st'' sent d' (push_all P os d' st'') found.dict_named
        (send_to-added o.topic rkt o.content st' found.right_name
          ∙ ap (λ xs. xs ++ added sent o) found.same)
        (push_all-Pushed os d' st'' found.dict_named)
