-- ===== src/Consumer/Process/Start.antt =====
-- `CConsumeProcess::Init`, with `KafkaConsumerImp::subscribe` and `gracefully_exit`. The configuration, the
-- splitting of the topics by boost, and what librdkafka answers are parameters.
use business.Base.{
  ◌&&◌, ◌⊎◌, inl, inr, subst, ◌≡◌, refl, Bool, true, false, List, [], ◌∷◌, Option, none, some,
}
use business.Base.Int.{ℤ, pos}
use business.Base.Text.{Text}

-- The values of the configuration, `none` where reading fails.
pub record Settings : Type 0 where
  pub rcv_brokers : Option Text
  pub commit_num : Option ℤ
  pub max_cache_size : Option ℤ
  pub group : Option Text
  pub topics : Option Text

-- `create` and `subscribe` of librdkafka for a group and its topics: no consumer, an error, or success.
pub data Subscription : Type 0 where
  not_created refused_topics subscribed : Subscription

-- What `Init` leaves: whether there is a consumer, its group and topics once it has subscribed, whether
-- its reader and the thread of `Run` were started, and the two numbers.
pub record Started : Type 0 where
  pub has_consumer : Bool
  pub listens_to : Option (Text × List Text)
  pub has_reader : Bool
  pub m_is_run : Bool
  pub m_commit_num : ℤ
  pub m_max_cache_size : ℤ

abbrev pub not_started : Started
not_started = record {
  has_consumer = false;
  listens_to = none;
  has_reader = false;
  m_is_run = false;
  m_commit_num = pos 0;
  m_max_cache_size = pos 0;
}

abbrev pub or_default : ℤ → Option ℤ → ℤ
or_default d none = d
or_default d (some n) = n

-- How the two threads start: the constructor of the reader's thread throws, which nobody catches; that of
-- the thread of `Run` throws, by when the reader may have made a manager of a partition, which holds the
-- consumer; or both start.
pub data Threads : Type 0 where
  reader_throws : Threads
  run_throws : Bool → Threads
  both_start : Threads

-- `reset` of the consumer: its destructor ends its reader, unless a manager holds the consumer too.
unfoldable pub gracefully_exit : Bool → Started → Bool × Started
gracefully_exit held s =
    (false, record s { has_consumer = false; has_reader = held && s.has_reader })

-- The end of `Init`: `startup`, and `CreateThread`; `none` is the end of the process.
unfoldable pub start_threads : Threads → Started → Option (Bool × Started)
unfolding gracefully_exit
start_threads reader_throws s = none
start_threads (run_throws held) s =
    some (gracefully_exit held (record s { has_reader = true; m_is_run = true }))
start_threads both_start s = some (true, record s { has_reader = true; m_is_run = true })

-- `subscribe`; it ends the process where no consumer can be created: `none`.
unfoldable pub subscribe_to :
    Subscription → Threads → Text → List Text → Started → Option (Bool × Started)
unfolding start_threads gracefully_exit
subscribe_to not_created threads group topics s = none
subscribe_to refused_topics threads group topics s = some (gracefully_exit false s)
subscribe_to subscribed threads group topics s =
    start_threads threads (record s { listens_to = some (group, topics) })

module _ (split : Text → List Text) (answer : Text → List Text → Subscription)
    (threads : Threads) where
  unfoldable pub with_topics : Text → List Text → Started → Option (Bool × Started)
  unfolding subscribe_to gracefully_exit
  with_topics group [] s = some (gracefully_exit false s)
  with_topics group (t ∷ ts) s = subscribe_to (answer group (t ∷ ts)) threads group (t ∷ ts) s

  unfoldable pub with_group : Option Text → Option Text → Started → Option (Bool × Started)
  unfolding with_topics gracefully_exit
  with_group none topics s = some (gracefully_exit false s)
  with_group (some group) none s = some (gracefully_exit false s)
  with_group (some group) (some text) s = with_topics group (split text) s

  -- `Init`; `KafkaConsumerImp::init` only returns true.
  unfoldable pub start_up : Settings → Option (Bool × Started)
  unfolding with_group
  start_up c = elim c.rcv_brokers [
    | none ↦ some (false, not_started)
    | some brokers ↦ with_group c.group c.topics (record not_started {
      has_consumer = true;
      m_commit_num = or_default (pos 10) c.commit_num;
      m_max_cache_size = or_default (pos 10000) c.max_cache_size;
    })
  ]

  -- All of it runs, as it is configured; or there is no consumer, and its reader lives on only where a
  -- manager of a partition holds it.
  pub record Runs (c : Settings) (s : Started) : Type 0 where
    pub group : Text
    pub topics : Text
    pub consumer : s.has_consumer ≡ true
    pub reader : s.has_reader ≡ true
    pub run : s.m_is_run ≡ true
    pub own_group : c.group ≡ some group
    pub own_topics : c.topics ≡ some topics
    pub listens : s.listens_to ≡ some (group, split topics)
    pub accepted : answer group (split topics) ≡ subscribed
    pub own_commit : s.m_commit_num ≡ or_default (pos 10) c.commit_num
    pub own_cache : s.m_max_cache_size ≡ or_default (pos 10000) c.max_cache_size

  abbrev pub OnStart : Settings → Option (Bool × Started) → Type 0
  OnStart c none =
      (threads ≡ reader_throws)
      ⊎ ((group : Text) × (topics : Text) × (c.group ≡ some group)
          × (c.topics ≡ some topics)
          × (answer group (split topics) ≡ not_created))
  OnStart c (some (true, s)) = Runs c s
  OnStart c (some (false, s)) =
      (s.has_consumer ≡ false) × ((s.has_reader ≡ false) ⊎ (threads ≡ run_throws true))

  -- What `Init` has made of the settings before it subscribes.
  abbrev made_of : Settings → Started
  made_of c = record not_started {
    has_consumer = true;
    m_commit_num = or_default (pos 10) c.commit_num;
    m_max_cache_size = or_default (pos 10000) c.max_cache_size;
  }

  start_threads-OnStart :
      (t : Threads) (c : Settings) (group topics : Text)
      → threads ≡ t
      → c.group ≡ some group
      → c.topics ≡ some topics
      → answer group (split topics) ≡ subscribed
      → OnStart c (start_threads t (record (made_of c) { listens_to = some (group, split topics) }))
  unfolding start_threads gracefully_exit
  start_threads-OnStart reader_throws c group topics e g t agreed = inl e
  start_threads-OnStart (run_throws true) c group topics e g t agreed = (refl, inr e)
  start_threads-OnStart (run_throws false) c group topics e g t agreed = (refl, inl refl)
  start_threads-OnStart both_start c group topics e g t agreed = record {
    group = group;
    topics = topics;
    consumer = refl;
    reader = refl;
    run = refl;
    own_group = g;
    own_topics = t;
    listens = refl;
    accepted = agreed;
    own_commit = refl;
    own_cache = refl;
  }

  subscribe_to-OnStart :
      (r : Subscription) (c : Settings) (group topics : Text)
      → c.group ≡ some group
      → c.topics ≡ some topics
      → answer group (split topics) ≡ r
      → OnStart c (subscribe_to r threads group (split topics) (made_of c))
  unfolding subscribe_to gracefully_exit
  subscribe_to-OnStart not_created c group topics g t e = inr (group, topics, g, t, e)
  subscribe_to-OnStart refused_topics c group topics g t e = (refl, inl refl)
  subscribe_to-OnStart subscribed c group topics g t e =
      start_threads-OnStart threads c group topics refl g t e

  with_topics-OnStart :
      (list : List Text) (c : Settings) (group topics : Text)
      → split topics ≡ list
      → c.group ≡ some group
      → c.topics ≡ some topics
      → OnStart c (with_topics group list (made_of c))
  unfolding with_topics gracefully_exit
  with_topics-OnStart [] c group topics e g t = (refl, inl refl)
  with_topics-OnStart (x ∷ xs) c group topics e g t =
      subst (λ l. OnStart c (subscribe_to (answer group l) threads group l (made_of c))) e
        (subscribe_to-OnStart (answer group (split topics)) c group topics g t refl)

  with_group-OnStart :
      (group topics : Option Text) (c : Settings)
      → c.group ≡ group
      → c.topics ≡ topics
      → OnStart c (with_group group topics (made_of c))
  unfolding with_group gracefully_exit
  with_group-OnStart none topics c g t = (refl, inl refl)
  with_group-OnStart (some group) none c g t = (refl, inl refl)
  with_group-OnStart (some group) (some topics) c g t =
      with_topics-OnStart (split topics) c group topics refl g t

  with_brokers :
      (o : Option Text) (c : Settings)
      → OnStart c (elim o [
        | none ↦ some (false, not_started)
        | some brokers ↦ with_group c.group c.topics (made_of c)
      ])
  with_brokers none c = (refl, inl refl)
  with_brokers (some brokers) c = with_group-OnStart c.group c.topics c refl refl

-- Whatever the configuration, librdkafka and the system answer: if `Init` returns true, there is a consumer
-- with its reader started, the thread of `Run` is started too, the two numbers are the configured ones or
-- the defaults, and the consumer has subscribed to the configured group and topics, which librdkafka
-- accepted. If it returns false, no consumer is left, and no reader either, unless the thread of `Run`
-- could not start and a manager that the reader had made holds the consumer. The process ends only where
-- the reader's thread cannot start, or where librdkafka makes no
-- consumer for the configured group.
pub start_up-OnStart :
    (split : Text → List Text) (answer : Text → List Text → Subscription) (threads : Threads)
    (c : Settings)
    → OnStart split answer threads c (start_up split answer threads c)
unfolding start_up
start_up-OnStart split answer threads c = with_brokers split answer threads c.rcv_brokers c
