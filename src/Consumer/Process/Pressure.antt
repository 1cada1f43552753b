-- ===== src/Consumer/Process/Pressure.antt =====
-- When consumption pauses.
use business.Base.{
  sym, length-map, ap, ◌∙◌, ℕ, zero, suc, ◌+◌, ◌^◌, ◌≤◌, ◌<◌, ◌≡◌, refl, Bool, List, [], ◌∷◌, arith,
  length, drop, if◌then◌else◌, Bool-cases, inl, inr,
}
use business.Base.Int.{ℤ, pos, leb_ℤ}
use business.Base.Text.{Text}
use business.Base.Dict.{Dict}
use business.Consumer.Partition.{
  Node, Status, PartitionManager, Meddling, Scan, scan, settle, do_something, is_doing,
}
use business.Consumer.Partition.Counts.{count, scan-Counted}
use business.Consumer.Partition.Prefix.{done_prefix}
use business.Consumer.Partition.System.Safety.{settle_cases, scan-Holds}
use business.Consumer.Process.{
  consumer_run, consumer_pause, Consumer, pause, resume, of_int32, to_int32, total_cache_size,
  control, do_all, round,
}

-- Messages in work, and messages cached, over all partitions.
unfoldable pub in_work : Dict ℤ PartitionManager → ℕ
in_work [] = 0
in_work ((p, m) ∷ managers) = count is_doing m.m_list_data + in_work managers

unfoldable pub cached : Dict ℤ PartitionManager → ℕ
cached [] = 0
cached ((p, m) ∷ managers) = length m.m_list_data + cached managers

count-drop :
    (k : ℕ) (ns : List Node) → k ≤ done_prefix ns → count is_doing (drop k ns) ≡ count is_doing ns
unfolding count done_prefix
count-drop zero ns h = refl
count-drop (suc k) [] h = refl
count-drop (suc k) (n ∷ ns) h = ground (arith, count-drop k ns)

settle-sizes :
    (s : Scan) (m : PartitionManager)
    → ((settle s m).2.cache_size ≡ s.status.cache_size)
      × ((settle s m).2.done_num ≡ s.status.done_num)
unfolding settle
settle-sizes s m = ground arith

count-settle :
    (s : Scan) (m : PartitionManager)
    → s.first_not_done_pos ≤ done_prefix m.m_list_data
    → count is_doing (settle s m).0.m_list_data ≡ count is_doing m.m_list_data
count-settle s m h = elim (settle_cases s m) [
  | inl (e, f) ↦ rw e (count-drop s.first_not_done_pos m.m_list_data h)
  | inr (e, f) ↦ rw e refl
]

settled :
    {n : ℕ} (s : Scan) (m : PartitionManager)
    → s.first_not_done_pos ≤ done_prefix m.m_list_data
    → s.status.cache_size ≡ count is_doing m.m_list_data + s.status.done_num
    → s.status.cache_size ≡ n
    → let r = settle s m in
      (r.2.cache_size ≡ count is_doing r.0.m_list_data + r.2.done_num) × (r.2.cache_size ≡ n)
settled s m h e f = omega (arith, settle-sizes s m, count-settle s m h)

module _ (accepts : Text → Bool) (now : ℕ) (meddling : ℕ → Meddling) where
  -- The statistics leave over what is in work after the call.
  do_something-in_work :
      (m : PartitionManager)
      → length m.m_list_data < 2 ^ 31
      → let r = do_something accepts now meddling m in
        (r.2.cache_size ≡ count is_doing r.0.m_list_data + r.2.done_num)
        × (r.2.cache_size ≡ length m.m_list_data)
  unfolding do_something
  do_something-in_work m h =
      let (m', s) = scan accepts now meddling m in
      let found = scan-Holds accepts now meddling m in
      let same : length m'.m_list_data ≡ length m.m_list_data =
        sym (length-map (λ (n : Node). n.msg) m'.m_list_data)
        ∙ ap length found.1
        ∙ length-map _ m.m_list_data in
      settled s m' found.0.0
        (omega (arith, same, scan-Counted accepts now meddling m (omega arith)))
        (omega (arith, scan-Counted accepts now meddling m (omega arith)))

added :
    (t w : ℕ) (s : Status) (rest : List Status)
    → s.cache_size ≡ w + s.done_num
    → s.cache_size < 2 ^ 31
    → t + w < 2 ^ 31
    → total_cache_size (pos t) (s ∷ rest) ≡ total_cache_size (pos (t + w)) rest
unfolding total_cache_size of_int32 to_int32
added t w s rest e small fits = ground arith

module _ (accepts : Text → Bool) (now : ℕ) (meddling : ℤ → ℕ → Meddling) where
  pub total-do_all :
      (managers : Dict ℤ PartitionManager) (t : ℕ)
      → t + cached managers < 2 ^ 31
      → let r = do_all accepts now meddling managers in
        (total_cache_size (pos t) r.2 ≡ pos (t + in_work r.0)) × (in_work r.0 ≤ cached managers)
  unfolding do_all total_cache_size in_work cached
  total-do_all [] t h = (ap pos (omega arith), omega arith)
  total-do_all ((p, m) ∷ managers) t h =
      let one = do_something-in_work accepts now (meddling p) m (omega arith) in
      let r = do_something accepts now (meddling p) m in
      let w = count is_doing r.0.m_list_data in
      let rest = total-do_all managers (t + w) (omega (arith, one)) in
      (
        added t w r.2 (do_all accepts now meddling managers).2 one.0 (omega (arith, one))
              (omega (arith, one))
            ∙ rest.0
            ∙ ap pos (omega arith),
        omega (arith, one, rest.1),
      )

control-lem :
    (total : ℤ) (c : Consumer)
    → (control total c).m_cur_state
      ≡ (if leb_ℤ c.m_max_cache_size total then consumer_pause else consumer_run)
unfolding control pause resume
control-lem total c = elim (Bool-cases (leb_ℤ c.m_max_cache_size total)) [
  | inl t ↦ ground (arith, t)
  | inr f ↦ ground (arith, f)
]

kept : (total : ℤ) (c : Consumer) → (control total c).m_partition_managers ≡ c.m_partition_managers
unfolding control pause resume
kept total c = ground arith

-- After a round of `Run` consumption is paused if and only if the messages in work, over all
-- partitions and as the round leaves them, are at least `m_max_cache_size`; in all other cases it
-- runs. The messages that the round finds cached must be fewer than 2^31.
pub round-pressure :
    (accepts : Text → Bool) (now : ℕ) (meddling : ℤ → ℕ → Meddling) (c : Consumer)
    → cached c.m_partition_managers < 2 ^ 31
    → let c' = (round accepts now meddling c).0 in
      c'.m_cur_state ≡ (
        if leb_ℤ c.m_max_cache_size (pos (in_work c'.m_partition_managers))
        then consumer_pause
        else consumer_run)
unfolding round
round-pressure accepts now meddling c h =
    let (managers, commits, all_status) = do_all accepts now meddling c.m_partition_managers in
    let total = total_cache_size (pos 0) all_status in
    let next = record c { m_partition_managers = managers } in
    control-lem total next
    ∙ ap (λ n. if leb_ℤ c.m_max_cache_size n then consumer_pause else consumer_run)
        ((total-do_all accepts now meddling c.m_partition_managers 0 (omega arith)).0
          ∙ ap pos (omega arith)
          ∙ ap (λ ms. pos (in_work ms)) (sym (kept total next)))
