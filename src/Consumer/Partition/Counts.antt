-- ===== src/Consumer/Partition/Counts.antt =====
-- The statistics of `do_something`.
use business.Base.{
  ℕ, ◌+◌, ◌^◌, ◌<◌, ◌≡◌, Bool, List, [], ◌∷◌, Option, none, some, arith, length, if◌then◌else◌,
}
use business.Base.Text.{Text}
use business.Consumer.Partition.{
  Message, NodeState, Node, Status, PartitionManager, Meddling, Scan, new_scan, visit, scan_from,
  scan, is_done, is_doing,
}

-- How many nodes pass a test on their state.
unfoldable pub count : (NodeState → Bool) → List Node → ℕ
count test [] = 0
count test (n ∷ ns) = (if test n.state then 1 else 0) + count test ns

-- The statistics grew from `a` to `b` by the nodes of the list, none of which waits to be handled.
record Counted (a b : Status) (ns : List Node) : Type 0 where
  size_kept : b.cache_size ≡ a.cache_size
  todo_kept : b.todo_num ≡ a.todo_num
  doing_grows : b.doing_num ≡ a.doing_num + count is_doing ns
  done_grows : b.done_num ≡ a.done_num + count is_done ns
  all_handled : count is_done ns + count is_doing ns ≡ length ns

module _ (accepts : Text → Bool) (size now : ℕ) (meddling : ℕ → Meddling) where
  Counted-visit :
      (w : Meddling) (prev : Option Message) (n : Node) (s : Scan)
      → s.status.doing_num + s.status.done_num + 1 < 2 ^ 32
      → let (n', t) = visit accepts size now w prev n s in Counted s.status t.status (n' ∷ [])
  unfolding visit count
  Counted-visit w prev n s h = ground arith

  Counted-scan_from :
      (prev : Option Message) (ns : List Node) (s : Scan)
      → s.status.doing_num + s.status.done_num + length ns < 2 ^ 32
      → let (ns', t) = scan_from accepts size now meddling prev ns s in
        Counted s.status t.status ns'
  unfolding scan_from count
  Counted-scan_from prev [] s h = omega arith
  Counted-scan_from prev (n ∷ ns) s h =
      let v = Counted-visit (meddling s.pos) prev n s (omega arith) in
      ground (
        arith,
        v,
        Counted-scan_from (some n.msg) ns (visit accepts size now (meddling s.pos) prev n s).1,
      )

-- With less than 2^32 cached messages, so that the counters do not wrap: after the scan no cached message waits
-- to be handled, and the statistics are those of the list as the scan leaves it: its length, no todo, and
-- the numbers of messages in work and done.
pub scan-Counted :
    (accepts : Text → Bool) (now : ℕ) (meddling : ℕ → Meddling) (m : PartitionManager)
    → length m.m_list_data < 2 ^ 32
    → let (m', s) = scan accepts now meddling m in
      (s.status.cache_size ≡ length m.m_list_data)
      × (s.status.todo_num ≡ 0)
      × (s.status.doing_num ≡ count is_doing m'.m_list_data)
      × (s.status.done_num ≡ count is_done m'.m_list_data)
      × (s.status.doing_num + s.status.done_num ≡ length m'.m_list_data)
unfolding scan
scan-Counted accepts now meddling m h = ground (
  arith,
  Counted-scan_from accepts (length m.m_list_data) now meddling none m.m_list_data
      (new_scan (length m.m_list_data)) (omega arith),
)
