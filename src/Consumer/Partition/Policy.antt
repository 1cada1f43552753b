-- ===== src/Consumer/Partition/Policy.antt =====
-- When `do_something` commits, and what.
use business.Base.{
  subst, ℕ, ◌≡◌, Bool, ◌&&◌, ◌||◌, List, none, arith, length, take, drop, leb, ◌==◌, if◌then◌else◌,
  map-drop,
}
use business.Base.Text.{Text}
use business.Consumer.Partition.{Node, PartitionManager, Meddling, Scan, scan, settle, do_something}
use business.Consumer.Partition.Prefix.{as_read, done_prefix, is_cons, msgs, scan-done_prefix}
use business.Consumer.Partition.System.Done.{last_of, remove_from_head-drop}
use business.Consumer.Partition.System.Safety.{scan-Holds}

-- How many messages to commit: the done prefix, if that is the whole of a list that is not empty, or
-- at least `commit_num` long; else none.
pub due : ℕ → List Node → ℕ
due commit_num read =
    let k = done_prefix read in
    if is_cons read && (k == length read) || leb commit_num k then k else 0

settle-due :
    (s : Scan) (m : PartitionManager) (read : List Node)
    → s.first_not_done_pos ≡ done_prefix read
    → s.force_commit ≡ (is_cons read && (done_prefix read == length read))
    → s.kmsg ≡ last_of none (take s.first_not_done_pos (msgs m.m_list_data))
    → let r = settle s m in
      let k = due m.m_commit_num read in
      (msgs r.0.m_list_data ≡ drop k (msgs m.m_list_data))
      × (r.1 ≡ last_of none (take k (msgs m.m_list_data)))
unfolding settle due last_of
settle-due s m read e f g = ground (
  arith,
  remove_from_head-drop s.first_not_done_pos m.m_list_data,
  map-drop (λ (n : Node). n.msg) s.first_not_done_pos m.m_list_data,
)

-- With nothing between its parts, `do_something` takes exactly the due messages off the head of the
-- list, in one piece and in order, and commits the last of them; if none is due it commits nothing.
pub do_something-due :
    (accepts : Text → Bool) (now : ℕ) (meddling : ℕ → Meddling) (m : PartitionManager)
    → let r = do_something accepts now meddling m in
      let k = due m.m_commit_num (as_read meddling 0 m.m_list_data) in
      (msgs r.0.m_list_data ≡ drop k (msgs m.m_list_data))
      × (r.1 ≡ last_of none (take k (msgs m.m_list_data)))
unfolding do_something scan
do_something-due accepts now meddling m =
    let found = scan-done_prefix accepts now meddling m in
    let after = scan-Holds accepts now meddling m in
    let result =
      settle-due (scan accepts now meddling m).1 (scan accepts now meddling m).0
        (as_read meddling 0 m.m_list_data) found.0 found.2 after.0.1 in
    let r = settle (scan accepts now meddling m).1 (scan accepts now meddling m).0 in
    let k = due m.m_commit_num (as_read meddling 0 m.m_list_data) in
    subst (λ ms. (msgs r.0.m_list_data ≡ drop k ms) × (r.1 ≡ last_of none (take k ms))) after.1
      result
