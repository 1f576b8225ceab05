-- ===== src/Storage.antt =====
-- TFileStorage of src/storage.h and src/storage.cpp: the largest output files, and the total.
-- The `std::priority_queue` is the parameter `pq`, with the laws that its documentation gives: which
-- of several smallest entries is on top is left to it.
pub mod Queue
pub mod Largest
pub mod Drain
use optrace.Prelude.{
  ℕ, zero, suc, ◌+◌, ◌-◌, Bool, true, false, not, ◌&&◌, ◌||◌, Option, none, some, List, [], ◌∷◌,
  ltb, ◌==◌, if◌then◌else◌, word, set, replicate,
}
use optrace.Prelude.Int.{ℤ, is_zero, is_negative, pos_part}
use optrace.Types.{OutputFile}
use Queue.{PriorityQueue}

pub record Storage (pq : PriorityQueue) : Type 0 where
  pub capacity : ℤ
  pub output_size : ℕ
  pub store_empty_files : Bool
  pub queue : pq.Queue

-- `Queue.top()->Size < size` on a queue that is not empty.
abbrev top_below : Option OutputFile → ℕ → Bool
top_below none n = false
top_below (some f) n = ltb f.size n

module _ (pq : PriorityQueue) where
  open pq use {empty, push, pop, top, size}

  unfoldable pub new_storage : ℤ → Bool → Storage pq
  new_storage capacity store_empty = record {
    capacity = capacity;
    output_size = 0;
    store_empty_files = store_empty;
    queue = empty;
  }

  -- `TFileStorage::AddFileEntry`.
  unfoldable pub add_file_entry : OutputFile → Storage pq → Storage pq
  add_file_entry file s =
      if is_zero s.capacity
      then s
      else if not s.store_empty_files && (file.size == 0)
      then s
      else let queue =
          if is_negative s.capacity || ltb (size s.queue) (pos_part s.capacity)
          then push s.queue file
          else if top_below (top s.queue) file.size
          then push (pop s.queue) file
          else s.queue in
        record s { queue = queue; output_size = word (s.output_size + file.size) }

  -- The loop of `GetLargestFiles`: `res[temp.size() - 1] = temp.top(); temp.pop();`.
  unfoldable pub drain : ℕ → pq.Queue → List (Option OutputFile) → List (Option OutputFile)
  drain zero temp res = res
  drain (suc fuel) temp res =
      let rest = drain fuel (pop temp) (set res (size temp - 1) (top temp)) in
      if size temp == 0 then res else rest

  -- `TFileStorage::GetLargestFiles`; `none` is a null pointer.
  unfoldable pub get_largest_files : Storage pq → List (Option OutputFile)
  unfolding drain
  get_largest_files s = drain (size s.queue) s.queue (replicate (size s.queue) none)
