-- ===== src/Modules/Memory.antt =====
-- zsr/module/mod_*.c: the memory of the record lists, and free_record_list. A block is the number of
-- the call of `malloc` that returned it; an entry of a record list is its block. The nodes that a
-- function of the library adds to a list are given by their number.
pub mod Freed
use zsr.Prelude.{ℕ, zero, suc, ◌+◌, Bool, true, false, List, [], ◌∷◌, ◌++◌, if◌then◌else◌}
use zsr.Modules.Snapshot.{emptied}

-- `malloc` has returned the blocks below `mallocs`; the calls of `free` in their order.
pub record Heap : Type 0 where
  pub mallocs : ℕ
  pub freed : List ℕ

-- A module's record list, with the heap.
pub record Store (Entry : Type 0) : Type 0 where
  pub record_list : List Entry
  pub heap : Heap

abbrev pub no_entries : {Entry : Type 0} → Store Entry
no_entries = record { record_list = []; heap = record { mallocs = 0; freed = [] } }

-- The next `k` blocks from `n` on.
unfoldable pub blocks : ℕ → ℕ → List ℕ
blocks n zero = []
blocks n (suc k) = n ∷ blocks (n + 1) k

-- `k` nodes are allocated and added at the end.
abbrev pub add_entries : ℕ → Store ℕ → Store ℕ
add_entries k st = record {
  record_list = st.record_list ++ blocks st.heap.mallocs k;
  heap = record st.heap { mallocs = st.heap.mallocs + k };
}

-- mod_dns.c, mod_ip.c, mod_network.c, mod_who.c and mod_fs.c, for an answer of `k` entries.
unfoldable pub collect_answer : ℕ → Store ℕ → Store ℕ
unfolding emptied
collect_answer k st = add_entries k (record st { record_list = emptied st.record_list })

unfoldable pub list_empty : List ℕ → Bool
list_empty [] = true
list_empty (entry ∷ entries) = false

-- mod_uptime.c, mod_mem.c, mod_swap.c, mod_gateway.c, mod_time.c and mod_load_avg.c: an entry is allocated
-- only where the list is empty.
unfoldable pub collect_single : Store ℕ → Store ℕ
unfolding list_empty
collect_single st = if list_empty st.record_list then add_entries 1 st else st

-- mod_cpu.c.
unfoldable pub collect_entry : Store ℕ → Store ℕ
collect_entry st = add_entries 1 st

-- An entry of the record lists of mod_proc.c and mod_io.c: `list_list_t` and the nodes in it.
pub record Sample : Type 0 where
  pub node : ℕ
  pub entries : List ℕ

-- mod_proc.c and mod_io.c, where `get_all_proc` or `read_io_stat` adds `k` entries.
unfoldable pub collect_sample : ℕ → Store Sample → Store Sample
collect_sample k st = record {
  record_list =
      st.record_list
      ++ record { node = st.heap.mallocs; entries = blocks (st.heap.mallocs + 1) k } ∷ [];
  heap = record st.heap { mallocs = st.heap.mallocs + 1 + k };
}

abbrev pub free : ℕ → Heap → Heap
free block heap = record heap { freed = heap.freed ++ block ∷ [] }

-- FREE_LIST_HEAD.
unfoldable pub free_list_head : List ℕ → Heap → Heap
free_list_head [] heap = heap
free_list_head (entry ∷ entries) heap = free_list_head entries (free entry heap)

-- `free_record_list` of mod_proc.c and mod_io.c.
unfoldable pub free_samples : List Sample → Heap → Heap
unfolding free_list_head
free_samples [] heap = heap
free_samples (s ∷ samples) heap = free_samples samples (free s.node (free_list_head s.entries heap))
