-- ===== src/Tool/Release.antt =====
-- The memory of a whole run of zsr/tool_zsr.c: the list of modules that zsr/framework.c allocates, what the
-- rounds add to the record lists, and what free_record_list and FREE_MOD_LIST_HEAD free at the end.
pub mod Accounts
pub mod Once
use zsr.Prelude.{ℕ, ◌+◌, List, [], ◌∷◌, ◌++◌}
use zsr.Modules.Memory.{
  Heap, Store, Sample, collect_single, collect_answer, collect_entry, collect_sample, free, blocks,
  free_list_head, free_samples,
}

-- A record list, by what `collect_record` of its module does with it: it keeps one entry, the last answer,
-- every entry, or every sample.
pub data RecordList : Type 0 where
  single : List ℕ → RecordList
  answer : List ℕ → RecordList
  entries : List ℕ → RecordList
  samples : List Sample → RecordList

-- `module_t`: its block and its record list.
pub record ModuleNode : Type 0 where
  pub node : ℕ
  pub record_list : RecordList

-- MOD_LIST_HEAD and the heap. `lost`: the entries that `list_del_init` has taken
-- off a record list, and the nodes that the library has lost.
pub record Memory : Type 0 where
  pub mods : List ModuleNode
  pub heap : Heap
  pub lost : List ℕ

abbrev pub no_memory : Memory
no_memory = record { mods = []; heap = record { mallocs = 0; freed = [] }; lost = [] }

-- `register_mod_fileds` of a module whose list is `record_list`: `module_t` is allocated.
unfoldable register_mod : RecordList → Memory → Memory
register_mod record_list m = record {
  mods = m.mods ++ record { node = m.heap.mallocs; record_list = record_list } ∷ [];
  heap = record m.heap { mallocs = m.heap.mallocs + 1 };
  lost = m.lost;
}

unfoldable register_all : List RecordList → Memory → Memory
register_all [] m = m
register_all (r ∷ rs) m = register_all rs (register_mod r m)

-- The record lists in the order of `load_modules`.
abbrev pub all_modules : List RecordList
all_modules =
    entries []
    ∷ answer []
    ∷ answer []
    ∷ single []
    ∷ samples []
    ∷ answer []
    ∷ single []
    ∷ single []
    ∷ answer []
    ∷ samples []
    ∷ single []
    ∷ single []
    ∷ single []
    ∷ answer []
    ∷ []

-- What one call of `collect_record` leaves.
pub record Collected : Type 0 where
  pub record_list : RecordList
  pub heap : Heap
  pub lost : List ℕ

-- What a function of the library does with memory in one call: the nodes that it links into the list, those
-- that it allocates and loses (io.c, on a line of another form), and those that it frees itself (ip.c, an
-- address without a name). Behind a node that ip.c has freed it must not find another address: the call
-- writes to freed memory then, and the run has ended.
pub record Added : Type 0 where
  pub linked : ℕ
  pub lost : ℕ
  pub freed : ℕ

-- The heap with the nodes that are not linked.
abbrev unlinked : Added → Heap → Heap
unlinked a heap = record {
  mallocs = heap.mallocs + a.freed + a.lost;
  freed = heap.freed ++ blocks heap.mallocs a.freed;
}

-- `collect_record` of a module, where the library adds `k` entries.
unfoldable add_list : ℕ → RecordList → Heap → Collected
add_list k (single es) heap =
    let st = collect_single (record { record_list = es; heap = heap }) in
    record { record_list = single st.record_list; heap = st.heap; lost = [] }
add_list k (answer es) heap =
    let st = collect_answer k (record { record_list = es; heap = heap }) in
    record { record_list = answer st.record_list; heap = st.heap; lost = es }
add_list k (entries es) heap =
    let st = collect_entry (record { record_list = es; heap = heap }) in
    record { record_list = entries st.record_list; heap = st.heap; lost = [] }
add_list k (samples ss) heap =
    let st = collect_sample k (record { record_list = ss; heap = heap }) in
    record { record_list = samples st.record_list; heap = st.heap; lost = [] }

-- `collect_record` of a module with all that the library does.
unfoldable collect_list : Added → RecordList → Heap → Collected
unfolding add_list
collect_list a r heap =
    let c = add_list a.linked r (unlinked a heap) in
    record {
      record_list = c.record_list;
      heap = c.heap;
      lost = c.lost ++ blocks (heap.mallocs + a.freed) a.lost;
    }

-- `collect_record` of the tool: each module after the other, where the library does `added i` in the module
-- at position `i`. `lost` is what this round takes off or loses.
unfoldable collect_mods : (ℕ → Added) → List ModuleNode → Heap → Memory
unfolding collect_list
collect_mods added [] heap = record { mods = []; heap = heap; lost = [] }
collect_mods added (m ∷ ms) heap =
    let c = collect_list (added 0) m.record_list heap in
    let rest = collect_mods (λ i. added (i + 1)) ms c.heap in
    record {
      mods = record { node = m.node; record_list = c.record_list } ∷ rest.mods;
      heap = rest.heap;
      lost = c.lost ++ rest.lost;
    }

-- The rounds of the loop in `main`.
unfoldable collect_rounds : List (ℕ → Added) → Memory → Memory
unfolding collect_mods
collect_rounds [] m = m
collect_rounds (added ∷ rounds) m =
    let c = collect_mods added m.mods m.heap in
    collect_rounds rounds (record { mods = c.mods; heap = c.heap; lost = m.lost ++ c.lost })

-- `free_record_list` of a module.
unfoldable free_list : RecordList → Heap → Heap
unfolding free_list_head free_samples
free_list (single es) heap = free_list_head es heap
free_list (answer es) heap = free_list_head es heap
free_list (entries es) heap = free_list_head es heap
free_list (samples ss) heap = free_samples ss heap

-- `free_record_list` of the tool.
unfoldable free_record_list : List ModuleNode → Heap → Heap
unfolding free_list
free_record_list [] heap = heap
free_record_list (m ∷ ms) heap = free_record_list ms (free_list m.record_list heap)

-- FREE_MOD_LIST_HEAD.
unfoldable free_mod_list_head : List ModuleNode → Heap → Heap
free_mod_list_head [] heap = heap
free_mod_list_head (m ∷ ms) heap = free_mod_list_head ms (free m.node heap)

-- A run with these rounds, from `load_modules` to the end of `main`.
unfoldable pub whole_run : List RecordList → List (ℕ → Added) → Memory
unfolding register_all register_mod collect_rounds free_record_list free_mod_list_head
whole_run lists rounds =
    let m = collect_rounds rounds (register_all lists no_memory) in
    record {
      mods = [];
      heap = free_mod_list_head m.mods (free_record_list m.mods m.heap);
      lost = m.lost;
    }
