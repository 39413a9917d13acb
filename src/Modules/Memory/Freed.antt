-- ===== src/Modules/Memory/Freed.antt =====
-- Which blocks of the record lists are freed at the end of the program.
use zsr.Prelude.{
  ℕ, zero, suc, ◌+◌, ◌≤◌, ◌≡◌, refl, sym, ap, ap₂, ◌∙◌, List, [], ◌∷◌, ◌++◌, append_assoc,
  append-nil, All, arith,
}
use mathlib.Core.Path.{subst}
use mathlib.Core.List.{Perm, perm_middle}
use mathlib.Core.List.Perm
use zsr.Modules.Handlers.Contracts.{emptied_nil}
use zsr.Modules.Memory.{
  Heap, Store, no_entries, blocks, collect_answer, collect_entry, Sample, collect_sample,
  free_list_head, free_samples,
}

abbrev pub sum : List ℕ → ℕ
sum [] = 0
sum (k ∷ ks) = k + sum ks

-- Successive collections, each with the number of entries that the library adds.
abbrev pub answers : List ℕ → Store ℕ → Store ℕ
answers [] st = st
answers (k ∷ ks) st = answers ks (collect_answer k st)

abbrev pub samples : List ℕ → Store Sample → Store Sample
samples [] st = st
samples (k ∷ ks) st = samples ks (collect_sample k st)

abbrev pub entries : ℕ → Store ℕ → Store ℕ
entries zero st = st
entries (suc n) st = entries n (collect_entry st)

pub free_list_head-freed :
    (es : List ℕ) (heap : Heap) → (free_list_head es heap).freed ≡ heap.freed ++ es
unfolding free_list_head
free_list_head-freed [] heap = sym (append-nil heap.freed)
free_list_head-freed (e ∷ es) heap =
    free_list_head-freed es (record heap { freed = heap.freed ++ e ∷ [] })
    ∙ append_assoc heap.freed (e ∷ []) es

blocks-append : (a m n b : ℕ) → a + m ≡ b → blocks a (m + n) ≡ blocks a m ++ blocks b n
unfolding blocks
blocks-append a zero n b h =
    let same : zero + n ≡ n = omega arith in
    let start : a ≡ b = omega arith in ap (blocks a) same ∙ ap (λ c. blocks c n) start
blocks-append a (suc m) n b h =
    let more : suc m + n ≡ suc (m + n) = omega arith in
    ap (blocks a) more ∙ ap (λ t. a ∷ t) (blocks-append (a + 1) m n b (omega arith))

blocks-above : (a b k : ℕ) → a ≤ b → All (λ c. a ≤ c) (blocks b k)
unfolding blocks
blocks-above a b zero h = tt
blocks-above a b (suc k) h = (h, blocks-above a (b + 1) k (omega arith))

answers-last :
    (ks : List ℕ) (k : ℕ) (st : Store ℕ)
    → answers (ks ++ k ∷ []) st ≡ record {
      record_list = blocks (st.heap.mallocs + sum ks) k;
      heap = record st.heap { mallocs = st.heap.mallocs + sum ks + k };
    }
unfolding collect_answer
answers-last [] k st = rw (emptied_nil st.record_list (blocks st.heap.mallocs k)) (
    ap (λ n. record { record_list = blocks n k; heap = record st.heap { mallocs = n + k } })
      (omega arith))
answers-last (j ∷ ks) k st =
    answers-last ks k (collect_answer j st)
    ∙ ap (λ n. record { record_list = blocks n k; heap = record st.heap { mallocs = n + k } })
        (omega arith)

-- Of a module that keeps the last answer only, over any rounds with answers of `ks` and then `k`
-- entries: the entries of the last answer are freed, in order, and no block of an earlier one.
pub free_list_head-answers :
    (ks : List ℕ) (k : ℕ)
    → ((answers (ks ++ k ∷ []) no_entries).heap.mallocs ≡ sum ks + k)
      × ((free_list_head
            (answers (ks ++ k ∷ []) no_entries).record_list
            (answers (ks ++ k ∷ []) no_entries).heap).freed
          ≡ blocks (sum ks) k)
      × All
          (λ b. sum ks ≤ b)
          (free_list_head
            (answers (ks ++ k ∷ []) no_entries).record_list
            (answers (ks ++ k ∷ []) no_entries).heap).freed
free_list_head-answers ks k =
    rw (answers-last ks k no_entries, free_list_head-freed (blocks (0 + sum ks) k))
      (
        omega arith,
        ap (λ n. blocks n k) (omega arith),
        blocks-above (sum ks) (0 + sum ks) k (omega arith),
      )

-- The blocks of the samples in the order in which they are freed.
abbrev pub all_blocks : List Sample → List ℕ
all_blocks [] = []
all_blocks (s ∷ ss) = s.entries ++ s.node ∷ all_blocks ss

pub free_samples-freed :
    (ss : List Sample) (heap : Heap) → (free_samples ss heap).freed ≡ heap.freed ++ all_blocks ss
unfolding free_samples
free_samples-freed [] heap = sym (append-nil heap.freed)
free_samples-freed (s ∷ ss) heap =
    free_samples-freed ss (record (free_list_head s.entries heap) {
      freed = (free_list_head s.entries heap).freed ++ s.node ∷ [];
    })
    ∙ ap (λ t. (t ++ s.node ∷ []) ++ all_blocks ss) (free_list_head-freed s.entries heap)
    ∙ append_assoc (heap.freed ++ s.entries) (s.node ∷ []) (all_blocks ss)
    ∙ append_assoc heap.freed s.entries (s.node ∷ all_blocks ss)

pub all_blocks-append :
    (ss ts : List Sample) → all_blocks (ss ++ ts) ≡ all_blocks ss ++ all_blocks ts
all_blocks-append [] ts = refl
all_blocks-append (s ∷ ss) ts =
    ap (λ t. s.entries ++ s.node ∷ t) (all_blocks-append ss ts)
    ∙ sym (append_assoc s.entries (s.node ∷ all_blocks ss) (all_blocks ts))

-- The record list holds every block that was allocated, and nothing is freed yet.
record Holds (st : Store Sample) : Type 0 where
  all : Perm (all_blocks st.record_list) (blocks 0 st.heap.mallocs)
  none_freed : st.heap.freed ≡ []

collect_sample-Holds : (k : ℕ) (st : Store Sample) → Holds st → Holds (collect_sample k st)
unfolding collect_sample blocks
collect_sample-Holds k st h = record {
  all =
      let n = st.heap.mallocs in
      let new : List ℕ = blocks (n + 1) k in
      let next : n + 1 + k ≡ n + suc k = omega arith in
      rw
        (
          all_blocks-append st.record_list (record { node = n; entries = new } ∷ []),
          next,
          blocks-append 0 n (suc k) n (omega arith),
        )
        (Perm.append h.all
          (subst (λ t. Perm (new ++ n ∷ []) (n ∷ t)) (append-nil new) (perm_middle new [])));
  none_freed = h.none_freed;
}

samples-Holds : (ks : List ℕ) (st : Store Sample) → Holds st → Holds (samples ks st)
samples-Holds [] st h = h
samples-Holds (k ∷ ks) st h = samples-Holds ks (collect_sample k st) (collect_sample-Holds k st h)

entries-all :
    (n : ℕ) (st : Store ℕ)
    → st.record_list ≡ blocks 0 st.heap.mallocs
    → st.heap.freed ≡ []
    → ((entries n st).record_list ≡ blocks 0 (st.heap.mallocs + n))
      × ((entries n st).heap.mallocs ≡ st.heap.mallocs + n)
      × ((entries n st).heap.freed ≡ [])
unfolding collect_entry blocks
entries-all zero st h none_freed = (h ∙ ap (blocks 0) (omega arith), omega arith, none_freed)
entries-all (suc n) st h none_freed =
    let one : st.heap.mallocs + 1 + n ≡ st.heap.mallocs + suc n = omega arith in
    let added : st.record_list ++ st.heap.mallocs ∷ [] ≡ blocks 0 (st.heap.mallocs + 1) =
      ap (λ t. t ++ st.heap.mallocs ∷ []) h
      ∙ sym (blocks-append 0 st.heap.mallocs 1 st.heap.mallocs (omega arith)) in
    let (list, mallocs, freed) = entries-all n (collect_entry st) added none_freed in
    (list ∙ ap (blocks 0) one, mallocs ∙ one, freed)

-- Of the modules that keep every sample: at the end mod_cpu.c frees its `n` blocks in order, and
-- mod_proc.c and mod_io.c free, in some order, exactly the blocks that were allocated for the samples
-- and their entries, each once.
free_record_list-all :
    (n : ℕ) (ks : List ℕ)
    → ((free_list_head (entries n no_entries).record_list (entries n no_entries).heap).freed
        ≡ blocks 0 n)
      × Perm
          (free_samples (samples ks no_entries).record_list (samples ks no_entries).heap).freed
          (blocks 0 (samples ks no_entries).heap.mallocs)
unfolding blocks
free_record_list-all n ks =
    let (list, mallocs, freed) = entries-all n no_entries refl refl in
    let held = samples-Holds ks no_entries (record { all = Perm.nil; none_freed = refl }) in
    (
      free_list_head-freed (entries n no_entries).record_list (entries n no_entries).heap
          ∙ ap₂ ◌++◌ freed (list ∙ ap (blocks 0) (omega arith)),
      subst (λ t. Perm t (blocks 0 (samples ks no_entries).heap.mallocs))
          (sym (
            free_samples-freed (samples ks no_entries).record_list (samples ks no_entries).heap
            ∙ ap (λ t. t ++ all_blocks (samples ks no_entries).record_list) held.none_freed))
          held.all,
    )
