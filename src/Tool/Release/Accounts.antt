-- ===== src/Tool/Release/Accounts.antt =====
-- Each block stands in one place while the program runs.
use zsr.Prelude.{
  ℕ, zero, suc, ◌+◌, ◌≡◌, refl, sym, ap, ◌∙◌, append_assoc, List, [], ◌∷◌, ◌++◌, ltb, ◌==◌, All,
  if◌then◌else◌, arith,
}
use zsr.Modules.Memory.{
  Heap, Sample, blocks, list_empty, collect_single, collect_answer, collect_entry, collect_sample,
}
use zsr.Modules.Memory.Freed.{all_blocks, all_blocks-append}
use zsr.Modules.Snapshot.{emptied}
use zsr.Tool.Release.{
  RecordList, single, answer, entries, samples, ModuleNode, Memory, register_mod, register_all,
  Collected, Added, unlinked, add_list, collect_list, collect_mods, collect_rounds,
}

-- How often a block stands in a list.
abbrev pub occurrences : ℕ → List ℕ → ℕ
occurrences b [] = 0
occurrences b (c ∷ cs) = (if b == c then 1 else 0) + occurrences b cs

-- Whether `malloc` has returned the block, as a number.
abbrev pub returned_once : ℕ → ℕ → ℕ
returned_once b mallocs = if ltb b mallocs then 1 else 0

pub occurrences-append :
    (b : ℕ) (xs ys : List ℕ) → occurrences b (xs ++ ys) ≡ occurrences b xs + occurrences b ys
occurrences-append b [] ys = omega arith
occurrences-append b (x ∷ xs) ys = omega (arith, occurrences-append b xs ys)

occurrences-blocks :
    (b n k : ℕ) → occurrences b (blocks n k) + returned_once b n ≡ returned_once b (n + k)
unfolding blocks
occurrences-blocks b n zero = ground arith
occurrences-blocks b n (suc k) = ground (arith, occurrences-blocks b (n + 1) k)

-- The blocks that a record list holds.
abbrev pub held : RecordList → List ℕ
held (single es) = es
held (answer es) = es
held (entries es) = es
held (samples ss) = all_blocks ss

abbrev pub held_all : List ModuleNode → List ℕ
held_all [] = []
held_all (m ∷ ms) = m.node ∷ (held m.record_list ++ held_all ms)

-- The entries that are added account for all blocks that are allocated for them.
record Accounts (b : ℕ) (r : RecordList) (heap : Heap) (c : Collected) : Type 0 where
  kept :
      occurrences b (held c.record_list) + occurrences b c.lost + returned_once b heap.mallocs
      ≡ occurrences b (held r) + returned_once b c.heap.mallocs
  freed : c.heap.freed ≡ heap.freed

added-Accounts :
    (b k : ℕ) (es : List ℕ) (heap : Heap)
    → occurrences b (es ++ blocks heap.mallocs k) + returned_once b heap.mallocs
      ≡ occurrences b es + returned_once b (heap.mallocs + k)
added-Accounts b k es heap =
    omega
      (arith, occurrences-append b es (blocks heap.mallocs k), occurrences-blocks b heap.mallocs k)

add_list-Accounts : (b k : ℕ) (r : RecordList) (heap : Heap) → Accounts b r heap (add_list k r heap)
unfolding add_list collect_single list_empty collect_answer collect_entry collect_sample blocks
    emptied
add_list-Accounts b k (single []) heap = record {
  kept = omega (arith, added-Accounts b 1 [] heap);
  freed = refl;
}
add_list-Accounts b k (single (e ∷ es)) heap = record { kept = omega arith; freed = refl }
add_list-Accounts b k (answer []) heap = record {
  kept = omega (arith, added-Accounts b k [] heap);
  freed = refl;
}
add_list-Accounts b k (answer (e ∷ es)) heap = record {
  kept = omega (arith, added-Accounts b k [] heap);
  freed = refl;
}
add_list-Accounts b k (entries es) heap = record {
  kept = omega (arith, added-Accounts b 1 es heap);
  freed = refl;
}
add_list-Accounts b k (samples ss) heap = record {
  kept =
      let n = heap.mallocs in
      let s : Sample = record { node = n; entries = blocks (n + 1) k } in
      omega (
        arith,
        ap (occurrences b) (all_blocks-append ss (s ∷ [])),
        occurrences-append b (all_blocks ss) (blocks (n + 1) k ++ n ∷ []),
        occurrences-append b (blocks (n + 1) k) (n ∷ []),
        occurrences-blocks b n 1,
        occurrences-blocks b (n + 1) k,
      );
  freed = refl;
}

-- And so does a whole `collect_record`.
collect_list-accounted :
    (b : ℕ) (a : Added) (r : RecordList) (heap : Heap)
    → occurrences b (held (collect_list a r heap).record_list)
        + occurrences b (collect_list a r heap).lost
        + occurrences b (collect_list a r heap).heap.freed
        + returned_once b heap.mallocs
      ≡ occurrences b (held r)
        + occurrences b heap.freed
        + returned_once b (collect_list a r heap).heap.mallocs
unfolding collect_list
collect_list-accounted b a r heap =
    let n = heap.mallocs in
    let c = add_list a.linked r (unlinked a heap) in
    let added = add_list-Accounts b a.linked r (unlinked a heap) in
    omega (
      arith,
      added.kept,
      ap (occurrences b) added.freed,
      occurrences-append b c.lost (blocks (n + a.freed) a.lost),
      occurrences-append b heap.freed (blocks n a.freed),
      occurrences-blocks b n a.freed,
      occurrences-blocks b (n + a.freed) a.lost,
    )

-- In a memory each block that `malloc` has returned stands in one place: a node of the list of modules, an
-- entry of a record list, freed or lost; and others stand in none.
abbrev pub Once : ℕ → List ModuleNode → Heap → List ℕ → Type 0
Once b ms heap lost =
    occurrences b (held_all ms) + occurrences b heap.freed + occurrences b lost
    ≡ returned_once b heap.mallocs

collect_mods-accounted :
    (b : ℕ) (added : ℕ → Added) (ms : List ModuleNode) (heap : Heap)
    → occurrences b (held_all (collect_mods added ms heap).mods)
        + occurrences b (collect_mods added ms heap).lost
        + occurrences b (collect_mods added ms heap).heap.freed
        + returned_once b heap.mallocs
      ≡ occurrences b (held_all ms)
        + occurrences b heap.freed
        + returned_once b (collect_mods added ms heap).heap.mallocs
unfolding collect_mods
collect_mods-accounted b added [] heap = omega arith
collect_mods-accounted b added (m ∷ ms) heap =
    let c = collect_list (added 0) m.record_list heap in
    let rest = collect_mods (λ i. added (i + 1)) ms c.heap in
    omega (
      arith,
      collect_mods-accounted b (λ i. added (i + 1)) ms c.heap,
      collect_list-accounted b (added 0) m.record_list heap,
      occurrences-append b (held m.record_list) (held_all ms),
      occurrences-append b (held c.record_list) (held_all rest.mods),
      occurrences-append b c.lost rest.lost,
    )

pub collect_rounds-Once :
    (b : ℕ) (rounds : List (ℕ → Added)) (m : Memory)
    → Once b m.mods m.heap m.lost
    → Once b
        (collect_rounds rounds m).mods
        (collect_rounds rounds m).heap
        (collect_rounds rounds m).lost
unfolding collect_rounds
collect_rounds-Once b [] m h = h
collect_rounds-Once b (added ∷ rounds) m h =
    let c = collect_mods added m.mods m.heap in
    collect_rounds-Once b rounds (record { mods = c.mods; heap = c.heap; lost = m.lost ++ c.lost })
      (omega (
        arith,
        collect_mods-accounted b added m.mods m.heap,
        h,
        occurrences-append b m.lost c.lost,
      ))

held_all-append : (ms ns : List ModuleNode) → held_all (ms ++ ns) ≡ held_all ms ++ held_all ns
held_all-append [] ns = refl
held_all-append (m ∷ ms) ns =
    ap (λ t. m.node ∷ t)
      (ap (λ t. held m.record_list ++ t) (held_all-append ms ns)
        ∙ sym (append_assoc (held m.record_list) (held_all ms) (held_all ns)))

-- The record lists are empty at first.
abbrev pub IsEmpty : RecordList → Type 0
IsEmpty r = held r ≡ []

register_mod-Once :
    (b : ℕ) (r : RecordList) (m : Memory)
    → IsEmpty r
    → Once b m.mods m.heap m.lost
    → Once b (register_mod r m).mods (register_mod r m).heap (register_mod r m).lost
unfolding register_mod blocks
register_mod-Once b r m e h =
    let n = m.heap.mallocs in
    let more : occurrences b (held_all (register_mod r m).mods)
        ≡ occurrences b (held_all m.mods) + occurrences b (n ∷ []) =
      ap (occurrences b) (
        held_all-append m.mods (record { node = n; record_list = r } ∷ [])
        ∙ ap (λ t. held_all m.mods ++ n ∷ (t ++ [])) e)
      ∙ occurrences-append b (held_all m.mods) (n ∷ []) in
    omega (arith, h, more, occurrences-blocks b n 1)

pub register_all-Once :
    (b : ℕ) (rs : List RecordList) (m : Memory)
    → All IsEmpty rs
    → Once b m.mods m.heap m.lost
    → Once b (register_all rs m).mods (register_all rs m).heap (register_all rs m).lost
unfolding register_all
register_all-Once b [] m e h = h
register_all-Once b (r ∷ rs) m (e, es) h =
    register_all-Once b rs (register_mod r m) es (register_mod-Once b r m e h)
