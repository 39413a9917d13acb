-- ===== src/Tests/Memory.antt =====
-- The memory of the record lists over a few rounds.
use zsr.Prelude.{refl, ◌+◌, ◌≤◌, ◌≡◌, [], ◌∷◌, ◌++◌, All}
use zsr.Modules.Memory.{
  no_entries, blocks, collect_single, collect_answer, collect_entry, collect_sample, free_list_head,
}
use zsr.Tool.Release.{Added, all_modules, whole_run}
use zsr.Tool.Release.Accounts.{occurrences}
use zsr.Modules.Memory.Freed.{sum, answers, free_list_head-answers}

-- Three rounds with two name servers: four of the six blocks are lost.
free_list_head-answers_example :
    ((answers ((2 ∷ 2 ∷ []) ++ 2 ∷ []) no_entries).heap.mallocs ≡ sum (2 ∷ 2 ∷ []) + 2)
    × ((free_list_head
          (answers ((2 ∷ 2 ∷ []) ++ 2 ∷ []) no_entries).record_list
          (answers ((2 ∷ 2 ∷ []) ++ 2 ∷ []) no_entries).heap).freed
        ≡ blocks (sum (2 ∷ 2 ∷ [])) 2)
    × All
        (λ b. sum (2 ∷ 2 ∷ []) ≤ b)
        (free_list_head
          (answers ((2 ∷ 2 ∷ []) ++ 2 ∷ []) no_entries).record_list
          (answers ((2 ∷ 2 ∷ []) ++ 2 ∷ []) no_entries).heap).freed
free_list_head-answers_example = free_list_head-answers (2 ∷ 2 ∷ []) 2

-- Two entries, and a node that the library frees itself.
abbrev two : Added
two = record { linked = 2; lost = 0; freed = 1 }

-- The first name server of the first round is lost, and the nodes of the modules are freed.
whole_run_blocks :
    (occurrences 17 (whole_run all_modules ((λ i. two) ∷ (λ i. two) ∷ [])).lost ≡ 1)
    × (occurrences 13 (whole_run all_modules ((λ i. two) ∷ (λ i. two) ∷ [])).heap.freed ≡ 1)
unfolding whole_run collect_answer blocks collect_entry collect_sample collect_single
whole_run_blocks = (refl, refl)
