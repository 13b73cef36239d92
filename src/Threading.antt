-- ===== src/Threading.antt =====
-- class CoreManager of src/include/thread.cpp, which gives cores to threads, and the functions that
-- ask it for cores. What binds a thread and sets its priority is in the child Affinity.
pub mod Alloc
pub mod Affinity
use firehose.Base.{
  ℕ, zero, suc, List, [], ◌∷◌, Option, none, some, Bool, true, false, if◌then◌else◌, ltb, get_elem?,
  set, replicate, push_back,
}

-- `init_pool` and `default_pool` are never filled.
pub record CoreManager : Type 0 where
  pub in_use : List Bool
  pub gpu_affinity : List (List ℕ)

-- The constructor, for a machine with the given number of cores. `none` is undefined behaviour: a
-- write outside the vector.
unfoldable pub new_manager : ℕ → Option CoreManager
new_manager core_count =
    if ltb 1 core_count
    then some (record {
      in_use = set (set (replicate core_count false) 0 true) 1 true;
      gpu_affinity = [];
    })
    else none

-- The first core of the list that is not in use. A core that does not exist counts as in use; the
-- source reads outside the vector there.
unfoldable pub first_affine : List Bool → List ℕ → Option ℕ
first_affine in_use [] = none
first_affine in_use (core ∷ cores) = elim (get_elem? in_use core) [
  | some false ↦ some core
  | _ ↦ first_affine in_use cores
]

-- The first core that is not in use.
unfoldable pub first_free : List Bool → Option ℕ
first_free [] = none
first_free (false ∷ rest) = some 0
first_free (true ∷ rest) = elim (first_free rest) [ none ↦ none | some i ↦ some (suc i) ]

unfoldable pub affine_cores : CoreManager → ℕ → List ℕ
affine_cores m gpu_id = elim (get_elem? m.gpu_affinity gpu_id) [ none ↦ [] | some cores ↦ cores ]

unfoldable pub choose : CoreManager → ℕ → Option ℕ
unfolding first_affine first_free affine_cores
choose m gpu_id = elim (first_affine m.in_use (affine_cores m gpu_id)) [
  | some core ↦ some core
  | none ↦ first_free m.in_use
]

-- alloc(gpu_id): the core, and the manager after. `none` is the exit of the program, "All cores
-- exhausted".
unfoldable pub alloc : CoreManager → ℕ → Option (ℕ × CoreManager)
unfolding choose
alloc m gpu_id = elim (choose m gpu_id) [
  | none ↦ none
  | some core ↦ some (core, record m { in_use = set m.in_use core true })
]

-- alloc(count, gpu_id)
unfoldable pub alloc_many : CoreManager → ℕ → ℕ → Option (List ℕ × CoreManager)
unfolding alloc
alloc_many m zero gpu_id = some ([], m)
alloc_many m (suc count) gpu_id = elim (alloc m gpu_id) [
  | none ↦ none
  | some (core, m') ↦ elim (alloc_many m' count gpu_id) [
    | none ↦ none
    | some (cores, m'') ↦ some (core ∷ cores, m'')
  ]
]

-- initHighPriorityThread(num_cores, gpu_affinity, thread): the manager after, and the cores that the
-- thread is bound to. Before initProcess has run nothing is done; a thread is not bound to no core,
-- and the program ends.
unfoldable pub init_high_priority_thread :
    Bool → CoreManager → ℕ → ℕ → Option (List ℕ × CoreManager)
unfolding alloc_many
init_high_priority_thread init m num_cores gpu_affinity =
    if init
    then elim (alloc_many m num_cores gpu_affinity) [
      | none ↦ none
      | some ([], m') ↦ none
      | some (core ∷ cores, m') ↦ some (core ∷ cores, m')
    ]
    else some ([], m)
