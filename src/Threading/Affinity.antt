-- ===== src/Threading/Affinity.antt =====
-- setCore, setCores, setAllCores, addCore, removeCore, currentCores, setPriority, setDefaultPriority,
-- setMaxPriority, currentScheduler, currentPriority and initProcess of src/include/thread.cpp, for one
-- thread. `none` is exit(0). Which calls of the operating system fail is a parameter; one that does
-- not fail does what POSIX says of it.
use firehose.Base.{
  ℕ, zero, suc, ◌≡◌, ◌≢◌, inl, inr, refl, ap, sym, List, [], ◌∷◌, Option, none, some, Bool, false,
  not, ◌&&◌, ◌||◌, if◌then◌else◌, nat_beq, ltb, push_back, arith, Bool-cases, count, count-nil,
  count-cons, count-push_back, nat_eq, nat_beq_iff,
}

-- cpu_set_t: the cores of a set.
abbrev pub CpuSet : Type 0
CpuSet = ℕ → Bool

-- A thread, as the operating system keeps it.
pub record Thread : Type 0 where
  pub cpu_set : CpuSet
  pub policy : ℕ
  pub priority : ℕ

pub record Os : Type 0 where
  pub core_count : ℕ
  pub setaffinity_fails : CpuSet → Bool
  pub getaffinity_fails : Bool
  pub setschedparam_fails : ℕ → ℕ → Bool
  pub getschedparam_fails : Bool
  pub priority_max : ℕ → ℕ
  pub sched_other : ℕ
  pub sched_fifo : ℕ

module _ (os : Os) where
  unfoldable pub bind : CpuSet → Thread → Option Thread
  bind cpu_set t =
      if os.setaffinity_fails cpu_set then none else some (record t { cpu_set = cpu_set })

  unfoldable pub set_core : ℕ → Thread → Option Thread
  unfolding bind
  set_core core t = bind (λ i. nat_beq core i) t

  abbrev pub set_of : List ℕ → CpuSet
  set_of cores i = ltb 0 (count i cores)

  unfoldable pub set_cores : List ℕ → Thread → Option Thread
  unfolding bind
  set_cores [] t = none
  set_cores (core ∷ cores) t = bind (set_of (core ∷ cores)) t

  unfoldable pub set_all_cores : Thread → Option Thread
  unfolding bind
  set_all_cores t = bind (λ i. ltb i os.core_count) t

  -- The cores of the set that are less than a number, in order.
  unfoldable pub cores_below : CpuSet → ℕ → List ℕ
  cores_below cpu_set zero = []
  cores_below cpu_set (suc n) =
      let rest = cores_below cpu_set n in if cpu_set n then push_back rest n else rest

  unfoldable pub current_cores : Thread → Option (List ℕ)
  unfolding cores_below
  current_cores t =
      if os.getaffinity_fails then none else some (cores_below t.cpu_set os.core_count)

  unfoldable pub add_core : ℕ → Thread → Option Thread
  unfolding current_cores set_cores
  add_core core t = elim (current_cores t) [
    | none ↦ none
    | some cores ↦ set_cores (push_back cores core) t
  ]

  -- std::remove and erase
  unfoldable pub without : ℕ → List ℕ → List ℕ
  without core [] = []
  without core (x ∷ xs) = let rest = without core xs in if nat_beq x core then rest else x ∷ rest

  unfoldable pub remove_core : ℕ → Thread → Option Thread
  unfolding current_cores set_cores without
  remove_core core t = elim (current_cores t) [
    | none ↦ none
    | some cores ↦ set_cores (without core cores) t
  ]

  -- The priority that is asked for is not read.
  unfoldable pub set_priority : ℕ → ℕ → Thread → Option Thread
  set_priority scheduler priority t =
      let max = os.priority_max scheduler in
      if os.setschedparam_fails scheduler max || os.getschedparam_fails
      then none
      else some (record t { policy = scheduler; priority = max })

  unfoldable pub set_default_priority : Thread → Option Thread
  unfolding set_priority
  set_default_priority t = set_priority os.sched_other 0 t

  unfoldable pub set_max_priority : Thread → Option Thread
  unfolding set_priority
  set_max_priority t = set_priority os.sched_fifo (os.priority_max os.sched_fifo) t

  unfoldable pub current_scheduler : Thread → Option ℕ
  current_scheduler t = if os.getschedparam_fails then none else some t.policy

  unfoldable pub current_priority : Thread → Option ℕ
  current_priority t = if os.getschedparam_fails then none else some t.priority

  -- `scheduler` is SCHED_FIFO, and `init_pool` is never filled.
  unfoldable pub init_process : Thread → Option Thread
  unfolding set_cores set_priority
  init_process t = elim (set_cores [] t) [
    | none ↦ none
    | some t' ↦ set_priority os.sched_fifo (os.priority_max os.sched_fifo) t'
  ]

  count-cores_below :
      (cpu_set : CpuSet) (n i : ℕ)
      → count i (cores_below cpu_set n) ≡ (if ltb i n then if cpu_set i then 1 else 0 else 0)
  unfolding cores_below
  count-cores_below cpu_set zero i = ground (arith, count-nil i)
  count-cores_below cpu_set (suc n) i = ground (
    arith,
    count-cores_below cpu_set n i,
    count-push_back i n (cores_below cpu_set n),
    nat_beq_iff n i,
  )

  count-without :
      (core : ℕ) (xs : List ℕ) (i : ℕ)
      → count i (without core xs) ≡ (if nat_beq core i then 0 else count i xs)
  unfolding without
  count-without core [] i = ground (arith, count-nil i)
  count-without core (x ∷ xs) i =
      ground (arith, count-without core xs i, count-cons i x xs, count-cons i x (without core xs))

  bound :
      (cores : List ℕ) (t t' : Thread)
      → set_cores cores t ≡ some t'
      → (i : ℕ) → t'.cpu_set i ≡ ltb 0 (count i cores)
  unfolding set_cores bind
  bound [] t t' h i = absurd cc
  bound (core ∷ cores) t t' h i =
      let same : record t { cpu_set = set_of (core ∷ cores) } ≡ t' = ground arith in
      ap (λ (u : Thread). u.cpu_set i) (sym same)

  -- If `addCore` returns, the thread is bound to just the cores that it was bound to, of those that
  -- the machine has, and to the one that was added.
  add_core-adds :
      (core : ℕ) (t t' : Thread)
      → add_core core t ≡ some t'
      → (i : ℕ) → t'.cpu_set i ≡ ((ltb i os.core_count && t.cpu_set i) || nat_beq core i)
  unfolding add_core current_cores
  add_core-adds core t t' h i =
      let cores = cores_below t.cpu_set os.core_count in
      let added : set_cores (push_back cores core) t ≡ some t' = ground arith in
      ground (
        arith,
        bound (push_back cores core) t t' added i,
        count-push_back i core cores,
        count-cores_below t.cpu_set os.core_count i,
      )

  -- If `removeCore` returns, the thread is bound to just the other cores that it was bound to, of
  -- those that the machine has.
  remove_core-removes :
      (core : ℕ) (t t' : Thread)
      → remove_core core t ≡ some t'
      → (i : ℕ) → t'.cpu_set i ≡ ((ltb i os.core_count && t.cpu_set i) && not (nat_beq core i))
  unfolding remove_core current_cores
  remove_core-removes core t t' h i =
      let cores = cores_below t.cpu_set os.core_count in
      let removed : set_cores (without core cores) t ≡ some t' = ground arith in
      ground (
        arith,
        bound (without core cores) t t' removed i,
        count-without core cores i,
        count-cores_below t.cpu_set os.core_count i,
      )

  eq_nil_of_count : (xs : List ℕ) → ((i : ℕ) → count i xs ≡ 0) → xs ≡ []
  eq_nil_of_count [] h = refl
  eq_nil_of_count (x ∷ xs) h = absurd (ground (arith, h x, count-cons x x xs))

  -- `removeCore` of the only core of a thread ends the program.
  remove_core-last :
      (core : ℕ) (t : Thread)
      → ((i : ℕ) → i ≢ core → t.cpu_set i ≡ false)
      → remove_core core t ≡ none
  unfolding remove_core current_cores set_cores
  remove_core-last core t only =
      let cores = cores_below t.cpu_set os.core_count in
      let none_left : without core cores ≡ [] = eq_nil_of_count (without core cores) (λ i. ground (
        arith,
        count-without core cores i,
        count-cores_below t.cpu_set os.core_count i,
        only i,
        nat_beq_iff core i,
      )) in
      elim (Bool-cases os.getaffinity_fails) [
        | inl fails ↦ rw (fails)
        | inr works ↦ rw (works, none_left)
      ]

  -- The thread of a process that does not end in setPriority has the greatest priority of the
  -- scheduler, whatever priority was asked for.
  set_priority-current_priority :
      (scheduler priority : ℕ) (t t' : Thread)
      → set_priority scheduler priority t ≡ some t'
      → (current_priority t' ≡ some (os.priority_max scheduler))
        × (current_scheduler t' ≡ some scheduler)
        × (t'.cpu_set ≡ t.cpu_set)
  unfolding set_priority current_priority current_scheduler
  set_priority-current_priority scheduler priority t t' h =
      let max = os.priority_max scheduler in
      let same : record t { policy = scheduler; priority = max } ≡ t' = ground arith in
      (
        rw (sym same) (ground arith),
        rw (sym same) (ground arith),
        ap (λ (u : Thread). u.cpu_set) (sym same),
      )

  -- initProcess ends the program, as its pool of cores is empty.
  init_process_exits : (t : Thread) → init_process t ≡ none
  unfolding init_process set_cores
  init_process_exits t = refl
