-- ===== src/System/Calm.antt =====
-- Runs in which nothing is lost and no subscription changes: requests are published, and messages on
-- the way arrive, in any order.
pub mod Work
pub mod Kept
pub mod Exact
pub mod Settled
use firehose.Base.{ℕ, suc, ◌≡◌, List, [], ◌∷◌, ◌++◌, u64_mod}
use firehose.Api.{RequestPublish, RequestPrepare}
use firehose.Engine as EngineNode
use firehose.System.{
  System, Prepare, Copy, Step, prepare, copy, after_publish, after_prepare, after_copy,
}

-- A message on the way arrives.
pub data Arrival (s : System) : System → Type 0 where
  arrive_prepare :
      (l : EngineNode.Locals) (connection : ℕ) (xs : List Prepare) (m : Prepare) (ys : List Prepare)
      → s.prepares ≡ xs ++ m ∷ ys
      → Arrival s (after_prepare l connection m (record s { prepares = xs ++ ys }))
  arrive_copy :
      (xs : List Copy) (m : Copy) (ys : List Copy)
      → s.copies ≡ xs ++ m ∷ ys
      → Arrival s (after_copy m (record s { copies = xs ++ ys }))

pub Arrival-Step : {s t : System} → Arrival s t → Step s t
Arrival-Step (arrive_prepare l c xs m ys at) = prepare l c xs m ys at
Arrival-Step (arrive_copy xs m ys at) = copy xs m ys at

-- So many messages arrive, and nothing else happens.
pub data Arrivals (s : System) : ℕ → System → Type 0 where
  none_yet : Arrivals s 0 s
  one_more : {n : ℕ} {t u : System} → Arrivals s n t → Arrival t u → Arrivals s (suc n) u

pub data Run (s : System) : System → Type 0 where
  stay : Run s s
  then_published :
      {t : System} (req : RequestPrepare) (connection : ℕ) (r : RequestPublish)
      → Run s t
      → Run s (after_publish req connection r t)
  then_arrived : {t u : System} → Run s t → Arrival t u → Run s u

-- No message is on the way.
pub record IsSettled (s : System) : Type 0 where
  pub no_prepare : s.prepares ≡ []
  pub no_copy : s.copies ≡ []
