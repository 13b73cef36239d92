-- ===== src/Network/Clock/Estimate.antt =====
-- The estimates of the clocks' difference and of the round trip.
use firehose.Base.{
  ℕ, ◌+◌, ◌-◌, ◌*◌, ◌≤◌, ◌<◌, ◌≡◌, ◌≢◌, refl, subst, List, [], ◌∷◌, ◌++◌, map, some, arith,
  push_back, u64_mod, append_assoc,
}
use firehose.Util.Window.{Window, new_window}
use firehose.Util.Window.Recent.{nil, latest}
use firehose.Util.Window.Least.{IsLeast, Tracks, insert-Tracks}
use firehose.Network.Clock.{
  Clock, init, bias, int64_max, track, synchronize, synchronize_all, fits, halve,
  estimate_clock_delta, estimate_rtt,
}

fits_lem : (a b d : ℕ) → d + b ≡ a → d < u64_mod → fits a b ≡ some d
fits_lem a b d h small = let is : a - b ≡ d = omega (arith, h) in ground arith

halve_lem : (d : ℕ) → (2 * halve d ≤ d + bias + 1) × (d + bias ≤ 2 * halve d + 1)
halve_lem d = ground arith

-- Let the delays of the fastest messages be `there` and `back`, and the difference of the clocks `p`
-- minus `q`, so that the two deltas are `there` + `p` - `q` and `back` + `q` - `p`. If the remote delta
-- is known, and the delays and the difference of the deltas are below 2^63, then neither estimate
-- overflows, the estimated round trip is `there` + `back`, and the estimated difference of the clocks
-- is off by at most half the round trip and a half.
pub estimates_near :
    (c : Clock) (p q there back : ℕ)
    → c.local_delta + q ≡ bias + there + p
    → c.remote_delta + p ≡ bias + back + q
    → c.remote_delta ≢ int64_max
    → there + back < bias
    → there + 2 * p < bias + back + 2 * q
    → back + 2 * q ≤ bias + there + 2 * p
    → (delta : ℕ) × (estimate_rtt c ≡ some (bias + there + back))
      × (estimate_clock_delta c ≡ some delta)
      × (2 * delta + 2 * q ≤ 2 * bias + 2 * p + there + back + 1)
      × (2 * bias + 2 * p ≤ 2 * delta + 2 * q + there + back + 1)
unfolding estimate_rtt estimate_clock_delta
estimates_near c p q there back l r known near low high =
    let d = c.local_delta + bias - c.remote_delta in
    let apart : d + back + 2 * q ≡ bias + there + 2 * p = omega (arith, l, r, high) in
    let (above, below) = halve_lem d in
    let rtt =
      fits_lem (c.local_delta + c.remote_delta) bias (bias + there + back) (omega (arith, l, r))
        (omega (arith, near)) in
    let difference =
      fits_lem (c.local_delta + bias) c.remote_delta d (omega (arith, l, r, high))
        (omega (arith, apart, low)) in
    (
      halve d,
      ground (arith, known),
      ground (arith, known),
      omega (arith, above, apart),
      omega (arith, below, apart),
    )

-- What both trackers have kept.
record Synchronized (ls rs : List ℕ) (c : Clock) : Type 0 where
  pub locals : Tracks 1024 ls c.local_delta_tracker
  pub remotes : Tracks 1024 rs c.remote_delta_tracker

track-Tracks :
    (xs : List ℕ) (w : Window) (x : ℕ)
    → Tracks 1024 xs w
    → (w' : Window) × (m : ℕ) × (track w x ≡ some (w', m))
      × Tracks 1024 (push_back xs x) w'
      × IsLeast m (latest 1024 (push_back xs x))
track-Tracks xs w x v =
    let (w', m, e, at, kept, least) = insert-Tracks 1024 xs w x (omega arith) v in
    (w', m, ground arith, kept, least)

synchronize-Synchronized :
    (ls rs : List ℕ) (c : Clock) (l r : ℕ)
    → Synchronized ls rs c
    → (c' : Clock) × (synchronize c l r ≡ some c')
      × Synchronized (push_back ls l) (push_back rs r) c'
      × IsLeast c'.local_delta (latest 1024 (push_back ls l))
      × IsLeast c'.remote_delta (latest 1024 (push_back rs r))
unfolding synchronize
synchronize-Synchronized ls rs c l r v =
    let (w, m, e, kept, least) = track-Tracks ls c.local_delta_tracker l v.locals in
    let (w', m', e', kept', least') = track-Tracks rs c.remote_delta_tracker r v.remotes in
    (
      record {
        local_delta = m;
        remote_delta = m';
        local_delta_tracker = w;
        remote_delta_tracker = w';
      },
      rw (e, e', synchronize) refl,
      record { locals = kept; remotes = kept' },
      least,
      least',
    )

minima :
    (ps : List (ℕ × ℕ)) (ls rs : List ℕ) (c : Clock) (l r : ℕ)
    → Synchronized ls rs c
    → (c' : Clock) × (synchronize_all c ((l, r) ∷ ps) ≡ some c')
      × IsLeast c'.local_delta (latest 1024 (ls ++ l ∷ map (λ (p : ℕ × ℕ). p.0) ps))
      × IsLeast c'.remote_delta (latest 1024 (rs ++ r ∷ map (λ (p : ℕ × ℕ). p.1) ps))
unfolding synchronize_all
minima [] ls rs c l r v =
    let (c', e, v', least, least') = synchronize-Synchronized ls rs c l r v in
    (c', rw (e, synchronize_all) refl, least, least')
minima ((l', r') ∷ ps) ls rs c l r v =
    let (c₁, e₁, v₁, _, _) = synchronize-Synchronized ls rs c l r v in
    let (c', e, least, least') = minima ps (push_back ls l) (push_back rs r) c₁ l' r' v₁ in
    (
      c',
      rw (e₁, synchronize_all) e,
      subst (λ xs. IsLeast c'.local_delta (latest 1024 xs)) (append_assoc ls (l ∷ []) _) least,
      subst (λ xs. IsLeast c'.remote_delta (latest 1024 xs)) (append_assoc rs (r ∷ []) _) least',
    )

empty_tracks : Tracks 1024 [] (new_window 1024)
empty_tracks = record {
  window = record { bounded = omega arith; same = λ v. refl; sorted = nil };
  size_is = refl;
  items = unfold latest in refl;
}

-- After one synchronization or more, none of which is undefined behaviour, the local delta stands
-- among the latest 1024 local deltas and is at most each of them, and the remote delta stands among
-- the latest 1024 remote deltas and is at most each of those.
synchronize_all_minima :
    (l r : ℕ) (ps : List (ℕ × ℕ))
    → (c : Clock) × (synchronize_all init ((l, r) ∷ ps) ≡ some c)
      × IsLeast c.local_delta (latest 1024 (l ∷ map (λ (p : ℕ × ℕ). p.0) ps))
      × IsLeast c.remote_delta (latest 1024 (r ∷ map (λ (p : ℕ × ℕ). p.1) ps))
synchronize_all_minima l r ps =
    minima ps [] [] init l r (record { locals = empty_tracks; remotes = empty_tracks })
