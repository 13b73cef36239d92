-- ===== src/Pump/Printer.antt =====
-- networkPrintThread of src/firehose/pump.cpp: one round of its loop, over the counters that it reads
-- from the connections and the time. The formatted text is not modelled, only the figures in it.
use firehose.Base.{
  ℕ, ◌≡◌, refl, subst, List, [], ◌∷◌, Option, none, some, false, arith, ltb, if◌then◌else◌, add_u64,
  sub_u64,
}
use firehose.Network.Stats.{
  ConnectionStats, zero_stats, add_assign, assign, sub_assign, div_assign, sum_from, IsWord,
  sum_from-IsWord, add_assign-sub_assign,
}

-- The local variables that outlive a round.
pub record Printer : Type 0 where
  pub last_print : ℕ
  pub engine_previous_stats : ConnectionStats
  pub publisher_previous_stats : ConnectionStats

-- The state when the loop is entered.
abbrev pub start : ℕ → Printer
start now = record {
  last_print = now;
  engine_previous_stats = zero_stats;
  publisher_previous_stats = zero_stats;
}

-- What a round reads: the time and the counters of all connections.
pub record Sample : Type 0 where
  pub now : ℕ
  pub engines : List ConnectionStats
  pub publishers : List ConnectionStats

-- What a round prints.
pub record Figures : Type 0 where
  pub engine_stats : ConnectionStats
  pub publisher_stats : ConnectionStats
  pub total_stats : ConnectionStats

abbrev pub print_interval_nanos : ℕ
print_interval_nanos = 1000000000

-- `per_second elapsed n` is the conversion of the float n / (elapsed / 10^9) to a uint64_t.
module _ (per_second : ℕ → ℕ → ℕ) where
  -- A round that comes too early prints nothing and changes nothing.
  unfoldable pub round : Printer → Sample → Printer × Option Figures
  round p s =
      if ltb s.now (add_u64 p.last_print print_interval_nanos)
      then (p, none)
      else (let engine_stats = sub_assign (sum_from zero_stats s.engines) p.engine_previous_stats in
          let publisher_stats =
            sub_assign (sum_from zero_stats s.publishers) p.publisher_previous_stats in
          let scaled = div_assign (per_second (sub_u64 s.now p.last_print)) in
          (
            record {
              last_print = s.now;
              engine_previous_stats = assign p.engine_previous_stats engine_stats;
              publisher_previous_stats = assign p.publisher_previous_stats publisher_stats;
            },
            some (record {
              engine_stats = scaled engine_stats;
              publisher_stats = scaled publisher_stats;
              total_stats =
                  add_assign (assign zero_stats (scaled engine_stats)) (scaled publisher_stats);
            }),
          ))

  -- The state of the printer after its rounds.
  unfoldable pub rounds : Printer → List Sample → Printer
  rounds p [] = p
  rounds p (s ∷ ss) = rounds (round p s).0 ss

-- The specification: the last sample that was printed, and nothing before the first.
pub record Baseline : Type 0 where
  pub at : ℕ
  pub engines : List ConnectionStats
  pub publishers : List ConnectionStats

abbrev pub nothing_printed : ℕ → Baseline
nothing_printed now = record { at = now; engines = []; publishers = [] }

-- A sample is printed if it comes at least the interval after the last one that was.
abbrev pub next_baseline : Baseline → Sample → Baseline
next_baseline b s =
    if ltb s.now (add_u64 b.at print_interval_nanos)
    then b
    else record { at = s.now; engines = s.engines; publishers = s.publishers }

abbrev pub baseline : Baseline → List Sample → Baseline
baseline b [] = b
baseline b (s ∷ ss) = baseline (next_baseline b s) ss

-- The counters that a printer keeps are the sums of the sample that was printed last.
abbrev pub Keeps : Printer → Baseline → Type 0
Keeps p b =
    (p.last_print ≡ b.at)
    × (p.engine_previous_stats ≡ sum_from zero_stats b.engines)
    × (p.publisher_previous_stats ≡ sum_from zero_stats b.publishers)

sum-IsWord : (ss : List ConnectionStats) → IsWord (sum_from zero_stats ss)
sum-IsWord ss = sum_from-IsWord zero_stats ss (omega arith)

-- Adding the difference to the counters of the last sample gives those of the new one.
catch_up :
    (previous : ConnectionStats) (old ss : List ConnectionStats)
    → previous ≡ sum_from zero_stats old
    → assign previous (sub_assign (sum_from zero_stats ss) previous) ≡ sum_from zero_stats ss
unfolding assign
catch_up previous old ss e = rw e (
    add_assign-sub_assign (sum_from zero_stats ss) (sum_from zero_stats old) (sum-IsWord ss)
      (sum-IsWord old))

module _ (per_second : ℕ → ℕ → ℕ) where
  round-Keeps :
      (p : Printer) (b : Baseline) (s : Sample)
      → Keeps p b
      → Keeps (round per_second p s).0 (next_baseline b s)
  unfolding round
  round-Keeps p b s (at, engine, publisher) = ground (
    arith,
    catch_up p.engine_previous_stats b.engines s.engines engine,
    catch_up p.publisher_previous_stats b.publishers s.publishers publisher,
  )

  rounds-Keeps :
      (p : Printer) (b : Baseline) (ss : List Sample)
      → Keeps p b
      → Keeps (rounds per_second p ss) (baseline b ss)
  unfolding rounds
  rounds-Keeps p b [] h = h
  rounds-Keeps p b (s ∷ ss) h =
      rounds-Keeps (round per_second p s).0 (next_baseline b s) ss (round-Keeps p b s h)

  -- What a due round shows and keeps.
  abbrev pub Shows : Printer → Baseline → Sample → Type 0
  Shows p b s =
      (f : Figures) × ((round per_second p s).1 ≡ some f)
      × (f.engine_stats
          ≡ div_assign (per_second (sub_u64 s.now b.at))
              (sub_assign (sum_from zero_stats s.engines) (sum_from zero_stats b.engines)))
      × (f.publisher_stats
          ≡ div_assign (per_second (sub_u64 s.now b.at))
              (sub_assign (sum_from zero_stats s.publishers) (sum_from zero_stats b.publishers)))
      × Keeps (round per_second p s).0
          (record { at = s.now; engines = s.engines; publishers = s.publishers })

  round-Shows :
      (p : Printer) (b : Baseline) (s : Sample)
      → Keeps p b
      → ltb s.now (add_u64 b.at print_interval_nanos) ≡ false
      → Shows p b s
  unfolding round
  round-Shows p b s h due =
      let due' : ltb s.now (add_u64 p.last_print print_interval_nanos) ≡ false = rw (h.0) due in
      let kept : Keeps (round per_second p s).0 (next_baseline b s) = round-Keeps p b s h in
      let scaled = div_assign (per_second (sub_u64 s.now p.last_print)) in
      let engine_stats =
        scaled (sub_assign (sum_from zero_stats s.engines) p.engine_previous_stats) in
      let publisher_stats =
        scaled (sub_assign (sum_from zero_stats s.publishers) p.publisher_previous_stats) in
      let moved : next_baseline b s
          ≡ record { at = s.now; engines = s.engines; publishers = s.publishers } =
        rw due in
      (
        record {
          engine_stats = engine_stats;
          publisher_stats = publisher_stats;
          total_stats = add_assign (assign zero_stats engine_stats) publisher_stats;
        },
        rw due',
        rw (h.0, h.1),
        rw (h.0, h.2),
        subst (Keeps (round per_second p s).0) moved kept,
      )

  -- Whatever rounds went before, a round that prints at least a second after the last print shows, for
  -- the engines and for the publishers, the traffic since the sample that was printed last, per second,
  -- and it keeps the counters of its own sample for the next round.
  round_prints_difference :
      (now : ℕ) (ss : List Sample) (s : Sample)
      → ltb s.now (add_u64 (baseline (nothing_printed now) ss).at print_interval_nanos) ≡ false
      → Shows (rounds per_second (start now) ss) (baseline (nothing_printed now) ss) s
  round_prints_difference now ss s due =
      round-Shows (rounds per_second (start now) ss) (baseline (nothing_printed now) ss) s
        (rounds-Keeps (start now) (nothing_printed now) ss (refl, refl, refl)) due
