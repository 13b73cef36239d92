-- ===== src/Network/Clock.antt =====
-- synchronize, estimate_clock_delta and estimate_rtt of class message_handler in
-- src/include/network.h. An int64_t is its value plus 2^63, as in the windows.
pub mod Estimate
use firehose.Base.{
  ℕ, ◌+◌, ◌-◌, ◌/◌, ◌^◌, ◌%◌, List, [], ◌∷◌, Option, none, some, if◌then◌else◌, nat_beq, ltb, leb,
  u64_mod,
}
use firehose.Util.Window.{Window, new_window, insert, get_min}

abbrev pub bias : ℕ
bias = 2 ^ 63

abbrev pub int64_max : ℕ
int64_max = 2 ^ 64 - 1

pub record Clock : Type 0 where
  pub local_delta : ℕ
  pub remote_delta : ℕ
  pub local_delta_tracker : Window
  pub remote_delta_tracker : Window

abbrev pub init : Clock
init = record {
  local_delta = int64_max;
  remote_delta = int64_max;
  local_delta_tracker = new_window 1024;
  remote_delta_tracker = new_window 1024;
}

-- An uint64_t that is converted to an int64_t.
abbrev pub to_int64 : ℕ → ℕ
to_int64 w = (w + bias) % u64_mod

-- The tracker after the insertion, with its minimum. `none` is undefined behaviour of the window.
abbrev pub track : Window → ℕ → Option (Window × ℕ)
track w delta = elim (insert w delta) [
  | none ↦ none
  | some w' ↦ elim (get_min w') [ none ↦ none | some m ↦ some (w', m) ]
]

unfoldable pub synchronize : Clock → ℕ → ℕ → Option Clock
synchronize c local_delta remote_delta = elim (track c.local_delta_tracker local_delta) [
  | none ↦ none
  | some (locals, l) ↦ elim (track c.remote_delta_tracker remote_delta) [
    | none ↦ none
    | some (remotes, r) ↦ some (record {
      local_delta = l;
      remote_delta = r;
      local_delta_tracker = locals;
      remote_delta_tracker = remotes;
    })
  ]
]

-- The value `a - b` of signed numbers that have been given with 2^63 added, as such a number again:
-- `none` is an overflow.
abbrev pub fits : ℕ → ℕ → Option ℕ
fits a b = if leb b a then if ltb (a - b) u64_mod then some (a - b) else none else none

-- The division of a signed number by 2, which rounds towards 0.
abbrev pub halve : ℕ → ℕ
halve a = if leb bias a then bias + (a - bias) / 2 else bias - (bias - a) / 2

unfoldable pub estimate_clock_delta : Clock → Option ℕ
estimate_clock_delta c =
    if nat_beq c.remote_delta int64_max
    then some bias
    else elim (fits (c.local_delta + bias) c.remote_delta) [
      | none ↦ none
      | some difference ↦ some (halve difference)
    ]

unfoldable pub estimate_rtt : Clock → Option ℕ
estimate_rtt c =
    if nat_beq c.remote_delta int64_max
    then some bias
    else fits (c.local_delta + c.remote_delta) bias

unfoldable pub synchronize_all : Clock → List (ℕ × ℕ) → Option Clock
unfolding synchronize
synchronize_all c [] = some c
synchronize_all c ((l, r) ∷ rest) = elim (synchronize c l r) [
  | none ↦ none
  | some c' ↦ synchronize_all c' rest
]
