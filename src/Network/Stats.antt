-- ===== src/Network/Stats.antt =====
-- class connection_stats of src/include/network.h. The counters are atomic uint64_t, and wrap.
use firehose.Base.{ℕ, ◌<◌, ◌≡◌, arith, List, [], ◌∷◌, add_u64, sub_u64, u64_mod}

pub record ConnectionStats : Type 0 where
  pub bytes_sent : ℕ
  pub bytes_received : ℕ
  pub messages_sent : ℕ
  pub messages_received : ℕ

abbrev pub zero_stats : ConnectionStats
zero_stats = record { bytes_sent = 0; bytes_received = 0; messages_sent = 0; messages_received = 0 }

unfoldable pub message_received : ConnectionStats → ℕ → ConnectionStats
message_received s size = record s {
  bytes_received = add_u64 s.bytes_received size;
  messages_received = add_u64 s.messages_received 1;
}

unfoldable pub message_sent : ConnectionStats → ℕ → ConnectionStats
message_sent s size = record s {
  bytes_sent = add_u64 s.bytes_sent size;
  messages_sent = add_u64 s.messages_sent 1;
}

-- operator+=
unfoldable pub add_assign : ConnectionStats → ConnectionStats → ConnectionStats
add_assign s rhs = record {
  bytes_sent = add_u64 s.bytes_sent rhs.bytes_sent;
  bytes_received = add_u64 s.bytes_received rhs.bytes_received;
  messages_sent = add_u64 s.messages_sent rhs.messages_sent;
  messages_received = add_u64 s.messages_received rhs.messages_received;
}

-- operator=, which adds
unfoldable pub assign : ConnectionStats → ConnectionStats → ConnectionStats
unfolding add_assign
assign s rhs = add_assign s rhs

-- operator-=
unfoldable pub sub_assign : ConnectionStats → ConnectionStats → ConnectionStats
sub_assign s rhs = record {
  bytes_sent = sub_u64 s.bytes_sent rhs.bytes_sent;
  bytes_received = sub_u64 s.bytes_received rhs.bytes_received;
  messages_sent = sub_u64 s.messages_sent rhs.messages_sent;
  messages_received = sub_u64 s.messages_received rhs.messages_received;
}

-- operator/=. The division of a counter by the `float` is the parameter.
unfoldable pub div_assign : (ℕ → ℕ) → ConnectionStats → ConnectionStats
div_assign divide s = record {
  bytes_sent = divide s.bytes_sent;
  bytes_received = divide s.bytes_received;
  messages_sent = divide s.messages_sent;
  messages_received = divide s.messages_received;
}

-- Every counter is a uint64_t.
pub record IsWord (s : ConnectionStats) : Type 0 where
  pub bytes_sent : s.bytes_sent < u64_mod
  pub bytes_received : s.bytes_received < u64_mod
  pub messages_sent : s.messages_sent < u64_mod
  pub messages_received : s.messages_received < u64_mod

pub add_assign-IsWord : (s rhs : ConnectionStats) → IsWord (add_assign s rhs)
unfolding add_assign
add_assign-IsWord s rhs = omega arith

pub sub_assign-IsWord : (s rhs : ConnectionStats) → IsWord (sub_assign s rhs)
unfolding sub_assign
sub_assign-IsWord s rhs = omega arith

add_u64-sub_u64 : (a b : ℕ) → a < u64_mod → b < u64_mod → add_u64 b (sub_u64 a b) ≡ a
add_u64-sub_u64 a b h k = omega arith

-- What was taken away comes back, whatever wrapped in between.
pub add_assign-sub_assign :
    (s t : ConnectionStats) → IsWord s → IsWord t → add_assign t (sub_assign s t) ≡ s
unfolding add_assign sub_assign
add_assign-sub_assign s t v w = λ i. record {
  bytes_sent = add_u64-sub_u64 s.bytes_sent t.bytes_sent v.bytes_sent w.bytes_sent i;
  bytes_received =
      add_u64-sub_u64 s.bytes_received t.bytes_received v.bytes_received w.bytes_received i;
  messages_sent = add_u64-sub_u64 s.messages_sent t.messages_sent v.messages_sent w.messages_sent i;
  messages_received =
      add_u64-sub_u64 s.messages_received t.messages_received v.messages_received
        w.messages_received i;
}

-- The sum of the counters of some connections, as a loop of += from zero makes it.
abbrev pub sum_from : ConnectionStats → List ConnectionStats → ConnectionStats
sum_from acc [] = acc
sum_from acc (s ∷ rest) = sum_from (add_assign acc s) rest

pub sum_from-IsWord :
    (acc : ConnectionStats) (ss : List ConnectionStats) → IsWord acc → IsWord (sum_from acc ss)
sum_from-IsWord acc [] v = v
sum_from-IsWord acc (s ∷ ss) v = sum_from-IsWord (add_assign acc s) ss (add_assign-IsWord acc s)
