-- ===== src/Engine/Entries.antt =====
-- What an engine holds about a topic, and how one update changes it.
use firehose.Base.{
  ℕ, ◌+◌, ◌≤◌, ◌≡◌, List, [], none, arith, nat_beq, nat_beq_iff, if◌then◌else◌, length, count,
  push_back, count-push_back, eq-nil_of_length, count-nil, empty, get, get_or, put, map_laws,
  get_or-put, get_or-none, get_or-empty, nat_eq,
}
use firehose.Engine.{Engine, clients, set_clients, subscribe, make_entries, add_subscription}

-- How often a nuzzle's connection is listed under a topic: that many copies of each message go to it.
unfoldable pub entries : Engine → ℕ → ℕ → ℕ
entries e topic connection = count connection (get_or e.subscriptions topic [])

-- Every client of a connection is matched by an entry of the connection.
pub record IsConsistent (e : Engine) : Type 0 where
  pub matched :
      (topic connection : ℕ) → length (clients e topic connection) ≤ entries e topic connection

-- The nuzzles of a topic, with repetitions.
abbrev pub nuzzles : Engine → ℕ → List ℕ
nuzzles e topic = get_or e.subscriptions topic []

nuzzles-make_entries : (e : Engine) (c t t' : ℕ) → nuzzles (make_entries e c t) t' ≡ nuzzles e t'
unfolding make_entries
nuzzles-make_entries e c t t' = ground (
  arith,
  get_or-put e.subscriptions t t' [] [],
  get_or-none e.subscriptions t [],
  nat_beq_iff t t',
)

pub nuzzles-subscribe :
    (e : Engine) (c t s t' : ℕ)
    → nuzzles (subscribe e c t s) t'
      ≡ (if nat_beq t t' then push_back (nuzzles e t) c else nuzzles e t')
unfolding subscribe
nuzzles-subscribe e c t s t' = simp (map_laws, nuzzles-make_entries)

pub entries-subscribe :
    (e : Engine) (c t s t' c' : ℕ)
    → entries (subscribe e c t s) t' c'
      ≡ entries e t' c' + (if nat_beq t t' then if nat_beq c c' then 1 else 0 else 0)
unfolding entries
entries-subscribe e c t s t' c' =
    rw (nuzzles-subscribe e c t s t')
      (ground (arith, nat_beq_iff t t', count-push_back c' c (nuzzles e t)))

-- A topic with no entry has no client, so making its entries again forgets none.
no_clients :
    (e : Engine) (t c' : ℕ) → IsConsistent e → get e.subscriptions t ≡ none → clients e t c' ≡ []
unfolding entries
no_clients e t c' v h =
    eq-nil_of_length _
      (ground (arith, v.matched t c', get_or-none e.subscriptions t [], count-nil c'))

clients-make_entries :
    (e : Engine) (c t t' c' : ℕ)
    → IsConsistent e
    → clients (make_entries e c t) t' c' ≡ clients e t' c'
unfolding make_entries clients
clients-make_entries e c t t' c' v = ground (
  arith,
  no_clients e t c' v,
  get_or-put e.client_subscriptions t t' (put empty c []) empty,
  get_or-put (empty {K = ℕ} {V = List ℕ}) c c' [] [],
  get_or-empty {K = ℕ} {V = List ℕ} c' [],
  nat_beq_iff t t',
)

pub clients-set_clients :
    (e : Engine) (t c : ℕ) (now : List ℕ) (t' c' : ℕ)
    → clients (set_clients e t c now) t' c'
      ≡ (if nat_beq t t' then if nat_beq c c' then now else clients e t c' else clients e t' c')
unfolding set_clients clients
clients-set_clients e t c now t' c' =
    let per = get_or e.client_subscriptions t empty in
    ground (
      arith,
      get_or-put e.client_subscriptions t t' (put per c now) empty,
      get_or-put per c c' now [],
      nat_beq_iff t t',
    )

clients-add_subscription :
    (e : Engine) (c t s t' c' : ℕ)
    → clients (add_subscription e c t s) t' c' ≡ (
        if nat_beq t t'
        then if nat_beq c c' then push_back (clients e t c) s else clients e t c'
        else clients e t' c')
unfolding add_subscription clients set_clients
clients-add_subscription e c t s t' c' =
    clients-set_clients e t c (push_back (clients e t c) s) t' c'

pub clients-subscribe :
    (e : Engine) (c t s t' c' : ℕ)
    → IsConsistent e
    → clients (subscribe e c t s) t' c' ≡ (
        if nat_beq t t'
        then if nat_beq c c' then push_back (clients e t c) s else clients e t c'
        else clients e t' c')
unfolding subscribe
clients-subscribe e c t s t' c' v =
    rw (clients-add_subscription (make_entries e c t) c t s t' c')
      (simp (λ (x y : ℕ). clients-make_entries e c t x y v))
