-- ===== src/Pump/Publish.antt =====
-- The ids that a pump gives, and what each engine is sent.
use firehose.Base.{
  ℕ, ap₂, zero, suc, ◌+◌, ◌%◌, ◌<◌, ◌≢◌, ◌≡◌, refl, ap, ◌∙◌, inl, inr, Bool-cases, List, [], ◌∷◌,
  ◌++◌, map, some, arith, if◌then◌else◌, nat_beq, count, count-nil, count-cons, replicate,
  get_elem?, add_u64, u64_mod, nat_eq,
}
use firehose.Api.{RequestPublish, RequestPrepare}
use firehose.Pump.{Pump, Sent, prepare, prepare_of, on_publish_receive}

-- What arrives from the publishers, in turn, each with the connection that it came on.
unfoldable pub publish_all : RequestPrepare → Pump → List (ℕ × RequestPublish) → Pump × List Sent
publish_all req p [] = (p, [])
publish_all req p ((c, r) ∷ rs) =
    let (p₁, sent) = on_publish_receive req p c r in
    let (p₂, more) = publish_all req p₁ rs in (p₂, sent ++ more)

-- The requests that go to one engine, in order.
unfoldable pub prepared_for : ℕ → List Sent → List RequestPrepare
prepared_for e [] = []
prepared_for e (prepare d r ∷ rest) =
    let more = prepared_for e rest in if nat_beq d e then r ∷ more else more

prepared_for-append :
    (e : ℕ) (xs ys : List Sent) → prepared_for e (xs ++ ys) ≡ prepared_for e xs ++ prepared_for e ys
unfolding prepared_for
prepared_for-append e [] ys = refl
prepared_for-append e (prepare d r ∷ xs) ys = ground (arith, prepared_for-append e xs ys)

prepared_for-map :
    (e : ℕ) (r : RequestPrepare) (ds : List ℕ)
    → prepared_for e (map (λ d. prepare d r) ds) ≡ replicate (count e ds) r
unfolding prepared_for
prepared_for-map e r [] = rw (count-nil e)
prepared_for-map e r (d ∷ ds) = elim (Bool-cases (nat_beq d e)) [
  | inl same ↦
      let one : 1 + count e ds ≡ suc (count e ds) = omega arith in
      rw (count-cons e d ds, same, one) (ap (λ m. r ∷ m) (prepared_for-map e r ds))
  | inr other ↦
      let none_here : 0 + count e ds ≡ count e ds = omega arith in
      rw (count-cons e d ds, other, none_here) (prepared_for-map e r ds)
]

-- The published messages under consecutive ids from `seed` on, which wrap at 64 bits.
abbrev pub numbered : RequestPrepare → ℕ → List (ℕ × RequestPublish) → List RequestPrepare
numbered req seed [] = []
numbered req seed ((c, r) ∷ rs) = prepare_of req seed r ∷ numbered req (add_u64 seed 1) rs

prepared_for-on_publish_receive :
    (req : RequestPrepare) (p : Pump) (c : ℕ) (r : RequestPublish) (e : ℕ)
    → count e p.engine_connections ≡ 1
    → prepared_for e (on_publish_receive req p c r).1
      ≡ prepare_of req p.global_request_id_seed r ∷ []
unfolding on_publish_receive
prepared_for-on_publish_receive req p c r e once =
    let q = prepare_of req p.global_request_id_seed r in
    prepared_for-map e q p.engine_connections ∙ ap (λ (n : ℕ). replicate n q) once

-- An engine that is connected once is sent every published message exactly once, in the order of
-- publication and under consecutive global ids from the pump's seed on.
pub prepared_for-publish_all :
    (req : RequestPrepare) (p : Pump) (rs : List (ℕ × RequestPublish)) (e : ℕ)
    → count e p.engine_connections ≡ 1
    → prepared_for e (publish_all req p rs).1 ≡ numbered req p.global_request_id_seed rs
unfolding publish_all on_publish_receive
prepared_for-publish_all req p [] e once = unfold prepared_for in refl
prepared_for-publish_all req p ((c, r) ∷ rs) e once =
    let (p₁, first) = on_publish_receive req p c r in
    prepared_for-append e first (publish_all req p₁ rs).1
    ∙ ap₂ ◌++◌ (prepared_for-on_publish_receive req p c r e once)
        (prepared_for-publish_all req p₁ rs e once)

-- The id of the message that is published `i`-th.
pub numbered-get :
    (req : RequestPrepare) (seed : ℕ) (rs : List (ℕ × RequestPublish)) (i : ℕ) {m : RequestPrepare}
    → get_elem? (numbered req seed rs) i ≡ some m
    → seed < u64_mod
    → m.global_id ≡ (seed + i) % u64_mod
numbered-get req seed [] i h s = cc
numbered-get req seed ((c, r) ∷ rs) zero h s = ground arith
numbered-get req seed ((c, r) ∷ rs) (suc i) h s =
    omega (arith, numbered-get req (add_u64 seed 1) rs i h (omega arith))

-- Two messages that a pump, whose seed is a 64-bit word, sends to an engine that is connected once
-- have different ids, if they are published fewer than 2^64 messages apart.
pub ids_differ :
    (req : RequestPrepare) (p : Pump) (rs : List (ℕ × RequestPublish)) (e i j : ℕ)
    {a b : RequestPrepare}
    → p.global_request_id_seed < u64_mod
    → count e p.engine_connections ≡ 1
    → get_elem? (prepared_for e (publish_all req p rs).1) i ≡ some a
    → get_elem? (prepared_for e (publish_all req p rs).1) j ≡ some b
    → i < j
    → j < i + u64_mod
    → a.global_id ≢ b.global_id
ids_differ req p rs e i j h once ha hb lt near same =
    let eq = prepared_for-publish_all req p rs e once in
    let s = p.global_request_id_seed in
    omega (arith, numbered-get req s rs i (rw eq at ha) h, numbered-get req s rs j (rw eq at hb) h)
