-- ===== src/System/Calm/Work.antt =====
-- Without a new publication the messages run out: how many arrivals a state has before it.
use firehose.Base.{
  ℕ, zero, suc, ◌+◌, ◌≤◌, ◌≡◌, ◌↔◌, ◌⊎◌, inl, inr, refl, ap, subst, List-cases, ◌∙◌, List, [], ◌∷◌,
  ◌++◌, map, arith, nat_beq_iff, length, length-append, total, total-middle, total-ext,
  eq-nil_of_length, get_or-put, update, nat_eq,
}
use firehose.Api.{RequestPublish, RequestPrepare, blank_request_publish, blank_response_prepare}
use firehose.Engine as EngineNode
use firehose.Engine.{Engine}
use firehose.Engine.Entries.{nuzzles}
use firehose.System.{System, Prepare, copies_of, after_prepare, after_copy}
use firehose.System.Calm.{
  Arrival, arrive_prepare, arrive_copy, Arrivals, none_yet, one_more, IsSettled,
}

-- A message to an engine, and the copies that it will make.
abbrev pub weight : (ℕ → Engine) → Prepare → ℕ
weight engines m = 1 + length (nuzzles (engines m.engine) m.message.topic_id)

unfoldable pub work : System → ℕ
work s = total (weight s.engines) s.prepares + length s.copies

length-copies_of :
    (e : ℕ) (r : RequestPublish) (ns : List ℕ)
    → length (copies_of e (map (λ n. EngineNode.publish n r) ns)) ≡ length ns
unfolding copies_of
length-copies_of e r [] = refl
length-copies_of e r (n ∷ ns) = ap suc (length-copies_of e r ns)

nuzzles-on_prepare_receive :
    (l : EngineNode.Locals) (e : Engine) (c : ℕ) (r : RequestPrepare) (t : ℕ)
    → nuzzles (EngineNode.on_prepare_receive l e c r).0 t ≡ nuzzles e t
unfolding EngineNode.on_prepare_receive
nuzzles-on_prepare_receive l e c r t = ground (
  arith,
  get_or-put e.subscriptions r.topic_id t (nuzzles e r.topic_id) [],
  nat_beq_iff r.topic_id t,
)

length-middle {ℓ} :
    {A : Type ℓ} (xs : List A) (x : A) (ys : List A) → length (xs ++ x ∷ ys) ≡ 1 + length (xs ++ ys)
length-middle [] x ys = omega arith
length-middle (y ∷ xs) x ys = omega (arith, length-middle xs x ys)

-- Each arrival is one.
Arrival-work : {s t : System} → Arrival s t → work t + 1 ≡ work s
unfolding work after_prepare after_copy EngineNode.on_prepare_receive copies_of
Arrival-work {s = s} (arrive_prepare l c xs m ys at) =
    let e = s.engines m.engine in
    let now = (EngineNode.on_prepare_receive l e c m.message).0 in
    let engines = update s.engines m.engine now in
    let ns = nuzzles e m.message.topic_id in
    let same : (p : Prepare) → weight engines p ≡ weight s.engines p = λ p. ground (
      arith,
      nuzzles-on_prepare_receive l e c m.message p.message.topic_id,
      nat_beq_iff m.engine p.engine,
    ) in
    let whole : total (weight s.engines) s.prepares
        ≡ weight s.engines m + total (weight s.engines) (xs ++ ys) =
      ap (total (weight s.engines)) at ∙ total-middle (weight s.engines) xs m ys in
    omega (
      arith,
      total-ext (weight engines) (weight s.engines) (xs ++ ys) same,
      whole,
      length-append s.copies (
          copies_of m.engine
            (map (λ n. EngineNode.publish n (EngineNode.forward_of l m.message)) ns)),
      length-copies_of m.engine (EngineNode.forward_of l m.message) ns,
    )
Arrival-work {s = s} (arrive_copy xs m ys at) =
    let whole : length s.copies ≡ 1 + length (xs ++ ys) = ap length at ∙ length-middle xs m ys in
    omega (arith, whole)

Arrivals-work : {s t : System} {n : ℕ} → Arrivals s n t → work t + n ≡ work s
Arrivals-work none_yet = omega arith
Arrivals-work (one_more before a) = omega (arith, Arrivals-work before, Arrival-work a)

eq_nil_of_weight :
    (engines : ℕ → Engine) (ms : List Prepare) → total (weight engines) ms ≡ 0 → ms ≡ []
unfolding total
eq_nil_of_weight engines [] h = refl
eq_nil_of_weight engines (m ∷ ms) h = absurd (omega arith)

-- No work is left just where no message is on the way.
work-IsSettled : (s : System) → (work s ≡ 0) ↔ IsSettled s
unfolding work
work-IsSettled s = (
  λ h. record {
    no_prepare = eq_nil_of_weight s.engines s.prepares (omega arith);
    no_copy = eq-nil_of_length s.copies (omega arith);
  },
  λ e. rw (e.no_prepare, e.no_copy) (unfold total in refl),
)

-- However messages arrive, with no publication, no loss and no update between, the arrivals come to
-- an end: there are no more than the work of the state, one for each message to an engine, one for
-- each nuzzle's entry that it is then forwarded to, and one for each copy on the way; and they have
-- come to their end, with no message on the way, just where there were as many.
pub messages_run_out :
    {s t : System} (n : ℕ) → Arrivals s n t → (n ≤ work s) × ((n ≡ work s) ↔ IsSettled t)
messages_run_out {s = s} {t = t} n a =
    let whole : work t + n ≡ work s = Arrivals-work a in
    let settled = work-IsSettled t in
    (
      omega (arith, whole),
      (λ h. settled.0 (omega (arith, whole)), λ e. omega (arith, whole, settled.1 e)),
    )

-- What is assigned to the local variables before the first round.
abbrev blank_locals : EngineNode.Locals
blank_locals = record { response = blank_response_prepare; req = blank_request_publish }

-- A state with a message on the way has an arrival.
next : (s : System) → (IsSettled s) ⊎ ((t : System) × Arrival s t)
next s = elim (List-cases s.prepares) [
  | inr (m, ms, at) ↦ inr (_, arrive_prepare blank_locals 0 [] m ms at)
  | inl no_prepare ↦ elim (List-cases s.copies) [
    | inr (m, ms, at) ↦ inr (_, arrive_copy [] m ms at)
    | inl no_copy ↦ inl (record { no_prepare = no_prepare; no_copy = no_copy })
  ]
]

drain :
    {s : System} (rest n : ℕ) (t : System)
    → Arrivals s n t
    → work t ≡ rest
    → (u : System) × (k : ℕ) × Arrivals s k u × IsSettled u
drain zero n t a h = (t, n, a, (work-IsSettled t).0 h)
drain (suc rest) n t a h = elim (next t) [
  | inl settled ↦ (t, n, a, settled)
  | inr (u, more) ↦ drain rest (suc n) u (one_more a more) (omega (arith, Arrival-work more, h))
]

-- From every state, as many arrivals as the work of the state lead to one with no message on the way.
settles : (s : System) → (t : System) × Arrivals s (work s) t × IsSettled t
settles s =
    let (t, n, a, settled) = drain (work s) 0 s none_yet refl in
    let all : n ≡ work s = ((messages_run_out n a).1).1 settled in
    (t, subst (λ k. Arrivals s k t) all a, settled)
