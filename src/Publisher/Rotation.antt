-- ===== src/Publisher/Rotation.antt =====
-- Publisher::publish of src/firehose/publisher.cpp, for publications one after the other.
use firehose.Base.{
  map, ℕ, zero, suc, ◌+◌, ◌%◌, ◌<◌, ◌≡◌, refl, List, [], ◌∷◌, Option, none, some, arith, get_elem?,
  length, ap, sym, ◌∙◌, ◌++◌, Option-cases, inl, inr,
}
use native.Mathlib.Nat.{mod-add-mod, mod-eq_of_lt, mod-lt}
use firehose.Api.{RequestPublish}
use firehose.Publisher.{Publisher, Sent, publish_to, publish}

-- The requests that the program publishes, in turn, each at its time.
unfoldable pub publish_all : Publisher → List (ℕ × RequestPublish) → Option (Publisher × List Sent)
publish_all p [] = some (p, [])
publish_all p ((now, r) ∷ rs) = elim (publish now p r) [
  | none ↦ none
  | some (p', first) ↦ elim (publish_all p' rs) [
    | none ↦ none
    | some (p'', rest) ↦ some (p'', first ∷ rest)
  ]
]

pub get_elem?-some {ℓ} :
    {A : Type ℓ} (xs : List A) (i : ℕ) → i < length xs → (x : A) × (get_elem? xs i ≡ some x)
get_elem?-some [] i h = absurd (omega arith)
get_elem?-some (x ∷ xs) zero h = (x, refl)
get_elem?-some (x ∷ xs) (suc i) h = get_elem?-some xs i (omega arith)

-- The index is inside the vector of pumps.
pub record IsReady (p : Publisher) : Type 0 where
  pub inside : p.pump_index < length p.pump_connections

-- The turns after the first are the turns of a publisher whose index is one further, around the end.
later_turns :
    (pumps : List ℕ) (index : ℕ) (first : ℕ) (q : RequestPublish) (rest : List Sent)
    → index < length pumps
    → get_elem? pumps index ≡ some first
    → ((i pump : ℕ) (r : RequestPublish)
        → get_elem? rest i ≡ some (publish_to pump r)
        → get_elem? pumps (((index + 1) % length pumps + i) % length pumps) ≡ some pump)
    → (i pump : ℕ) (r : RequestPublish)
    → get_elem? (publish_to first q ∷ rest) i ≡ some (publish_to pump r)
    → get_elem? pumps ((index + i) % length pumps) ≡ some pump
later_turns pumps index first q rest inside at turns zero pump r h =
    let same : (index + 0) % length pumps ≡ index =
      ap (λ n. n % length pumps) (omega arith) ∙ mod-eq_of_lt inside in
    ap (get_elem? pumps) same ∙ at ∙ ground arith
later_turns pumps index first q rest inside at turns (suc i) pump r h =
    let shift : (index + suc i) % length pumps ≡ ((index + 1) % length pumps + i) % length pumps =
      ap (λ n. n % length pumps) (omega arith) ∙ sym (mod-add-mod (index + 1) (length pumps) i) in
    ap (get_elem? pumps) shift ∙ turns i pump r h

-- What is sent, and a request with the time of its publication.
abbrev pub message_of : Sent → RequestPublish
message_of (publish_to pump r) = r

abbrev pub stamped : ℕ × RequestPublish → RequestPublish
stamped (now, r) = record r { timestamp = now }

-- If the index is inside the list of pumps, no publication is undefined behaviour, the messages are
-- sent in order, each with the time of its publication, and message `i` goes to the pump that stands
-- `i` places after the index, around the end of the list.
pub publish_all_rotates :
    (p : Publisher) (rs : List (ℕ × RequestPublish))
    → IsReady p
    → (p' : Publisher) × (sent : List Sent) × (publish_all p rs ≡ some (p', sent))
      × IsReady p'
      × (p'.pump_connections ≡ p.pump_connections)
      × (map message_of sent ≡ map stamped rs)
      × ((i pump : ℕ) (r : RequestPublish)
          → get_elem? sent i ≡ some (publish_to pump r)
          → get_elem? p.pump_connections ((p.pump_index + i) % length p.pump_connections)
            ≡ some pump)
unfolding publish_all publish
publish_all_rotates p [] v = (p, [], refl, v, refl, refl, λ i pump r h. cc)
publish_all_rotates p ((now, r) ∷ rs) v =
    let pumps = p.pump_connections in
    let (pump, at) = get_elem?-some pumps p.pump_index v.inside in
    let p₁ : Publisher = record p { pump_index = (p.pump_index + 1) % length pumps } in
    let ready : IsReady p₁ = record { inside = mod-lt (p.pump_index + 1) (omega arith) } in
    let (p', rest, e, v', same, messages, turns) = publish_all_rotates p₁ rs ready in
    let first = publish_to pump (record r { timestamp = now }) in
    let sent = later_turns pumps p.pump_index pump (message_of first) rest v.inside at turns in
    (p', first ∷ rest, ground arith, v', same, ap (λ ms. message_of first ∷ ms) messages, sent)

-- Publications after others.
pub publish_all-append :
    (p p₁ p₂ : Publisher) (xs ys : List (ℕ × RequestPublish)) (sent more : List Sent)
    → publish_all p xs ≡ some (p₁, sent)
    → publish_all p₁ ys ≡ some (p₂, more)
    → publish_all p (xs ++ ys) ≡ some (p₂, sent ++ more)
unfolding publish_all
publish_all-append p p₁ p₂ [] ys sent more h k = ground arith
publish_all-append p p₁ p₂ ((now, r) ∷ xs) ys sent more h k =
    elim (Option-cases (publish now p r)) [
      | inl q ↦ ground arith
      | inr ((p', first), q) ↦ elim (Option-cases (publish_all p' xs)) [
        | inl z ↦ ground arith
        | inr ((p'', rest), z) ↦
            ground (arith, publish_all-append p' p₁ p₂ xs ys rest more (ground arith) k)
      ]
    ]
