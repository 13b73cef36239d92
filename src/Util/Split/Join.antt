-- ===== src/Util/Split/Join.antt =====
-- `split` of src/include/util.cpp and the join of its parts.
use firehose.Base.{
  ℕ, zero, suc, ◌+◌, ◌≤◌, ◌<◌, ◌≡◌, ◌⊎◌, inl, inr, refl, sym, ap, ◌∙◌, List, [], ◌∷◌, ◌++◌, none,
  some, Bool-cases, nat_beq, nat_eq, length, arith, count, count-nil, count-cons, length-append,
}
use firehose.Api.{Bytes}
use firehose.Util.Split.{getline, split_loop, split}

-- The parts with the delimiter between them.
unfoldable pub join : ℕ → List Bytes → Bytes
join delimiter [] = []
join delimiter (part ∷ []) = part
join delimiter (part ∷ next ∷ parts) = part ++ delimiter ∷ join delimiter (next ∷ parts)

-- None of the parts has the delimiter in it.
pub data AllWithout (delimiter : ℕ) : List Bytes → Type 0 where
  nil : AllWithout delimiter []
  cons :
      (part : Bytes) (parts : List Bytes)
      → count delimiter part ≡ 0
      → AllWithout delimiter parts
      → AllWithout delimiter (part ∷ parts)

getline_cases :
    (d : ℕ) (s : Bytes)
    → ((getline d s ≡ (s, none)) × (count d s ≡ 0))
      ⊎ ((line : Bytes) × (rest : Bytes) × (getline d s ≡ (line, some rest))
          × (line ++ d ∷ rest ≡ s)
          × (count d line ≡ 0)
          × (count d s ≡ count d rest + 1)
          × (length rest < length s))
unfolding getline
getline_cases d [] = inl (refl, count-nil d)
getline_cases d (c ∷ cs) = elim (Bool-cases (nat_beq c d)) [
  | inl e ↦ inr (
    [],
    cs,
    ground arith,
    ground arith,
    count-nil d,
    ground (arith, count-cons d c cs),
    omega arith,
  )
  | inr e ↦ elim (getline_cases d cs) [
    | inl (g, none_left) ↦ inl (ground arith, ground (arith, count-cons d c cs))
    | inr (line, rest, g, whole, clean, counts, short) ↦ inr (
      c ∷ line,
      rest,
      ground arith,
      ap (λ x. c ∷ x) whole,
      ground (arith, count-cons d c line),
      ground (arith, count-cons d c cs),
      omega arith,
    )
  ]
]

split_loop_lem :
    (fuel d : ℕ) (s : Bytes)
    → length s < fuel
    → (part : Bytes) × (parts : List Bytes) × (split_loop fuel d s ≡ some (part ∷ parts))
      × (join d (part ∷ parts) ≡ s)
      × AllWithout d (part ∷ parts)
      × (length parts ≡ count d s)
unfolding split_loop join
split_loop_lem zero d s h = absurd (omega arith)
split_loop_lem (suc fuel) d s h = elim (getline_cases d s) [
  | inl (g, clean) ↦ (s, [], ground arith, refl, cons s [] clean nil, sym clean)
  | inr (line, rest, g, whole, clean, counts, short) ↦
      let (part, parts, e, joined, without, number) = split_loop_lem fuel d rest (omega arith) in
      (
        line,
        part ∷ parts,
        ground arith,
        ap (λ x. line ++ d ∷ x) joined ∙ whole,
        cons line (part ∷ parts) clean without,
        omega arith,
      )
]

-- The loop of `split` ends for every string and delimiter, and its parts, of which there is one more
-- than the string has delimiters, have no delimiter in them and are the string when they are joined.
pub join-split :
    (s : Bytes) (d : ℕ)
    → (parts : List Bytes) × (split s d ≡ some parts)
      × (join d parts ≡ s)
      × AllWithout d parts
      × (length parts ≡ count d s + 1)
unfolding split
join-split s d =
    let (part, parts, e, joined, without, number) =
      split_loop_lem (length s + 1) d s (omega arith) in
    (part ∷ parts, e, joined, without, omega arith)

getline-clean : (d : ℕ) (part : Bytes) → count d part ≡ 0 → getline d part ≡ (part, none)
getline-clean d part h = elim (getline_cases d part) [
  | inl (g, _) ↦ g
  | inr (_, _, _, _, _, counts, _) ↦ absurd (omega arith)
]

getline-append :
    (d : ℕ) (part rest : Bytes)
    → count d part ≡ 0
    → getline d (part ++ d ∷ rest) ≡ (part, some rest)
unfolding getline
getline-append d [] rest h = ground (arith)
getline-append d (c ∷ part) rest h = ground (arith, count-cons d c part, getline-append d part rest)

length-join :
    (d : ℕ) (part : Bytes) (parts : List Bytes) → length parts ≤ length (join d (part ∷ parts))
unfolding join
length-join d part [] = omega arith
length-join d part (next ∷ parts) =
    omega (arith, length-join d next parts, length-append part (d ∷ join d (next ∷ parts)))

split_loop-join :
    (fuel d : ℕ) (part : Bytes) (parts : List Bytes)
    → AllWithout d (part ∷ parts)
    → length parts < fuel
    → split_loop fuel d (join d (part ∷ parts)) ≡ some (part ∷ parts)
unfolding split_loop join
split_loop-join zero d part parts v h = absurd (omega arith)
split_loop-join (suc fuel) d part [] (cons _ _ clean v) h = ground (arith, getline-clean d part)
split_loop-join (suc fuel) d part (next ∷ parts) (cons _ _ clean v) h =
    ground
      (arith, getline-append d part (join d (next ∷ parts)), split_loop-join fuel d next parts v)

-- Parts with no delimiter in them, joined, are split into themselves.
pub split-join :
    (d : ℕ) (part : Bytes) (parts : List Bytes)
    → AllWithout d (part ∷ parts)
    → split (join d (part ∷ parts)) d ≡ some (part ∷ parts)
unfolding split
split-join d part parts v =
    split_loop-join (length (join d (part ∷ parts)) + 1) d part parts v
      (omega (arith, length-join d part parts))
