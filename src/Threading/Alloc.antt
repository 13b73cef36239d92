-- ===== src/Threading/Alloc.antt =====
-- CoreManager::alloc of src/include/thread.cpp: which cores an allocation gives, and when it fails.
use firehose.Base.{
  ℕ, zero, suc, ◌+◌, ◌<◌, ◌≡◌, ◌≢◌, ◌⊎◌, inl, inr, refl, sym, ap, ◌∙◌, List, [], ◌∷◌, none, some,
  Option-cases, Bool, true, false, get_elem?, set, arith, length, subst,
}
use firehose.Threading.{
  CoreManager, first_affine, first_free, affine_cores, choose, alloc, alloc_many,
}

-- The number of cores that are not in use.
unfoldable pub free : List Bool → ℕ
free [] = 0
free (false ∷ rest) = suc (free rest)
free (true ∷ rest) = free rest

free-set :
    (bs : List Bool) (i : ℕ) → get_elem? bs i ≡ some false → free bs ≡ suc (free (set bs i true))
unfolding free
free-set [] i h = absurd cc
free-set (b ∷ bs) zero h = ground arith
free-set (false ∷ bs) (suc i) h = ap suc (free-set bs i h)
free-set (true ∷ bs) (suc i) h = free-set bs i h

first_free-some : (bs : List Bool) (i : ℕ) → first_free bs ≡ some i → get_elem? bs i ≡ some false
unfolding first_free
first_free-some [] i h = absurd cc
first_free-some (false ∷ bs) zero h = refl
first_free-some (false ∷ bs) (suc i) h = absurd (ground arith)
first_free-some (true ∷ bs) i h = elim (Option-cases (first_free bs)) [
  | inl e ↦ absurd (ground arith)
  | inr (j, e) ↦
      let same : suc j ≡ i = ground arith in
      subst (λ k. get_elem? (true ∷ bs) k ≡ some false) same (first_free-some bs j e)
]

first_free-none : (bs : List Bool) → first_free bs ≡ none → free bs ≡ 0
unfolding first_free free
first_free-none [] h = refl
first_free-none (false ∷ bs) h = absurd cc
first_free-none (true ∷ bs) h = elim (Option-cases (first_free bs)) [
  | inl e ↦ first_free-none bs e
  | inr (i, e) ↦ absurd (ground arith)
]

first_affine-some :
    (bs : List Bool) (cores : List ℕ) (i : ℕ)
    → first_affine bs cores ≡ some i
    → get_elem? bs i ≡ some false
unfolding first_affine
first_affine-some bs [] i h = absurd cc
first_affine-some bs (core ∷ cores) i h = elim (Option-cases (get_elem? bs core)) [
  | inl e ↦ first_affine-some bs cores i (ground arith)
  | inr (true, e) ↦ first_affine-some bs cores i (ground arith)
  | inr (false, e) ↦
      let same : core ≡ i = ground arith in subst (λ k. get_elem? bs k ≡ some false) same e
]

choose-some : (m : CoreManager) (g i : ℕ) → choose m g ≡ some i → get_elem? m.in_use i ≡ some false
unfolding choose
choose-some m g i h = elim (Option-cases (first_affine m.in_use (affine_cores m g))) [
  | inl e ↦ first_free-some m.in_use i (ground arith)
  | inr (c, e) ↦ first_affine-some m.in_use (affine_cores m g) i (ground arith)
]

choose-none : (m : CoreManager) (g : ℕ) → choose m g ≡ none → free m.in_use ≡ 0
unfolding choose
choose-none m g h = elim (Option-cases (first_affine m.in_use (affine_cores m g))) [
  | inl e ↦ first_free-none m.in_use (ground arith)
  | inr (c, e) ↦ absurd (ground arith)
]

free-some : (bs : List Bool) (i : ℕ) → get_elem? bs i ≡ some false → free bs ≢ 0
free-some bs i h e = omega (arith, free-set bs i h)

-- What an allocation of one core does, in both cases.
pub alloc_lem :
    (m : CoreManager) (g : ℕ)
    → ((alloc m g ≡ none) × (free m.in_use ≡ 0))
      ⊎ ((c : ℕ) × (alloc m g ≡ some (c, record m { in_use = set m.in_use c true }))
          × (get_elem? m.in_use c ≡ some false))
unfolding alloc
alloc_lem m g = elim (Option-cases (choose m g)) [
  | inl e ↦ inl (ground arith, choose-none m g e)
  | inr (c, e) ↦ inr (c, ground arith, choose-some m g c e)
]

-- The cores are free one after the other, and in use after.
pub data Granted : List Bool → List ℕ → List Bool → Type 0 where
  nil : (bs : List Bool) → Granted bs [] bs
  cons :
      (bs : List Bool) (c : ℕ) (cores : List ℕ) (after : List Bool)
      → get_elem? bs c ≡ some false
      → Granted (set bs c true) cores after
      → Granted bs (c ∷ cores) after

-- An allocation of `n` cores either fails, which ends the program, and then fewer are free, or gives
-- `n` cores, one after the other free and then in use, and then that many fewer are free.
alloc_many_cases :
    (n : ℕ) (m : CoreManager) (g : ℕ)
    → ((alloc_many m n g ≡ none) × (free m.in_use < n))
      ⊎ ((cores : List ℕ) × (m' : CoreManager) × (alloc_many m n g ≡ some (cores, m'))
          × (length cores ≡ n)
          × (free m.in_use ≡ n + free m'.in_use)
          × Granted m.in_use cores m'.in_use)
unfolding alloc_many
alloc_many_cases zero m g = inr ([], m, refl, refl, omega arith, nil m.in_use)
alloc_many_cases (suc n) m g = elim (alloc_lem m g) [
  | inl (e, h) ↦ inl (ground arith, omega arith)
  | inr (c, e, at) ↦
      let m₁ : CoreManager = record m { in_use = set m.in_use c true } in
      let one_less = free-set m.in_use c at in
      elim (alloc_many_cases n m₁ g) [
        | inl (e', h) ↦ inl (ground arith, omega arith)
        | inr (cores, m', e', len, left, granted) ↦ inr (
          c ∷ cores,
          m',
          ground arith,
          ap suc len,
          omega arith,
          cons m.in_use c cores m'.in_use at granted,
        )
      ]
]

free_before :
    (bs : List Bool) (c d : ℕ)
    → get_elem? (set bs c true) d ≡ some false
    → get_elem? bs d ≡ some false
free_before [] c d h = h
free_before (b ∷ bs) zero zero h = absurd cc
free_before (b ∷ bs) zero (suc d) h = h
free_before (b ∷ bs) (suc c) zero h = h
free_before (b ∷ bs) (suc c) (suc d) h = free_before bs c d h

in_use_after : (bs : List Bool) (c : ℕ) → get_elem? (set bs c true) c ≢ some false
in_use_after [] c h = absurd cc
in_use_after (b ∷ bs) zero h = absurd cc
in_use_after (b ∷ bs) (suc c) h = in_use_after bs c h

Granted-free :
    (bs : List Bool) (cores : List ℕ) (after : List Bool) (i c : ℕ)
    → Granted bs cores after
    → get_elem? cores i ≡ some c
    → get_elem? bs c ≡ some false
Granted-free bs [] after i c (nil _) h = absurd cc
Granted-free bs (d ∷ cores) after zero c (cons _ _ _ _ at rest) h =
    let same : d ≡ c = ground arith in subst (λ k. get_elem? bs k ≡ some false) same at
Granted-free bs (d ∷ cores) after (suc i) c (cons _ _ _ _ at rest) h =
    free_before bs d c (Granted-free (set bs d true) cores after i c rest h)

Granted-after :
    (bs : List Bool) (d : ℕ) (cores : List ℕ) (after : List Bool) (i : ℕ)
    → Granted (set bs d true) cores after
    → get_elem? cores i ≢ some d
Granted-after bs d cores after i rest h =
    in_use_after bs d (Granted-free (set bs d true) cores after i d rest h)

Granted-once :
    (bs : List Bool) (cores : List ℕ) (after : List Bool) (i j c : ℕ)
    → Granted bs cores after
    → get_elem? cores i ≡ some c
    → get_elem? cores j ≡ some c
    → i ≡ j
Granted-once bs [] after i j c (nil _) h k = absurd cc
Granted-once bs (d ∷ cores) after zero zero c (cons _ _ _ _ at rest) h k = refl
Granted-once bs (d ∷ cores) after zero (suc j) c (cons _ _ _ _ at rest) h k =
    absurd (Granted-after bs d cores after j rest (k ∙ sym h))
Granted-once bs (d ∷ cores) after (suc i) zero c (cons _ _ _ _ at rest) h k =
    absurd (Granted-after bs d cores after i rest (h ∙ sym k))
Granted-once bs (d ∷ cores) after (suc i) (suc j) c (cons _ _ _ _ at rest) h k =
    ap suc (Granted-once (set bs d true) cores after i j c rest h k)

-- The cores of one allocation were all free before it, and no core is given twice.
alloc_many_distinct :
    (n : ℕ) (m m' : CoreManager) (g : ℕ) (cores : List ℕ)
    → alloc_many m n g ≡ some (cores, m')
    → ((i c : ℕ) → get_elem? cores i ≡ some c → get_elem? m.in_use c ≡ some false)
      × ((i j c : ℕ) → get_elem? cores i ≡ some c → get_elem? cores j ≡ some c → i ≡ j)
alloc_many_distinct n m m' g cores e = elim (alloc_many_cases n m g) [
  | inl (e', _) ↦ absurd cc
  | inr (cores', m'', e', _, _, granted) ↦
      let same : cores' ≡ cores = ground arith in
      (
        λ i c h. Granted-free m.in_use cores' m''.in_use i c granted (ground arith),
        λ i j c h k.
            Granted-once m.in_use cores' m''.in_use i j c granted (ground arith) (ground arith),
      )
]
