-- ===== src/Util/Window/Recent.antt =====
-- SlidingWindowT of src/include/util.h: what the window and its tree hold after insertions.
use firehose.Base.{
  ℕ, ◌+◌, ◌≤◌, ◌≡◌, inl, inr, refl, sym, ap, ◌∙◌, subst, List, [], ◌∷◌, ◌++◌, some, Bool-cases,
  if◌then◌else◌, leb, ltb, ◌==◌, nat_eq, arith, length, push_back, get_elem?, count, count-nil,
  count-cons, count-push_back, length-push_back, length-append, append-nil, append_assoc, ap₂,
}
use firehose.Util.Window.{
  Window, new_window, oms_insert, oms_erase, drop_oldest, insert, insert_all, get_min,
}

-- The items are in order: each is at most those after it.
pub data IsSorted : List ℕ → Type 0 where
  nil : IsSorted []
  cons :
      (x : ℕ) (xs : List ℕ) → ((v : ℕ) → 1 ≤ count v xs → x ≤ v) → IsSorted xs → IsSorted (x ∷ xs)

count-oms_insert :
    (v x : ℕ) (ys : List ℕ) → count v (oms_insert x ys) ≡ count v ys + (if x == v then 1 else 0)
unfolding oms_insert
count-oms_insert v x [] = ground (arith, count-cons v x [])
count-oms_insert v x (y ∷ ys) = ground (
  arith,
  count-cons v x (y ∷ ys),
  count-cons v y ys,
  count-cons v y (oms_insert x ys),
  count-oms_insert v x ys,
)

oms_insert-IsSorted : (x : ℕ) (ys : List ℕ) → IsSorted ys → IsSorted (oms_insert x ys)
unfolding oms_insert
oms_insert-IsSorted x [] s = cons x [] (λ v h. omega (arith, count-nil v)) nil
oms_insert-IsSorted x (y ∷ ys) (cons _ _ least s) = elim (Bool-cases (leb x y)) [
  | inl e ↦
      let first : oms_insert x (y ∷ ys) ≡ x ∷ y ∷ ys = ground arith in
      subst IsSorted (sym first)
        (cons x (y ∷ ys) (λ v h. ground (arith, count-cons v y ys, least v)) (cons y ys least s))
  | inr e ↦
      let later : oms_insert x (y ∷ ys) ≡ y ∷ oms_insert x ys = ground arith in
      subst IsSorted (sym later) (
        cons y (oms_insert x ys) (λ v h. ground (arith, count-oms_insert v x ys, least v))
          (oms_insert-IsSorted x ys s))
]

-- On items in order the tree erases one occurrence of the item, and the rest stays in order.
oms_erase-some :
    (x : ℕ) (ys : List ℕ)
    → IsSorted ys
    → 1 ≤ count x ys
    → (zs : List ℕ) × (oms_erase x ys ≡ some zs)
      × ((v : ℕ) → count v zs + (if x == v then 1 else 0) ≡ count v ys)
      × IsSorted zs
unfolding oms_erase
oms_erase-some x [] s h = absurd (omega (arith, count-nil x))
oms_erase-some x (y ∷ ys) (cons _ _ least s) h = elim (Bool-cases (leb x y)) [
  | inl e ↦
      let same : y ≡ x = ground (arith, count-cons x y ys, least x) in
      (ys, ground arith, λ v. ground (arith, count-cons v y ys), s)
  | inr e ↦
      let later : 1 ≤ count x ys = ground (arith, count-cons x y ys) in
      let (zs, found, counts, s') = oms_erase-some x ys s later in
      (
        y ∷ zs,
        ground arith,
        λ v. ground (arith, count-cons v y ys, count-cons v y zs, counts v),
        cons y zs (λ v k. least v (omega (arith, counts v))) s',
      )
]

-- The queue is no longer than the window, and the tree holds its items in order.
pub record IsWindow (w : Window) : Type 0 where
  pub bounded : length w.q ≤ w.window_size
  pub same : (v : ℕ) → count v w.q ≡ count v w.oms
  pub sorted : IsSorted w.oms

-- The items that stay: the latest `n`.
unfoldable pub latest : ℕ → List ℕ → List ℕ
latest n [] = []
latest n (x ∷ xs) = if ltb n (length (x ∷ xs)) then latest n xs else x ∷ xs

latest_all : (n : ℕ) (xs : List ℕ) → length xs ≤ n → latest n xs ≡ xs
unfolding latest
latest_all n [] h = refl
latest_all n (x ∷ xs) h = ground arith

-- The window after the item was added, before the oldest leaves.
trim :
    (w : Window) (items : List ℕ)
    → w.q ≡ items
    → length items ≤ w.window_size + 1
    → ((v : ℕ) → count v items ≡ count v w.oms)
    → IsSorted w.oms
    → (w' : Window) × ((if ltb w.window_size (length items) then drop_oldest w items else some w)
        ≡ some w')
      × IsWindow w'
      × (w'.window_size ≡ w.window_size)
      × (w'.q ≡ latest w.window_size items)
unfolding drop_oldest latest
trim w [] e short same sorted = (
  w,
  ground arith,
  record { bounded = ground arith; same = λ v. ap (count v) e ∙ same v; sorted = sorted },
  refl,
  e,
)
trim w (x ∷ xs) e short same sorted = elim (Bool-cases (ltb w.window_size (length (x ∷ xs)))) [
  | inl long ↦
      let (left, found, counts, s) =
        oms_erase-some x w.oms sorted (ground (arith, count-cons x x xs, same x)) in
      let w' : Window = record w { q = xs; oms = left } in
      (
        w',
        ground arith,
        record {
          bounded = ground arith;
          same = λ v. ground (arith, count-cons v x xs, counts v, same v);
          sorted = s;
        },
        refl,
        ground (arith, latest_all w.window_size xs),
      )
  | inr fits ↦ (
    w,
    ground arith,
    record { bounded = ground arith; same = λ v. ap (count v) e ∙ same v; sorted = sorted },
    refl,
    ground arith,
  )
]

-- An insertion into a well-formed window is defined, keeps it well-formed, and leaves the latest
-- items of those before and the new one.
pub insert-IsWindow :
    (w : Window) (x : ℕ)
    → IsWindow w
    → (w' : Window) × (insert w x ≡ some w')
      × IsWindow w'
      × (w'.window_size ≡ w.window_size)
      × (w'.q ≡ latest w.window_size (push_back w.q x))
unfolding insert
insert-IsWindow w x v =
    trim (record w { q = push_back w.q x; oms = oms_insert x w.oms }) (push_back w.q x) refl
      (omega (arith, v.bounded, length-push_back w.q x))
      (λ a. omega (arith, count-push_back a x w.q, count-oms_insert a x w.oms, v.same a))
      (oms_insert-IsSorted x w.oms v.sorted)

pub latest-append : (n : ℕ) (xs ys : List ℕ) → latest n (latest n xs ++ ys) ≡ latest n (xs ++ ys)
unfolding latest
latest-append n [] ys = refl
latest-append n (x ∷ xs) ys = ground (arith, latest-append n xs ys, length-append xs ys)

-- Insertions into a well-formed window are defined, keep it so, and leave the latest items.
pub insert_all-latest :
    (xs : List ℕ) (w : Window)
    → IsWindow w
    → (w' : Window) × (insert_all w xs ≡ some w')
      × IsWindow w'
      × (w'.q ≡ latest w.window_size (w.q ++ xs))
unfolding insert_all
insert_all-latest [] w v = (
  w,
  refl,
  v,
  sym (ap (latest w.window_size) (append-nil w.q) ∙ latest_all w.window_size w.q v.bounded),
)
insert_all-latest (x ∷ xs) w v =
    let (w₁, e₁, v₁, size, q₁) = insert-IsWindow w x v in
    let (w₂, e₂, v₂, q₂) = insert_all-latest xs w₁ v₁ in
    let chain : w₂.q ≡ latest w.window_size (w.q ++ x ∷ xs) =
      q₂
      ∙ ap₂ (λ n q. latest n (q ++ xs)) size q₁
      ∙ latest-append w.window_size (push_back w.q x) xs
      ∙ ap (latest w.window_size) (append_assoc w.q (x ∷ []) xs) in
    (w₂, ground arith, v₂, chain)

pub first_IsLeast :
    (oms : List ℕ) (m : ℕ)
    → IsSorted oms
    → get_elem? oms 0 ≡ some m
    → (1 ≤ count m oms) × ((v : ℕ) → 1 ≤ count v oms → m ≤ v)
first_IsLeast [] m s e = absurd cc
first_IsLeast (x ∷ xs) m (cons _ _ least s) e =
    let same : x ≡ m = ground arith in
    (ground (arith, count-cons m x xs), λ v h. ground (arith, count-cons v x xs, least v))

-- After any insertions into an empty window, none of which is undefined behaviour, the minimum of the
-- window stands among the latest `window_size` items, and is at most each of them.
get_min-insert_all :
    (window_size : ℕ) (xs : List ℕ)
    → (w : Window) × (insert_all (new_window window_size) xs ≡ some w)
      × ((m : ℕ)
          → get_min w ≡ some m
          → (1 ≤ count m (latest window_size xs))
            × ((v : ℕ) → 1 ≤ count v (latest window_size xs) → m ≤ v))
get_min-insert_all window_size xs =
    let empty_ok : IsWindow (new_window window_size) = record {
      bounded = omega arith;
      same = λ v. refl;
      sorted = nil;
    } in
    let (w, e, v, q) = insert_all-latest xs (new_window window_size) empty_ok in
    (
      w,
      e,
      λ m at.
          let (stands, least) = first_IsLeast w.oms m v.sorted at in
          (
            subst (λ items. 1 ≤ count m items) q (omega (arith, stands, v.same m)),
            λ a h. least a (omega (arith, v.same a, ap (count a) q, h)),
          ),
    )
