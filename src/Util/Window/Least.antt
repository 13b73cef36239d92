-- ===== src/Util/Window/Least.antt =====
-- SlidingWindowT of src/include/util.h: one insertion into a window, and the minimum after it.
use firehose.Base.{
  ℕ, ◌≤◌, ◌≡◌, inl, inr, sym, ap₂, ◌∙◌, subst, List, [], ◌∷◌, some, none, Option-cases, nat_eq,
  arith, length, push_back, get_elem?, count, count-nil, count-cons, length-push_back,
}
use firehose.Util.Window.{Window, insert, get_min}
use firehose.Util.Window.Recent.{IsWindow, latest, latest-append, insert-IsWindow, first_IsLeast}

pub record IsLeast (m : ℕ) (xs : List ℕ) : Type 0 where
  pub stands : 1 ≤ count m xs
  pub least : (v : ℕ) → 1 ≤ count v xs → m ≤ v

latest-nonempty : (n : ℕ) (xs : List ℕ) → 1 ≤ n → 1 ≤ length xs → 1 ≤ length (latest n xs)
unfolding latest
latest-nonempty n [] h k = absurd (omega arith)
latest-nonempty n (x ∷ []) h k = ground arith
latest-nonempty n (x ∷ y ∷ xs) h k = ground (arith, latest-nonempty n (y ∷ xs) h (omega arith))

no_item :
    (oms q : List ℕ)
    → get_elem? oms 0 ≡ none
    → 1 ≤ length q
    → ((v : ℕ) → count v q ≡ count v oms)
    → 1 ≤ 0
no_item [] [] h k same = absurd (omega arith)
no_item [] (x ∷ q) h k same = ground (arith, same x, count-cons x x q, count-nil x)
no_item (y ∷ oms) q h k same = absurd cc

-- A window with an item has a minimum.
get_min-IsLeast :
    (w : Window) → IsWindow w → 1 ≤ length w.q → (m : ℕ) × (get_min w ≡ some m) × IsLeast m w.q
get_min-IsLeast w v h = elim (Option-cases (get_min w)) [
  | inl q ↦ absurd (omega (arith, no_item w.oms w.q q h v.same))
  | inr (m, q) ↦
      let (stands, least) = first_IsLeast w.oms m v.sorted q in
      (
        m,
        q,
        record {
          stands = omega (arith, stands, v.same m);
          least = λ a k. least a (omega (arith, v.same a, k));
        },
      )
]

-- The tracker of all items `xs`, of which it has kept the latest.
pub record Tracks (size : ℕ) (xs : List ℕ) (w : Window) : Type 0 where
  pub window : IsWindow w
  pub size_is : w.window_size ≡ size
  pub items : w.q ≡ latest size xs

pub insert-Tracks :
    (size : ℕ) (xs : List ℕ) (w : Window) (x : ℕ)
    → 1 ≤ size
    → Tracks size xs w
    → (w' : Window) × (m : ℕ) × (insert w x ≡ some w')
      × (get_min w' ≡ some m)
      × Tracks size (push_back xs x) w'
      × IsLeast m (latest size (push_back xs x))
insert-Tracks size xs w x h v =
    let (w', e, ok, same, q) = insert-IsWindow w x v.window in
    let items : w'.q ≡ latest size (push_back xs x) =
      q
      ∙ ap₂ (λ n ys. latest n (push_back ys x)) v.size_is v.items
      ∙ latest-append size xs (x ∷ []) in
    let some_item =
      latest-nonempty size (push_back xs x) h (omega (arith, length-push_back xs x)) in
    let (m, at, least) =
      get_min-IsLeast w' ok (subst (λ ys. 1 ≤ length ys) (sym items) some_item) in
    (
      w',
      m,
      e,
      at,
      record { window = ok; size_is = same ∙ v.size_is; items = items },
      subst (IsLeast m) items least,
    )
