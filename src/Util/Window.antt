-- ===== src/Util/Window.antt =====
-- SlidingWindowT of src/include/util.h. A value of T is a number, in T's order (an int64_t is its
-- value plus 2^63). `oms`, a tree of libstdc++ that compares by std::less_equal, is the list of its
-- elements from the first to the last.
pub mod Recent
pub mod Least
use firehose.Base.{
  ℕ, ◌-◌, List, [], ◌∷◌, Option, none, some, if◌then◌else◌, ltb, leb, length, get_elem?, push_back,
}

pub record Window : Type 0 where
  pub window_size : ℕ
  pub q : List ℕ
  pub oms : List ℕ

-- SlidingWindowT(window_size)
abbrev pub new_window : ℕ → Window
new_window window_size = record { window_size = window_size; q = []; oms = [] }

-- oms.insert: the new item goes to a place where the order stays.
unfoldable pub oms_insert : ℕ → List ℕ → List ℕ
oms_insert x [] = x ∷ []
oms_insert x (y ∷ ys) = if leb x y then x ∷ y ∷ ys else y ∷ oms_insert x ys

-- oms.erase(oms.upper_bound(x)): upper_bound gives the first `y` for which the comparison of `x` with
-- `y` holds, and that comparison is less_equal. `none` is the undefined erase of the end.
unfoldable pub oms_erase : ℕ → List ℕ → Option (List ℕ)
oms_erase x [] = none
oms_erase x (y ∷ ys) =
    if leb x y then some ys else elim (oms_erase x ys) [ none ↦ none | some zs ↦ some (y ∷ zs) ]

-- The oldest item leaves both.
unfoldable pub drop_oldest : Window → List ℕ → Option Window
unfolding oms_erase
drop_oldest w [] = none
drop_oldest w (oldest ∷ rest) = elim (oms_erase oldest w.oms) [
  | none ↦ none
  | some left ↦ some (record w { q = rest; oms = left })
]

unfoldable pub insert : Window → ℕ → Option Window
unfolding oms_insert drop_oldest
insert w latest =
    let w' : Window = record w { q = push_back w.q latest; oms = oms_insert latest w.oms } in
    if ltb w.window_size (length w'.q) then drop_oldest w' w'.q else some w'

-- `none` is a read through the end of the tree.
abbrev pub get_value : Window → ℕ → Option ℕ
get_value w rank = get_elem? w.oms rank

abbrev pub get_min : Window → Option ℕ
get_min w = get_value w 0

abbrev pub get_max : Window → Option ℕ
get_max w = get_value w (length w.q - 1)

-- The items that come one after the other.
unfoldable pub insert_all : Window → List ℕ → Option Window
unfolding insert
insert_all w [] = some w
insert_all w (x ∷ xs) = elim (insert w x) [ none ↦ none | some w' ↦ insert_all w' xs ]
