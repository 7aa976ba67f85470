-- ===== src/Ui/Selection.antt =====
-- Row selection, frontend/src/mystic_auth/ui/DataTable/DataTableSelection.ts. Row keys are numbers
-- here, and a `Set` is the list of its keys.
use manifest_cv.Prelude.{
  ℕ, ◌≡◌, refl, List, [], ◌∷◌, map, Bool, not, ◌&&◌, ◌||◌, filter, all, length, includes, add,
  remove, includes-add, includes-remove, ◌==◌, nat_eq, nat_eqb, ltb, if◌then◌else◌, arith,
  length-filter-le,
}

unfoldable pub all_keys_on_screen {ℓ} : {A : Type ℓ} → (A → ℕ) → List ℕ → List A → List ℕ
unfolding includes
all_keys_on_screen row_key disabled rows =
    filter (λ k. not (includes disabled k)) (map row_key rows)

unfoldable pub selected_on_screen_count : List ℕ → List ℕ → ℕ
selected_on_screen_count screen selected = length (filter (λ k. includes selected k) screen)

unfoldable pub is_all_selected : List ℕ → List ℕ → Bool
unfolding selected_on_screen_count
is_all_selected screen selected =
    ltb 0 (length screen) && nat_eqb (selected_on_screen_count screen selected) (length screen)

unfoldable pub is_some_selected : List ℕ → List ℕ → Bool
unfolding selected_on_screen_count is_all_selected
is_some_selected screen selected =
    ltb 0 (selected_on_screen_count screen selected) && not (is_all_selected screen selected)

unfoldable pub toggle_row : ℕ → List ℕ → List ℕ
unfolding includes
toggle_row key prev = if includes prev key then remove key prev else add key prev

abbrev pub remove_each : List ℕ → List ℕ → List ℕ
remove_each [] set = set
remove_each (k ∷ rest) set = remove_each rest (remove k set)

abbrev pub add_each : List ℕ → List ℕ → List ℕ
add_each [] set = set
add_each (k ∷ rest) set = add_each rest (add k set)

abbrev pub has_all : List ℕ → List ℕ → Bool
has_all screen prev = ltb 0 (length screen) && all (λ k. includes prev k) screen

unfoldable pub toggle_all : List ℕ → List ℕ → List ℕ
toggle_all screen prev =
    if has_all screen prev then remove_each screen prev else add_each screen prev

unfoldable pub clear_selection : List ℕ → List ℕ → List ℕ
clear_selection screen prev = remove_each screen prev

includes-remove_each :
    (screen prev : List ℕ) (k : ℕ)
    → includes (remove_each screen prev) k ≡ (includes prev k && not (includes screen k))
unfolding includes
includes-remove_each [] prev k = ground arith
includes-remove_each (x ∷ rest) prev k =
    ground (arith, includes-remove_each rest (remove x prev) k, includes-remove x k prev)

includes-add_each :
    (screen prev : List ℕ) (k : ℕ)
    → includes (add_each screen prev) k ≡ (includes screen k || includes prev k)
unfolding includes
includes-add_each [] prev k = refl
includes-add_each (x ∷ rest) prev k =
    ground (arith, includes-add_each rest (add x prev) k, includes-add x k prev)

-- Toggling a row changes whether that row is selected, and no other.
pub includes-toggle_row :
    (key k : ℕ) (prev : List ℕ)
    → includes (toggle_row key prev) k
      ≡ (if key == k then not (includes prev k) else includes prev k)
unfolding toggle_row
includes-toggle_row key k prev = ground (arith, includes-add key k prev, includes-remove key k prev)

-- Toggling all leaves the rows that are not on the screen as they are, and selects each row on the
-- screen, unless all of them are selected already: then it deselects each of them.
pub includes-toggle_all :
    (screen prev : List ℕ) (k : ℕ)
    → includes (toggle_all screen prev) k
      ≡ (if includes screen k then not (has_all screen prev) else includes prev k)
unfolding toggle_all
includes-toggle_all screen prev k =
    ground (arith, includes-remove_each screen prev k, includes-add_each screen prev k)

count_all :
    (screen selected : List ℕ)
    → nat_eqb (length (filter (λ k. includes selected k) screen)) (length screen)
      ≡ all (λ k. includes selected k) screen
count_all [] selected = refl
count_all (x ∷ rest) selected =
    ground (arith, count_all rest selected, length-filter-le (λ k. includes selected k) rest)

-- The header checkbox is checked, by counting, exactly if the test of the toggle finds all rows of the
-- screen selected.
pub is_all_selected-eq-has_all :
    (screen selected : List ℕ) → is_all_selected screen selected ≡ has_all screen selected
unfolding is_all_selected selected_on_screen_count
is_all_selected-eq-has_all screen selected = ground (arith, count_all screen selected)
