-- ===== src/Ui/Sort.antt =====
-- Python's `list.sort(key=...)`, as client/src/ui/main_frame.py calls it: the keys are computed
-- first, and the sort by them is stable.
pub mod Laws
use cs4455_epic.Base.{Bool, List, [], ◌∷◌, map, if◌then◌else◌}
use cs4455_epic.Errors.{Result, ok, err}

module _ {K A : Type 0} where
  unfoldable pub keyed : (A → Result K) → List A → Result (List (K × A))
  keyed key [] = ok []
  keyed key (m ∷ ms) =
      let rest = keyed key ms in
      elim (key m) [ err e ↦ err e | ok k ↦ elim rest [ err e ↦ err e | ok ks ↦ ok ((k, m) ∷ ks) ] ]

  module _ (leq : K → K → Bool) where
    unfoldable pub insert_by : K × A → List (K × A) → List (K × A)
    insert_by (k, m) [] = (k, m) ∷ []
    insert_by (k, m) ((j, n) ∷ rest) =
        let later = insert_by (k, m) rest in
        if leq k j then (k, m) ∷ (j, n) ∷ rest else (j, n) ∷ later

    unfoldable pub sort_by_key : List (K × A) → List (K × A)
    unfolding insert_by
    sort_by_key [] = []
    sort_by_key (x ∷ xs) = insert_by x (sort_by_key xs)

  unfoldable pub sort_by : (K → K → Bool) → (A → Result K) → List A → Result (List A)
  unfolding keyed sort_by_key
  sort_by leq key ms = elim (keyed key ms) [
    | err e ↦ err e
    | ok ks ↦ ok (map (λ x. x.1) (sort_by_key leq ks))
  ]
