-- ===== src/Ui/Sort/Laws.antt =====
-- The sort is one: the same elements, in ascending order of the keys, and those of equal keys in the
-- order they had.
use mathlib.Core.List.{Perm}
use mathlib.Core.List.Perm
use mathlib.Core.Path.{subst}
use cs4455_epic.Base.{
  ◌≡◌, refl, ap, sym, ◌∙◌, arith, Bool, true, false, ◌&&◌, List, [], ◌∷◌, map, if◌then◌else◌, All,
  All-mono, inl, inr, Bool-cases,
}
use cs4455_epic.Errors.{Result, ok, Result-cases}
use cs4455_epic.Ui.Sort.{keyed, insert_by, sort_by_key, sort_by}

pub record IsOrder {K : Type 0} (leq : K → K → Bool) : Type 0 where
  pub total : (a b : K) → leq a b ≡ false → leq b a ≡ true
  pub trans : (a b c : K) → leq a b ≡ true → leq b c ≡ true → leq a c ≡ true

module _ {K A : Type 0} (leq : K → K → Bool) where
  -- Every key is at most the ones behind it.
  pub IsAscending : List (K × A) → Type 0
  IsAscending [] = Unit
  IsAscending ((k, m) ∷ xs) = All (λ x. leq k x.0 ≡ true) xs × IsAscending xs

  -- The elements whose key equals `k`, in order.
  pub with_key : K → List (K × A) → List (K × A)
  with_key k [] = []
  with_key k ((j, m) ∷ xs) =
      let rest = with_key k xs in if leq k j && leq j k then (j, m) ∷ rest else rest

module _ {K A : Type 0} (leq : K → K → Bool) (order : IsOrder leq) where
  insert_by-All :
      (P : K × A → Type 0) (x : K × A) (xs : List (K × A))
      → P x
      → All P xs
      → All P (insert_by leq x xs)
  unfolding insert_by
  insert_by-All P (k, m) [] p h = (p, h)
  insert_by-All P (k, m) ((j, n) ∷ xs) p h = elim (Bool-cases (leq k j)) [
    | inl b ↦ rw b (p, h)
    | inr b ↦ rw b (h.0, insert_by-All P (k, m) xs p h.1)
  ]

  insert_by-Perm : (x : K × A) (xs : List (K × A)) → Perm (x ∷ xs) (insert_by leq x xs)
  unfolding insert_by
  insert_by-Perm (k, m) [] = Perm.refl _
  insert_by-Perm (k, m) ((j, n) ∷ xs) = elim (Bool-cases (leq k j)) [
    | inl b ↦ rw b (Perm.refl _)
    | inr b ↦
        rw b (Perm.trans (Perm.swap (j, n) (k, m) xs) (Perm.cons (j, n) (insert_by-Perm (k, m) xs)))
  ]

  insert_by-IsAscending :
      (x : K × A) (xs : List (K × A)) → IsAscending leq xs → IsAscending leq (insert_by leq x xs)
  unfolding insert_by IsAscending
  insert_by-IsAscending (k, m) [] h = (tt, tt)
  insert_by-IsAscending (k, m) ((j, n) ∷ xs) h = elim (Bool-cases (leq k j)) [
    | inl b ↦ rw b (
      (
        b,
        All-mono (λ x. leq j x.0 ≡ true) (λ x. leq k x.0 ≡ true) (λ x l. order.trans k j x.0 b l) xs
            h.0,
      ),
      h,
    )
    | inr b ↦ rw b (
      insert_by-All (λ x. leq j x.0 ≡ true) (k, m) xs (order.total k j b) h.0,
      insert_by-IsAscending (k, m) xs h.1,
    )
  ]

  insert_by-with_key :
      (c : K) (x : K × A) (xs : List (K × A))
      → with_key leq c (insert_by leq x xs) ≡ with_key leq c (x ∷ xs)
  unfolding insert_by with_key
  insert_by-with_key c (k, m) [] = refl
  insert_by-with_key c (k, m) ((j, n) ∷ xs) =
      ground (arith, insert_by-with_key c (k, m) xs, order.trans k c j)

  sort_by_key-All : (P : K × A → Type 0) (xs : List (K × A)) → All P xs → All P (sort_by_key leq xs)
  unfolding sort_by_key
  sort_by_key-All P [] h = tt
  sort_by_key-All P (x ∷ xs) h =
      insert_by-All P x (sort_by_key leq xs) h.0 (sort_by_key-All P xs h.1)

  sort_by_key-Perm : (xs : List (K × A)) → Perm xs (sort_by_key leq xs)
  unfolding sort_by_key
  sort_by_key-Perm [] = Perm.refl []
  sort_by_key-Perm (x ∷ xs) =
      Perm.trans (Perm.cons x (sort_by_key-Perm xs)) (insert_by-Perm x (sort_by_key leq xs))

  sort_by_key-IsAscending : (xs : List (K × A)) → IsAscending leq (sort_by_key leq xs)
  unfolding sort_by_key IsAscending
  sort_by_key-IsAscending [] = tt
  sort_by_key-IsAscending (x ∷ xs) =
      insert_by-IsAscending x (sort_by_key leq xs) (sort_by_key-IsAscending xs)

  sort_by_key-with_key :
      (c : K) (xs : List (K × A)) → with_key leq c (sort_by_key leq xs) ≡ with_key leq c xs
  unfolding sort_by_key with_key
  sort_by_key-with_key c [] = refl
  sort_by_key-with_key c (x ∷ xs) =
      insert_by-with_key c x (sort_by_key leq xs)
      ∙ ap (λ r. if leq c x.0 && leq x.0 c then x ∷ r else r) (sort_by_key-with_key c xs)

module _ {K A : Type 0} (key : A → Result K) where
  abbrev AreKeyed : List (K × A) → Type 0
  AreKeyed = All (λ x. key x.1 ≡ ok x.0)

  keyed-AreKeyed :
      (ms : List A) (ks : List (K × A))
      → keyed key ms ≡ ok ks
      → AreKeyed ks × (map (λ x. x.1) ks ≡ ms)
  unfolding keyed
  keyed-AreKeyed [] ks h = let e : [] ≡ ks = ground arith in rw (sym e) (tt, refl)
  keyed-AreKeyed (m ∷ ms) ks h = elim (Result-cases (key m)) [
    | inr (e, x) ↦ absurd (ground arith)
    | inl (k, x) ↦ elim (Result-cases (keyed key ms)) [
      | inr (e, y) ↦ absurd (ground arith)
      | inl (rest, y) ↦
          let e : (k, m) ∷ rest ≡ ks = ground arith in
          let (a, b) = keyed-AreKeyed ms rest y in rw (sym e) ((x, a), ap (λ r. m ∷ r) b)
    ]
  ]

  AreKeyed-keyed : (ks : List (K × A)) → AreKeyed ks → keyed key (map (λ x. x.1) ks) ≡ ok ks
  unfolding keyed
  AreKeyed-keyed [] h = refl
  AreKeyed-keyed ((k, m) ∷ ks) h = ground (arith, h.0, AreKeyed-keyed ks h.1)

-- `out` has the elements of `ms`, each as often; with the keys `before` of `ms` and `after` of
-- `out`, these ascend, and elements of equal keys stand in the same order in both.
pub record IsSortOf {K A : Type 0} (leq : K → K → Bool) (key : A → Result K) (ms out : List A)
    : Type 0 where
  pub perm : Perm ms out
  pub before : List (K × A)
  pub keys_before : keyed key ms ≡ ok before
  pub after : List (K × A)
  pub keys_after : keyed key out ≡ ok after
  pub ascending : IsAscending leq after
  pub stable : (c : K) → with_key leq c after ≡ with_key leq c before

module _ {K A : Type 0} (leq : K → K → Bool) (order : IsOrder leq) (key : A → Result K)
    (ms : List A) where
  sort-IsSortOf :
      (ks : List (K × A))
      → keyed key ms ≡ ok ks
      → IsSortOf leq key ms (map (λ x. x.1) (sort_by_key leq ks))
  sort-IsSortOf ks h =
      let (numbered, same) = keyed-AreKeyed key ms ks h in
      let sorted = sort_by_key leq ks in
      record {
        perm =
            subst (λ l. Perm l (map (λ x. x.1) sorted)) same
              (Perm.map (λ x. x.1) (sort_by_key-Perm leq order ks));
        before = ks;
        keys_before = h;
        after = sorted;
        keys_after =
            AreKeyed-keyed key sorted
              (sort_by_key-All leq order (λ x. key x.1 ≡ ok x.0) ks numbered);
        ascending = sort_by_key-IsAscending leq order ks;
        stable = λ c. sort_by_key-with_key leq order c ks;
      }

  -- Where every key can be computed, the sort succeeds.
  pub sort_by-ok :
      (ks : List (K × A))
      → keyed key ms ≡ ok ks
      → (out : List A) × (sort_by leq key ms ≡ ok out) × IsSortOf leq key ms out
  unfolding sort_by
  sort_by-ok ks h = (map (λ x. x.1) (sort_by_key leq ks), ground arith, sort-IsSortOf ks h)

  pub sort_by-IsSortOf : (out : List A) → sort_by leq key ms ≡ ok out → IsSortOf leq key ms out
  unfolding sort_by
  sort_by-IsSortOf out h = elim (Result-cases (keyed key ms)) [
    | inr (e, x) ↦ absurd (ground arith)
    | inl (ks, x) ↦
        let same : map (λ x. x.1) (sort_by_key leq ks) ≡ out = ground arith in
        subst (λ l. IsSortOf leq key ms l) same (sort-IsSortOf ks x)
  ]
