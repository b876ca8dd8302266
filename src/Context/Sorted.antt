-- ===== src/Context/Sorted.antt =====
-- Lemmas on sorting, filtering and joining.
use penampakan.Base.{
  ℕ, suc, ◌+◌, ◌-◌, ◌≡◌, refl, ap, ◌∙◌, String, Bool, true, ◌&&◌, ◌||◌, List, [], ◌∷◌, ◌++◌, map,
  length, arith, inl, inr, Bool-cases, length-append, str_eq, eq_iff,
}
use penampakan.Base.Texts.{contains}
use penampakan.Context.Lines.{Text, insert_by, sort_by, filter, join_lines}

-- the characters of some lines, each with one more
abbrev pub total : List Text → ℕ
total [] = 0
total (x ∷ xs) = suc (length x) + total xs

pub length-join_lines : (lines : List Text) → length (join_lines lines) ≡ total lines - 1
unfolding join_lines
length-join_lines [] = refl
length-join_lines (x ∷ []) = omega arith
length-join_lines (x ∷ y ∷ ys) =
    omega (arith, length-append x (10 ∷ join_lines (y ∷ ys)), length-join_lines (y ∷ ys))

module _ {ℓ} {A : Type ℓ} (less : A → A → Bool) where
  total-insert_by :
      (f : A → Text) (x : A) (xs : List A)
      → total (map f (insert_by less x xs)) ≡ suc (length (f x)) + total (map f xs)
  unfolding insert_by
  total-insert_by f x [] = refl
  total-insert_by f x (y ∷ ys) = ground (arith, total-insert_by f x ys)

  pub total-sort_by :
      (f : A → Text) (xs : List A) → total (map f (sort_by less xs)) ≡ total (map f xs)
  unfolding sort_by
  total-sort_by f [] = refl
  total-sort_by f (x ∷ xs) =
      total-insert_by f x (sort_by less xs) ∙ ap (λ n. suc (length (f x)) + n) (total-sort_by f xs)

  contains-insert_by :
      (f : A → String) (id : String) (x : A) (xs : List A)
      → contains id (map f (insert_by less x xs)) ≡ (str_eq (f x) id || contains id (map f xs))
  unfolding insert_by contains
  contains-insert_by f id x [] = refl
  contains-insert_by f id x (y ∷ ys) = ground (arith, contains-insert_by f id x ys)

  -- sorting keeps what is there
  pub contains-sort_by :
      (f : A → String) (id : String) (xs : List A)
      → contains id (map f (sort_by less xs)) ≡ contains id (map f xs)
  unfolding sort_by contains
  contains-sort_by f id [] = refl
  contains-sort_by f id (x ∷ xs) =
      contains-insert_by f id x (sort_by less xs)
      ∙ ap (λ b. str_eq (f x) id || b) (contains-sort_by f id xs)

  length-insert_by : (x : A) (xs : List A) → length (insert_by less x xs) ≡ suc (length xs)
  unfolding insert_by
  length-insert_by x [] = refl
  length-insert_by x (y ∷ ys) = ground (arith, length-insert_by x ys)

  pub length-sort_by : (xs : List A) → length (sort_by less xs) ≡ length xs
  unfolding sort_by
  length-sort_by [] = refl
  length-sort_by (x ∷ xs) = length-insert_by x (sort_by less xs) ∙ ap suc (length-sort_by xs)

module _ {ℓ} {A : Type ℓ} where
  pub contains-append :
      (f : A → String) (id : String) (xs ys : List A)
      → contains id (map f (xs ++ ys)) ≡ (contains id (map f xs) || contains id (map f ys))
  unfolding contains
  contains-append f id [] ys = refl
  contains-append f id (x ∷ xs) ys = ground (arith, contains-append f id xs ys)

  pub total-append :
      (f : A → Text) (xs ys : List A)
      → total (map f (xs ++ ys)) ≡ total (map f xs) + total (map f ys)
  total-append f [] ys = omega arith
  total-append f (x ∷ xs) ys = omega (arith, total-append f xs ys)

  -- an item of a part is an item of the whole
  pub contains-filter :
      (p : A → Bool) (f : A → String) (id : String) (xs : List A)
      → contains id (map f (filter p xs)) ≡ true
      → contains id (map f xs) ≡ true
  unfolding contains filter
  contains-filter p f id [] h = h
  contains-filter p f id (x ∷ xs) h = elim (Bool-cases (p x)) [
    | inl e ↦ ground (arith, e, contains-filter p f id xs)
    | inr e ↦ ground (arith, e, contains-filter p f id xs)
  ]

  -- a test on names alone decides which names stay
  pub contains-filter_name :
      (q : String → Bool) (f : A → String) (id : String) (xs : List A)
      → contains id (map f (filter (λ x. q (f x)) xs)) ≡ (q id && contains id (map f xs))
  unfolding contains filter
  contains-filter_name q f id [] = ground arith
  contains-filter_name q f id (x ∷ xs) = elim (Bool-cases (str_eq (f x) id)) [
    | inl e ↦
        let same : f x ≡ id = ground (arith, eq_iff (f x) id) in
        elim (Bool-cases (q id)) [
          | inl k ↦ ground (arith, e, same, k, ap q same, contains-filter_name q f id xs)
          | inr k ↦ ground (arith, e, same, k, ap q same, contains-filter_name q f id xs)
        ]
    | inr e ↦ ground (arith, e, contains-filter_name q f id xs)
  ]
