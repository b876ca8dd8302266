-- ===== src/Models/Boxes.antt =====
-- `Point` and `Box` of src/penampakan/models.py: normalized coordinates, validated on construction.
use penampakan.Base.{
  Bool, true, false, ◌&&◌, ◌||◌, Option, none, some, ◌≡◌, refl, if◌then◌else◌, Bool-cases, ◌⊎◌, inl,
  inr,
}
use penampakan.Base.Int.{pos}
use penampakan.Base.Floats.{Floats, max_float, min_float}
use penampakan.Base.Errors.{value_error}
use penampakan.Base.Result.{Result, ok, ◌>>=◌, ◌>>◌, require, reject}

pub record Point (F : Floats) : Type 0 where
  pub x : F.Float
  pub y : F.Float

pub record Box (F : Floats) : Type 0 where
  pub x_min : F.Float
  pub y_min : F.Float
  pub x_max : F.Float
  pub y_max : F.Float

module _ (F : Floats) where
  abbrev one : F.Float
  one = F.of_int (pos 1)

  -- `Field(ge=0.0, le=1.0)` with `_finite`
  abbrev pub is_normalized : F.Float → Bool
  is_normalized x = F.le F.zero_float x && F.le x one && F.is_finite x

  -- the construction of a `Box`
  unfoldable pub box : F.Float → F.Float → F.Float → F.Float → Result (Box F)
  box x_min y_min x_max y_max = do
    require
        (is_normalized x_min && is_normalized y_min && is_normalized x_max && is_normalized y_max)
        value_error
    reject (F.le x_max x_min) value_error
    reject (F.le y_max y_min) value_error
    ok (record { x_min = x_min; y_min = y_min; x_max = x_max; y_max = y_max })

  -- `Box.intersection`
  unfoldable pub intersection : Box F → Box F → Result (Option (Box F))
  unfolding box
  intersection a b =
      let x_min = max_float F a.x_min b.x_min in
      let y_min = max_float F a.y_min b.y_min in
      let x_max = min_float F a.x_max b.x_max in
      let y_max = min_float F a.y_max b.y_max in
      if F.le x_max x_min || F.le y_max y_min
      then ok none
      else do shared ← box x_min y_min x_max y_max; ok (some shared)

  -- `Box.contains` of a box
  unfoldable pub contains_box : Box F → Box F → Bool
  contains_box a b =
      F.le a.x_min b.x_min && F.le a.y_min b.y_min && F.le b.x_max a.x_max && F.le b.y_max a.y_max

  -- `Box.contains` of a point
  unfoldable pub contains_point : Box F → Point F → Bool
  contains_point a p =
      F.le a.x_min p.x && F.le p.x a.x_max && (F.le a.y_min p.y && F.le p.y a.y_max)

  -- `==` of two boxes, and of two optional boxes
  unfoldable pub same_box : Box F → Box F → Bool
  same_box a b =
      F.eq a.x_min b.x_min && F.eq a.y_min b.y_min && F.eq a.x_max b.x_max && F.eq a.y_max b.y_max

  -- A box that the constructor would accept.
  pub record IsBox (b : Box F) : Type 0 where
    pub x_min_normal : is_normalized b.x_min ≡ true
    pub y_min_normal : is_normalized b.y_min ≡ true
    pub x_max_normal : is_normalized b.x_max ≡ true
    pub y_max_normal : is_normalized b.y_max ≡ true
    pub wide : F.le b.x_max b.x_min ≡ false
    pub high : F.le b.y_max b.y_min ≡ false

  choose_normal :
      (c : Bool) (a b : F.Float)
      → is_normalized a ≡ true
      → is_normalized b ≡ true
      → is_normalized (if c then a else b) ≡ true
  choose_normal true a b h k = h
  choose_normal false a b h k = k

  shared_box : Box F → Box F → Box F
  shared_box a b = record {
    x_min = max_float F a.x_min b.x_min;
    y_min = max_float F a.y_min b.y_min;
    x_max = min_float F a.x_max b.x_max;
    y_max = min_float F a.y_max b.y_max;
  }

  shared_normal :
      (a b : Box F)
      → IsBox a
      → IsBox b
      → (is_normalized (shared_box a b).x_min ≡ true)
        × (is_normalized (shared_box a b).y_min ≡ true)
        × (is_normalized (shared_box a b).x_max ≡ true)
        × (is_normalized (shared_box a b).y_max ≡ true)
  unfolding shared_box
  shared_normal a b v w = (
    choose_normal (F.lt a.x_min b.x_min) b.x_min a.x_min w.x_min_normal v.x_min_normal,
    choose_normal (F.lt a.y_min b.y_min) b.y_min a.y_min w.y_min_normal v.y_min_normal,
    choose_normal (F.lt b.x_max a.x_max) b.x_max a.x_max w.x_max_normal v.x_max_normal,
    choose_normal (F.lt b.y_max a.y_max) b.y_max a.y_max w.y_max_normal v.y_max_normal,
  )

  -- The intersection of two valid boxes never raises: it is none exactly when the shared bounds are
  -- empty in a direction, and otherwise the valid box of the greater minima and the lesser maxima.
  pub intersection_lem :
      (a b : Box F)
      → IsBox a
      → IsBox b
      → ((intersection a b ≡ ok none)
          × ((F.le (min_float F a.x_max b.x_max) (max_float F a.x_min b.x_min)
                || F.le (min_float F a.y_max b.y_max) (max_float F a.y_min b.y_min))
              ≡ true))
        ⊎ ((c : Box F) × (intersection a b ≡ ok (some c))
            × IsBox c
            × (c.x_min ≡ max_float F a.x_min b.x_min)
            × (c.y_min ≡ max_float F a.y_min b.y_min)
            × (c.x_max ≡ min_float F a.x_max b.x_max)
            × (c.y_max ≡ min_float F a.y_max b.y_max))
  unfolding intersection shared_box
  intersection_lem a b v w =
      let c = shared_box a b in
      let (p, q, r, s) = shared_normal a b v w in
      elim (Bool-cases (F.le c.x_max c.x_min)) [
        | inl e ↦ inl (rw e, rw e)
        | inr e ↦ elim (Bool-cases (F.le c.y_max c.y_min)) [
          | inl f ↦ inl (rw (e, f), rw (e, f))
          | inr f ↦ inr (
            c,
            rw (e, f, p, q, r, s),
            record {
              x_min_normal = p;
              y_min_normal = q;
              x_max_normal = r;
              y_max_normal = s;
              wide = e;
              high = f;
            },
            refl,
            refl,
            refl,
            refl,
          )
        ]
      ]
