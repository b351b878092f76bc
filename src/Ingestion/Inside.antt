-- ===== src/Ingestion/Inside.antt =====
-- What the check of boxes lets through, and what it names when it does not.
use learn_loop.Prelude.{
  ℕ, suc, ◌≡◌, ◌⊎◌, Option, none, some, String, List, [], ◌∷◌, Bool, true, false, ◌&&◌, ◌||◌, not,
  Result, ok, err, ◌>>=◌, arith, inl, inr, refl, all,
}
use learn_loop.Selection.Score.{Floats}
use learn_loop.Ingestion.Boxes.{
  RawBox, Coordinates, floats, not_numeric, too_large, Box, BoxError, overflow, missing_coordinates,
  not_positive, exceeds_image, leaves, check_box, validate_box, validate_from, validate_boxes,
}

-- How floats that are numbers compare, and that the sum of two that are not negative is one.
pub record Ordered {F : Type 0} (float : Floats F) (is_nan : F → Bool) : Type 0 where
  pub zero_number : is_nan (float.of_nat 0) ≡ false
  pub compared : (a b : F) → is_nan a ≡ false → is_nan b ≡ false → float.lt b a ≡ not (float.le a b)
  pub sum_number :
      (a b : F)
      → is_nan a ≡ false
      → is_nan b ≡ false
      → float.le (float.of_nat 0) a ≡ true
      → float.lt (float.of_nat 0) b ≡ true
      → is_nan (float.add a b) ≡ false

module _ {F : Type 0} (float : Floats F) (is_nan : F → Bool) (str_nat : ℕ → String) where
  -- Within the image in one direction, from a coordinate on.
  abbrev pub reaches : F → F → F → Bool
  reaches size from length = float.le (float.of_nat 0) from && float.le (float.add from length) size

  -- Of positive size and, where both dimensions of the image are known, inside of it.
  abbrev pub is_inside : Option F → Option F → F → F → F → F → Bool
  is_inside (some image_width) (some image_height) x y width height =
      float.lt (float.of_nat 0) width
      && float.lt (float.of_nat 0) height
      && reaches image_width x width
      && reaches image_height y height
  is_inside _ _ x y width height =
      float.lt (float.of_nat 0) width && float.lt (float.of_nat 0) height

  abbrev pub are_numbers : Coordinates F → Bool
  are_numbers (floats x y width height) =
      not (is_nan x) && not (is_nan y) && not (is_nan width) && not (is_nan height)
  are_numbers _ = true

  abbrev pub is_number : Option F → Bool
  is_number none = true
  is_number (some size) = not (is_nan size)

  reaches_lem :
      Ordered float is_nan
      → (size from length : F) → is_nan size ≡ false
      → is_nan from ≡ false
      → is_nan length ≡ false
      → float.lt (float.of_nat 0) length ≡ true
      → reaches size from length
        ≡ not (float.lt from (float.of_nat 0)) && not (float.lt size (float.add from length))
  reaches_lem o size from length n m k l = ground (
    arith,
    o.compared (float.of_nat 0) from o.zero_number m,
    o.compared (float.add from length) size,
    o.sum_number from length m k,
  )

  -- The guards say the same of numbers.
  fits_lem :
      Ordered float is_nan
      → (w h : Option F) (x y width height : F) → is_number w ≡ true
      → is_number h ≡ true
      → are_numbers (floats x y width height) ≡ true
      → is_inside w h x y width height ≡ (
          not (float.le width (float.of_nat 0) || float.le height (float.of_nat 0))
          && not (leaves float str_nat w h x y width height))
  fits_lem o none h x y width height n m k = ground (
    arith,
    k,
    o.compared width (float.of_nat 0),
    o.compared height (float.of_nat 0),
    o.zero_number,
  )
  fits_lem o (some w) none x y width height n m k = ground (
    arith,
    k,
    o.compared width (float.of_nat 0),
    o.compared height (float.of_nat 0),
    o.zero_number,
  )
  fits_lem o (some w) (some h) x y width height n m k = ground (
    arith,
    n,
    m,
    k,
    o.compared width (float.of_nat 0),
    o.compared height (float.of_nat 0),
    o.zero_number,
    reaches_lem o w x width,
    reaches_lem o h y height,
  )

  module _ (image_width image_height : Option F) where
    -- Whether a payload is a box of the image.
    abbrev pub is_valid : Coordinates F → Bool
    is_valid (floats x y width height) = is_inside image_width image_height x y width height
    is_valid _ = false

    -- The boxes are those of the payloads, in their order, and each is inside.
    abbrev pub Accepted : List (RawBox F) → List (Box F) → Type 0
    Accepted [] [] = Unit
    Accepted (raw ∷ raws) (b ∷ bs) =
        (raw.coordinates ≡ floats b.x b.y b.width b.height)
        × (is_inside image_width image_height b.x b.y b.width b.height ≡ true)
        × Accepted raws bs
    Accepted _ _ = ⊥

    abbrev pub is_positive : Coordinates F → Bool
    is_positive (floats x y width height) =
        float.lt (float.of_nat 0) width && float.lt (float.of_nat 0) height
    is_positive _ = false

    abbrev pub is_converted : Coordinates F → Bool
    is_converted (floats x y width height) = true
    is_converted _ = false

    -- The error of a payload that is not a box of the image: its index, or the overflow.
    abbrev pub Blames : ℕ → Coordinates F → BoxError → Type 0
    Blames index c overflow = c ≡ too_large
    Blames index c (missing_coordinates k) = (c ≡ not_numeric) × (k ≡ index)
    Blames index c (not_positive k) =
        (is_converted c ≡ true) × (is_positive c ≡ false) × (k ≡ index)
    Blames index c (exceeds_image k) = (is_positive c ≡ true) × (is_valid c ≡ false) × (k ≡ index)

    -- The error is about the first payload that is not valid, counted from an index.
    abbrev pub Rejected : ℕ → List (RawBox F) → BoxError → Type 0
    Rejected index [] e = ⊥
    Rejected index (raw ∷ raws) e =
        Blames index raw.coordinates e
        ⊎ ((is_valid raw.coordinates ≡ true) × Rejected (suc index) raws e)

    abbrev pub Checked : ℕ → List (RawBox F) → Result BoxError (List (Box F)) → Type 0
    Checked index raws (ok bs) = Accepted raws bs
    Checked index raws (err e) = Rejected index raws e

    -- The check of one payload.
    abbrev One : ℕ → Coordinates F → Result BoxError (Box F) → Type 0
    One index c (ok b) =
        (c ≡ floats b.x b.y b.width b.height)
        × (is_inside image_width image_height b.x b.y b.width b.height ≡ true)
    One index c (err e) = Blames index c e

    check_box-One :
        Ordered float is_nan
        → is_number image_width ≡ true
        → is_number image_height ≡ true
        → (index : ℕ) (id : Option String) (c : Coordinates F) → are_numbers c ≡ true
        → One index c (check_box float str_nat image_width image_height index id c)
    check_box-One o n m index id not_numeric k = (refl, refl)
    check_box-One o n m index id too_large k = refl
    check_box-One o n m index id (floats x y width height) k = ground (
      arith,
      k,
      fits_lem o image_width image_height x y width height n m k,
      o.compared width (float.of_nat 0),
      o.compared height (float.of_nat 0),
      o.zero_number,
    )

    One-is_valid :
        (index : ℕ) (c : Coordinates F) (b : Box F) → One index c (ok b) → is_valid c ≡ true
    One-is_valid index c b o = rw o.0 o.1

    chain :
        (index : ℕ) (raw : RawBox F) (raws : List (RawBox F)) (first : Result BoxError (Box F))
        (rest : Result BoxError (List (Box F)))
        → One index raw.coordinates first
        → Checked (suc index) raws rest
        → Checked index (raw ∷ raws) (first >>= λ box. rest >>= λ boxes. ok (box ∷ boxes))
    chain index raw raws (err e) rest o c = inl o
    chain index raw raws (ok b) (err e) o c = inr (One-is_valid index raw.coordinates b o, c)
    chain index raw raws (ok b) (ok bs) o c = (o.0, o.1, c)

    validate_from-Checked :
        Ordered float is_nan
        → is_number image_width ≡ true
        → is_number image_height ≡ true
        → (index : ℕ) (raws : List (RawBox F))
        → all (λ (raw : RawBox F). are_numbers raw.coordinates) raws ≡ true
        → Checked index raws (validate_from float str_nat image_width image_height index raws)
    unfolding validate_from validate_box
    validate_from-Checked o n m index [] k = tt
    validate_from-Checked o n m index (raw ∷ raws) k =
        chain index raw raws _ _
          (check_box-One o n m index raw.box_id raw.coordinates (ground (arith, k)))
          (validate_from-Checked o n m (suc index) raws (ground (arith, k)))

    -- If no coordinate and no dimension of the image is a NaN, the boxes that the check returns are
    -- those of the payloads, in their order, each of positive size and, where the dimensions of the
    -- image are known, inside of it; where it raises, the error is about the first payload that is no
    -- such box, carries its index and says which part of this fails, except that an integer too large
    -- for a float raises an error without an index.
    pub validate_boxes-Checked :
        Ordered float is_nan
        → is_number image_width ≡ true
        → is_number image_height ≡ true
        → (raws : List (RawBox F))
        → all (λ (raw : RawBox F). are_numbers raw.coordinates) raws ≡ true
        → Checked 0 raws (validate_boxes float str_nat image_width image_height raws)
    unfolding validate_boxes
    validate_boxes-Checked o n m raws k = validate_from-Checked o n m 0 raws k
