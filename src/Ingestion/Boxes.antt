-- ===== src/Ingestion/Boxes.antt =====
-- backend/app/domain/ingestion/boxes.py: the boxes that cut the items out of an image.
use learn_loop.Prelude.{
  ℕ, suc, ◌+◌, Option, none, some, String, List, [], ◌∷◌, Bool, false, ◌||◌, is_truthy,
  if◌then◌else◌, Result, ok, err, ◌>>=◌, f_string,
}
use learn_loop.Selection.Score.{Floats}

-- What the four conversions end with: the floats, or what the first that fails raises. One of the
-- errors that are caught (a coordinate is missing or is no number), or the `OverflowError` of an
-- integer that is too large, which is not.
pub data Coordinates (F : Type 0) : Type 0 where
  floats : F → F → F → F → Coordinates F
  not_numeric too_large : Coordinates F

-- A payload: its `boxId` and its coordinates.
pub record RawBox (F : Type 0) : Type 0 where
  pub box_id : Option String
  pub coordinates : Coordinates F

pub record Box (F : Type 0) : Type 0 where
  pub box_id : String
  pub x : F
  pub y : F
  pub width : F
  pub height : F

-- `InvalidBoxError` with the index that it names, or the `OverflowError`.
pub data BoxError : Type 0 where
  overflow : BoxError
  missing_coordinates not_positive exceeds_image : ℕ → BoxError

-- `str(box.get("boxId") or f"box-{index + 1}")`
abbrev pub box_name : (ℕ → String) → ℕ → Option String → String
box_name str_nat index none = f_string ("box-" ∷ str_nat (index + 1) ∷ [])
box_name str_nat index (some id) =
    if is_truthy id then id else f_string ("box-" ∷ str_nat (index + 1) ∷ [])

module _ {F : Type 0} (float : Floats F) (str_nat : ℕ → String) where
  abbrev zero_f : F
  zero_f = float.of_nat 0

  -- Whether a box leaves an image whose two dimensions are known.
  abbrev pub leaves : Option F → Option F → F → F → F → F → Bool
  leaves (some image_width) (some image_height) x y width height =
      float.lt x zero_f
      || float.lt y zero_f
      || float.lt image_width (float.add x width)
      || float.lt image_height (float.add y height)
  leaves _ _ x y width height = false

  abbrev pub check_box :
      Option F → Option F → ℕ → Option String → Coordinates F → Result BoxError (Box F)
  check_box image_width image_height index box_id not_numeric = err (missing_coordinates index)
  check_box image_width image_height index box_id too_large = err overflow
  check_box image_width image_height index box_id (floats x y width height) =
      if float.le width zero_f || float.le height zero_f
      then err (not_positive index)
      else if leaves image_width image_height x y width height
      then err (exceeds_image index)
      else ok (record {
        box_id = box_name str_nat index box_id;
        x = x;
        y = y;
        width = width;
        height = height;
      })

  unfoldable pub validate_box : Option F → Option F → ℕ → RawBox F → Result BoxError (Box F)
  validate_box image_width image_height index raw =
      check_box image_width image_height index raw.box_id raw.coordinates

  -- The loop from an index on.
  unfoldable pub validate_from :
      Option F → Option F → ℕ → List (RawBox F) → Result BoxError (List (Box F))
  unfolding validate_box
  validate_from image_width image_height index [] = ok []
  validate_from image_width image_height index (raw ∷ raws) =
      let rest = validate_from image_width image_height (suc index) raws in
      validate_box image_width image_height index raw >>= λ box. rest >>= λ boxes. ok (box ∷ boxes)

  unfoldable pub validate_boxes :
      Option F → Option F → List (RawBox F) → Result BoxError (List (Box F))
  unfolding validate_from
  validate_boxes image_width image_height raws = validate_from image_width image_height 0 raws
