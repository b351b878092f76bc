-- ===== src/Ingestion/Cleaning.antt =====
-- What the cleanup of the batches that ended deletes.
use learn_loop.Prelude.{
  ℕ, ◌+◌, Option, none, some, String, List, [], ◌∷◌, ◌++◌, Bool, true, false, ◌&&◌, ◌||◌, not,
  str_eq, any, is_some, subst, ◌≡◌, ◌⊎◌, inr, refl, arith, if◌then◌else◌, Result, ok, err, ◌>>=◌,
}
use learn_loop.Ingestion.Documents.{Batch, Item, Image, Slot}
use learn_loop.Ingestion.Cleanup.{
  Objects, delete_media, clean_images, abandoned_copy, clean_items, cleanup_batch_media, Cleaned,
  clean_next, clean_all, run_batch_cleanup, marked,
}

abbrev pub is_among : List String → String → Bool
is_among names o = any (str_eq o) names

abbrev names_of : Option String → List String
names_of none = []
names_of (some o) = o ∷ []

-- Exactly the named objects are deleted, or one of them cannot be and no other object is touched.
abbrev pub Deletes : (String → Bool) → List String → Objects → Result Objects Objects → Type 0
Deletes fails names before (ok after) =
    (any fails names ≡ false) × ((o : String) → after o ≡ before o && not (is_among names o))
Deletes fails names before (err after) =
    (any fails names ≡ true) × ((o : String) → (is_among names o ≡ true) ⊎ (after o ≡ before o))

any-++ : (p : String → Bool) (xs ys : List String) → any p (xs ++ ys) ≡ any p xs || any p ys
any-++ p [] ys = refl
any-++ p (x ∷ xs) ys = ground (arith, any-++ p xs ys)

module _ (fails referenced : String → Bool) (audit_key : ℕ → Item → String) where
  join-Deletes :
      (xs ys : List String) (before after : Objects) (second : Result Objects Objects)
      → any fails xs ≡ false
      → ((o : String) → after o ≡ before o && not (is_among xs o))
      → Deletes fails ys after second
      → Deletes fails (xs ++ ys) before second
  join-Deletes xs ys before after (err rest) f same (g, kept) = (
    ground (arith, any-++ fails xs ys, g),
    λ o. ground (arith, any-++ (str_eq o) xs ys, same o, kept o),
  )
  join-Deletes xs ys before after (ok rest) f same (g, kept) = (
    ground (arith, any-++ fails xs ys, f, g),
    λ o. ground (arith, any-++ (str_eq o) xs ys, same o, kept o),
  )

  raised-Deletes :
      (xs ys : List String) (before after : Objects)
      → Deletes fails xs before (err after)
      → Deletes fails (xs ++ ys) before (err after)
  raised-Deletes xs ys before after (f, same) =
      (ground (arith, any-++ fails xs ys, f), λ o. ground (arith, any-++ (str_eq o) xs ys, same o))

  then-Deletes :
      (xs ys : List String) (before : Objects) (first : Result Objects Objects)
      (next : Objects → Result Objects Objects)
      → Deletes fails xs before first
      → ((after : Objects) → Deletes fails ys after (next after))
      → Deletes fails (xs ++ ys) before (first >>= next)
  then-Deletes xs ys before (err after) next first rest = raised-Deletes xs ys before after first
  then-Deletes xs ys before (ok after) next (f, same) rest =
      join-Deletes xs ys before after (next after) f same (rest after)

  reply-Deletes :
      (name : String) (before : Objects) (failed : Bool)
      → fails name ≡ failed
      → Deletes fails
          (name ∷ [])
          before
          (if failed then err before else ok (λ x. before x && not (str_eq x name)))
  reply-Deletes name before true e = (ground (arith, e), λ o. inr refl)
  reply-Deletes name before false e = (ground (arith, e), λ o. ground arith)

  delete_media-Deletes :
      (name : Option String) (before : Objects)
      → Deletes fails (names_of name) before (delete_media fails referenced audit_key name before)
  unfolding delete_media
  delete_media-Deletes none before = (refl, λ o. ground arith)
  delete_media-Deletes (some name) before = reply-Deletes name before (fails name) refl

  -- The images of a batch, its items' crops and the copies that no problem has, as they are deleted.
  abbrev pub images_of : List Image → List String
  images_of [] = []
  images_of (m ∷ ms) = m.source_image ∷ images_of ms

  abbrev pub copies_of : ℕ → Item → List String
  copies_of id i =
      if is_some i.crop && is_some i.variation.original && not (referenced (audit_key id i))
      then audit_key id i ∷ []
      else []

  abbrev pub crops_of : ℕ → List Item → List String
  crops_of id [] = []
  crops_of id (i ∷ is) = names_of i.crop ++ (copies_of id i ++ crops_of id is)

  copies_lem :
      (id : ℕ) (i : Item)
      → names_of (abandoned_copy fails referenced audit_key id i) ≡ copies_of id i
  copies_lem id i = ground arith

  copy-Deletes :
      (id : ℕ) (i : Item) (before : Objects)
      → Deletes fails (copies_of id i) before (
          delete_media fails referenced audit_key
            (abandoned_copy fails referenced audit_key id i)
            before)
  copy-Deletes id i before =
      subst
        (λ names. Deletes fails names before (
          delete_media fails referenced audit_key (abandoned_copy fails referenced audit_key id i)
            before))
        (copies_lem id i)
        (delete_media-Deletes (abandoned_copy fails referenced audit_key id i) before)

  abbrev pub temporary : List (ℕ × Batch) → List String
  temporary [] = []
  temporary ((id, b) ∷ rest) = (images_of b.images ++ crops_of id b.items) ++ temporary rest

  clean_images-Deletes :
      (ms : List Image) (before : Objects)
      → Deletes fails (images_of ms) before (clean_images fails referenced audit_key ms before)
  unfolding clean_images
  clean_images-Deletes [] before = (refl, λ o. ground arith)
  clean_images-Deletes (m ∷ ms) before =
      then-Deletes (m.source_image ∷ []) (images_of ms) before _ _
        (delete_media-Deletes (some m.source_image) before) (clean_images-Deletes ms)

  clean_items-Deletes :
      (id : ℕ) (is : List Item) (before : Objects)
      → Deletes fails (crops_of id is) before (clean_items fails referenced audit_key id is before)
  unfolding clean_items
  clean_items-Deletes id [] before = (refl, λ o. ground arith)
  clean_items-Deletes id (i ∷ is) before =
      then-Deletes (names_of i.crop) (copies_of id i ++ crops_of id is) before _ _
        (delete_media-Deletes i.crop before)
        (λ after.
          then-Deletes (copies_of id i) (crops_of id is) after _ _ (copy-Deletes id i after)
            (clean_items-Deletes id is))

  media-Deletes :
      (id : ℕ) (b : Batch) (before : Objects)
      → Deletes fails
          (images_of b.images ++ crops_of id b.items)
          before
          (cleanup_batch_media fails referenced audit_key id b before)
  unfolding cleanup_batch_media
  media-Deletes id b before =
      then-Deletes (images_of b.images) (crops_of id b.items) before _ _
        (clean_images-Deletes b.images before) (clean_items-Deletes id b.items)

  next-Deletes :
      (now id : ℕ) (xs ys : List String) (before : Objects) (batches : ℕ → Slot) (n : ℕ)
      (rest : Objects → (ℕ → Slot) → ℕ → Cleaned fails referenced audit_key)
      (media : Result Objects Objects)
      → Deletes fails xs before media
      → ((after : Objects) (batches' : ℕ → Slot) (n' : ℕ)
          → Deletes fails ys after (rest after batches' n').0)
      → Deletes fails
          (xs ++ ys)
          before
          (clean_next fails referenced audit_key now id rest batches n media).0
  unfolding clean_next
  next-Deletes now id xs ys before batches n rest (err after) first step =
      raised-Deletes xs ys before after first
  next-Deletes now id xs ys before batches n rest (ok after) (f, same) step =
      join-Deletes xs ys before after _ f same
        (step after (marked fails referenced audit_key id now batches) (n + 1))

  all-Deletes :
      (now : ℕ) (found : List (ℕ × Batch)) (before : Objects) (batches : ℕ → Slot) (n : ℕ)
      → Deletes fails
          (temporary found)
          before
          (clean_all fails referenced audit_key now found before batches n).0
  unfolding clean_all
  all-Deletes now [] before batches n = (refl, λ o. ground arith)
  all-Deletes now ((id, b) ∷ rest) before batches n =
      next-Deletes now id (images_of b.images ++ crops_of id b.items) (temporary rest) before
        batches n
        (λ after batches' n'. clean_all fails referenced audit_key now rest after batches' n') _
        (media-Deletes id b before) (λ after batches' n'. all-Deletes now rest after batches' n')

  -- The cleanup deletes the images of every batch that it goes through, the crops of its items and
  -- the copies kept for an admission that no problem has, and no other object; or the storage raises
  -- at one of these, and then too no other object is deleted.
  pub run_batch_cleanup-Deletes :
      (now : ℕ) (candidates : List (ℕ × Batch)) (before : Objects) (batches : ℕ → Slot)
      → Deletes fails
          (temporary candidates)
          before
          (run_batch_cleanup fails referenced audit_key now candidates before batches).0
  unfolding run_batch_cleanup
  run_batch_cleanup-Deletes now candidates before batches =
      all-Deletes now candidates before batches 0
