-- ===== src/Json/Objects.antt =====
-- Objects and arrays that are built item by item.
use esp32_fl.Base.{
  ◌≡◌, refl, sym, ◌∙◌, ap, String, Bool, true, false, Option, none, some, List, [], ◌∷◌, ◌++◌, map,
  if◌then◌else◌, append-nil, append_assoc,
}
use esp32_fl.Float.{FloatArith}
use esp32_fl.Json.{Cjson, IsLawful, same_name, or_else}

module _ {D : Type 0} (json : Cjson D) where
  open json use {Json, create_object, add_item_to_object, create_array, add_item_to_array}

  -- `cJSON_AddItemToObject` for each pair, in order.
  unfoldable pub add_items : Json → List (String × Json) → Json
  add_items o [] = o
  add_items o ((k, v) ∷ items) = add_items (add_item_to_object o k v) items

  unfoldable pub object_of : List (String × Json) → Json
  unfolding add_items
  object_of items = add_items create_object items

  -- The loops that add an item for each node of a chain.
  pub add_elements : {A : Type 0} → (A → Json) → Json → List A → Json
  add_elements f a [] = a
  add_elements f a (x ∷ xs) = add_elements f (add_item_to_array a (f x)) xs

  pub array_of : {A : Type 0} → (A → Json) → List A → Json
  unfolding add_elements
  array_of f xs = add_elements f create_array xs

  -- The first of the pairs with this name.
  abbrev pub find_item : String → List (String × Json) → Option Json
  find_item j [] = none
  find_item j ((k, v) ∷ items) = if same_name k j then some v else find_item j items

module _ (fl : FloatArith) (json : Cjson (FloatArith.D fl)) (lawful : IsLawful fl json) where
  open json use {Json, get_object_item, array_items, is_object, is_array}

  or_else-if :
      {A : Type 0} (o : Option A) (b : Bool) (x : A) (c : Option A)
      → or_else (or_else o (if b then some x else none)) c ≡ or_else o (if b then some x else c)
  or_else-if (some y) b x c = refl
  or_else-if none true x c = refl
  or_else-if none false x c = refl

  or_else-none : {A : Type 0} (o : Option A) → or_else o none ≡ o
  or_else-none none = refl
  or_else-none (some x) = refl

  get-add_items :
      (o : Json) (items : List (String × Json)) (j : String)
      → get_object_item (add_items json o items) j
        ≡ or_else (get_object_item o j) (find_item json j items)
  unfolding add_items
  get-add_items o [] j = sym (or_else-none (get_object_item o j))
  get-add_items o ((k, v) ∷ items) j =
      get-add_items (json.add_item_to_object o k v) items j
      ∙ ap (λ w. or_else w (find_item json j items)) (lawful.get-add o k v j)
      ∙ or_else-if (get_object_item o j) (same_name k j) v (find_item json j items)

  -- An item of an object is the first one of that name.
  pub get-object_of :
      (items : List (String × Json)) (j : String)
      → get_object_item (object_of json items) j ≡ find_item json j items
  unfolding object_of
  get-object_of items j =
      get-add_items json.create_object items j
      ∙ ap (λ w. or_else w (find_item json j items)) (lawful.get-create j)

  is_object-add_items :
      (o : Json) (items : List (String × Json)) → is_object (add_items json o items) ≡ is_object o
  unfolding add_items
  is_object-add_items o [] = refl
  is_object-add_items o ((k, v) ∷ items) =
      is_object-add_items (json.add_item_to_object o k v) items ∙ lawful.is_object-add o k v

  pub is_object-object_of : (items : List (String × Json)) → is_object (object_of json items) ≡ true
  unfolding object_of
  is_object-object_of items = is_object-add_items json.create_object items ∙ lawful.is_object-create

  items-add_elements :
      {A : Type 0} (f : A → Json) (a : Json) (xs : List A)
      → array_items (add_elements json f a xs) ≡ array_items a ++ map f xs
  unfolding add_elements
  items-add_elements f a [] = sym (append-nil (array_items a))
  items-add_elements f a (x ∷ xs) =
      items-add_elements f (json.add_item_to_array a (f x)) xs
      ∙ ap (λ w. w ++ map f xs) (lawful.items-add a (f x))
      ∙ append_assoc (array_items a) (f x ∷ []) (map f xs)

  pub items-array_of :
      {A : Type 0} (f : A → Json) (xs : List A) → array_items (array_of json f xs) ≡ map f xs
  unfolding array_of
  items-array_of f xs =
      items-add_elements f json.create_array xs ∙ ap (λ w. w ++ map f xs) lawful.items-create

  is_array-add_elements :
      {A : Type 0} (f : A → Json) (a : Json) (xs : List A)
      → is_array (add_elements json f a xs) ≡ is_array a
  unfolding add_elements
  is_array-add_elements f a [] = refl
  is_array-add_elements f a (x ∷ xs) =
      is_array-add_elements f (json.add_item_to_array a (f x)) xs ∙ lawful.is_array-add a (f x)

  pub is_array-array_of :
      {A : Type 0} (f : A → Json) (xs : List A) → is_array (array_of json f xs) ≡ true
  unfolding array_of
  is_array-array_of f xs = is_array-add_elements f json.create_array xs ∙ lawful.is_array-create
