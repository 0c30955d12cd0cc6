-- ===== src/Ui/Items.antt =====
-- The items of a menu in internal/ui/tray, by their keys, as the map of one submenu holds them. A
-- title is a list of code points.
use dabri.Prelude.{
  ◌≡◌, refl, ◌∙◌, Bool, true, false, [], ◌∷◌, ◌++◌, Option, none, some, if◌then◌else◌, ◌==◌,
  Bool-cases, inl, inr,
}
use dabri.Text.{Text, codes, text_eq}

pub record Item : Type 0 where
  pub title : Text
  pub enabled : Bool
  pub visible : Bool

abbrev pub Items : Type 0
Items = Text → Option Item

abbrev pub no_items : Items
no_items = λ key. none

-- AddSubMenuItem, and the same with Disable.
abbrev pub item : Text → Item
item title = record { title = title; enabled = true; visible = true }

abbrev pub gray_item : Text → Item
gray_item title = record { title = title; enabled = false; visible = true }

unfoldable pub put : Text → Item → Items → Items
put key i items = λ k. if text_eq k key then some i else items k

abbrev pub entitled : Text → Option Item → Option Item
entitled title none = none
entitled title (some i) = some (record i { title = title })

abbrev pub seen : Bool → Option Item → Option Item
seen shown none = none
seen shown (some i) = some (record i { visible = shown })

-- SetTitle on the item of a key, where there is one.
unfoldable pub retitle : Text → Text → Items → Items
retitle key title items = λ k. if text_eq k key then entitled title (items k) else items k

-- Show and Hide
unfoldable pub set_visible : Text → Bool → Items → Items
set_visible key shown items = λ k. if text_eq k key then seen shown (items k) else items k

-- The mark of a radio item.
abbrev pub radio : Bool → Text → Text
radio on label = if on then codes "● " ++ label else codes "○ " ++ label

-- The code point of the filled circle.
abbrev is_marked : Text → Bool
is_marked [] = false
is_marked (c ∷ s) = c == 9679

abbrev pub marked_of : Option Item → Option Bool
marked_of none = none
marked_of (some i) = some (is_marked i.title)

-- Whether the item of a key is marked, where there is one.
unfoldable pub mark : Text → Items → Option Bool
mark key items = marked_of (items key)

abbrev pub marked_as : Bool → Option Bool → Option Bool
marked_as b none = none
marked_as b (some _) = some b

marked-entitled :
    (title : Text) (o : Option Item)
    → marked_of (entitled title o) ≡ marked_as (is_marked title) (marked_of o)
marked-entitled title none = refl
marked-entitled title (some i) = refl

pub mark-retitle :
    (k key title : Text) (items : Items)
    → mark k (retitle key title items)
      ≡ (if text_eq k key then marked_as (is_marked title) (mark k items) else mark k items)
unfolding mark retitle
mark-retitle k key title items = elim (Bool-cases (text_eq k key)) [
  | inl e ↦ rw e (marked-entitled title (items k))
  | inr e ↦ rw e refl
]

mark-put :
    (k key : Text) (i : Item) (items : Items)
    → mark k (put key i items) ≡ (if text_eq k key then some (is_marked i.title) else mark k items)
unfolding mark put
mark-put k key i items = elim (Bool-cases (text_eq k key)) [ inl e ↦ rw e refl | inr e ↦ rw e refl ]

pub is_marked-radio : (on : Bool) (label : Text) → is_marked (radio on label) ≡ on
is_marked-radio true label = refl
is_marked-radio false label = refl

pub mark-retitle_other :
    (k key title : Text) (items : Items)
    → text_eq k key ≡ false
    → mark k (retitle key title items) ≡ mark k items
mark-retitle_other k key title items h = mark-retitle k key title items ∙ rw h refl
