-- ===== src/Base/Json.antt =====
-- JSON values as Python has them after `json.loads`, and what Python does with one.
use paystream.Base.{ℕ, zero, suc, Bool, true, false, not, List, [], ◌∷◌, take, if◌then◌else◌}
use paystream.Base.Number.{Number, ratio}
use paystream.Base.Int.{pos}
use paystream.Base.Task.{Result, ok, raised, type_error}
use paystream.Base.Numeral.{Text, text_eq}

mutual
  pub data Json : Type 0 where
    null : Json
    bool : Bool → Json
    num : Number → Json
    text : Text → Json
    arr : Items → Json
    obj : Fields → Json

  pub data Items : Type 0 where
    nil : Items
    cons : Json → Items → Items

  pub data Fields : Type 0 where
    end : Fields
    field : Text → Json → Fields → Fields

abbrev pub find : Text → Json → Fields → Json
find key default end = default
find key default (field k v fs) = if text_eq k key then v else find key default fs

-- `value.get(key, default)`, which only a dictionary has.
abbrev pub get : Text → Json → Json → Result Json
get key default (obj fs) = ok (find key default fs)
get key default null = raised type_error
get key default (bool b) = raised type_error
get key default (num n) = raised type_error
get key default (text t) = raised type_error
get key default (arr xs) = raised type_error

abbrev pub take_items : ℕ → Items → Items
take_items zero xs = nil
take_items (suc n) nil = nil
take_items (suc n) (cons x xs) = cons x (take_items n xs)

-- `value[:n]`
abbrev pub slice : ℕ → Json → Result Json
slice n (text t) = ok (text (take n t))
slice n (arr xs) = ok (arr (take_items n xs))
slice n null = raised type_error
slice n (bool b) = raised type_error
slice n (num x) = raised type_error
slice n (obj fs) = raised type_error

abbrev pub is_zero : Number → Bool
is_zero (ratio (pos zero) d) = true
is_zero x = false

-- `bool(value)`
abbrev pub is_true : Json → Bool
is_true null = false
is_true (bool b) = b
is_true (num n) = not (is_zero n)
is_true (text []) = false
is_true (text (c ∷ cs)) = true
is_true (arr nil) = false
is_true (arr (cons x xs)) = true
is_true (obj end) = false
is_true (obj (field k v fs)) = true

abbrev pub to_list : Items → List Json
to_list nil = []
to_list (cons x xs) = x ∷ to_list xs

abbrev pub characters : Text → List Json
characters [] = []
characters (c ∷ cs) = text (c ∷ []) ∷ characters cs

-- What `for` goes over, of a slice.
abbrev pub elements : Json → List Json
elements (arr xs) = to_list xs
elements (text t) = characters t
elements null = []
elements (bool b) = []
elements (num n) = []
elements (obj fs) = []

abbrev pub count_fields : Fields → ℕ
count_fields end = 0
count_fields (field k v fs) = suc (count_fields fs)

abbrev pub count_items : Items → ℕ
count_items nil = 0
count_items (cons x xs) = suc (count_items xs)

abbrev pub count_codes : Text → ℕ
count_codes [] = 0
count_codes (c ∷ cs) = suc (count_codes cs)

-- `len(value)`
abbrev pub size : Json → Result ℕ
size (text t) = ok (count_codes t)
size (arr xs) = ok (count_items xs)
size (obj fs) = ok (count_fields fs)
size null = raised type_error
size (bool b) = raised type_error
size (num n) = raised type_error
