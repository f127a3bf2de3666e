-- ===== src/Net/Json.antt =====
-- What the answers of a server are made of, as Python's json module reads them, and Python's
-- operations on such values that pyserum/utils.py, pyserum/open_orders_account.py and
-- pyserum/connection.py use. Numbers are the naturals, as sizes and amounts of lamports are.
use Prim.Native.Char.{code}
use Prim.Native.String.{String}
use text.Mathlib.Text.{◌==◌ as ◌is◌}
use pyserum.Base.{
  ℕ, Bool, true, false, not, ◌&&◌, ◌||◌, List, [], ◌∷◌, Result, ok, err, type_error, key_error,
  index_error, ◌==◌, if◌then◌else◌,
}

mutual
  pub data Json : Type 0 where
    null : Json
    bool : Bool → Json
    number : ℕ → Json
    string : String → Json
    array : Items → Json
    object : Fields → Json

  pub data Items : Type 0 where
    nil : Items
    cons : Json → Items → Items

  pub data Fields : Type 0 where
    end : Fields
    field : String → Json → Fields → Fields

abbrev pub list_of : List Json → Items
list_of [] = nil
list_of (x ∷ xs) = cons x (list_of xs)

abbrev pub items_of : Items → List Json
items_of nil = []
items_of (cons x xs) = x ∷ items_of xs

abbrev codes : String → List ℕ
codes String.[] = []
codes (String.◌∷◌ c s) = code c ∷ codes s

is_prefix : List ℕ → List ℕ → Bool
is_prefix [] ys = true
is_prefix (x ∷ xs) [] = false
is_prefix (x ∷ xs) (y ∷ ys) = x == y && is_prefix xs ys

is_infix : List ℕ → List ℕ → Bool
unfolding is_prefix
is_infix xs [] = is_prefix xs []
is_infix xs (y ∷ ys) = is_prefix xs (y ∷ ys) || is_infix xs ys

unfoldable pub has_field : String → Fields → Bool
has_field key end = false
has_field key (field k v rest) = k is key || has_field key rest

is_text : String → Json → Bool
is_text key (string s) = s is key
is_text key _ = false

has_item : String → Items → Bool
unfolding is_text
has_item key nil = false
has_item key (cons x xs) = is_text key x || has_item key xs

unfoldable pub find_field : String → Fields → Result Json
find_field key end = err key_error
find_field key (field k v rest) = if k is key then ok v else find_field key rest

-- key in x
unfoldable pub contains : String → Json → Result Bool
unfolding is_infix has_field has_item
contains key null = err type_error
contains key (bool b) = err type_error
contains key (number n) = err type_error
contains key (string s) = ok (is_infix (codes key) (codes s))
contains key (array xs) = ok (has_item key xs)
contains key (object fs) = ok (has_field key fs)

-- x[key]
unfoldable pub get : String → Json → Result Json
unfolding find_field
get key (object fs) = find_field key fs
get key _ = err type_error

-- x[0]: an object has no such key, and a text's first character is a text.
unfoldable pub first : Json → Result Json
first (array nil) = err index_error
first (array (cons x xs)) = ok x
first (object fs) = err key_error
first (string String.[]) = err index_error
first (string (String.◌∷◌ c s)) = ok (string (String.◌∷◌ c String.[]))
first _ = err type_error

-- bool(x)
unfoldable pub truth : Json → Bool
truth null = false
truth (bool b) = b
truth (number n) = not (n == 0)
truth (string String.[]) = false
truth (string _) = true
truth (array nil) = false
truth (array _) = true
truth (object end) = false
truth (object _) = true

letters : String → List Json
letters String.[] = []
letters (String.◌∷◌ c s) = string (String.◌∷◌ c String.[]) ∷ letters s

names : Fields → List Json
names end = []
names (field k v rest) = string k ∷ names rest

-- What a `for` loop over x runs through.
unfoldable pub elements : Json → Result (List Json)
unfolding letters names
elements (array xs) = ok (items_of xs)
elements (object fs) = ok (names fs)
elements (string s) = ok (letters s)
elements _ = err type_error
