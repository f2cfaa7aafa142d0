-- ===== src/Program/Typed.antt =====
-- The statements of a program against the names of their columns.
use librequiemdb.Base.{
  ℕ, ◌+◌, Bool, true, false, not, ◌&&◌, ◌||◌, List, [], ◌∷◌, ◌≡◌, Option, none, some, Bytes, codes,
  same, ◌==◌, if◌then◌else◌,
}
use librequiemdb.Error.{Error, Result, ok, err}
use librequiemdb.Program.{
  Program, ret, fail, escape, escape_binary, insert, insert_anyway, last_insert_ident, Value,
  letter, number, index, text, ◌>>=◌, ◌>>◌, lift, each, last_item, indexed, present,
}

onto_first : ℕ → List Bytes → List Bytes
onto_first c [] = (c ∷ []) ∷ []
onto_first c (x ∷ xs) = (c ∷ x) ∷ xs

-- The names in a list with commas, without their spaces.
unfoldable pub column_names : Bytes → List Bytes
unfolding onto_first
column_names [] = [] ∷ []
column_names (c ∷ s) =
    let rest = column_names s in
    if c == b',' then [] ∷ rest else if c == b' ' then rest else onto_first c rest

ends_with : Bytes → Bytes → Bool
unfolding same
ends_with end [] = false
ends_with end (c ∷ s) = let rest = ends_with end s in same end (c ∷ s) || rest

is_key : Bytes → Bool
is_key [] = false
is_key (c ∷ s) = c == b'_'

-- The columns that number the rows are `_parent_type` for a letter, `_message_ident` for a number of 64
-- bits and the `_index` columns for indices; all other columns take a text.
unfoldable pub suits : Bytes → Value → Bool
unfolding same ends_with is_key
suits name (letter c) = same name (codes "_parent_type")
suits name (number n) = same name (codes "_message_ident")
suits name (index i) = is_key name && ends_with (codes "_index") name
suits name (text t) = not (is_key name)

unfoldable pub all_suit : List Bytes → List Value → Bool
unfolding suits
all_suit [] [] = true
all_suit (name ∷ names) (v ∷ vs) = suits name v && all_suit names vs
all_suit _ _ = false

-- Whatever the calls answer, every insertion has as many values as it names columns, each of the kind
-- that its column takes.
unfoldable pub IsTyped : {c : Bool} {A : Type 0} → Program c A → Type 0
IsTyped (ret x) = Unit
IsTyped (fail e) = Unit
IsTyped (escape r i f) = (t : Bytes) → IsTyped (f t)
IsTyped (escape_binary i f) = (t : Bytes) → IsTyped (f t)
IsTyped (insert r table fields values m) =
    (all_suit (column_names fields) values ≡ true) × IsTyped m
IsTyped (insert_anyway h table fields values f) =
    (all_suit (column_names fields) values ≡ true) × ((b : Bool) → IsTyped (f b))
IsTyped (last_insert_ident table f) = (n : ℕ) → IsTyped (f n)

pub bind-IsTyped :
    {c : Bool} {A B : Type 0} (m : Program c A) (k : A → Program c B)
    → IsTyped m
    → ((x : A) → IsTyped (k x))
    → IsTyped (m >>= k)
unfolding IsTyped ◌>>=◌
bind-IsTyped (ret x) k h more = more x
bind-IsTyped (fail e) k h more = tt
bind-IsTyped (escape r i f) k h more = λ t. bind-IsTyped (f t) k (h t) more
bind-IsTyped (escape_binary i f) k h more = λ t. bind-IsTyped (f t) k (h t) more
bind-IsTyped (insert r table fields values m) k h more = (h.0, bind-IsTyped m k h.1 more)
bind-IsTyped (insert_anyway e table fields values f) k h more =
    (h.0, λ b. bind-IsTyped (f b) k (h.1 b) more)
bind-IsTyped (last_insert_ident table f) k h more = λ n. bind-IsTyped (f n) k (h n) more

pub then-IsTyped :
    {c : Bool} {B : Type 0} (m : Program c (Unit {0})) (n : Program c B)
    → IsTyped m
    → IsTyped n
    → IsTyped (m >> n)
then-IsTyped m n h k = bind-IsTyped m _ h (λ _. k)

pub lift-IsTyped :
    (c : Bool) {A : Type 0} (r : Option Error) (a : Result A) → IsTyped {c = c} (lift r a)
unfolding IsTyped
lift-IsTyped c r (ok x) = tt
lift-IsTyped c r (err e) = tt

pub each-IsTyped :
    {c : Bool} {B : Type 0} (i : ℕ) (f : ℕ → B → Program c (Unit {0})) (xs : List B)
    → ((i : ℕ) (x : B) → IsTyped (f i x))
    → IsTyped (each i f xs)
unfolding each IsTyped
each-IsTyped i f [] h = tt
each-IsTyped i f (x ∷ xs) h =
    then-IsTyped (f i x) (each (i + 1) f xs) (h i x) (each-IsTyped (i + 1) f xs h)

last_item-IsTyped :
    {c : Bool} {B : Type 0} (f : ℕ → B → Program c (Unit {0})) (xs : List B)
    → ((i : ℕ) (x : B) → IsTyped (f i x))
    → IsTyped (last_item f xs)
unfolding last_item IsTyped
last_item-IsTyped f [] h = tt
last_item-IsTyped f (x ∷ []) h = h _ x
last_item-IsTyped f (x ∷ y ∷ xs) h = last_item-IsTyped f (y ∷ xs) h

pub indexed-IsTyped :
    {c : Bool} {B : Type 0} (f : ℕ → B → Program c (Unit {0})) (xs : List B)
    → ((i : ℕ) (x : B) → IsTyped (f i x))
    → IsTyped (indexed f xs)
unfolding indexed
indexed-IsTyped f xs h =
    then-IsTyped (each 0 f xs) (last_item f xs) (each-IsTyped 0 f xs h) (last_item-IsTyped f xs h)

pub present-IsTyped :
    {c : Bool} {B : Type 0} (f : B → Program c (Unit {0})) (x : Option B)
    → ((x : B) → IsTyped (f x))
    → IsTyped (present f x)
unfolding IsTyped
present-IsTyped f none h = tt
present-IsTyped f (some x) h = h x
