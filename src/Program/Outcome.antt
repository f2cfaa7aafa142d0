-- ===== src/Program/Outcome.antt =====
-- Programs that succeed over a server that answers every call, and the order of their statements.
use librequiemdb.Base.{
  ℕ, ◌+◌, Bool, true, List, [], ◌∷◌, ◌++◌, ◌≡◌, ◌∙◌, refl, ap, Option, none, some, Bytes,
}
use librequiemdb.Error.{ok, err}
use librequiemdb.Program.{
  Program, ret, fail, escape, escape_binary, insert, insert_anyway, last_insert_ident, ◌>>=◌, ◌>>◌,
  each, last_item, indexed, present,
}
use librequiemdb.Program.Served.{statements, outcome, quoted_text, insertion, max_query}

module _ (quoted quoted_binary : Bytes → Bytes) (n : ℕ) where
  abbrev pub Succeeds : {c : Bool} → Program c (Unit {0}) → Type 0
  Succeeds m = outcome quoted quoted_binary n m ≡ ok tt

  pub outcome-bind :
      {c : Bool} {A B : Type 0} (m : Program c A) (k : A → Program c B) (x : A)
      → outcome quoted quoted_binary n m ≡ ok x
      → outcome quoted quoted_binary n (m >>= k) ≡ outcome quoted quoted_binary n (k x)
  unfolding outcome ◌>>=◌
  outcome-bind (ret y) k x h =
      ap (λ r. elim r [ err e ↦ err e | ok z ↦ outcome quoted quoted_binary n (k z) ]) h
  outcome-bind (fail e) k x h = cc h
  outcome-bind (escape r i f) k x h = outcome-bind (f (quoted_text quoted quoted_binary n i)) k x h
  outcome-bind (escape_binary i f) k x h = outcome-bind (f (quoted_binary i)) k x h
  outcome-bind (insert r table fields values m) k x h = outcome-bind m k x h
  outcome-bind (insert_anyway e table fields values f) k x h = outcome-bind (f true) k x h
  outcome-bind (last_insert_ident table f) k x h = outcome-bind (f n) k x h

  pub then-Succeeds :
      {c : Bool} (m m' : Program c (Unit {0})) → Succeeds m → Succeeds m' → Succeeds (m >> m')
  then-Succeeds m m' h k = outcome-bind m (λ _. m') tt h ∙ k

  pub each-Succeeds :
      {c : Bool} {B : Type 0} (i : ℕ) (f : ℕ → B → Program c (Unit {0})) (xs : List B)
      → ((i : ℕ) (x : B) → Succeeds (f i x))
      → Succeeds (each i f xs)
  unfolding each outcome
  each-Succeeds i f [] h = refl
  each-Succeeds i f (x ∷ xs) h =
      then-Succeeds (f i x) (each (i + 1) f xs) (h i x) (each-Succeeds (i + 1) f xs h)

  last_item-Succeeds :
      {c : Bool} {B : Type 0} (f : ℕ → B → Program c (Unit {0})) (xs : List B)
      → ((i : ℕ) (x : B) → Succeeds (f i x))
      → Succeeds (last_item f xs)
  unfolding last_item outcome
  last_item-Succeeds f [] h = refl
  last_item-Succeeds f (x ∷ []) h = h _ x
  last_item-Succeeds f (x ∷ y ∷ xs) h = last_item-Succeeds f (y ∷ xs) h

  pub indexed-Succeeds :
      {c : Bool} {B : Type 0} (f : ℕ → B → Program c (Unit {0})) (xs : List B)
      → ((i : ℕ) (x : B) → Succeeds (f i x))
      → Succeeds (indexed f xs)
  unfolding indexed
  indexed-Succeeds f xs h =
      then-Succeeds (each 0 f xs) (last_item f xs) (each-Succeeds 0 f xs h)
        (last_item-Succeeds f xs h)

  pub present-Succeeds :
      {c : Bool} {B : Type 0} (f : B → Program c (Unit {0})) (x : Option B)
      → ((x : B) → Succeeds (f x))
      → Succeeds (present f x)
  unfolding outcome
  present-Succeeds f none h = refl
  present-Succeeds f (some x) h = h x

  statements-bind :
      {c : Bool} {A B : Type 0} (m : Program c A) (k : A → Program c B) (x : A)
      → outcome quoted quoted_binary n m ≡ ok x
      → statements quoted quoted_binary n (m >>= k)
        ≡ statements quoted quoted_binary n m ++ statements quoted quoted_binary n (k x)
  unfolding outcome statements ◌>>=◌
  statements-bind (ret y) k x h =
      ap (λ r. elim r [ err e ↦ [] | ok z ↦ statements quoted quoted_binary n (k z) ]) h
  statements-bind (fail e) k x h = cc h
  statements-bind (escape r i f) k x h =
      statements-bind (f (quoted_text quoted quoted_binary n i)) k x h
  statements-bind (escape_binary i f) k x h = statements-bind (f (quoted_binary i)) k x h
  statements-bind (insert r table fields values m) k x h =
      ap (λ t. insertion table fields values ∷ t) (statements-bind m k x h)
  statements-bind (insert_anyway e table fields values f) k x h =
      ap (λ t. insertion table fields values ∷ t) (statements-bind (f true) k x h)
  statements-bind (last_insert_ident table f) k x h =
      ap (λ t. max_query table ∷ t) (statements-bind (f n) k x h)

  -- The statements of every item at its index, from `i` on.
  abbrev pub item_statements :
      {c : Bool} {B : Type 0} → ℕ → (ℕ → B → Program c (Unit {0})) → List B → List Bytes
  item_statements i f [] = []
  item_statements i f (x ∷ xs) =
      statements quoted quoted_binary n (f i x) ++ item_statements (i + 1) f xs

  each-statements :
      {c : Bool} {B : Type 0} (i : ℕ) (f : ℕ → B → Program c (Unit {0})) (xs : List B)
      → ((i : ℕ) (x : B) → Succeeds (f i x))
      → statements quoted quoted_binary n (each i f xs) ≡ item_statements i f xs
  unfolding each statements
  each-statements i f [] h = refl
  each-statements i f (x ∷ xs) h =
      statements-bind (f i x) (λ _. each (i + 1) f xs) tt (h i x)
      ∙ ap (λ t. statements quoted quoted_binary n (f i x) ++ t) (each-statements (i + 1) f xs h)

  -- The loop over items whose programs succeed: its statements, and then those of the last item.
  pub indexed-statements :
      {c : Bool} {B : Type 0} (f : ℕ → B → Program c (Unit {0})) (xs : List B)
      → ((i : ℕ) (x : B) → Succeeds (f i x))
      → statements quoted quoted_binary n (indexed f xs)
        ≡ item_statements 0 f xs ++ statements quoted quoted_binary n (last_item f xs)
  unfolding indexed
  indexed-statements f xs h =
      statements-bind (each 0 f xs) (λ _. last_item f xs) tt (each-Succeeds 0 f xs h)
      ∙ ap (λ t. t ++ statements quoted quoted_binary n (last_item f xs)) (each-statements 0 f xs h)
