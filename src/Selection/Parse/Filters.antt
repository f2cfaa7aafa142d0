-- ===== src/Selection/Parse/Filters.antt =====
-- The text of a selected path, and what the filters behind its slash are read as.
use Prim.Native.Nat.{bit_or}
use librequiemdb.Base.{
  ℕ, ◌+◌, Bool, true, false, ◌||◌, List, [], ◌∷◌, ◌++◌, ◌≡◌, ◌⊎◌, refl, ◌∙◌, ap, arith, Option,
  none, some, if◌then◌else◌, Bytes, codes,
}
use librequiemdb.Error.{ok}
use librequiemdb.Selection.{
  function_min, function_max, function_avg, function_std, function_count, group_by, order_asc,
  order_desc, parse_filter, segments, or_filters,
}
use librequiemdb.Selection.Parse.Search.{Lacks}

pub data Function : Type 0 where
  min max avg std count : Function

pub data Filter : Type 0 where
  grouped ascending descending : Filter

abbrev pub opening : Function → Bytes
opening min = codes "min("
opening max = codes "max("
opening avg = codes "avg("
opening std = codes "std("
opening count = codes "count("

abbrev pub filter_name : Filter → Bytes
filter_name grouped = codes "group_by"
filter_name ascending = codes "order_asc"
filter_name descending = codes "order_desc"

abbrev pub filters_text : Filter → List Filter → Bytes
filters_text f [] = filter_name f
filters_text f (g ∷ gs) = filter_name f ++ b',' ∷ filters_text g gs

abbrev pub filters_part : List Filter → Bytes
filters_part [] = []
filters_part (f ∷ fs) = b'/' ∷ filters_text f fs

-- The text of a selected path.
abbrev pub print : Option Function → Bytes → List Filter → Bytes
print none t fs = t ++ filters_part fs
print (some fn) t fs = opening fn ++ (t ++ b')' ∷ filters_part fs)

abbrev pub function_bit : Option Function → ℕ
function_bit none = 0
function_bit (some min) = function_min
function_bit (some max) = function_max
function_bit (some avg) = function_avg
function_bit (some std) = function_std
function_bit (some count) = function_count

abbrev pub is_grouped : Filter → Bool
is_grouped grouped = true
is_grouped _ = false

abbrev pub is_ascending : Filter → Bool
is_ascending ascending = true
is_ascending _ = false

abbrev pub is_descending : Filter → Bool
is_descending descending = true
is_descending _ = false

abbrev pub any : (Filter → Bool) → List Filter → Bool
any test [] = false
any test (f ∷ fs) = test f || any test fs

abbrev pub mask : Bool → Bool → Bool → ℕ
mask g a d =
    (if g then group_by else 0) + (if a then order_asc else 0) + (if d then order_desc else 0)

-- The flags of a function and of the set of filters, each filter counted once.
abbrev pub flags_of : Option Function → List Filter → ℕ
flags_of fn fs =
    function_bit fn + mask (any is_grouped fs) (any is_ascending fs) (any is_descending fs)

pub or-mask :
    (g a d : Bool) (f : Filter) (ret : ℕ)
    → parse_filter (filter_name f) ≡ ok ret
    → bit_or (mask g a d) ret
      ≡ mask (is_grouped f || g) (is_ascending f || a) (is_descending f || d)
unfolding parse_filter
or-mask true true true grouped ret h = ground arith
or-mask _ _ _ _ ret h = ground arith

pub segments_first : (xs ys : Bytes) → Lacks b',' xs → segments (xs ++ b',' ∷ ys) ≡ xs ∷ segments ys
unfolding segments
segments_first [] ys h = refl
segments_first (x ∷ xs) ys h = ground (arith, segments_first xs ys h.1)

pub segments_only : (xs : Bytes) → Lacks b',' xs → segments xs ≡ xs ∷ []
unfolding segments
segments_only [] h = refl
segments_only (x ∷ xs) h = ground (arith, segments_only xs h.1)

pub filter_name-Lacks : (f : Filter) → Lacks b',' (filter_name f)
filter_name-Lacks grouped = omega arith
filter_name-Lacks ascending = omega arith
filter_name-Lacks descending = omega arith

abbrev pub filter_bit : Filter → ℕ
filter_bit grouped = group_by
filter_bit ascending = order_asc
filter_bit descending = order_desc

pub parse_filter-name : (f : Filter) → parse_filter (filter_name f) ≡ ok (filter_bit f)
unfolding parse_filter
parse_filter-name grouped = refl
parse_filter-name ascending = refl
parse_filter-name descending = refl

pub or_swap : (x y z : Bool) → (y || (x || z)) ≡ ((x || y) || z)
or_swap x y z = ground arith

pub or_filters-text :
    (g a d : Bool) (f : Filter) (fs : List Filter)
    → or_filters (mask g a d) (segments (filters_text f fs))
      ≡ ok (
          mask
            (any is_grouped (f ∷ fs) || g)
            (any is_ascending (f ∷ fs) || a)
            (any is_descending (f ∷ fs) || d))
unfolding or_filters
or_filters-text g a d f [] = rw (segments_only (filter_name f) (filter_name-Lacks f)) (
    rw (parse_filter-name f) (ground (arith, or-mask g a d f (filter_bit f) (parse_filter-name f))))
or_filters-text g a d f (k ∷ fs) =
    rw (segments_first (filter_name f) (filters_text k fs) (filter_name-Lacks f)) (
      rw (parse_filter-name f) (
        ap (λ m. or_filters m (segments (filters_text k fs)))
          (or-mask g a d f (filter_bit f) (parse_filter-name f))
        ∙ or_filters-text (is_grouped f || g) (is_ascending f || a) (is_descending f || d) k fs
        ∙ cc (
          or_swap (is_grouped f) (any is_grouped (k ∷ fs)) g,
          or_swap (is_ascending f) (any is_ascending (k ∷ fs)) a,
          or_swap (is_descending f) (any is_descending (k ∷ fs)) d,
        )))

pub or-function :
    (fn : Option Function) (g a d : Bool)
    → bit_or (mask g a d) (function_bit fn) ≡ function_bit fn + mask g a d
or-function none g a d = ground arith
or-function (some min) g a d = ground arith
or-function (some max) g a d = ground arith
or-function (some avg) g a d = ground arith
or-function (some std) g a d = ground arith
or-function (some count) g a d = ground arith

pub Lacks-append : (c : ℕ) (xs ys : Bytes) → Lacks c xs → Lacks c ys → Lacks c (xs ++ ys)
Lacks-append c [] ys h k = k
Lacks-append c (x ∷ xs) ys h k = (h.0, Lacks-append c xs ys h.1 k)

-- The filters have no bracket and no slash of their own.
abbrev pub IsInner : ℕ → Type 0
IsInner c = (c ≡ b'(') ⊎ (c ≡ b')')

pub filter_name-inner : (c : ℕ) (f : Filter) → IsInner c → Lacks c (filter_name f)
filter_name-inner c grouped h = omega arith
filter_name-inner c ascending h = omega arith
filter_name-inner c descending h = omega arith

pub filters_text-Lacks :
    (c : ℕ) (f : Filter) (fs : List Filter) → IsInner c → Lacks c (filters_text f fs)
filters_text-Lacks c f [] h = filter_name-inner c f h
filters_text-Lacks c f (g ∷ fs) h =
    Lacks-append c (filter_name f) (b',' ∷ filters_text g fs) (filter_name-inner c f h)
      (omega arith, filters_text-Lacks c g fs h)

pub filters_part-Lacks : (c : ℕ) (fs : List Filter) → IsInner c → Lacks c (filters_part fs)
filters_part-Lacks c [] h = tt
filters_part-Lacks c (f ∷ fs) h = (omega arith, filters_text-Lacks c f fs h)
