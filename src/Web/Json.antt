-- ===== src/Web/Json.antt =====
-- The bodies that readJSON of internal/web/web.go decodes. A number is an integer; `minus n` is
-- -(n + 1).
use cloudpost.Prelude.{Bool, List, Option, [], false, if◌then◌else◌, none, some, ℕ, ◌>>=◌, ◌∷◌}
use cloudpost.Text.{Text, equal_fold, negsuc, pos, ℤ}

mutual
  pub data Json : Type 0 where
    null : Json
    bool : Bool → Json
    num : ℕ → Json
    minus : ℕ → Json
    str : Text → Json
    arr : Items → Json
    obj : Fields → Json

  pub data Items : Type 0 where
    nil : Items
    cons : Json → Items → Items

  pub data Fields : Type 0 where
    end : Fields
    pair : Text → Json → Fields → Fields

-- The first value, or else the second.
abbrev latest : Option Json → Option Json → Option Json
latest (some v) o = some v
latest none o = o

-- Of several members with a name the last one counts. A struct takes a name in any case, a map
-- only as it is written.
unfoldable pub member : (Text → Text → Bool) → Text → Fields → Option Json
member same k end = none
member same k (pair j v fs) = latest (member same k fs) (if same j k then some v else none)

-- Decoding into a struct: none is an error.
abbrev pub fields_of : Option Json → Option Fields
fields_of none = none
fields_of (some (obj fs)) = some fs
fields_of (some null) = some end
fields_of (some _) = none

abbrev as_text : Option Json → Option Text
as_text none = some []
as_text (some null) = some []
as_text (some (str t)) = some t
as_text (some _) = none

-- A negative number reads as zero: the handlers treat all numbers below one alike.
abbrev as_nat : Option Json → Option ℕ
as_nat none = some 0
as_nat (some null) = some 0
as_nat (some (num n)) = some n
as_nat (some (minus n)) = some 0
as_nat (some _) = none

abbrev as_int : Option Json → Option ℤ
as_int none = some (pos 0)
as_int (some null) = some (pos 0)
as_int (some (num n)) = some (pos n)
as_int (some (minus n)) = some (negsuc n)
as_int (some _) = none

-- A bool, and a *bool, which is nil when the member is missing.
abbrev as_flag : Option Json → Option Bool
as_flag none = some false
as_flag (some null) = some false
as_flag (some (bool b)) = some b
as_flag (some _) = none

abbrev as_pointer : Option Json → Option (Option Bool)
as_pointer none = some none
as_pointer (some null) = some none
as_pointer (some (bool b)) = some (some b)
as_pointer (some _) = none

unfoldable pub texts_of : Items → Option (List Text)
texts_of nil = some []
texts_of (cons (str t) js) = texts_of js >>= λ ts. some (t ∷ ts)
texts_of (cons null js) = texts_of js >>= λ ts. some ([] ∷ ts)
texts_of (cons _ js) = none

unfoldable pub as_texts : Option Json → Option (List Text)
unfolding texts_of
as_texts none = some []
as_texts (some null) = some []
as_texts (some (arr js)) = texts_of js
as_texts (some _) = none

unfoldable pub text_in : Fields → Text → Option Text
unfolding member equal_fold
text_in fs k = as_text (member equal_fold k fs)

unfoldable pub nat_in : Fields → Text → Option ℕ
unfolding member equal_fold
nat_in fs k = as_nat (member equal_fold k fs)

unfoldable pub int_in : Fields → Text → Option ℤ
unfolding member equal_fold
int_in fs k = as_int (member equal_fold k fs)

unfoldable pub flag_in : Fields → Text → Option Bool
unfolding member equal_fold
flag_in fs k = as_flag (member equal_fold k fs)

unfoldable pub pointer_in : Fields → Text → Option (Option Bool)
unfolding member equal_fold
pointer_in fs k = as_pointer (member equal_fold k fs)

unfoldable pub texts_in : Fields → Text → Option (List Text)
unfolding member equal_fold as_texts
texts_in fs k = as_texts (member equal_fold k fs)
