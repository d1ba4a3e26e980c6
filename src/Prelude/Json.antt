-- ===== src/Prelude/Json.antt =====
-- The JSON objects that the source builds as `map[string]any`.
use mathlib.Core.Path.{◌≡◌, refl}
use mathlib.Core.Bool.{Bool, false}
use mathlib.Core.List.{List, [], ◌∷◌}
use mathlib.Core.Option.{Option, none, some}
use native.Mathlib.Omega.{arith}
use tenebra.Prelude.Tests.{if◌then◌else◌}
use tenebra.Prelude.Bytes.{Text, codes, text_eq, text_eq_iff, text_eq_refl}
use tenebra.Prelude.Int.{ℤ}

mutual
  pub data Json : Type 0 where
    text : Text → Json
    number : ℤ → Json
    flag : Bool → Json
    texts : List Text → Json
    object : Object → Json
    objects : Objects → Json

  -- An object as its fields, each under its key.
  pub data Object : Type 0 where
    end : Object
    field : Text → Json → Object → Object

  pub data Objects : Type 0 where
    nil : Objects
    cons : Object → Objects → Objects

-- An object that is written out.
abbrev pub fields : List (Text × Json) → Object
fields [] = end
fields ((k, v) ∷ kvs) = field k v (fields kvs)

-- `o[k]`.
unfoldable pub get_field : Text → Object → Option Json
get_field k end = none
get_field k (field j v o) = if text_eq j k then some v else get_field k o

-- `v.(string)`, which is the empty text for a value of another type and for none.
abbrev pub text_of : Option Json → Text
text_of (some (text t)) = t
text_of _ = codes ""

-- `o[k] = v`.
unfoldable pub put_field : Text → Json → Object → Object
put_field k v end = field k v end
put_field k v (field j w o) = if text_eq j k then field k v o else field j w (put_field k v o)

-- A write that is made only where there is a value.
unfoldable pub put_some : Text → Option Json → Object → Object
put_some k none o = o
put_some k (some v) o = put_field k v o

pub get_field-put_field :
    (k j : Text) (v : Json) (o : Object)
    → get_field j (put_field k v o) ≡ (if text_eq k j then some v else get_field j o)
unfolding get_field put_field
get_field-put_field k j v end = refl
get_field-put_field k j v (field i w o) =
    ground (arith, text_eq_iff k j, text_eq_iff i k, text_eq_iff i j, get_field-put_field k j v o)

pub get_field-put_other :
    (k j : Text) (v : Json) (o : Object)
    → text_eq k j ≡ false
    → get_field j (put_field k v o) ≡ get_field j o
get_field-put_other k j v o h = rw (get_field-put_field k j v o, h)

pub get_field-put_some :
    (k j : Text) (v : Option Json) (o : Object)
    → text_eq k j ≡ false
    → get_field j (put_some k v o) ≡ get_field j o
unfolding put_some
get_field-put_some k j none o h = refl
get_field-put_some k j (some v) o h = get_field-put_other k j v o h

-- What is written is there.
pub get_field-put_some_self :
    (k : Text) (v : Json) (o : Object) → get_field k (put_some k (some v) o) ≡ some v
unfolding put_some
get_field-put_some_self k v o = rw (get_field-put_field k k v o, text_eq_refl k) refl
