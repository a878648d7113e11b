-- ===== src/Json.antt =====
-- JSON values, as the services pass them around (`Record<string, unknown>` and the bodies of
-- requests). A number that is no integer is kept by its text.
use Prim.Native.String
use monica_companion.Base.{
  ℕ, zero, suc, ◌/◌, ◌%◌, Bool, Option, none, some, List, [], ◌∷◌, String, str_eq, if◌then◌else◌,
  ltb, ◌==◌,
}

infixr 65 ◌+++◌
abbrev pub ◌+++◌ : String → String → String
s +++ t = String.◌++◌ s t

-- `negsuc n` is -(n + 1).
pub data ℤ : Type 0 where
  pos negsuc : ℕ → ℤ

mutual
  pub data Json : Type 0 where
    null : Json
    bool : Bool → Json
    int : ℤ → Json
    frac : String → Json
    text : String → Json
    arr : Elems → Json
    obj : Fields → Json

  pub data Elems : Type 0 where
    nil : Elems
    cons : Json → Elems → Elems

  pub data Fields : Type 0 where
    end : Fields
    field : String → Json → Fields → Fields

-- `o[k]` of the fields of an object: `none` is undefined.
unfoldable pub get : String → Fields → Option Json
get k end = none
get k (field j v fs) = if str_eq j k then some v else get k fs

unfoldable pub elems : Elems → List Json
elems nil = []
elems (cons v vs) = v ∷ elems vs

unfoldable pub ints : List ℤ → Elems
ints [] = nil
ints (n ∷ ns) = cons (int n) (ints ns)

-- A field of an optional value, left out where the value is undefined.
abbrev pub optional : String → Option Json → Fields → Fields
optional k none fs = fs
optional k (some v) fs = field k v fs

unfoldable pub digit : ℕ → String
digit n =
    if n == 0
    then "0"
    else if n == 1
    then "1"
    else if n == 2
    then "2"
    else if n == 3
    then "3"
    else if n == 4
    then "4"
    else if n == 5
    then "5"
    else if n == 6
    then "6"
    else if n == 7
    then "7"
    else if n == 8
    then "8"
    else "9"

-- The decimal digits of a number. `fuel` bounds their count; `decimal` gives n + 1, which is enough.
unfoldable pub decimal_from : ℕ → ℕ → String
decimal_from zero n = ""
decimal_from (suc fuel) n =
    let more = decimal_from fuel (n / 10) +++ digit (n % 10) in if ltb n 10 then digit n else more

unfoldable pub decimal : ℕ → String
unfolding decimal_from digit
decimal n = decimal_from (suc n) n

-- `${n}` of an integer.
unfoldable pub show : ℤ → String
unfolding decimal
show (pos n) = decimal n
show (negsuc n) = "-" +++ decimal (suc n)
