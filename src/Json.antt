-- ===== src/Json.antt =====
-- The texts that `JSON.stringify` makes: objects keep the order of their fields.
use Prim.Native.Char.{Char, code}
use Prim.Native.String
use sign_protocols.Prelude.{
  ℕ, zero, suc, ◌/◌, ◌%◌, String, Option, none, some, ltb, eqb, if◌then◌else◌,
}

mutual
  pub data Json : Type 0 where
    null : Json
    num : ℕ → Json
    -- below zero
    minus : ℕ → Json
    str : String → Json
    arr : Elems → Json
    obj : Fields → Json

  pub data Elems : Type 0 where
    nil : Elems
    cons : Json → Elems → Elems

  pub data Fields : Type 0 where
    end : Fields
    field : String → Json → Fields → Fields

-- What can be put into a message.
pub record ToJson {ℓ} (P : Type ℓ) : Type ℓ where
  pub to_json : P → Json

infixr 65 ◌⋯◌
abbrev pub ◌⋯◌ : String → String → String
a ⋯ b = String.◌++◌ a b

abbrev digit : ℕ → String
digit d = elim d [
  | zero ↦ "0"
  | suc zero ↦ "1"
  | suc (suc zero) ↦ "2"
  | suc (suc (suc zero)) ↦ "3"
  | suc (suc (suc (suc zero))) ↦ "4"
  | suc (suc (suc (suc (suc zero)))) ↦ "5"
  | suc (suc (suc (suc (suc (suc zero))))) ↦ "6"
  | suc (suc (suc (suc (suc (suc (suc zero)))))) ↦ "7"
  | suc (suc (suc (suc (suc (suc (suc (suc zero))))))) ↦ "8"
  | _ ↦ "9"
]

-- The digits of a number below 10 ^ fuel.
decimal_from : ℕ → ℕ → String
decimal_from zero n = ""
decimal_from (suc f) n =
    let more = decimal_from f (n / 10) in if ltb n 10 then digit n else more ⋯ digit (n % 10)

-- A number as template literals and JSON print it. A number has at most as many digits as itself
-- and one more.
pub decimal : ℕ → String
unfolding decimal_from
decimal n = decimal_from (suc n) n

abbrev hex_digit : ℕ → String
hex_digit d =
    if ltb d 10
    then digit d
    else if eqb d 10
    then "a"
    else if eqb d 11
    then "b"
    else if eqb d 12
    then "c"
    else if eqb d 13
    then "d"
    else if eqb d 14
    then "e"
    else "f"

escape_char : Char → String
escape_char c =
    let n = code c in
    if eqb n 34
    then "\\\""
    else if eqb n 92
    then "\\\\"
    else if eqb n 8
    then "\\b"
    else if eqb n 9
    then "\\t"
    else if eqb n 10
    then "\\n"
    else if eqb n 12
    then "\\f"
    else if eqb n 13
    then "\\r"
    else if ltb n 32
    then "\\u00" ⋯ hex_digit (n / 16) ⋯ hex_digit (n % 16)
    else String.◌∷◌ c String.[]

escape : String → String
unfolding escape_char
escape String.[] = ""
escape (String.◌∷◌ c s) = escape_char c ⋯ escape s

quote : String → String
unfolding escape
quote s = "\"" ⋯ escape s ⋯ "\""

mutual
  unfolding quote decimal

  print : Json → String
  print null = "null"
  print (num n) = decimal n
  print (minus n) = "-" ⋯ decimal n
  print (str s) = quote s
  print (arr xs) = "[" ⋯ print_elems xs ⋯ "]"
  print (obj fs) = "{" ⋯ print_fields fs ⋯ "}"

  print_elems : Elems → String
  print_elems nil = ""
  print_elems (cons x nil) = print x
  print_elems (cons x (cons y xs)) = print x ⋯ "," ⋯ print_elems (cons y xs)

  print_fields : Fields → String
  print_fields end = ""
  print_fields (field k v end) = quote k ⋯ ":" ⋯ print v
  print_fields (field k v (field k' v' fs)) =
      quote k ⋯ ":" ⋯ print v ⋯ "," ⋯ print_fields (field k' v' fs)

pub stringify {ℓ} : {P : Type ℓ} ⦃j : ToJson P⦄ → P → String
unfolding print
stringify ⦃j⦄ p = print (j.to_json p)

-- A field that is `undefined` is left out.
abbrev pub optional_field : String → Option Json → Fields → Fields
optional_field k none fs = fs
optional_field k (some v) fs = field k v fs
