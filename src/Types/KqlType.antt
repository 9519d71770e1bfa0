-- ===== src/Types/KqlType.antt =====
-- The scalar types of pkg/types/types.go and the names they are written by.
use gokql.Base.{
  ℕ, ◌≡◌, Bool, Option, none, some, if◌then◌else◌, leb, ◌==◌, ◌+◌, ◌&&◌, ◌||◌, List, [], ◌∷◌, map,
  ◌↔◌, arith,
}
use gokql.Base.Bytes.{Bytes, codes, bytes_eq}
use mathlib.Core.List.{reverse}

pub data KqlType : Type 0 where
  string long int real bool datetime timespan guid dynamic decimal : KqlType

-- The constant's number: two types are the same when their numbers are.
unfoldable pub type_code : KqlType → ℕ
type_code string = 0
type_code long = 1
type_code int = 2
type_code real = 3
type_code bool = 4
type_code datetime = 5
type_code timespan = 6
type_code guid = 7
type_code dynamic = 8
type_code decimal = 9

unfoldable pub type_eq : KqlType → KqlType → Bool
unfolding type_code
type_eq s t = type_code s == type_code t

unfoldable pub type_name : KqlType → Bytes
type_name string = codes "string"
type_name long = codes "long"
type_name int = codes "int"
type_name real = codes "real"
type_name bool = codes "bool"
type_name datetime = codes "datetime"
type_name timespan = codes "timespan"
type_name guid = codes "guid"
type_name dynamic = codes "dynamic"
type_name decimal = codes "decimal"

-- `strings.ToLower` and `strings.TrimSpace` on ASCII text
unfoldable pub to_lower : Bytes → Bytes
to_lower = map λ c. if leb b'A' c && leb c b'Z' then c + 32 else c

unfoldable pub is_space : ℕ → Bool
is_space c = c == 32 || (leb 9 c && leb c 13)

unfoldable pub trim_left : Bytes → Bytes
unfolding is_space
trim_left [] = []
trim_left (c ∷ s) = let rest = trim_left s in if is_space c then rest else c ∷ s

unfoldable pub trim_space : Bytes → Bytes
unfolding trim_left
trim_space s = reverse (trim_left (reverse (trim_left s)))

any_of : Bytes → List Bytes → Bool
any_of s [] = Bool.false
any_of s (w ∷ ws) = bytes_eq s w || any_of s ws

parse_word : Bytes → Option KqlType
unfolding any_of bytes_eq
parse_word s =
    if any_of s (codes "string" ∷ [])
    then some string
    else if any_of s (codes "long" ∷ codes "int64" ∷ [])
    then some long
    else if any_of s (codes "int" ∷ codes "int32" ∷ [])
    then some int
    else if any_of s (codes "real" ∷ codes "double" ∷ codes "float" ∷ [])
    then some real
    else if any_of s (codes "bool" ∷ codes "boolean" ∷ [])
    then some bool
    else if any_of s (codes "datetime" ∷ codes "date" ∷ [])
    then some datetime
    else if any_of s (codes "timespan" ∷ [])
    then some timespan
    else if any_of s (codes "guid" ∷ codes "uuid" ∷ [])
    then some guid
    else if any_of s (codes "dynamic" ∷ [])
    then some dynamic
    else if any_of s (codes "decimal" ∷ [])
    then some decimal
    else none

unfoldable pub parse_type : Bytes → Option KqlType
unfolding parse_word to_lower trim_space
parse_type s = parse_word (to_lower (trim_space s))

pub type_eq_iff : (s t : KqlType) → (type_eq s t ≡ Bool.true) ↔ (s ≡ t)
unfolding type_eq
type_eq_iff s t = ground arith
