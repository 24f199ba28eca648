-- ===== src/Dto/Mapped.antt =====
-- pkg/dto/mapped.go: reading a decoded JSON object with defaults, and strconv.ParseUint in base 16
-- on 64 bits, as the Go library documents it.
pub mod Hex
use Prim.Native.Char.{code}
use substrate_rpc_proxy.Prelude.{
  ℕ, ◌-◌, ◌+◌, ◌*◌, ◌^◌, String, Bool, true, false, ◌&&◌, ◌||◌, List, [], ◌∷◌, Option, none, some,
  leb, ◌==◌, str_eq, if◌then◌else◌,
}

-- What `interface{}` holds after jsoniter: a JSON number is a float64, kept as the result of the
-- conversion `uint64(v)`, the only use that this code makes of it. `uint64` is for values built in
-- Go. A map is an association list.
mutual
  pub data Value : Type 0 where
    null : Value
    bool : Bool → Value
    float64 : ℕ → Value
    uint64 : ℕ → Value
    str : String → Value
    arr : Items → Value
    obj : Fields → Value

  pub data Items : Type 0 where
    nil : Items
    cons : Value → Items → Items

  pub data Fields : Type 0 where
    empty : Fields
    field : String → Value → Fields → Fields

abbrev pub codes : String → List ℕ
codes String.[] = []
codes (String.◌∷◌ c s) = code c ∷ codes s

-- `r[key]`; a missing key gives the nil interface.
unfoldable pub index : String → Fields → Value
index key empty = null
index key (field k v r) = if str_eq k key then v else index key r

unfoldable pub has_key : String → Fields → Bool
has_key key empty = false
has_key key (field k v r) = str_eq k key || has_key key r

abbrev pub max_uint64 : ℕ
max_uint64 = 2 ^ 64 - 1

-- The digit that a byte stands for in base 16, in either case.
unfoldable pub hex_digit : ℕ → Option ℕ
hex_digit c =
    if leb b'0' c && leb c b'9'
    then some (c - b'0')
    else (if leb b'a' c && leb c b'f'
        then some (c - b'a' + 10)
        else (if leb b'A' c && leb c b'F' then some (c - b'A' + 10) else none))

-- One digit of ParseUint's loop: past 64 bits the loop ends at once with the largest value.
unfoldable pub parse_digits : ℕ → List ℕ → ℕ
unfolding hex_digit
parse_digits n [] = n
parse_digits n (c ∷ s) = elim (hex_digit c) [
  | none ↦ 0
  | some d ↦ elim (leb (n * 16 + d) max_uint64) [
    | true ↦ parse_digits (n * 16 + d) s
    | false ↦ max_uint64
  ]
]

-- The value that ParseUint(s, 16, 64) returns, its error dropped.
unfoldable pub parse_uint16 : List ℕ → ℕ
unfolding parse_digits
parse_uint16 [] = 0
parse_uint16 (c ∷ s) = parse_digits 0 (c ∷ s)

unfoldable pub must_int_text : List ℕ → ℕ
unfolding parse_uint16
must_int_text [] = 0
must_int_text (a ∷ []) = 0
must_int_text (a ∷ b ∷ s) = if a == b'0' && (b == b'x' || b == b'X') then parse_uint16 s else 0

unfoldable pub must_int : String → Fields → ℕ
unfolding index must_int_text
must_int key r = elim (index key r) [
  | str s ↦ must_int_text (codes s)
  | uint64 n ↦ n
  | float64 n ↦ n
  | _ ↦ 0
]

unfoldable pub must_map : Value → Fields
must_map (obj m) = m
must_map _ = empty

unfoldable pub get : String → Fields → Fields
unfolding index
get key r = elim (index key r) [ obj m ↦ m | _ ↦ empty ]

unfoldable pub must_string : String → Fields → String
unfolding index
must_string key r = elim (index key r) [ str s ↦ s | _ ↦ "" ]

-- The loop of MustStrings: items that are no strings are skipped.
unfoldable pub only_strings : Items → List String
only_strings nil = []
only_strings (cons (str s) r) = s ∷ only_strings r
only_strings (cons _ r) = only_strings r

unfoldable pub must_strings : String → Fields → List String
unfolding index only_strings
must_strings key r = elim (index key r) [ arr xs ↦ only_strings xs | _ ↦ [] ]

-- The loop of GetSlice: items that are no objects become empty ones.
unfoldable pub as_maps : Items → List Fields
as_maps nil = []
as_maps (cons (obj m) r) = m ∷ as_maps r
as_maps (cons _ r) = empty ∷ as_maps r

unfoldable pub get_slice : String → Fields → List Fields
unfolding index as_maps
get_slice key r = elim (index key r) [ arr xs ↦ as_maps xs | _ ↦ [] ]

unfoldable pub string_or_empty : Value → String
string_or_empty (str s) = s
string_or_empty _ = ""

unfoldable pub as_string_map : Fields → List (String × String)
unfolding string_or_empty
as_string_map empty = []
as_string_map (field k v r) = (k, string_or_empty v) ∷ as_string_map r

unfoldable pub must_string_map : String → Fields → List (String × String)
unfolding index as_string_map
must_string_map key r = elim (index key r) [ obj m ↦ as_string_map m | _ ↦ [] ]

unfoldable pub get_interface : String → Fields → Value
unfolding index has_key
get_interface key r = if has_key key r then index key r else null
