-- ===== src/Trace/Json.antt =====
-- The JSON reader of src/trace.cpp: `Value` and the mutually recursive `value`, `array` and `object` of
-- `Parser`, on fuel.
pub mod Settles
use Prim.Native.String.{String}
use recurlocal.Base.{
  ℕ, zero, suc, ◌+◌, Bool, true, false, ◌&&◌, Option, none, some, List, [], ◌∷◌, ◌==◌,
  if◌then◌else◌, length,
}
use recurlocal.Trace

-- `Value`, with `double` as a parameter; lists and maps of values have their own types.
mutual
  pub data Value (W : Type 0) : Type 0 where
    null : Value W
    boolean : Bool → Value W
    number : W → Value W
    quoted : List ℕ → Value W
    array : Array W → Value W
    object : Object W → Value W

  pub data Array (W : Type 0) : Type 0 where
    no_elements : Array W
    element : Value W → Array W → Array W

  pub data Object (W : Type 0) : Type 0 where
    no_fields : Object W
    field : List ℕ → Value W → Object W → Object W

unfoldable pub text_eq : List ℕ → List ℕ → Bool
text_eq [] [] = true
text_eq [] (c ∷ cs) = false
text_eq (c ∷ cs) [] = false
text_eq (c ∷ cs) (d ∷ ds) = c == d && text_eq cs ds

module _ {W : Type 0} where
  -- `array.push_back(v)`.
  unfoldable pub push_back : Array W → Value W → Array W
  push_back no_elements v = element v no_elements
  push_back (element w a) v = element w (push_back a v)

  -- `object[key] = v`: one value for a key, the last one.
  unfoldable pub put : Object W → List ℕ → Value W → Object W
  put no_fields key v = field key v no_fields
  put (field k w o) key v = elim (text_eq k key) [
    | true ↦ field k v o
    | false ↦ field k w (put o key v)
  ]

  unfoldable pub find_field : Object W → List ℕ → Option (Value W)
  find_field no_fields key = none
  find_field (field k v o) key = if text_eq k key then some v else find_field o key

  -- `Value::find`.
  unfoldable pub find : Value W → List ℕ → Option (Value W)
  find (object o) key = find_field o key
  find v key = none

-- The result of one reader handed to the next.
unfoldable pub and_then {ℓ} :
    {A B : Type ℓ} → Trace.Read A → (A → List ℕ → Trace.Read B) → Trace.Read B
and_then (Trace.done a rest) f = f a rest
and_then (Trace.refused message rest) f = Trace.refused message rest
and_then Trace.out_of_fuel f = Trace.out_of_fuel

abbrev pub comma : ℕ
comma = 44

abbrev pub colon : ℕ
colon = 58

abbrev pub bracket : ℕ
bracket = 93

abbrev pub brace : ℕ
brace = 125

-- What stands after an element of a container: another one, the end of the container, or neither.
pub data Separator : Type 0 where
  another : List ℕ → Separator
  end_of : List ℕ → Separator
  missing : Separator
  unexpected : List ℕ → Separator

unfoldable pub separator : ℕ → List ℕ → Separator
separator close [] = missing
separator close (c ∷ rest) =
    if c == comma then another rest else if c == close then end_of rest else unexpected (c ∷ rest)

-- The key of a field and its colon.
unfoldable pub after_colon : List ℕ → List ℕ → Trace.Read (List ℕ)
after_colon key [] = Trace.refused "expected ':'" []
after_colon key (c ∷ rest) =
    if c == colon then Trace.done key rest else Trace.refused "expected ':'" (c ∷ rest)

unfoldable pub read_key : List ℕ → Trace.Read (List ℕ)
read_key [] = Trace.refused "expected a key" []
read_key (c ∷ rest) =
    if c == Trace.quote
    then and_then (Trace.string (c ∷ rest)) (λ key left. after_colon key (Trace.skip left))
    else Trace.refused "expected a key" (c ∷ rest)

-- What the loops do at a separator: go round, return, or fail with one of two messages.
unfoldable pub after_element {ℓ} :
    {A : Type ℓ} → String → String → A → (List ℕ → Trace.Read A) → Separator → Trace.Read A
after_element unterminated expected a loop (another more) = loop more
after_element unterminated expected a loop (end_of more) = Trace.done a more
after_element unterminated expected a loop missing = Trace.refused unterminated []
after_element unterminated expected a loop (unexpected more) = Trace.refused expected more

module _ {W : Type 0} (read : List ℕ → Trace.Read (Value W)) where
  -- The loop of `array`; `read` reads one value.
  unfoldable pub elements : ℕ → Array W → List ℕ → Trace.Read (Array W)
  elements zero a text = Trace.out_of_fuel
  elements (suc n) a text = and_then (read text) λ v rest.
      let grown = push_back a v in
      after_element "unterminated array" "expected ',' or ']'" grown (elements n grown)
        (separator bracket (Trace.skip rest))

  -- The loop of `object`.
  unfoldable pub fields : ℕ → Object W → List ℕ → Trace.Read (Object W)
  fields zero o text = Trace.out_of_fuel
  fields (suc n) o text = and_then (read_key (Trace.skip text)) λ key after.
      and_then (read after) λ v rest.
        let grown = put o key v in
        after_element "unterminated object" "expected ',' or '}'" grown (fields n grown)
          (separator brace (Trace.skip rest))

-- The text after a closing mark right here, the empty container.
unfoldable pub closed : ℕ → List ℕ → Option (List ℕ)
closed close [] = none
closed close (c ∷ rest) = if c == close then some rest else none

pub data Opening : Type 0 where
  opens_object opens_array opens_string opens_nothing : Opening

unfoldable pub opening : ℕ → Opening
opening c =
    if c == 123
    then opens_object
    else if c == 91
    then opens_array
    else if c == Trace.quote
    then opens_string
    else opens_nothing

-- The value of a word that was found, or what else the text is.
unfoldable pub word_or {ℓ} : {A : Type ℓ} → Option (List ℕ) → A → Trace.Read A → Trace.Read A
word_or (some rest) v other = Trace.done v rest
word_or none v other = other

module _ {W : Type 0} (strtod : List ℕ → W) where
  -- The words, and a number where none of them stands.
  unfoldable pub scalar : List ℕ → Trace.Read (Value W)
  scalar text = word_or (Trace.literal (116 ∷ 114 ∷ 117 ∷ 101 ∷ []) text) (boolean true) (
      word_or (Trace.literal (102 ∷ 97 ∷ 108 ∷ 115 ∷ 101 ∷ []) text) (boolean false) (
        word_or (Trace.literal (110 ∷ 117 ∷ 108 ∷ 108 ∷ []) text) null
          (and_then (Trace.number strtod text) (λ x rest. Trace.done (number x) rest))))

  -- `array` and `object` after their opening mark, the loops given as functions.
  unfoldable pub array_after :
      (Array W → List ℕ → Trace.Read (Array W)) → List ℕ → Trace.Read (Value W)
  array_after loop text =
      word_or (closed bracket (Trace.skip text)) (array no_elements)
        (and_then (loop no_elements (Trace.skip text)) (λ a rest. Trace.done (array a) rest))

  unfoldable pub object_after :
      (Object W → List ℕ → Trace.Read (Object W)) → List ℕ → Trace.Read (Value W)
  object_after loop text =
      word_or (closed brace (Trace.skip text)) (object no_fields)
        (and_then (loop no_fields (Trace.skip text)) (λ o rest. Trace.done (object o) rest))

  -- `value` at the first character that is no space.
  unfoldable pub value_at : ℕ → (List ℕ → Trace.Read (Value W)) → List ℕ → Trace.Read (Value W)
  value_at n read [] = Trace.refused "unexpected end of document" []
  value_at n read (c ∷ rest) = elim (opening c) [
    | opens_object ↦ object_after (fields read n) rest
    | opens_array ↦ array_after (elements read n) rest
    | opens_string ↦ and_then (Trace.string (c ∷ rest)) (λ t left. Trace.done (quoted t) left)
    | opens_nothing ↦ scalar (c ∷ rest)
  ]

  -- `Parser::value`; its containers read their values with one unit of fuel less.
  unfoldable pub value : ℕ → List ℕ → Trace.Read (Value W)
  value zero text = Trace.out_of_fuel
  value (suc n) text = value_at n (value n) (Trace.skip text)

  unfoldable pub whole : Value W → List ℕ → Trace.Read (Value W)
  whole v [] = Trace.done v []
  whole v (c ∷ rest) = Trace.refused "trailing content after the document" (c ∷ rest)

  -- `Parser::parse`, with one unit of fuel for each byte and one more.
  unfoldable pub parse : List ℕ → Trace.Read (Value W)
  parse text =
      and_then (value (length text + 1) (Trace.skip text)) (λ v rest. whole v (Trace.skip rest))
