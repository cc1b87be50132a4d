-- ===== src/Trace.antt =====
-- The reader and writer of src/trace.cpp, as far as single tokens go: white space, words, strings and
-- numbers of the JSON text, and the table of measured devices. A text is the list of its bytes. The
-- reader's position is the size of the document less what is left of it.
pub mod Strings
pub mod Json
pub mod Tables
pub mod ReadPlan
pub mod ReadTrace
mod Examples
use Prim.Native.String.{String}
use recurlocal.Base.{
  ℕ, ◌+◌, Bool, true, false, ◌&&◌, ◌||◌, not, Option, none, some, List, [], ◌∷◌, ◌++◌, ◌==◌, leb,
  ltb, if◌then◌else◌,
}
use recurlocal.Base.Int.{pos}
use recurlocal.Base.Names.{find_value}
use recurlocal.Device.{DeviceProfile}

-- What a reader made of the text: a result with the text that is left, or `fail` with its message and
-- the text that is left, which tells the byte. A loop on fuel may run out of it, which the source has
-- no counterpart of.
pub data Read {ℓ} (A : Type ℓ) : Type ℓ where
  done : A → List ℕ → Read A
  refused : String → List ℕ → Read A
  out_of_fuel : Read A

abbrev pub quote : ℕ
quote = 34

abbrev pub backslash : ℕ
backslash = 92

abbrev pub is_space : ℕ → Bool
is_space c = c == 32 || c == 9 || c == 10 || c == 13

-- `Parser::skip`.
unfoldable pub skip : List ℕ → List ℕ
skip [] = []
skip (c ∷ text) = elim (is_space c) [ true ↦ skip text | false ↦ c ∷ text ]

-- `Parser::literal`: the text after the word, when the text starts with it.
unfoldable pub literal : List ℕ → List ℕ → Option (List ℕ)
literal [] text = some text
literal (w ∷ word) [] = none
literal (w ∷ word) (c ∷ text) = elim (c == w) [ true ↦ literal word text | false ↦ none ]

-- The character that an escape stands for.
unfoldable pub escaped : ℕ → Option ℕ
escaped c =
    if c == quote
    then some quote
    else if c == backslash
    then some backslash
    else if c == 47
    then some 47
    else if c == 110
    then some 10
    else if c == 116
    then some 9
    else if c == 114
    then some 13
    else if c == 98
    then some 8
    else if c == 102
    then some 12
    else none

-- The loop of `Parser::string`, and the one step of it after a backslash.
unfoldable pub string_from : Bool → List ℕ → List ℕ → Read (List ℕ)
string_from false out [] = refused "unterminated string" []
string_from true out [] = refused "unterminated escape" []
string_from false out (c ∷ text) = elim (c == quote) [
  | true ↦ done out text
  | false ↦ elim (c == backslash) [
    | true ↦ string_from true out text
    | false ↦ string_from false (out ++ (c ∷ [])) text
  ]
]
string_from true out (c ∷ text) = elim (escaped c) [
  | some d ↦ string_from false (out ++ (d ∷ [])) text
  | none ↦
      refused (if c == 117 then "\\u escapes are not supported in a trace" else "unknown escape")
        text
]

-- `Parser::string`. The source reads it only where a quote stands.
unfoldable pub string : List ℕ → Read (List ℕ)
string [] = refused "expected a string" []
string (c ∷ text) =
    if c == quote then string_from false [] text else refused "expected a string" (c ∷ text)

abbrev pub is_sign : ℕ → Bool
is_sign c = c == 45 || c == 43

abbrev pub is_number_part : ℕ → Bool
is_number_part c = (leb 48 c && leb c 57) || c == 46 || c == 101 || c == 69 || is_sign c

-- The characters that the loop of `Parser::number` takes, and what is left.
unfoldable pub number_part : List ℕ → List ℕ × List ℕ
number_part [] = ([], [])
number_part (c ∷ text) = elim (is_number_part c) [
  | true ↦ let (taken, left) = number_part text in (c ∷ taken, left)
  | false ↦ ([], c ∷ text)
]

-- The first sign, which a number has before its part.
unfoldable pub sign_part : List ℕ → List ℕ × List ℕ
sign_part [] = ([], [])
sign_part (c ∷ text) = if is_sign c then (c ∷ [], text) else ([], c ∷ text)

abbrev pub is_empty {ℓ} : {A : Type ℓ} → List A → Bool
is_empty [] = true
is_empty (x ∷ xs) = false

-- `Parser::number`, with `std::strtod` as a parameter.
unfoldable pub number : {W : Type 0} → (List ℕ → W) → List ℕ → Read W
number strtod text =
    let (sign, after) = sign_part text in
    let (digits, left) = number_part after in
    if is_empty digits then refused "expected a value" left else done (strtod (sign ++ digits)) left

-- What `emit_string` writes for one character.
unfoldable pub written : ℕ → List ℕ
written c =
    if c == quote
    then backslash ∷ quote ∷ []
    else if c == backslash
    then backslash ∷ backslash ∷ []
    else if c == 10
    then backslash ∷ 110 ∷ []
    else if c == 13
    then backslash ∷ 114 ∷ []
    else if c == 9
    then backslash ∷ 116 ∷ []
    else if leb 32 c && ltb c 127
    then c ∷ []
    else []

unfoldable pub all_written : List ℕ → List ℕ
all_written [] = []
all_written (c ∷ text) = written c ++ all_written text

-- `emit_string`, which appends to `out`.
unfoldable pub emit_string : List ℕ → List ℕ → List ℕ
emit_string out text = out ++ (quote ∷ (all_written text ++ (quote ∷ [])))

-- `kDevices`.
abbrev pub devices : List (String × DeviceProfile)
devices =
    (
      "rtx5090",
      record {
        device = pos 0;
        l2_bytes = 100_663_296;
        persisting_l2_max_bytes = 62_914_560;
        access_policy_max_window_bytes = 134_217_728;
        sm_count = pos 170;
        major = pos 12;
        minor = pos 0;
        global_memory_bytes = 33_670_758_400;
        peak_bandwidth_bytes_per_s = 1_792_128_000_000;
      },
    )
    ∷ []

-- `device_profile_by_name`; `none` for a null name or one that the table does not have.
unfoldable pub device_profile_by_name : Option String → Option DeviceProfile
device_profile_by_name none = none
device_profile_by_name (some name) = find_value devices name
