-- ===== src/Trace/Json/Settles.antt =====
-- The JSON reader of src/trace.cpp always stops inside its document.
use recurlocal.Trace.{String}
use recurlocal.Base.{
  refl, ◌⊎◌, none, some, Option, ◌==◌, ◌+◌, ◌++◌, [], true, false, some, ◌∷◌, Bool, List, ◌≡◌, ℕ,
  zero, suc, ◌<◌, ◌≤◌, arith, Bool-cases, Option-cases, inl, inr, length,
}
use recurlocal.Trace
use recurlocal.Trace.Json

-- A reader that has at most `n` bytes before it stops: with less left than that, or at one of them.
abbrev Settled {ℓ} : {A : Type ℓ} → ℕ → Trace.Read A → Type 0
Settled n (Trace.done a rest) = length rest < n
Settled n (Trace.refused message rest) = length rest ≤ n
Settled n Trace.out_of_fuel = zero ≡ suc zero

skip-le : (text : List ℕ) → length (Trace.skip text) ≤ length text
unfolding Trace.skip
skip-le [] = omega arith
skip-le (c ∷ text) = ground (arith, skip-le text)

Settled-mono {ℓ} : {A : Type ℓ} {m n : ℕ} (r : Trace.Read A) → m ≤ n → Settled m r → Settled n r
Settled-mono (Trace.done a rest) h s = omega arith
Settled-mono (Trace.refused message rest) h s = omega arith
Settled-mono Trace.out_of_fuel h s = s

-- A second reader that starts after a first.
Settled-and_then {ℓ} :
    {A B : Type ℓ} {n : ℕ} (r : Trace.Read A) (f : A → List ℕ → Trace.Read B)
    → Settled n r
    → ((a : A) (rest : List ℕ) → length rest < n → Settled n (f a rest))
    → Settled n (Json.and_then r f)
unfolding Json.and_then
Settled-and_then (Trace.done a rest) f s h = h a rest s
Settled-and_then (Trace.refused message rest) f s h = s
Settled-and_then Trace.out_of_fuel f s h = s

string_from-Settled :
    (b : Bool) (out text : List ℕ) → Settled (suc (length text)) (Trace.string_from b out text)
unfolding Trace.string_from
string_from-Settled false out [] = omega arith
string_from-Settled true out [] = omega arith
string_from-Settled false out (c ∷ text) =
    let plain = out ++ (c ∷ []) in
    let escape : Settled (suc (suc (length text))) (Trace.string_from true out text) =
      Settled-mono (Trace.string_from true out text) (omega arith)
        (string_from-Settled true out text) in
    let further : Settled (suc (suc (length text))) (Trace.string_from false plain text) =
      Settled-mono (Trace.string_from false plain text) (omega arith)
        (string_from-Settled false plain text) in
    elim (Bool-cases (c == Trace.quote)) [
      | inl closing ↦ rw (closing, Settled) (omega arith)
      | inr open_still ↦ elim (Bool-cases (c == Trace.backslash)) [
        | inl slash ↦ rw (open_still, slash, Settled) escape
        | inr other ↦ rw (open_still, other, Settled) further
      ]
    ]
string_from-Settled true out (c ∷ text) = elim (Option-cases (Trace.escaped c)) [
  | inl miss ↦ rw (miss, Settled) (omega arith)
  | inr (d, hit) ↦
      rw (hit, Settled)
        (Settled-mono (Trace.string_from false (out ++ (d ∷ [])) text) (omega arith)
          (string_from-Settled false (out ++ (d ∷ [])) text))
]

string-Settled : (text : List ℕ) → Settled (length text) (Trace.string text)
unfolding Trace.string
string-Settled [] = omega arith
string-Settled (c ∷ text) = ground (arith, string_from-Settled false [] text)

literal-lt :
    (w : ℕ) (word text rest : List ℕ)
    → Trace.literal (w ∷ word) text ≡ some rest
    → length rest < length text
unfolding Trace.literal
literal-lt w word [] rest h = cc
literal-lt w [] (c ∷ text) rest h = ground arith
literal-lt w (v ∷ word) (c ∷ text) rest h = ground (arith, literal-lt v word text rest)

number_part-le :
    (text : List ℕ)
    → length (Trace.number_part text).0 + length (Trace.number_part text).1 ≡ length text
unfolding Trace.number_part
number_part-le [] = omega arith
number_part-le (c ∷ text) = ground (arith, number_part-le text)

sign_part-le : (text : List ℕ) → length (Trace.sign_part text).1 ≤ length text
unfolding Trace.sign_part
sign_part-le [] = omega arith
sign_part-le (c ∷ text) = ground arith

number-Settled :
    {W : Type 0} (strtod : List ℕ → W) (text : List ℕ)
    → Settled (length text) (Trace.number strtod text)
unfolding Trace.number
number-Settled strtod text =
    ground (arith, sign_part-le text, number_part-le (Trace.sign_part text).1)

word_or-Settled {ℓ} :
    {A : Type ℓ} {n : ℕ} (o : Option (List ℕ)) (v : A) (other : Trace.Read A)
    → ((rest : List ℕ) → o ≡ some rest → length rest < n)
    → Settled n other
    → Settled n (Json.word_or o v other)
unfolding Json.word_or
word_or-Settled (some rest) v other h k = h rest refl
word_or-Settled none v other h k = k

scalar-Settled :
    {W : Type 0} (strtod : List ℕ → W) (text : List ℕ)
    → Settled (length text) (Json.scalar strtod text)
unfolding Json.scalar
scalar-Settled strtod text = word_or-Settled _ _ _ (literal-lt 116 _ text) (
    word_or-Settled _ _ _ (literal-lt 102 _ text) (
      word_or-Settled _ _ _ (literal-lt 110 _ text)
        (Settled-and_then (Trace.number strtod text) _ (number-Settled strtod text) λ x rest h. h)))

-- What a separator leaves of a text of at most `n` bytes.
abbrev Shrunk : ℕ → Json.Separator → Type 0
Shrunk n (Json.another more) = length more < n
Shrunk n (Json.end_of more) = length more < n
Shrunk n Json.missing = zero ≤ n
Shrunk n (Json.unexpected more) = length more ≤ n

separator-Shrunk :
    (n close : ℕ) (text : List ℕ) → length text ≤ n → Shrunk n (Json.separator close text)
unfolding Json.separator
separator-Shrunk n close [] h = omega arith
separator-Shrunk n close (c ∷ text) h = ground arith

after_element-Settled {ℓ} :
    {A : Type ℓ} {n : ℕ} (unterminated expected : String) (a : A) (loop : List ℕ → Trace.Read A)
    (s : Json.Separator)
    → Shrunk n s
    → ((more : List ℕ) → length more < n → Settled n (loop more))
    → Settled n (Json.after_element unterminated expected a loop s)
unfolding Json.after_element
after_element-Settled u e a loop (Json.another more) h k = k more h
after_element-Settled u e a loop (Json.end_of more) h k = h
after_element-Settled u e a loop Json.missing h k = h
after_element-Settled u e a loop (Json.unexpected more) h k = h

closed-lt :
    (close : ℕ) (text rest : List ℕ)
    → Json.closed close text ≡ some rest
    → length rest < length text
unfolding Json.closed
closed-lt close [] rest h = cc
closed-lt close (c ∷ text) rest h = ground arith

after_colon-Settled : (key text : List ℕ) → Settled (suc (length text)) (Json.after_colon key text)
unfolding Json.after_colon
after_colon-Settled key [] = omega arith
after_colon-Settled key (c ∷ text) = ground arith

read_key-Settled : (text : List ℕ) → Settled (length text) (Json.read_key text)
unfolding Json.read_key
read_key-Settled [] = omega arith
read_key-Settled (c ∷ text) = elim (Bool-cases (c == Trace.quote)) [
  | inl hit ↦ rw hit (
      Settled-and_then (Trace.string (c ∷ text))
        (λ key left. Json.after_colon key (Trace.skip left)) (string-Settled (c ∷ text))
        λ key left h.
          Settled-mono (Json.after_colon key (Trace.skip left)) (omega (arith, skip-le left))
            (after_colon-Settled key (Trace.skip left)))
  | inr miss ↦ rw miss (omega arith)
]

Opening-cases :
    (o : Json.Opening)
    → (o ≡ Json.opens_object)
      ⊎ ((o ≡ Json.opens_array) ⊎ ((o ≡ Json.opens_string) ⊎ (o ≡ Json.opens_nothing)))
Opening-cases Json.opens_object = inl refl
Opening-cases Json.opens_array = inr (inl refl)
Opening-cases Json.opens_string = inr (inr (inl refl))
Opening-cases Json.opens_nothing = inr (inr (inr refl))

module _ {W : Type 0} (read : List ℕ → Trace.Read (Json.Value W)) (k : ℕ)
    (settled : (t : List ℕ) → length t < k → Settled (length t) (read t)) where
  elements-Settled :
      (n : ℕ) (a : Json.Array W) (t : List ℕ)
      → length t < n
      → length t < k
      → Settled (length t) (Json.elements read n a t)
  unfolding Json.elements
  elements-Settled zero a t h h' = omega arith
  elements-Settled (suc n) a t h h' = Settled-and_then (read t) _ (settled t h') λ v rest s.
      after_element-Settled _ _ _ _ (Json.separator Json.bracket (Trace.skip rest))
        (separator-Shrunk (length t) Json.bracket (Trace.skip rest) (omega (arith, skip-le rest)))
        λ more m.
          Settled-mono (Json.elements read n (Json.push_back a v) more) (omega arith)
            (elements-Settled n (Json.push_back a v) more (omega arith) (omega arith))

  fields-Settled :
      (n : ℕ) (o : Json.Object W) (t : List ℕ)
      → length t < n
      → length t < k
      → Settled (length t) (Json.fields read n o t)
  unfolding Json.fields
  fields-Settled zero o t h h' = omega arith
  fields-Settled (suc n) o t h h' =
      Settled-and_then (Json.read_key (Trace.skip t)) _
        (Settled-mono (Json.read_key (Trace.skip t)) (skip-le t) (read_key-Settled (Trace.skip t)))
        λ key after s.
          Settled-and_then (read after) _
            (Settled-mono (read after) (omega arith) (settled after (omega arith)))
            λ v rest s'.
              after_element-Settled _ _ _ _ (Json.separator Json.brace (Trace.skip rest))
                (separator-Shrunk (length t) Json.brace (Trace.skip rest)
                  (omega (arith, skip-le rest)))
                λ more m.
                  Settled-mono (Json.fields read n (Json.put o key v) more) (omega arith)
                    (fields-Settled n (Json.put o key v) more (omega arith) (omega arith))

  array_after-Settled :
      (strtod : List ℕ → W) (n : ℕ) (t : List ℕ)
      → length t < n
      → length t < k
      → Settled (length t) (Json.array_after strtod (Json.elements read n) t)
  unfolding Json.array_after
  array_after-Settled strtod n t h h' =
      let fewer : length (Trace.skip t) ≤ length t = skip-le t in
      word_or-Settled (Json.closed Json.bracket (Trace.skip t)) _ _
        (λ rest e. omega (arith, closed-lt Json.bracket (Trace.skip t) rest e, fewer))
        (Settled-and_then (Json.elements read n Json.no_elements (Trace.skip t)) _
          (Settled-mono (Json.elements read n Json.no_elements (Trace.skip t)) fewer
            (elements-Settled n Json.no_elements (Trace.skip t) (omega arith) (omega arith)))
          λ a rest s. s)

  object_after-Settled :
      (strtod : List ℕ → W) (n : ℕ) (t : List ℕ)
      → length t < n
      → length t < k
      → Settled (length t) (Json.object_after strtod (Json.fields read n) t)
  unfolding Json.object_after
  object_after-Settled strtod n t h h' =
      let fewer : length (Trace.skip t) ≤ length t = skip-le t in
      word_or-Settled (Json.closed Json.brace (Trace.skip t)) _ _
        (λ rest e. omega (arith, closed-lt Json.brace (Trace.skip t) rest e, fewer))
        (Settled-and_then (Json.fields read n Json.no_fields (Trace.skip t)) _
          (Settled-mono (Json.fields read n Json.no_fields (Trace.skip t)) fewer
            (fields-Settled n Json.no_fields (Trace.skip t) (omega arith) (omega arith)))
          λ o rest s. s)

  value_at-Settled :
      (strtod : List ℕ → W) (n : ℕ) (t : List ℕ)
      → length t ≤ n
      → length t ≤ k
      → Settled (length t) (Json.value_at strtod n read t)
  unfolding Json.value_at
  value_at-Settled strtod n [] h h' = omega arith
  value_at-Settled strtod n (c ∷ t) h h' = elim (Opening-cases (Json.opening c)) [
    | inl o ↦
        rw (o, Settled)
          (Settled-mono (Json.object_after strtod (Json.fields read n) t) (omega arith)
            (object_after-Settled strtod n t (omega arith) (omega arith)))
    | inr (inl o) ↦
        rw (o, Settled)
          (Settled-mono (Json.array_after strtod (Json.elements read n) t) (omega arith)
            (array_after-Settled strtod n t (omega arith) (omega arith)))
    | inr (inr (inl o)) ↦
        rw (o, Settled)
          (Settled-and_then (Trace.string (c ∷ t)) _ (string-Settled (c ∷ t)) λ x rest s. s)
    | inr (inr (inr o)) ↦ rw (o, Settled) (scalar-Settled strtod (c ∷ t))
  ]

value-Settled :
    {W : Type 0} (strtod : List ℕ → W) (n : ℕ) (t : List ℕ)
    → length t < n
    → Settled (length t) (Json.value strtod n t)
unfolding Json.value
value-Settled strtod zero t h = omega arith
value-Settled strtod (suc n) t h =
    Settled-mono (Json.value_at strtod n (Json.value strtod n) (Trace.skip t)) (skip-le t) (
      value_at-Settled (Json.value strtod n) n (value-Settled strtod n) strtod n (Trace.skip t)
        (omega (arith, skip-le t)) (omega (arith, skip-le t)))

-- How a reader of the whole text ended: with a value, or with a message at a byte of the document.
abbrev pub IsAnswer {ℓ} : {A : Type ℓ} → List ℕ → Trace.Read A → Type 0
IsAnswer t (Trace.done v rest) = rest ≡ []
IsAnswer t (Trace.refused message rest) = length rest ≤ length t
IsAnswer t Trace.out_of_fuel = zero ≡ suc zero

whole-IsAnswer :
    {W : Type 0} (strtod : List ℕ → W) (t : List ℕ) (v : Json.Value W) (rest : List ℕ)
    → length rest ≤ length t
    → IsAnswer t (Json.whole strtod v rest)
unfolding Json.whole
whole-IsAnswer strtod t v [] h = refl
whole-IsAnswer strtod t v (c ∷ rest) h = h

Settled-whole :
    {W : Type 0} (strtod : List ℕ → W) (t : List ℕ) (n : ℕ) (r : Trace.Read (Json.Value W))
    → n ≤ length t
    → Settled n r
    → IsAnswer t (Json.and_then r (λ v rest. Json.whole strtod v (Trace.skip rest)))
unfolding Json.and_then
Settled-whole strtod t n (Trace.done v rest) h s =
    whole-IsAnswer strtod t v (Trace.skip rest) (omega (arith, skip-le rest))
Settled-whole strtod t n (Trace.refused message rest) h s = omega arith
Settled-whole strtod t n Trace.out_of_fuel h s = s

-- The reader ends on every text, nested as deep as it may be: it returns a value and has read all of
-- the text, or it fails at a byte that is in the text or at its end.
pub parse-IsAnswer :
    {W : Type 0} (strtod : List ℕ → W) (t : List ℕ) → IsAnswer t (Json.parse strtod t)
unfolding Json.parse
parse-IsAnswer strtod t =
    Settled-whole strtod t (length (Trace.skip t)) _ (skip-le t)
      (value-Settled strtod (length t + 1) (Trace.skip t) (omega (arith, skip-le t)))
