-- ===== src/Trace/Strings.antt =====
-- The strings of src/trace.cpp: `emit_string` and the reader's `string`.
use mathlib.Core.Path.{◌≡◌}
use recurlocal.Base.{
  ℕ, Bool, true, false, ◌&&◌, ◌||◌, List, [], ◌∷◌, ◌++◌, ◌==◌, leb, ltb, arith, inl, inr,
  Bool-cases, filterb, refl, ap,
}
use recurlocal.Trace

-- The characters that the writer does not drop: printable ASCII, tabulator, line feed and carriage return.
abbrev pub is_kept : ℕ → Bool
is_kept c = (leb 32 c && ltb c 127) || c == 9 || c == 10 || c == 13

written-dropped : (c : ℕ) → is_kept c ≡ false → Trace.written c ≡ []
unfolding Trace.written
written-dropped c h = ground arith

string_from-written :
    (out : List ℕ) (c : ℕ) (text : List ℕ)
    → is_kept c ≡ true
    → Trace.string_from false out (Trace.written c ++ text)
      ≡ Trace.string_from false (out ++ (c ∷ [])) text
unfolding Trace.written Trace.string_from Trace.escaped
string_from-written out c text h = ground arith

module _ {ℓ} {A : Type ℓ} where
  append_assoc : (xs ys zs : List A) → (xs ++ ys) ++ zs ≡ xs ++ (ys ++ zs)
  append_assoc [] ys zs = refl
  append_assoc (x ∷ xs) ys zs = ap (λ l. x ∷ l) (append_assoc xs ys zs)

  append_nil : (xs : List A) → xs ++ [] ≡ xs
  append_nil [] = refl
  append_nil (x ∷ xs) = ap (λ l. x ∷ l) (append_nil xs)

string_from-all_written :
    (out text rest : List ℕ)
    → Trace.string_from false out (Trace.all_written text ++ (Trace.quote ∷ rest))
      ≡ Trace.done (out ++ filterb is_kept text) rest
unfolding Trace.all_written Trace.string_from
string_from-all_written out [] rest = rw (append_nil out) refl
string_from-all_written out (c ∷ text) rest = elim (Bool-cases (is_kept c)) [
  | inl kept ↦
      rw
        (
          append_assoc (Trace.written c) (Trace.all_written text) (Trace.quote ∷ rest),
          string_from-written out c (Trace.all_written text ++ (Trace.quote ∷ rest)) kept,
          kept,
          string_from-all_written (out ++ (c ∷ [])) text rest,
          append_assoc out (c ∷ []) (filterb is_kept text),
        )
        refl
  | inr dropped ↦ rw (written-dropped c dropped, dropped) (string_from-all_written out text rest)
]

-- What the writer emits for a text is read back as the text without the characters that the writer
-- drops, and the reader stops right after it, whatever follows.
pub string-emit_string :
    (text rest : List ℕ)
    → Trace.string (Trace.emit_string [] text ++ rest) ≡ Trace.done (filterb is_kept text) rest
unfolding Trace.string Trace.emit_string
string-emit_string text rest =
    rw (append_assoc (Trace.all_written text) (Trace.quote ∷ []) rest)
      (string_from-all_written [] text rest)
