-- ===== src/Graph/Labels.antt =====
-- The label arena of src/transit_graph.cpp.
use recurlocal.Base.{
  length-append, ◌∙◌, false, ap, ℕ, ◌<◌, ◌%◌, ◌^◌, ◌≡◌, ◌≢◌, refl, List, [], ◌∷◌, ◌++◌, All, length,
  drop, drop-append, arith, leb,
}
use recurlocal.Graph

-- The text up to its terminator, whatever stands after that.
c_string-terminated :
    (text rest : List ℕ) → All (λ c. c ≢ 0) text → Graph.c_string (text ++ (0 ∷ rest)) ≡ text
unfolding Graph.c_string
c_string-terminated [] rest h = refl
c_string-terminated (c ∷ text) rest (h, hs) = ground (arith, c_string-terminated text rest hs)

append_assoc : (xs ys zs : List ℕ) → (xs ++ ys) ++ zs ≡ xs ++ (ys ++ zs)
append_assoc [] ys zs = refl
append_assoc (x ∷ xs) ys zs = ap (λ l. x ∷ l) (append_assoc xs ys zs)

c_string-drop :
    (before text more : List ℕ)
    → All (λ a. a ≢ 0) text
    → Graph.c_string (drop (length before) (((before ++ text) ++ (0 ∷ [])) ++ more)) ≡ text
c_string-drop before text more fine =
    ap (λ xs. Graph.c_string (drop (length before) xs))
      (append_assoc (before ++ text) (0 ∷ []) more)
    ∙ ap (λ xs. Graph.c_string (drop (length before) xs)) (append_assoc before text (0 ∷ more))
    ∙ ap Graph.c_string (drop-append before (text ++ (0 ∷ more)))
    ∙ c_string-terminated text more fine

inside :
    (before text more : List ℕ)
    → leb (length (((before ++ text) ++ (0 ∷ [])) ++ more)) (length before) ≡ false
inside before text more = ground (
  arith,
  length-append ((before ++ text) ++ (0 ∷ [])) more,
  length-append (before ++ text) (0 ∷ []),
  length-append before text,
)

-- A label that is read back is the text that was interned, also after more labels have come, as long as
-- the arena stays below the range of a 32-bit index and the text has no terminator in it.
pub label-intern_label :
    (g : Graph.TransitGraph) (c : ℕ) (text more : List ℕ)
    → All (λ a. a ≢ 0) (c ∷ text)
    → length g.labels < 2 ^ 32
    → let (q, index) = Graph.intern_label g (c ∷ text) in
      Graph.label (record q { labels = q.labels ++ more }) index ≡ c ∷ text
unfolding Graph.intern_label Graph.label
label-intern_label g c text more fine small =
    let at : length g.labels % 2 ^ 32 ≡ length g.labels = omega arith in
    rw (at, inside g.labels (c ∷ text) more) (c_string-drop g.labels (c ∷ text) more fine)
