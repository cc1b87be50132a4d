-- ===== src/Graph/Build/Distance.antt =====
-- The prefix sums of `TransitGraph::build` and the reuse distance in bytes that they give.
use recurlocal.Base.{
  ◌∙◌, sym, ap, ℕ, zero, suc, ◌+◌, ◌-◌, ◌%◌, ◌<◌, ◌≤◌, ◌≡◌, refl, List, [], ◌∷◌, length, get_or,
  take, drop, arith, word_size, add64, map,
}
use recurlocal.Base.Sort.{sort, length-sort}
use recurlocal.Registry.{Registry}
use recurlocal.Graph.{TransitGraph}
use recurlocal.Graph.Build

abbrev pub sum : List ℕ → ℕ
sum [] = 0
sum (t ∷ ts) = t + sum ts

-- The traffic of the uses from index `i` on, up to but not including index `j`.
abbrev pub slice_sum : List ℕ → ℕ → ℕ → ℕ
slice_sum ts i j = sum (take (j - i) (drop i ts))

prefix_sums-get_or :
    (acc : ℕ) (ts : List ℕ) (i : ℕ)
    → acc < word_size
    → i ≤ length ts
    → get_or (Build.prefix_sums acc ts) i 0 ≡ (acc + sum (take i ts)) % word_size
unfolding Build.prefix_sums
prefix_sums-get_or acc [] zero small le = omega arith
prefix_sums-get_or acc [] (suc i) small le = omega arith
prefix_sums-get_or acc (t ∷ ts) zero small le = omega arith
prefix_sums-get_or acc (t ∷ ts) (suc i) small le =
    omega (arith, prefix_sums-get_or (add64 acc t) ts i (omega arith) (omega arith))

sum-take-nil : (n : ℕ) → sum (take n []) ≡ 0
sum-take-nil zero = refl
sum-take-nil (suc n) = refl

take-split : (i j : ℕ) (ts : List ℕ) → i ≤ j → sum (take j ts) ≡ sum (take i ts) + slice_sum ts i j
take-split zero j ts le =
    let same : j ≡ j - 0 = omega arith in omega (arith, ap (λ n. sum (take n ts)) same)
take-split (suc i) zero ts le = omega arith
take-split (suc i) (suc j) [] le = omega (arith, sum-take-nil (suc j - suc i))
take-split (suc i) (suc j) (t ∷ ts) le =
    let same : suc j - suc i ≡ j - i = omega arith in
    omega (arith, take-split i j ts (omega arith), ap (λ n. sum (take n (drop i ts))) same)

length-map : {A : Type 0} (f : A → ℕ) (xs : List A) → length (map f xs) ≡ length xs
length-map f [] = refl
length-map f (x ∷ xs) = ap suc (length-map f xs)

-- One figure of traffic for each use.
pub length-traffic :
    (r : Registry) (g : TransitGraph) → length (Build.timeline r g).traffic ≡ length g.uses
unfolding Build.timeline
length-traffic r g =
    length-map (Build.traffic_of r) (sort Build.earlier_use g.uses)
    ∙ length-sort Build.earlier_use g.uses

module _ (r : Registry) (g : TransitGraph) where
  -- The edge from the use at index `p` to a later use at index `c` of the timeline carries as its
  -- distance in bytes the traffic of the uses strictly between them, modulo `2 ^ 64`.
  pub inner_edge-reuse_bytes :
      (tensor p c : ℕ)
      → p < c
      → c < length (Build.timeline r g).traffic
      → (Build.inner_edge (Build.timeline r g) tensor p c).reuse_bytes
        ≡ slice_sum (Build.timeline r g).traffic (suc p) c % word_size
  unfolding Build.timeline Build.inner_edge
  inner_edge-reuse_bytes tensor p c lt in_range =
      let ts = (Build.timeline r g).traffic in
      let at_c = prefix_sums-get_or 0 ts c (omega arith) (omega arith) in
      let at_p = prefix_sums-get_or 0 ts (suc p) (omega arith) (omega arith) in
      let succ : p + 1 ≡ suc p = omega arith in
      rw (succ, at_c, at_p) (omega (arith, take-split (suc p) c ts (omega arith)))

  -- The edge over the iteration boundary carries the traffic of the uses after its producer and of
  -- those before its consumer, both uses in range, modulo `2 ^ 64`.
  pub wrap_edge-reuse_bytes :
      (tensor p c : ℕ)
      → p < length (Build.timeline r g).traffic
      → c < length (Build.timeline r g).traffic
      → (Build.wrap_edge (Build.timeline r g) tensor p c).reuse_bytes
        ≡ (slice_sum (Build.timeline r g).traffic (suc p) (length (Build.timeline r g).traffic)
            + slice_sum (Build.timeline r g).traffic 0 c)
          % word_size
  unfolding Build.timeline Build.wrap_edge
  wrap_edge-reuse_bytes tensor p c p_in c_in =
      let t = Build.timeline r g in
      let ts = t.traffic in
      let n = length ts in
      let uses : length t.uses ≡ n = sym (length-map (Build.traffic_of r) t.uses) in
      let at_n = prefix_sums-get_or 0 ts n (omega arith) (omega arith) in
      let at_c = prefix_sums-get_or 0 ts c (omega arith) (omega arith) in
      let at_p = prefix_sums-get_or 0 ts (suc p) (omega arith) (omega arith) in
      let succ : p + 1 ≡ suc p = omega arith in
      rw (uses, succ, at_c, at_p, at_n)
        (omega (arith, take-split (suc p) n ts (omega arith), take-split 0 c ts (omega arith)))
