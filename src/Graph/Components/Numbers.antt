-- ===== src/Graph/Components/Numbers.antt =====
-- Renumbering keeps labels apart and equal labels together.
use mathlib.Core.Path.{subst}
use gokql.Base.{
  ℕ, zero, suc, ◌<◌, ◌≡◌, ◌≢◌, ◌↔◌, refl, sym, ap, ◌∙◌, inl, inr, List, [], ◌∷◌, Option, none, some,
  length, get_or, arith, Bool-cases, Option-cases, ◌==◌,
}
use gokql.Graph.Components.{number_of, renumber, mark_weak, weak_labels}
use gokql.Graph.Index.Offsets.{EndsBelow}
use gokql.Graph.Components.Labels.{Connected, weak_labels-Connected, length-weak_labels}

-- A map that gives different labels different numbers, all below its size.
record IsNumbering (ids : List (ℕ × ℕ)) : Type 0 where
  below : (c k : ℕ) → number_of c ids ≡ some k → k < length ids
  apart : (c e k : ℕ) → number_of c ids ≡ some k → number_of e ids ≡ some k → c ≡ e

IsNumbering-empty : IsNumbering []
unfolding number_of
IsNumbering-empty = record { below = λ c k h. cc h; apart = λ c e k h h'. cc h }

number_of-here : (c k : ℕ) (ids : List (ℕ × ℕ)) → number_of c ((c, k) ∷ ids) ≡ some k
unfolding number_of
number_of-here c k ids = ground arith

number_of-other :
    (c e k : ℕ) (ids : List (ℕ × ℕ)) → c ≢ e → number_of e ((c, k) ∷ ids) ≡ number_of e ids
unfolding number_of
number_of-other c e k ids h = ground arith

IsNumbering-cons :
    (c : ℕ) (ids : List (ℕ × ℕ)) → IsNumbering ids → IsNumbering ((c, length ids) ∷ ids)
unfolding number_of
IsNumbering-cons c ids n = record {
  below = λ e k h. below_cons e k h;
  apart = λ a b k h h'. apart_cons a b k h h';
}
  where
    below_cons : (e k : ℕ) → number_of e ((c, length ids) ∷ ids) ≡ some k → k < suc (length ids)
    below_cons e k h = ground (arith, n.below e k)

    apart_cons :
        (a b k : ℕ)
        → number_of a ((c, length ids) ∷ ids) ≡ some k
        → number_of b ((c, length ids) ∷ ids) ≡ some k
        → a ≡ b
    apart_cons a b k h h' = ground (arith, n.below a k, n.below b k, n.apart a b k)

-- The map at the end of the loop gives each label its number.
Numbered : List (ℕ × ℕ) → List ℕ → Type 0
Numbered ids comp =
    (last : List (ℕ × ℕ)) × IsNumbering last
    × ((c k : ℕ) → number_of c ids ≡ some k → number_of c last ≡ some k)
    × ((i d e : ℕ)
        → i < length comp
        → number_of (get_or comp i d) last ≡ some (get_or (renumber ids comp) i e))

Numbered-step :
    (ids ids1 : List (ℕ × ℕ)) (c k : ℕ) (comp : List ℕ)
    → renumber ids (c ∷ comp) ≡ k ∷ renumber ids1 comp
    → ((e m : ℕ) → number_of e ids ≡ some m → number_of e ids1 ≡ some m)
    → number_of c ids1 ≡ some k
    → Numbered ids1 comp
    → Numbered ids (c ∷ comp)
unfolding Numbered
Numbered-step ids ids1 c k comp eq more at (last, n, kept, all) = (
  last,
  n,
  (λ e m h. kept e m (more e m h)),
  λ i d e h.
      subst (λ l. number_of (get_or (c ∷ comp) i d) last ≡ some (get_or l i e)) (sym eq)
        (shifted i d e h),
)
  where
    shifted :
        (i d e : ℕ)
        → i < suc (length comp)
        → number_of (get_or (c ∷ comp) i d) last ≡ some (get_or (k ∷ renumber ids1 comp) i e)
    shifted zero d e h = kept c k at
    shifted (suc i) d e h = all i d e (omega arith)

number_of-more :
    (ids : List (ℕ × ℕ)) (c id e m : ℕ)
    → number_of c ids ≡ none
    → number_of e ids ≡ some m
    → number_of e ((c, id) ∷ ids) ≡ some m
unfolding number_of
number_of-more ids c id e m new h = elim (Bool-cases (c == e)) [
  | inl same ↦
      let e' : c ≡ e = ground arith in cc (new, subst (λ x. number_of x ids ≡ some m) (sym e') h)
  | inr other ↦ rw (number_of, other) h
]

renumber-Numbered : (ids : List (ℕ × ℕ)) (comp : List ℕ) → IsNumbering ids → Numbered ids comp
unfolding renumber Numbered
renumber-Numbered ids [] n = (ids, n, (λ c k h. h), λ i d e h. absurd (omega arith))
renumber-Numbered ids (c ∷ comp) n = elim (Option-cases (number_of c ids)) [
  | inr (k, found) ↦
      Numbered-step ids ids c k comp (rw (renumber, found) refl) (λ e m h. h) found
        (renumber-Numbered ids comp n)
  | inl new ↦
      let ids1 = (c, length ids) ∷ ids in
      Numbered-step ids ids1 c (length ids) comp (rw (renumber, new) refl)
        (λ e m h. number_of-more ids c (length ids) e m new h) (number_of-here c (length ids) ids)
        (renumber-Numbered ids1 comp (IsNumbering-cons c ids n))
]

renumber-apart :
    (comp : List ℕ) (i j d : ℕ)
    → i < length comp
    → j < length comp
    → (get_or (renumber [] comp) i d ≡ get_or (renumber [] comp) j d)
      ↔ (get_or comp i d ≡ get_or comp j d)
unfolding Numbered
renumber-apart comp i j d hi hj =
    let (last, n, kept, all) = renumber-Numbered [] comp IsNumbering-empty in
    let at_i = all i d d hi in
    let at_j = all j d d hj in
    (
      λ same.
          n.apart (get_or comp i d) (get_or comp j d) (get_or (renumber [] comp) i d) at_i
            (at_j ∙ ap some (sym same)),
      λ same. cc (at_i, at_j, same),
    )

-- Over edges whose ends are among n nodes: two nodes get the same component number exactly where edges,
-- taken in both directions, lead from the one to the other.
pub mark_weak-Connected :
    (n : ℕ) (src dst : List (Option ℕ)) (i j d : ℕ)
    → EndsBelow n src
    → EndsBelow n dst
    → i < n
    → j < n
    → (get_or (mark_weak n src dst) i d ≡ get_or (mark_weak n src dst) j d) ↔ Connected src dst i j
unfolding mark_weak
mark_weak-Connected n src dst i j d hs hd hi hj =
    let labels = weak_labels n src dst in
    let len : length labels ≡ n = length-weak_labels n src dst in
    let (a, b) = renumber-apart labels i j d (omega arith) (omega arith) in
    let (x, y) = weak_labels-Connected n src dst i j d hs hd hi hj in ((λ h. x (a h)), λ h. b (y h))
