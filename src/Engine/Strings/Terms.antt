-- ===== src/Engine/Strings/Terms.antt =====
-- The term searches of pkg/engine/eval.go (`hasTerm`, `hasTermPrefix`, `hasTermSuffix`) and what they find.
use gokql.Base.{
  ℕ, zero, suc, ◌+◌, ◌-◌, ◌≤◌, ◌<◌, ◌≡◌, ◌≢◌, ◌↔◌, refl, sym, ap, ◌∙◌, inl, inr, Bool, true, false,
  not, ◌&&◌, Bool-cases, Option-cases, [], ◌∷◌, ◌++◌, length, take, drop, get_or, ◌==◌,
  length-append, arith,
}
use gokql.Base.Bytes.{Bytes}
use gokql.Base.Search.{
  index_of_text, index-least, index-occurs, drop-append, length-drop, length-take, take-drop,
  append_assoc,
}
use gokql.Engine.Strings.{
  is_term_byte, starts_term, ends_term, find_term, fold, has_term, has_term_prefix, has_term_suffix,
}

-- A text that does not end in the middle of a term.
abbrev pub ends_free : Bytes → Bool
ends_free [] = true
ends_free (c ∷ []) = not (is_term_byte c)
ends_free (c ∷ d ∷ s) = ends_free (d ∷ s)

abbrev pub starts_free : Bytes → Bool
starts_free [] = true
starts_free (c ∷ s) = not (is_term_byte c)

starts_term-ends_free :
    (before rest : Bytes) → starts_term (before ++ rest) (length before) ≡ ends_free before
unfolding starts_term
starts_term-ends_free [] rest = refl
starts_term-ends_free (c ∷ []) rest = refl
starts_term-ends_free (c ∷ d ∷ s) rest = starts_term-ends_free (d ∷ s) rest

get_or-length : (x : Bytes) (c : ℕ) (s : Bytes) → get_or (x ++ c ∷ s) (length x) 0 ≡ c
get_or-length [] c s = refl
get_or-length (d ∷ x) c s = get_or-length x c s

ends_term-starts_free : (x after : Bytes) → ends_term (x ++ after) (length x) ≡ starts_free after
unfolding ends_term
ends_term-starts_free x [] =
    rw (test_true (length x) (length (x ++ [])) (omega (arith, length-append x []))) refl
  where
    test_true : (n m : ℕ) → n ≡ m → (n == m) ≡ true
    test_true n m h = ground (arith, h)
ends_term-starts_free x (c ∷ s) =
    rw
      (
        test_false (length x) (length (x ++ c ∷ s)) (omega (arith, length-append x (c ∷ s))),
        get_or-length x c s,
      )
      refl
  where
    test_false : (n m : ℕ) → n < m → (n == m) ≡ false
    test_false n m h = ground (arith, h)

module _ (accepts : ℕ → Bool) (s term : Bytes) where
  abbrev Accepted : ℕ → Type 0
  Accepted i =
      (before : Bytes) × (after : Bytes) × (s ≡ before ++ (term ++ after))
      × i ≤ length before
      × (accepts (length before) ≡ true)

  find_term-Accepted :
      (fuel i : ℕ)
      → 0 < length term
      → length s < fuel + i
      → i ≤ length s
      → (find_term accepts s term fuel i ≡ true) ↔ Accepted i
  unfolding find_term
  find_term-Accepted zero i t f h = absurd (omega (arith, f, h))
  find_term-Accepted (suc fuel) i t f h = elim (Option-cases (index_of_text term (drop i s))) [
    | inl none_here ↦ (
      λ m. cc (rw (find_term, none_here) at m),
      λ (before, after, e, le, o).
          let (j, found, least) = index-least term (drop i before) after in
          let whole : drop i s ≡ drop i before ++ (term ++ after) =
            ap (λ r. drop i r) e ∙ drop-append i before (term ++ after) le in
          cc (sym none_here ∙ ap (λ r. index_of_text term r) whole ∙ found),
    )
    | inr (idx, here) ↦
        let (a, b, e, size) = index-occurs term (drop i s) idx here in
        let far : length s - i ≡ length a + (length term + length b) =
          sym (length-drop i s)
          ∙ ap length e
          ∙ length-append a (term ++ b)
          ∙ ap (λ n. length a + n) (length-append term b) in
        let before = take i s ++ a in
        let place : length before ≡ i + idx =
          length-append (take i s) a
          ∙ ap (λ n. n + length a) (length-take i s h)
          ∙ ap (λ n. i + n) size in
        let whole : s ≡ before ++ (term ++ b) =
          take-drop i s ∙ ap (λ r. take i s ++ r) e ∙ sym (append_assoc (take i s) a (term ++ b)) in
        elim (Bool-cases (accepts (i + idx))) [
          | inl good ↦
              rw (find_term, here, good)
                (λ _. (before, b, whole, omega (arith, place), ap accepts place ∙ good), λ _. refl)
          | inr bad ↦
              let (to, from) =
                find_term-Accepted fuel (suc (i + idx)) t (omega (arith, f))
                  (omega (arith, t, far, size, h)) in
              rw (find_term, here, bad)
                (
                  λ m. let (x, y, g, le, o) = to m in (x, y, g, omega (arith, le), o),
                  λ (x, y, g, le, o).
                      let (j, found, least) = index-least term (drop i x) y in
                      let rest : drop i s ≡ drop i x ++ (term ++ y) =
                        ap (λ r. drop i r) g ∙ drop-append i x (term ++ y) le in
                      let same : idx ≡ j =
                        cc (sym here ∙ ap (λ r. index_of_text term r) rest ∙ found) in
                      let apart : i + idx ≢ length x = λ q. cc (sym bad ∙ ap accepts q ∙ o) in
                      from (x, y, g, omega (arith, same, least, length-drop i x, apart, le), o),
                )
        ]
  ]

-- An occurrence of a term, with what stands before and after it.
abbrev pub Occurs : (Bytes → Bytes → Bool) → Bytes → Bytes → Type 0
Occurs test s term =
    (before : Bytes) × (after : Bytes) × (s ≡ before ++ (term ++ after))
    × (test before after ≡ true)

find_term-Occurs :
    (accepts : ℕ → Bool) (s term : Bytes) (test : Bytes → Bytes → Bool)
    → ((before after : Bytes)
        → s ≡ before ++ (term ++ after)
        → accepts (length before) ≡ test before after)
    → 0 < length term
    → (find_term accepts s term (suc (length s)) 0 ≡ true) ↔ Occurs test s term
find_term-Occurs accepts s term test f t =
    let (to, from) =
      find_term-Accepted accepts s term (suc (length s)) 0 t (omega arith) (omega arith) in
    (
      λ m. let (x, y, e, le, o) = to m in (x, y, e, sym (f x y e) ∙ o),
      λ (x, y, e, o). from (x, y, e, omega arith, f x y e ∙ o),
    )

starts_term-before :
    (s term before after : Bytes)
    → s ≡ before ++ (term ++ after)
    → starts_term s (length before) ≡ ends_free before
starts_term-before s term before after e =
    ap (λ r. starts_term r (length before)) e ∙ starts_term-ends_free before (term ++ after)

ends_term-after :
    (s term before after : Bytes)
    → s ≡ before ++ (term ++ after)
    → ends_term s (length before + length term) ≡ starts_free after
ends_term-after s term before after e =
    ap (λ r. ends_term r (length before + length term)) (e ∙ sym (append_assoc before term after))
    ∙ ap (λ n. ends_term ((before ++ term) ++ after) n) (sym (length-append before term))
    ∙ ends_term-starts_free (before ++ term) after

-- For a term that is not empty, and where the lower case of a text that is not empty is not empty either:
-- hasTerm finds whether the term occurs with no letter or digit next to it on both sides, hasTermPrefix
-- whether with none before it, and hasTermSuffix whether with none behind it, in the texts as they are or
-- in lower case.
pub term_searches_lem :
    (lower : Bytes → Bytes)
    → ((c : ℕ) (s : Bytes) → 0 < length (lower (c ∷ s)))
    → (case_sensitive : Bool) (s : Bytes) (c : ℕ) (t : Bytes)
    → ((has_term lower s (c ∷ t) case_sensitive ≡ true)
        ↔ Occurs
            (λ before after. ends_free before && starts_free after)
            (fold lower case_sensitive s)
            (fold lower case_sensitive (c ∷ t)))
      × ((has_term_prefix lower s (c ∷ t) case_sensitive ≡ true)
          ↔ Occurs
              (λ before after. ends_free before)
              (fold lower case_sensitive s)
              (fold lower case_sensitive (c ∷ t)))
      × ((has_term_suffix lower s (c ∷ t) case_sensitive ≡ true)
          ↔ Occurs
              (λ before after. starts_free after)
              (fold lower case_sensitive s)
              (fold lower case_sensitive (c ∷ t)))
unfolding has_term has_term_prefix has_term_suffix
term_searches_lem lower nonempty case_sensitive s c t =
    let text = fold lower case_sensitive s in
    let term = fold lower case_sensitive (c ∷ t) in
    let some_byte : 0 < length term = long case_sensitive in
    (
      find_term-Occurs (λ pos. starts_term text pos && ends_term text (pos + length term)) text term
          _ (λ x y e. rw (starts_term-before text term x y e, ends_term-after text term x y e) refl)
          some_byte,
      find_term-Occurs (λ pos. starts_term text pos) text term _
          (λ x y e. starts_term-before text term x y e) some_byte,
      find_term-Occurs (λ pos. ends_term text (pos + length term)) text term _
          (λ x y e. ends_term-after text term x y e) some_byte,
    )
  where
    long : (b : Bool) → 0 < length (fold lower b (c ∷ t))
    long true = omega arith
    long false = nonempty c t
