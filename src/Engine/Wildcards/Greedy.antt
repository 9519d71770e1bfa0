-- ===== src/Engine/Wildcards/Greedy.antt =====
-- The greedy search of `wildcardMatch` (pkg/engine/operators.go) against the meaning of a pattern.
use gokql.Base.{
  ℕ, ◌+◌, ◌-◌, ◌≤◌, ◌≡◌, ◌↔◌, refl, sym, ap, ◌∙◌, inl, inr, Bool, true, false, ◌&&◌, Bool-cases,
  Option-cases, List, [], ◌∷◌, ◌++◌, length, take, drop, leb, ◌==◌, length-append, arith,
}
use gokql.Base.Bytes.{Bytes, bytes_eq_iff}
use gokql.Base.Search.{
  starts_with, index_of_text, ends_with, ends_with_iff, index-least, index-occurs, starts_with-rest,
  starts_with-append, drop-append, drop-length, drop-drop, length-drop, take-drop, append_assoc,
}
use gokql.Engine.Wildcards.{split_stars, match_parts, match_split, wildcard_match}

-- A pattern's byte other than a star is matched by itself, a star by any text.
abbrev pub Fits : Bytes → Bytes → Type 0
Fits [] s = s ≡ []
Fits (c ∷ p) s = elim (c == b'*') [
  | true ↦ (gap : Bytes) × (rest : Bytes) × (s ≡ gap ++ rest) × Fits p rest
  | false ↦ (rest : Bytes) × (s ≡ c ∷ rest) × Fits p rest
]

-- The parts of a pattern, in order, with gaps between them.
abbrev FitsParts : Bytes → List Bytes → Bytes → Type 0
FitsParts part [] s = s ≡ part
FitsParts part (q ∷ qs) s =
    (gap : Bytes) × (rest : Bytes) × (s ≡ part ++ (gap ++ rest)) × FitsParts q qs rest

abbrev AfterGap : Bytes → List Bytes → Bytes → Type 0
AfterGap part parts s =
    (gap : Bytes) × (rest : Bytes) × (s ≡ gap ++ rest) × FitsParts part parts rest

AfterGap-more :
    (part : Bytes) (parts : List Bytes) (x s : Bytes)
    → AfterGap part parts s
    → AfterGap part parts (x ++ s)
AfterGap-more part parts x s (gap, rest, e, f) =
    (x ++ gap, rest, ap (λ r. x ++ r) e ∙ sym (append_assoc x gap rest), f)

FitsParts-cons :
    (c : ℕ) (part : Bytes) (parts : List Bytes) (s : Bytes)
    → FitsParts (c ∷ part) parts s ↔ ((rest : Bytes) × (s ≡ c ∷ rest) × FitsParts part parts rest)
FitsParts-cons c part [] s = (λ e. (part, e, refl), λ (r, e, f). e ∙ ap (λ r. c ∷ r) f)
FitsParts-cons c part (q ∷ qs) s = (
  λ (gap, rest, e, f). (part ++ (gap ++ rest), e, (gap, rest, refl, f)),
  λ (r, e, (gap, rest, g, f)). (gap, rest, e ∙ ap (λ r. c ∷ r) g, f),
)

Fits-parts : (p s : Bytes) → Fits p s ↔ FitsParts ((split_stars p).0) ((split_stars p).1) s
unfolding split_stars
Fits-parts [] s = (λ e. e, λ e. e)
Fits-parts (c ∷ p) s = elim (Bool-cases (c == b'*')) [
  | inl h ↦
      rw (split_stars, Fits, h)
        (
          λ (gap, rest, e, f). (gap, rest, e, (Fits-parts p rest).0 f),
          λ (gap, rest, e, f). (gap, rest, e, (Fits-parts p rest).1 f),
        )
  | inr h ↦
      let cons = FitsParts-cons c ((split_stars p).0) ((split_stars p).1) s in
      rw (split_stars, Fits, h)
        (
          λ (rest, e, f). cons.1 (rest, e, (Fits-parts p rest).0 f),
          λ k. let (rest, e, f) = cons.0 k in (rest, e, (Fits-parts p rest).1 f),
        )
]

split_stars-whole : (p : Bytes) → (split_stars p).1 ≡ [] → (split_stars p).0 ≡ p
unfolding split_stars
split_stars-whole [] h = refl
split_stars-whole (c ∷ p) h = elim (Bool-cases (c == b'*')) [
  | inl k ↦ cc (rw (split_stars, k) at h)
  | inr k ↦ rw (split_stars, k) (ap (λ r. c ∷ r) (split_stars-whole p (rw (split_stars, k) at h)))
]

and_both : (b c : Bool) → (b && c) ≡ true → (b ≡ true) × (c ≡ true)
and_both true c h = (refl, h)
and_both false c h = cc h

leb_iff : (n m : ℕ) → (leb n m ≡ true) ↔ (n ≤ m)
leb_iff n m = ground arith

last_part :
    (name : Bytes) (pos : ℕ) (part : Bytes)
    → pos ≤ length name
    → (match_parts name pos part [] ≡ true) ↔ AfterGap part [] (drop pos name)
unfolding match_parts
last_part name pos part h = (
  λ m.
      let (fits, ends) = and_both (leb (length part) (length name - pos)) (ends_with part name) m in
      let le = (leb_iff (length part) (length name - pos)).0 fits in
      let (a, e) = (ends_with_iff part name).0 ends in
      let size : length name ≡ length a + length part = ap length e ∙ length-append a part in
      (
        drop pos a,
        part,
        ap (λ r. drop pos r) e ∙ drop-append pos a part (omega (arith, h, le, size)),
        refl,
      ),
  λ (gap, rest, e, f).
      let same : drop pos name ≡ gap ++ part = e ∙ ap (λ r. gap ++ r) f in
      let size : length name - pos ≡ length gap + length part =
        sym (length-drop pos name) ∙ ap length same ∙ length-append gap part in
      let ends = (ends_with_iff part name).1 (
        take pos name ++ gap,
        take-drop pos name
            ∙ ap (λ r. take pos name ++ r) same
            ∙ sym (append_assoc (take pos name) gap part),
      ) in
      rw ((leb_iff (length part) (length name - pos)).1 (omega (arith, size)), ends) refl,
)

-- The search for the first occurrence of each part loses no match.
match_parts-AfterGap :
    (parts : List Bytes) (name : Bytes) (pos : ℕ) (part : Bytes)
    → pos ≤ length name
    → (match_parts name pos part parts ≡ true) ↔ AfterGap part parts (drop pos name)
unfolding match_parts
match_parts-AfterGap [] name pos part h = last_part name pos part h
match_parts-AfterGap (q ∷ qs) name pos part h =
    elim (Option-cases (index_of_text part (drop pos name))) [
      | inl none_here ↦ (
        λ m. cc (rw (match_parts, none_here) at m),
        λ (gap, rest, e, (gap', rest', e', f)).
            let (i, found, le) = index-least part gap (gap' ++ rest') in
            let whole : drop pos name ≡ gap ++ (part ++ (gap' ++ rest')) =
              e ∙ ap (λ r. gap ++ r) e' in
            cc (sym none_here ∙ ap (λ r. index_of_text part r) whole ∙ found),
      )
      | inr (i, here) ↦
          let next = pos + (i + length part) in
          let (a, b, e, size) = index-occurs part (drop pos name) i here in
          let far : length name - pos ≡ length a + (length part + length b) =
            sym (length-drop pos name)
            ∙ ap length e
            ∙ length-append a (part ++ b)
            ∙ ap (λ n. length a + n) (length-append part b) in
          let later = match_parts-AfterGap qs name next q (omega (arith, h, far, size)) in
          let skip : length (a ++ part) ≡ i + length part =
            length-append a part ∙ ap (λ n. n + length part) size in
          let behind : drop next name ≡ b =
            sym (drop-drop (i + length part) pos name)
            ∙ ap (λ r. drop (i + length part) r) (e ∙ sym (append_assoc a part b))
            ∙ ap (λ n. drop n ((a ++ part) ++ b)) (sym skip)
            ∙ drop-length (a ++ part) b in
          (
            λ m.
                let (gap, rest, g, f) = later.0 (rw (match_parts, here) at m) in
                (a, part ++ b, e, (gap, rest, ap (λ r. part ++ r) (sym behind ∙ g), f)),
            λ (gap, rest, g, (gap', rest', g', f)).
                let (j, found, le) = index-least part gap (gap' ++ rest') in
                let whole : drop pos name ≡ gap ++ (part ++ (gap' ++ rest')) =
                  g ∙ ap (λ r. gap ++ r) g' in
                let same : i ≡ j = cc (sym here ∙ ap (λ r. index_of_text part r) whole ∙ found) in
                let left : drop next name
                    ≡ drop (i + length part) (gap ++ part) ++ (gap' ++ rest') =
                  sym (drop-drop (i + length part) pos name)
                  ∙ ap (λ r. drop (i + length part) r)
                      (whole ∙ sym (append_assoc gap part (gap' ++ rest')))
                  ∙ drop-append (i + length part) (gap ++ part) (gap' ++ rest')
                      (omega (arith, le, same, length-append gap part)) in
                rw (match_parts, here)
                  (later.1 (
                    rw left (
                      AfterGap-more q qs (drop (i + length part) (gap ++ part)) (gap' ++ rest')
                        (gap', rest', refl, f)))),
          )
    ]

match_split-FitsParts :
    (pattern name first : Bytes) (others : List Bytes)
    → (others ≡ [] → first ≡ pattern)
    → (match_split pattern name first others ≡ true) ↔ FitsParts first others name
unfolding match_split
match_split-FitsParts pattern name first [] h = (
  λ m. sym ((bytes_eq_iff pattern name).0 m) ∙ sym (h refl),
  λ e. (bytes_eq_iff pattern name).1 (sym (e ∙ h refl)),
)
match_split-FitsParts pattern name first (q ∷ qs) h = elim (Bool-cases (starts_with first name)) [
  | inr p ↦ (
    λ m. cc (rw (match_split, p) at m),
    λ (gap, rest, e, f).
        cc (sym p ∙ ap (λ r. starts_with first r) e ∙ starts_with-append first (gap ++ rest)),
  )
  | inl p ↦
      let whole = starts_with-rest first name p in
      let size = ap length whole ∙ length-append first (drop (length first) name) in
      let (to, from) = match_parts-AfterGap qs name (length first) q (omega (arith, size)) in
      (
        λ m.
            let (gap, rest, e, f) = to (rw (match_split, p) at m) in
            (gap, rest, whole ∙ ap (λ r. first ++ r) e, f),
        λ (gap, rest, e, f).
            let tail : drop (length first) name ≡ gap ++ rest =
              ap (λ r. drop (length first) r) e ∙ drop-length first (gap ++ rest) in
            rw (match_split, p) (from (gap, rest, tail, f)),
      )
]

-- wildcardMatch matches exactly the names that the pattern fits, each star standing for any text, also
-- the empty one.
pub wildcard_match_lem :
    (pattern name : Bytes) → (wildcard_match pattern name ≡ true) ↔ Fits pattern name
unfolding wildcard_match
wildcard_match_lem pattern name =
    let (to, from) =
      match_split-FitsParts pattern name ((split_stars pattern).0) ((split_stars pattern).1)
        (split_stars-whole pattern) in
    let (parts, whole) = Fits-parts pattern name in (λ m. whole (to m), λ f. from (parts f))
