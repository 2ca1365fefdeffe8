-- ===== src/Version/Grammar.antt =====
-- Which texts the pattern of releases matches, and which release a text stands for.
use roost_codegen.Prelude.{
  ℕ, ◌<◌, Bool, true, false, ◌&&◌, [], ◌∷◌, ◌++◌, Option, none, some, ◌≡◌, ◌≢◌, ◌↔◌, inl, inr, refl,
  sym, ap, subst, ◌∙◌, arith, ltb, all, Bool-cases, Option-cases, and-true, append-nil,
}
use roost_codegen.Prelude.Text.{
  Text, codes, cut_prefix, cut_prefix-append, cut_prefix_sound, trim_space,
}
use roost_codegen.Version.{
  Release, is_digit, span_digits, number_from, int_limit, scan_int, scan_release, release_of,
  run_of, match_digits, after_dot, match_end, match_third, match_second, match_rest, match_first,
  match_number, match_release, scan_match, release_version,
}

-- One digit at least, and nothing else.
abbrev pub IsDigits : Text → Type 0
IsDigits s = (s ≢ []) × (all is_digit s ≡ true)

-- A text that does not go on with a digit.
abbrev pub Stops : Text → Type 0
Stops [] = Unit
Stops (c ∷ s) = is_digit c ≡ false

both-true : (a : Bool) {b : Bool} → a ≡ true → b ≡ true → (a && b) ≡ true
both-true a ha hb = ground arith

span_digits_sound :
    (s : Text)
    → (s ≡ (span_digits s).0 ++ (span_digits s).1)
      × (all is_digit (span_digits s).0 ≡ true)
      × Stops (span_digits s).1
unfolding span_digits
span_digits_sound [] = (refl, refl, tt)
span_digits_sound (c ∷ s) = elim (Bool-cases (is_digit c)) [
  | inl digit ↦
      let (joined, digits, stops) = span_digits_sound s in
      rw (span_digits, digit) (ap (λ t. c ∷ t) joined, both-true (is_digit c) digit digits, stops)
  | inr other ↦ rw (span_digits, other) (refl, refl, other)
]

span_digits-append :
    (a rest : Text) → all is_digit a ≡ true → Stops rest → span_digits (a ++ rest) ≡ (a, rest)
unfolding span_digits
span_digits-append [] [] h stops = refl
span_digits-append [] (c ∷ rest) h stops = rw (span_digits, stops) refl
span_digits-append (c ∷ a) rest h stops =
    let (digit, digits) = and-true (is_digit c) (all is_digit a) h in
    let later = span_digits-append a rest digits stops in rw (span_digits, digit, later) refl

match_digits_sound :
    (s a rest : Text) → match_digits s ≡ some (a, rest) → (s ≡ a ++ rest) × IsDigits a × Stops rest
unfolding match_digits
match_digits_sound s a rest e =
    let (joined, digits, stops) = span_digits_sound s in go (span_digits s) joined digits stops e
  where
    go :
        (span : Text × Text)
        → s ≡ span.0 ++ span.1
        → all is_digit span.0 ≡ true
        → Stops span.1
        → run_of span ≡ some (a, rest)
        → (s ≡ a ++ rest) × IsDigits a × Stops rest
    go ([], later) joined digits stops h = cc
    go (c ∷ run, later) joined digits stops h =
        let is_a : c ∷ run ≡ a = cc in
        let is_rest : later ≡ rest = cc in
        (cc, subst IsDigits is_a ((λ empty. cc), digits), subst Stops is_rest stops)

match_digits-append :
    (a rest : Text) → IsDigits a → Stops rest → match_digits (a ++ rest) ≡ some (a, rest)
unfolding match_digits
match_digits-append [] rest (ne, digits) stops = absurd (ne refl)
match_digits-append (c ∷ a) rest (ne, digits) stops =
    rw (span_digits-append (c ∷ a) rest digits stops) refl

-- The text of a release with these numbers.
abbrev pub release_text : Text → Text → Text → Text
release_text a b c = codes "v" ++ (a ++ (codes "." ++ (b ++ (codes "." ++ c))))

match_end_sound :
    (s a b : Text) (a' b' c' : Text)
    → match_end a b (match_digits s) ≡ some (a', b', c')
    → (s ≡ c') × IsDigits c' × (a ≡ a') × (b ≡ b')
match_end_sound s a b a' b' c' e = elim (Option-cases (match_digits s)) [
  | inl nothing ↦ let stuck : match_end a b none ≡ some (a', b', c') = rw nothing at e in cc
  | inr ((c, []), found) ↦
      let got : match_end a b (some (c, [])) ≡ some (a', b', c') = rw found at e in
      let (joined, digits, stops) = match_digits_sound s c [] found in
      let is_c : c ≡ c' = cc in (joined ∙ append-nil c ∙ is_c, subst IsDigits is_c digits, cc, cc)
  | inr ((c, d ∷ rest), found) ↦
      let stuck : match_end a b (some (c, d ∷ rest)) ≡ some (a', b', c') = rw found at e in cc
]

match_third_sound :
    (s a b : Text) (a' b' c' : Text)
    → match_third a b (after_dot s) ≡ some (a', b', c')
    → (s ≡ codes "." ++ c') × IsDigits c' × (a ≡ a') × (b ≡ b')
match_third_sound s a b a' b' c' e = elim (Option-cases (after_dot s)) [
  | inl nothing ↦ let stuck : match_third a b none ≡ some (a', b', c') = rw nothing at e in cc
  | inr (rest, found) ↦
      let joined = cut_prefix_sound s (codes ".") rest found in
      let (is_c, digits, is_a, is_b) = match_end_sound rest a b a' b' c' (rw found at e) in
      (joined ∙ ap (λ t. codes "." ++ t) is_c, digits, is_a, is_b)
]

match_second_sound :
    (s a : Text) (a' b' c' : Text)
    → match_second a (match_digits s) ≡ some (a', b', c')
    → (s ≡ b' ++ (codes "." ++ c')) × IsDigits b' × IsDigits c' × (a ≡ a')
match_second_sound s a a' b' c' e = elim (Option-cases (match_digits s)) [
  | inl nothing ↦ let stuck : match_second a none ≡ some (a', b', c') = rw nothing at e in cc
  | inr ((b, rest), found) ↦
      let (joined, digits, stops) = match_digits_sound s b rest found in
      let (is_rest, digits_c, is_a, is_b) = match_third_sound rest a b a' b' c' (rw found at e) in
      (cc, subst IsDigits is_b digits, digits_c, is_a)
]

match_rest_sound :
    (s a : Text) (a' b' c' : Text)
    → match_rest a (after_dot s) ≡ some (a', b', c')
    → (s ≡ codes "." ++ (b' ++ (codes "." ++ c'))) × IsDigits b' × IsDigits c' × (a ≡ a')
match_rest_sound s a a' b' c' e = elim (Option-cases (after_dot s)) [
  | inl nothing ↦ let stuck : match_rest a none ≡ some (a', b', c') = rw nothing at e in cc
  | inr (rest, found) ↦
      let joined = cut_prefix_sound s (codes ".") rest found in
      let (is_rest, digits_b, digits_c, is_a) =
        match_second_sound rest a a' b' c' (rw found at e) in
      (joined ∙ ap (λ t. codes "." ++ t) is_rest, digits_b, digits_c, is_a)
]

match_first_sound :
    (s : Text) (a b c : Text)
    → match_first (match_digits s) ≡ some (a, b, c)
    → (s ≡ a ++ (codes "." ++ (b ++ (codes "." ++ c)))) × IsDigits a × IsDigits b × IsDigits c
match_first_sound s a b c e = elim (Option-cases (match_digits s)) [
  | inl nothing ↦ let stuck : match_first none ≡ some (a, b, c) = rw nothing at e in cc
  | inr ((run, rest), found) ↦
      let (joined, digits, stops) = match_digits_sound s run rest found in
      let (is_rest, digits_b, digits_c, is_a) = match_rest_sound rest run a b c (rw found at e) in
      (cc, subst IsDigits is_a digits, digits_b, digits_c)
]

match_release_sound :
    (s a b c : Text)
    → match_release s ≡ some (a, b, c)
    → (s ≡ release_text a b c) × IsDigits a × IsDigits b × IsDigits c
unfolding match_release
match_release_sound s a b c e = elim (Option-cases (cut_prefix s (codes "v"))) [
  | inl nothing ↦ let stuck : match_number none ≡ some (a, b, c) = rw nothing at e in cc
  | inr (rest, found) ↦
      let joined = cut_prefix_sound s (codes "v") rest found in
      let (is_rest, is_a, is_b, is_c) = match_first_sound rest a b c (rw found at e) in
      (joined ∙ ap (λ t. codes "v" ++ t) is_rest, is_a, is_b, is_c)
]

match_release_complete :
    (a b c : Text)
    → IsDigits a
    → IsDigits b
    → IsDigits c
    → match_release (release_text a b c) ≡ some (a, b, c)
unfolding match_release
match_release_complete a b c is_a is_b is_c =
    let start : cut_prefix (release_text a b c) (codes "v")
        ≡ some (a ++ (codes "." ++ (b ++ (codes "." ++ c)))) =
      cut_prefix-append (codes "v") (a ++ (codes "." ++ (b ++ (codes "." ++ c)))) in
    let first = match_digits-append a (codes "." ++ (b ++ (codes "." ++ c))) is_a refl in
    let dot = cut_prefix-append (codes ".") (b ++ (codes "." ++ c)) in
    let second = match_digits-append b (codes "." ++ c) is_b refl in
    let dot_again = cut_prefix-append (codes ".") c in
    let third : match_digits c ≡ some (c, []) =
      subst (λ t. match_digits t ≡ some (c, [])) (append-nil c)
        (match_digits-append c [] is_c tt) in
    ap match_number start
    ∙ ap match_first first
    ∙ ap (match_rest a) dot
    ∙ ap (match_second a) second
    ∙ ap (match_third a b) dot_again
    ∙ ap (match_end a b) third

-- The pattern of releases matches the texts `v`, digits, a dot, digits, a dot, digits, and no others,
-- and finds the three runs of digits.
pub match_release_iff :
    (s a b c : Text)
    → (match_release s ≡ some (a, b, c))
      ↔ ((s ≡ release_text a b c) × IsDigits a × IsDigits b × IsDigits c)
match_release_iff s a b c = (
  match_release_sound s a b c,
  λ (is_text, is_a, is_b, is_c). rw is_text (match_release_complete a b c is_a is_b is_c),
)

-- A number that is scanned.
scan_int_sound : (a : Text) (n : ℕ) → scan_int a ≡ some n → (n ≡ number_from 0 a) × (n < int_limit)
scan_int_sound a n e = elim (Bool-cases (ltb (number_from 0 a) int_limit)) [
  | inl fits ↦
      let got : some (number_from 0 a) ≡ some n = rw fits at e in
      let is_n : number_from 0 a ≡ n = cc in
      (sym is_n, subst (λ k. k < int_limit) is_n (ltb→lt (number_from 0 a) int_limit fits))
  | inr large ↦ let stuck : none ≡ some n = rw large at e in cc
]
  where
    ltb→lt : (k m : ℕ) → ltb k m ≡ true → k < m
    ltb→lt k m h = ground arith

release_of_sound :
    (o p q : Option ℕ) (x y z : ℕ)
    → release_of o p q ≡ some (x, y, z)
    → (o ≡ some x) × (p ≡ some y) × (q ≡ some z)
release_of_sound (some a) (some b) (some c) x y z e =
    let triple : ◌≡◌ {A = Release} (a, b, c) (x, y, z) = cc in
    (
      ap (λ (t : Release). some t.0) triple,
      ap (λ (t : Release). some t.1) triple,
      ap (λ (t : Release). some t.2) triple,
    )
release_of_sound none p q x y z e = cc
release_of_sound (some a) none q x y z e = cc
release_of_sound (some a) (some b) none x y z e = cc

-- The release that a text stands for: its three numbers, each below the limit of Go's int, are those
-- of the runs of digits in the text, without white space round it.
abbrev pub StandsFor : Text → Release → Type 0
StandsFor s (x, y, z) =
    (a b c : Text) × (s ≡ release_text a b c)
    × (IsDigits a × IsDigits b × IsDigits c)
    × ((x ≡ number_from 0 a) × (y ≡ number_from 0 b) × (z ≡ number_from 0 c))
    × ((x < int_limit) × (y < int_limit) × (z < int_limit))

-- `releaseVersion` answers three numbers only for a text that, without the white space round it, is
-- `v`, digits, a dot, digits, a dot, digits; the numbers are those of the digits, and each is below
-- 2 ^ 63, the limit of Go's int.
pub release_version-StandsFor :
    (version : Text) (r : Release)
    → release_version version ≡ some r
    → StandsFor (trim_space version) r
unfolding release_version
release_version-StandsFor version (x, y, z) e =
    elim (Option-cases (match_release (trim_space version))) [
      | inl nothing ↦ let stuck : scan_match none ≡ some (x, y, z) = rw nothing at e in cc
      | inr ((a, b, c), found) ↦
          let scanned : scan_release a b c ≡ some (x, y, z) = rw found at e in
          let (is_text, is_a, is_b, is_c) = match_release_sound (trim_space version) a b c found in
          let (ex, ey, ez) =
            release_of_sound (scan_int a) (scan_int b) (scan_int c) x y z scanned in
          let (value_x, bound_x) = scan_int_sound a x ex in
          let (value_y, bound_y) = scan_int_sound b y ey in
          let (value_z, bound_z) = scan_int_sound c z ez in
          (
            a,
            b,
            c,
            is_text,
            (is_a, is_b, is_c),
            (value_x, value_y, value_z),
            (bound_x, bound_y, bound_z),
          )
    ]
