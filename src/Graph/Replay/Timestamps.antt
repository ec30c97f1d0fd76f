-- ===== src/Graph/Replay/Timestamps.antt =====
-- graph/materialize.rs, `is_canonical_ts`: on canonical times the order of the texts is that of the
-- times.
use innen.Common.{
  ℕ, ◌+◌, ◌-◌, ◌*◌, ◌<◌, ◌≡◌, refl, sym, Bool, true, false, ◌&&◌, List, [], ◌∷◌, arith, ltb, leb,
  eqb, if◌then◌else◌, inl, inr, ◌⊎◌, length, all, All,
}
use innen.Common.Text.{Text, codes, is_ascii_digit, text_lt, text_le}
use innen.Graph.Replay.{is_canonical_ts, byte_is, digit_at, digit_positions}

-- The digits of a text as one decimal number, `acc` in front of them: YYYYMMDDHHMMSS.
next_digit : ℕ → ℕ → ℕ
next_digit acc c = if is_ascii_digit c then acc * 10 + (c - 48) else acc

stamp_from : ℕ → Text → ℕ
stamp_from acc [] = acc
stamp_from acc (c ∷ s) = stamp_from (next_digit acc c) s

pub stamp : Text → ℕ
unfolding stamp_from
stamp s = stamp_from 0 s

abbrev SameChar : ℕ → ℕ → Type 0
SameChar c d =
    (is_ascii_digit c ≡ true) × (is_ascii_digit d ≡ true) ⊎ (is_ascii_digit c ≡ false) × (c ≡ d)

-- Digits in the same places, and the same text between them.
abbrev SameShape : Text → Text → Type 0
SameShape [] [] = Unit
SameShape [] (d ∷ t) = ⊥
SameShape (c ∷ s) [] = ⊥
SameShape (c ∷ s) (d ∷ t) = SameChar c d × SameShape s t

next_digit-lt : (a b c d : ℕ) → SameChar c d → a < b → next_digit a c < next_digit b d
unfolding next_digit
next_digit-lt a b c d (inl digits) lt = ground arith
next_digit-lt a b c d (inr same) lt = ground arith

stamp_from-lt : (a b : ℕ) (s t : Text) → SameShape s t → a < b → stamp_from a s < stamp_from b t
unfolding stamp_from
stamp_from-lt a b [] [] h lt = lt
stamp_from-lt a b [] (d ∷ t) h lt = absurd h
stamp_from-lt a b (c ∷ s) [] h lt = absurd h
stamp_from-lt a b (c ∷ s) (d ∷ t) (shape, h) lt =
    stamp_from-lt (next_digit a c) (next_digit b d) s t h (next_digit-lt a b c d shape lt)

SameShape-sym : (s t : Text) → SameShape s t → SameShape t s
SameShape-sym [] [] h = tt
SameShape-sym [] (d ∷ t) h = absurd h
SameShape-sym (c ∷ s) [] h = absurd h
SameShape-sym (c ∷ s) (d ∷ t) (inl (p, q), h) = (inl (q, p), SameShape-sym s t h)
SameShape-sym (c ∷ s) (d ∷ t) (inr (p, e), h) = (inr (rw e at p, sym e), SameShape-sym s t h)

-- The two ways in which one place of the texts can compare.
next_digit-compare :
    (a c d : ℕ)
    → SameChar c d
    → (c < d → next_digit a c < next_digit a d) × (d < c → next_digit a d < next_digit a c)
unfolding next_digit
next_digit-compare a c d shape = (λ lt. ground arith, λ lt. ground arith)

text_lt-stamp_from :
    (a : ℕ) (s t : Text) → SameShape s t → text_lt s t ≡ ltb (stamp_from a s) (stamp_from a t)
unfolding stamp_from text_lt
text_lt-stamp_from a [] [] h = ground arith
text_lt-stamp_from a [] (d ∷ t) h = absurd h
text_lt-stamp_from a (c ∷ s) [] h = absurd h
text_lt-stamp_from a (c ∷ s) (d ∷ t) (shape, h) =
    let places = next_digit-compare a c d shape in
    ground (
      arith,
      places.0,
      places.1,
      stamp_from-lt (next_digit a c) (next_digit a d) s t h,
      stamp_from-lt (next_digit a d) (next_digit a c) t s (SameShape-sym s t h),
      text_lt-stamp_from (next_digit a c) s t h,
    )

SameShape-trans : (s t u : Text) → SameShape s t → SameShape t u → SameShape s u
SameShape-trans [] [] [] h k = tt
SameShape-trans [] [] (e ∷ u) h k = absurd k
SameShape-trans [] (d ∷ t) u h k = absurd h
SameShape-trans (c ∷ s) [] u h k = absurd h
SameShape-trans (c ∷ s) (d ∷ t) [] h k = absurd k
SameShape-trans (c ∷ s) (d ∷ t) (e ∷ u) (p, h) (q, k) = (ground arith, SameShape-trans s t u h k)

abbrev template : Text
template = codes "0000-00-00T00:00:00Z"

and3 : (a b c : Bool) → (a && b && c) ≡ true → (a ≡ true) × (b ≡ true) × (c ≡ true)
and3 a b c h = ground arith

and6 :
    (a b c d e f : Bool)
    → (a && b && c && d && e && f) ≡ true
    → (a ≡ true) × (b ≡ true) × (c ≡ true) × (d ≡ true) × (e ≡ true) × (f ≡ true)
and6 a b c d e f h = ground arith

all→All : (p : ℕ → Bool) (is : List ℕ) → all p is ≡ true → All (λ i. p i ≡ true) is
all→All p [] h = tt
all→All p (i ∷ is) h = (ground arith, all→All p is (ground arith))

separator : (k c : ℕ) → eqb k c ≡ true → is_ascii_digit k ≡ false → SameChar c k
separator k c same plain = inr (ground arith, ground arith)

is_canonical_ts-parts :
    (s : Text)
    → is_canonical_ts s ≡ true
    → (eqb (length s) 20 ≡ true)
      × ((byte_is s 4 b'-' ≡ true)
          × (byte_is s 7 b'-' ≡ true)
          × (byte_is s 10 b'T' ≡ true)
          × (byte_is s 13 b':' ≡ true)
          × (byte_is s 16 b':' ≡ true)
          × (byte_is s 19 b'Z' ≡ true))
      × All (λ i. digit_at s i ≡ true) digit_positions
unfolding is_canonical_ts
is_canonical_ts-parts s h =
    let (sized, seps, digits) = and3 _ _ _ h in
    (sized, and6 _ _ _ _ _ _ seps, all→All (digit_at s) digit_positions digits)

is_canonical_ts-shape : (s : Text) → is_canonical_ts s ≡ true → SameShape s template
is_canonical_ts-shape
      (c0 ∷ c1 ∷ c2 ∷ c3 ∷ c4 ∷ c5 ∷ c6 ∷ c7 ∷ c8 ∷ c9 ∷ c10 ∷ c11 ∷ c12 ∷ c13 ∷ c14 ∷ c15 ∷ c16
        ∷ c17 ∷ c18 ∷ c19 ∷ [])
      h =
    let (_, b, d) = is_canonical_ts-parts _ h in
    (
      inl (d.0, refl),
      (
        inl (d.1.0, refl),
        (
          inl (d.1.1.0, refl),
          (
            inl (d.1.1.1.0, refl),
            (
              separator _ c4 b.0 refl,
              (
                inl (d.1.1.1.1.0, refl),
                (
                  inl (d.1.1.1.1.1.0, refl),
                  (
                    separator _ c7 b.1 refl,
                    (
                      inl (d.1.1.1.1.1.1.0, refl),
                      (
                        inl (d.1.1.1.1.1.1.1.0, refl),
                        (
                          separator _ c10 b.2 refl,
                          (
                            inl (d.1.1.1.1.1.1.1.1.0, refl),
                            (
                              inl (d.1.1.1.1.1.1.1.1.1.0, refl),
                              (
                                separator _ c13 b.3 refl,
                                (
                                  inl (d.1.1.1.1.1.1.1.1.1.1.0, refl),
                                  (
                                    inl (d.1.1.1.1.1.1.1.1.1.1.1.0, refl),
                                    (
                                      separator _ c16 b.4 refl,
                                      (
                                        inl (d.1.1.1.1.1.1.1.1.1.1.1.1.0, refl),
                                        (
                                          inl (d.1.1.1.1.1.1.1.1.1.1.1.1.1.0, refl),
                                          (separator _ c19 b.5 refl, tt),
                                        ),
                                      ),
                                    ),
                                  ),
                                ),
                              ),
                            ),
                          ),
                        ),
                      ),
                    ),
                  ),
                ),
              ),
            ),
          ),
        ),
      ),
    )
is_canonical_ts-shape s h = let (sized, _, _) = is_canonical_ts-parts s h in absurd (ground arith)

-- Canonical times compare as texts, byte by byte, the way their digits compare as one number of the
-- form YYYYMMDDHHMMSS.
pub text_lt-stamp :
    (s t : Text)
    → is_canonical_ts s ≡ true
    → is_canonical_ts t ≡ true
    → (text_lt s t ≡ ltb (stamp s) (stamp t)) × (text_le s t ≡ leb (stamp s) (stamp t))
unfolding stamp text_le
text_lt-stamp s t h k =
    let shape = λ (x y : Text) (p : is_canonical_ts x ≡ true) (q : is_canonical_ts y ≡ true).
      SameShape-trans x template y (is_canonical_ts-shape x p)
        (SameShape-sym y template (is_canonical_ts-shape y q)) in
    let forth = text_lt-stamp_from 0 s t (shape s t h k) in
    let back = text_lt-stamp_from 0 t s (shape t s k h) in (forth, ground arith)
