-- ===== src/TickSlab/Links.antt =====
-- About the links between pages: what a key that comes into the bitmap, or leaves it, does to the
-- neighbours of the other keys.
use rm_uniswap.Prelude.{
  ℕ, ◌+◌, ◌<◌, ◌≡◌, ◌∙◌, arith, true, false, Bool, ◌==◌, ==_iff, Bool-cases, inl, inr, lt_or_ge,
  Option, some, none,
}
use rm_uniswap.Bitmap.{HierBitmap}
use rm_uniswap.Bitmap.Search.{IsNext}
use rm_uniswap.Bitmap.SearchDown.{IsBelow}
use rm_uniswap.Bitmap.Well.{present}

-- Is it this key?
abbrev pub names : Option ℕ → ℕ → Bool
names none d = false
names (some c) d = d == c

pub apart : (a b : ℕ) → (a < b) → (a == b) ≡ false
apart a b l = ground arith

pub apart_above : (a b : ℕ) → (b < a) → (a == b) ≡ false
apart_above a b l = ground arith

-- `b'` is `b` but for the key `c`.
module _ (b b' : HierBitmap) (c : ℕ)
    (other : (m : ℕ) → (m == c) ≡ false → present b' m ≡ present b m) where
  -- The neighbours of the key itself.
  pub IsBelow-same : (r : Option ℕ) → IsBelow b c r → IsBelow b' c r
  IsBelow-same none e = λ m l. other m (apart m c l) ∙ e m l
  IsBelow-same (some k) (l, there, gap) =
      (l, other k (apart k c l) ∙ there, λ m lo hi. other m (apart m c hi) ∙ gap m lo hi)

  pub IsNext-same : (r : Option ℕ) → IsNext b (c + 1) r → IsNext b' (c + 1) r
  IsNext-same none e = λ m l. other m (apart_above m c (omega arith)) ∙ e m l
  IsNext-same (some k) (l, there, gap) = (
    l,
    other k (apart_above k c (omega arith)) ∙ there,
    λ m lo hi. other m (apart_above m c (omega arith)) ∙ gap m lo hi,
  )

  -- The key has come.
  module _ (now : present b' c ≡ 1) where
    pub come-IsBelow : (n : ℕ) → IsNext b (c + 1) (some n) → IsBelow b' n (some c)
    come-IsBelow n (l, there, gap) =
        (omega arith, now, λ m lo hi. other m (apart_above m c lo) ∙ gap m (omega arith) hi)

    pub come-IsNext : (p : ℕ) → IsBelow b c (some p) → IsNext b' (p + 1) (some c)
    come-IsNext p (l, there, gap) =
        (omega arith, now, λ m lo hi. other m (apart m c hi) ∙ gap m (omega arith) hi)

    pub stay-IsBelow :
        (d : ℕ) (r n : Option ℕ)
        → present b d ≡ 1
        → (d == c) ≡ false
        → names n d ≡ false
        → IsNext b (c + 1) n
        → IsBelow b d r
        → IsBelow b' d r
    stay-IsBelow d r n here far unnamed after below = elim (lt_or_ge d c) [
      | inl l ↦ under r l below
      | inr g ↦ over r n unnamed after (ground arith) below
    ]
      where
        under : (r : Option ℕ) → d < c → IsBelow b d r → IsBelow b' d r
        under none l e = λ m k. other m (apart m c (omega arith)) ∙ e m k
        under (some e) l (k, there, gap) = (
          k,
          other e (apart e c (omega arith)) ∙ there,
          λ m lo hi. other m (apart m c (omega arith)) ∙ gap m lo hi,
        )

        over :
            (r n : Option ℕ)
            → names n d ≡ false
            → IsNext b (c + 1) n
            → c < d
            → IsBelow b d r
            → IsBelow b' d r
        over r none u e l below = absurd (omega (arith, e d (omega arith)))
        over none (some k) u (lo, there, gap) l below = elim (lt_or_ge k d) [
          | inl f ↦ absurd (omega (arith, below k f))
          | inr g ↦ elim (lt_or_ge d k) [
            | inl f ↦ absurd (omega (arith, gap d (omega arith) f))
            | inr same ↦ let at : (d == k) ≡ true = (==_iff d k).1 (omega arith) in cc (at, u)
          ]
        ]
        over (some e) (some k) u (lo, there, gap) l (f, there', gap') = elim (lt_or_ge k d) [
          | inr g ↦ elim (lt_or_ge d k) [
            | inl h ↦ absurd (omega (arith, gap d (omega arith) h))
            | inr same ↦ let at : (d == k) ≡ true = (==_iff d k).1 (omega arith) in cc (at, u)
          ]
          | inl h ↦ elim (lt_or_ge e k) [
            | inl before ↦ absurd (omega (arith, gap' k before h))
            | inr from ↦ (
              f,
              other e (apart_above e c (omega arith)) ∙ there',
              λ m lo' hi. other m (apart_above m c (omega arith)) ∙ gap' m lo' hi,
            )
          ]
        ]

    pub stay-IsNext :
        (d : ℕ) (r p : Option ℕ)
        → present b d ≡ 1
        → (d == c) ≡ false
        → names p d ≡ false
        → IsBelow b c p
        → IsNext b (d + 1) r
        → IsNext b' (d + 1) r
    stay-IsNext d r p here far unnamed before next = elim (lt_or_ge c d) [
      | inl l ↦ over r l next
      | inr g ↦ under r p unnamed before (ground arith) next
    ]
      where
        over : (r : Option ℕ) → c < d → IsNext b (d + 1) r → IsNext b' (d + 1) r
        over none l e = λ m k. other m (apart_above m c (omega arith)) ∙ e m k
        over (some e) l (k, there, gap) = (
          k,
          other e (apart_above e c (omega arith)) ∙ there,
          λ m lo hi. other m (apart_above m c (omega arith)) ∙ gap m lo hi,
        )

        under :
            (r p : Option ℕ)
            → names p d ≡ false
            → IsBelow b c p
            → d < c
            → IsNext b (d + 1) r
            → IsNext b' (d + 1) r
        under r none u e l next = absurd (omega (arith, e d l))
        under none (some k) u (lo, there, gap) l next = elim (lt_or_ge d k) [
          | inl f ↦ absurd (omega (arith, next k (omega arith)))
          | inr g ↦ elim (lt_or_ge k d) [
            | inl f ↦ absurd (omega (arith, gap d f l))
            | inr same ↦ let at : (d == k) ≡ true = (==_iff d k).1 (omega arith) in cc (at, u)
          ]
        ]
        under (some e) (some k) u (lo, there, gap) l (f, there', gap') = elim (lt_or_ge d k) [
          | inr g ↦ elim (lt_or_ge k d) [
            | inl h ↦ absurd (omega (arith, gap d h l))
            | inr same ↦ let at : (d == k) ≡ true = (==_iff d k).1 (omega arith) in cc (at, u)
          ]
          | inl h ↦ elim (lt_or_ge k e) [
            | inl after ↦ absurd (omega (arith, gap' k (omega arith) after))
            | inr upto ↦ (
              f,
              other e (apart e c (omega arith)) ∙ there',
              λ m lo' hi. other m (apart m c (omega arith)) ∙ gap' m lo' hi,
            )
          ]
        ]

  -- The key has gone.
  module _ (was : present b c ≡ 1) (gone : present b' c ≡ 0) where
    fewer : (m : ℕ) → present b m ≡ 0 → present b' m ≡ 0
    fewer m e = elim (Bool-cases (m == c)) [
      | inl same ↦ let q = (==_iff m c).0 same in rw q gone
      | inr far ↦ other m far ∙ e
    ]

    pub gone-IsBelow :
        (n : ℕ) (p : Option ℕ) → IsNext b (c + 1) (some n) → IsBelow b c p → IsBelow b' n p
    gone-IsBelow n none (l, there, gap) e = λ m hi. elim (lt_or_ge m c) [
      | inl f ↦ fewer m (e m f)
      | inr g ↦ elim (lt_or_ge c m) [
        | inl h ↦ fewer m (gap m (omega arith) hi)
        | inr same ↦ let q : m ≡ c = omega arith in rw q gone
      ]
    ]
    gone-IsBelow n (some k) (l, there, gap) (lo, there', gap') = (
      omega arith,
      other k (apart k c lo) ∙ there',
      λ m low hi. elim (lt_or_ge m c) [
        | inl f ↦ fewer m (gap' m low f)
        | inr g ↦ elim (lt_or_ge c m) [
          | inl h ↦ fewer m (gap m (omega arith) hi)
          | inr same ↦ let q : m ≡ c = omega arith in rw q gone
        ]
      ],
    )

    pub gone-IsNext :
        (p : ℕ) (n : Option ℕ) → IsBelow b c (some p) → IsNext b (c + 1) n → IsNext b' (p + 1) n
    gone-IsNext p none (l, there, gap) e = λ m lo. elim (lt_or_ge m c) [
      | inl f ↦ fewer m (gap m (omega arith) f)
      | inr g ↦ elim (lt_or_ge c m) [
        | inl h ↦ fewer m (e m (omega arith))
        | inr same ↦ let q : m ≡ c = omega arith in rw q gone
      ]
    ]
    gone-IsNext p (some k) (l, there, gap) (lo, there', gap') = (
      omega arith,
      other k (apart_above k c (omega arith)) ∙ there',
      λ m low hi. elim (lt_or_ge m c) [
        | inl f ↦ fewer m (gap m (omega arith) f)
        | inr g ↦ elim (lt_or_ge c m) [
          | inl h ↦ fewer m (gap' m (omega arith) hi)
          | inr same ↦ let q : m ≡ c = omega arith in rw q gone
        ]
      ],
    )

    pub keep-IsBelow :
        (d : ℕ) (r n : Option ℕ)
        → present b d ≡ 1
        → names n d ≡ false
        → IsNext b (c + 1) n
        → IsBelow b d r
        → IsBelow b' d r
    keep-IsBelow d none n here unnamed after e = λ m l. fewer m (e m l)
    keep-IsBelow d (some e) n here unnamed after (l, there, gap) =
        (l, other e (differs n unnamed after) ∙ there, λ m lo hi. fewer m (gap m lo hi))
      where
        differs : (n : Option ℕ) → names n d ≡ false → IsNext b (c + 1) n → (e == c) ≡ false
        differs none u after = elim (Bool-cases (e == c)) [
          | inr far ↦ far
          | inl same ↦ let q = (==_iff e c).0 same in absurd (omega (arith, after d (omega arith)))
        ]
        differs (some k) u (lo, there', gap') = elim (Bool-cases (e == c)) [
          | inr far ↦ far
          | inl same ↦
              let q = (==_iff e c).0 same in
              elim (lt_or_ge k d) [
                | inl f ↦ absurd (omega (arith, gap k (omega arith) f))
                | inr g ↦ elim (lt_or_ge d k) [
                  | inl f ↦ absurd (omega (arith, gap' d (omega arith) f))
                  | inr at ↦ let eq : (d == k) ≡ true = (==_iff d k).1 (omega arith) in cc (eq, u)
                ]
              ]
        ]

    pub keep-IsNext :
        (d : ℕ) (r p : Option ℕ)
        → present b d ≡ 1
        → names p d ≡ false
        → IsBelow b c p
        → IsNext b (d + 1) r
        → IsNext b' (d + 1) r
    keep-IsNext d none p here unnamed before e = λ m l. fewer m (e m l)
    keep-IsNext d (some e) p here unnamed before (l, there, gap) =
        (l, other e (differs p unnamed before) ∙ there, λ m lo hi. fewer m (gap m lo hi))
      where
        differs : (p : Option ℕ) → names p d ≡ false → IsBelow b c p → (e == c) ≡ false
        differs none u before = elim (Bool-cases (e == c)) [
          | inr far ↦ far
          | inl same ↦ let q = (==_iff e c).0 same in absurd (omega (arith, before d (omega arith)))
        ]
        differs (some k) u (lo, there', gap') = elim (Bool-cases (e == c)) [
          | inr far ↦ far
          | inl same ↦
              let q = (==_iff e c).0 same in
              elim (lt_or_ge d k) [
                | inl f ↦ absurd (omega (arith, gap k (omega arith) (omega arith)))
                | inr g ↦ elim (lt_or_ge k d) [
                  | inl f ↦ absurd (omega (arith, gap' d f (omega arith)))
                  | inr at ↦ let eq : (d == k) ≡ true = (==_iff d k).1 (omega arith) in cc (eq, u)
                ]
              ]
        ]
