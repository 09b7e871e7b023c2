-- ===== src/Splash/Text/Glyphs.antt =====
-- userspace/splash.c: the glyph that is found for a character.
use mathlib.Core.Path.{subst}
use mathlib.Core.List.{Mem, mem-cons_self, mem-cons_of_mem}
use usbdisplay_stack.Common.{
  ℕ, ◌-◌, ◌≤◌, ◌<◌, ◌≡◌, refl, sym, ap, ◌∙◌, ◌≢◌, ◌⊎◌, inl, inr, Bool, List, [], ◌∷◌, arith, ◌==◌,
  if◌then◌else◌, ==→eq, ==→ne, Bool-cases,
}
use usbdisplay_stack.Splash.Text.{splash_glyphs, find_in, upper, splash_find_glyph, Glyph}

-- No glyph of the table is for the character.
abbrev pub HasNone : List Glyph → ℕ → Type 0
HasNone [] c = Unit {0}
HasNone (g ∷ glyphs) c = (g.character ≢ c) × HasNone glyphs c

-- A glyph of the table for the character, or the other one when there is none.
abbrev pub IsFound : List Glyph → ℕ → Glyph → Glyph → Type 0
IsFound glyphs c other g = Mem g glyphs × (g.character ≡ c) ⊎ (g ≡ other) × HasNone glyphs c

find_in-IsFound :
    (glyphs : List Glyph) (c : ℕ) (other : Glyph) → IsFound glyphs c other (find_in glyphs c other)
unfolding find_in
find_in-IsFound [] c other = inr (refl, tt)
find_in-IsFound (g ∷ glyphs) c other =
    let P : Bool → Type 0 =
      λ test. IsFound (g ∷ glyphs) c other (find_in glyphs c (if test then g else other)) in
    elim (Bool-cases (g.character == c)) [
      | inl same ↦ subst P (sym same) (elim (find_in-IsFound glyphs c g) [
        | inl (m, e) ↦ inl (mem-cons_of_mem g m, e)
        | inr (e, absent) ↦ inl (
          subst (λ x. Mem x (g ∷ glyphs)) (sym e) mem-cons_self,
          ap (λ x. x.character) e ∙ ==→eq g.character c same,
        )
      ])
      | inr differs ↦ subst P (sym differs) (elim (find_in-IsFound glyphs c other) [
        | inl (m, e) ↦ inl (mem-cons_of_mem g m, e)
        | inr (e, absent) ↦ inr (e, (==→ne g.character c differs, absent))
      ])
    ]

upper_small : (c : ℕ) → 97 ≤ c → c ≤ 122 → upper c ≡ c - 32
unfolding upper
upper_small c low high = ground arith

upper_other : (c : ℕ) → (c < 97) ⊎ (122 < c) → upper c ≡ c
unfolding upper
upper_other c h = ground arith

letter-cases : (c : ℕ) → (97 ≤ c) × (c ≤ 122) ⊎ ((c < 97) ⊎ (122 < c))
letter-cases c = omega arith

abbrev pub blank_glyph : Glyph
blank_glyph = record { character = 32; rows = 0 ∷ 0 ∷ 0 ∷ 0 ∷ 0 ∷ 0 ∷ 0 ∷ [] }

-- A small letter, 97 to 122, is drawn as the capital 32 below it. Any other character is drawn by a
-- glyph of the table that is for it, or by the blank when the table has none for it.
pub splash_find_glyph-IsFound :
    (c : ℕ)
    → (97 ≤ c) × (c ≤ 122) × (splash_find_glyph c ≡ splash_find_glyph (c - 32))
      ⊎ ((c < 97) ⊎ (122 < c)) × IsFound splash_glyphs c blank_glyph (splash_find_glyph c)
unfolding splash_find_glyph
splash_find_glyph-IsFound c = elim (letter-cases c) [
  | inl (low, high) ↦ inl (
    low,
    high,
    ap (λ u. find_in splash_glyphs u blank_glyph)
        (upper_small c low high ∙ sym (upper_other (c - 32) (inl (omega (arith, high))))),
  )
  | inr other ↦ inr (
    other,
    subst (λ u. IsFound splash_glyphs c blank_glyph (find_in splash_glyphs u blank_glyph))
        (sym (upper_other c other)) (find_in-IsFound splash_glyphs c blank_glyph),
  )
]
