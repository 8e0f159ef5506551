-- ===== src/Util/Texts.antt =====
-- Lines of UTF-8, as the messages of errors have to be to be read back.
use simple_kv.Prelude.{
  ℕ, zero, suc, ◌≡◌, ◌∙◌, inl, inr, refl, sym, ap, Bool, true, false, ◌&&◌, Bool-cases, Option,
  none, some, Option-cases, [], ◌∷◌, ◌++◌, leb, ◌==◌, ==_iff, if◌then◌else◌, All-append,
}
use simple_kv.Util.{Bytes, cr, is_utf8, utf8_from, lead}
use simple_kv.Util.Line.{IsLine}

abbrev pub IsText : Bytes → Type 0
IsText b = IsLine b × (is_utf8 b ≡ true)

abbrev has_cr : Bytes → Bool
has_cr [] = false
has_cr (c ∷ b) = if c == cr then true else has_cr b

has_cr-IsLine : (b : Bytes) → has_cr b ≡ false → IsLine b
has_cr-IsLine [] p = tt
has_cr-IsLine (c ∷ b) p = elim (Bool-cases (c == cr)) [
  | inl q ↦ absurd (cc (sym (ap (λ t. if t then true else has_cr b) q) ∙ p))
  | inr q ↦ (
    (λ e. absurd (cc (sym q ∙ (==_iff c cr).1 e))),
    has_cr-IsLine b (sym (ap (λ t. if t then true else has_cr b) q) ∙ p),
  )
]

-- A literal.
pub literal-IsText : (b : Bytes) → has_cr b ≡ false → is_utf8 b ≡ true → IsText b
literal-IsText b p q = (has_cr-IsLine b p, q)

and_split : (a b c : Bool) → (a && b && c) ≡ true → ((a && b) ≡ true) × (c ≡ true)
and_split true true true p = (refl, refl)
and_split true true false p = absurd (cc p)
and_split true false c p = absurd (cc p)
and_split false b c p = absurd (cc p)

abbrev after_lead : Option (ℕ × ℕ × ℕ) → Bytes → Bool
after_lead o s = elim o [ none ↦ false | some (n, lo, hi) ↦ utf8_from n lo hi s ]

utf8_from-append :
    (n lo hi : ℕ) (a b : Bytes)
    → utf8_from n lo hi a ≡ true
    → is_utf8 b ≡ true
    → utf8_from n lo hi (a ++ b) ≡ true
unfolding is_utf8 utf8_from
utf8_from-append zero lo hi [] [] p q = refl
utf8_from-append zero lo hi [] (x ∷ b) p q = q
utf8_from-append (suc n) lo hi [] b p q = absurd (cc p)
utf8_from-append zero lo hi (x ∷ a) b p q = elim (Option-cases (lead x)) [
  | inl e ↦ absurd (cc (sym (ap (λ t. after_lead t a) e) ∙ p))
  | inr ((n, lo', hi'), e) ↦
      ap (λ t. after_lead t (a ++ b)) e
      ∙ utf8_from-append n lo' hi' a b (sym (ap (λ t. after_lead t a) e) ∙ p) q
]
utf8_from-append (suc n) lo hi (x ∷ a) b p q =
    let (r, s) = and_split (leb lo x) (leb x hi) (utf8_from n 0x80 0xBF a) p in
    ap (λ t. t && utf8_from n 0x80 0xBF (a ++ b)) r ∙ utf8_from-append n 0x80 0xBF a b s q

pub append-IsText : (a b : Bytes) → IsText a → IsText b → IsText (a ++ b)
unfolding is_utf8
append-IsText a b (p, q) (p', q') = (All-append _ a b p p', utf8_from-append 0 0x80 0xBF a b q q')
