-- ===== src/Money/Denotation.antt =====
-- What ParseMoney accepts and returns: exactly the numerals of `Money.Grammar`, at their exact value.
use checkout_saga.Common.{
  ℕ, ◌^◌, ◌≤◌, ◌<◌, ◌≡◌, ◌≢◌, ◌↔◌, refl, ap, ◌∙◌, sym, subst, false, [], ◌∷◌, ◌++◌, none, some,
  Option, length, All, arith,
}
use checkout_saga.Common.Int.{ℤ, pos_part, neg_part}
use checkout_saga.Common.Text.{Text, is_empty, has_prefix, cut}
use checkout_saga.Common.Text.Trim.{trim_space}
use checkout_saga.Common.Decimal.{IsDigit}
use checkout_saga.Common.Decimal.Laws.{value-lt}
use checkout_saga.GoError.{ok-injective, Result, ok}
use checkout_saga.Money.{unsign, parse_parts, parse_money}
use checkout_saga.Money.Grammar.{
  Sign, bare, plus, minus, plus_minus, sign_text, point, digits_of, Numeral, spelled, hundredths,
  cents, signed, amount, IsAccepted,
}
use checkout_saga.Money.Pieces.{
  is_minus, unsign-IsSplit, IsUnsigned, unsign-sign, cut-IsCut, cut-point,
}
use checkout_saga.Money.Parsing.{signed_by, parse_parts-ok, parse_parts-AreAccepted}

-- A text has a numeral's spelling and its value.
pub record Denotes (raw : Text) (m : ℤ) : Type 0 where
  pub numeral : Numeral
  pub accepted : IsAccepted numeral
  pub spelling : raw ≡ spelled numeral
  pub exact : m ≡ amount numeral

signed_by-is_minus : (g : Sign) (n : ℕ) → signed_by (is_minus g) n ≡ signed g n
signed_by-is_minus bare n = refl
signed_by-is_minus plus n = refl
signed_by-is_minus minus n = refl
signed_by-is_minus plus_minus n = refl

is_empty-ne-nil : (s : Text) → s ≢ [] → is_empty s ≡ false
is_empty-ne-nil [] h = absurd (h refl)
is_empty-ne-nil (c ∷ s) h = refl

ne-nil_of_is_empty : (s : Text) → is_empty s ≡ false → s ≢ []
ne-nil_of_is_empty [] h = cc
ne-nil_of_is_empty (c ∷ s) h = cc

IsUnsigned-numeral :
    (whole : Text) (f : Option Text) → All IsDigit whole → IsUnsigned (whole ++ point f)
IsUnsigned-numeral [] none h = tt
IsUnsigned-numeral [] (some f) h = omega arith
IsUnsigned-numeral (c ∷ s) f h = omega arith

-- The result of ParseMoney on a trimmed text that is not empty, through its three parts.
parts_of : Text → Text → Result ℤ
parts_of s raw =
    let (major, minor) = cut b'.' (unsign raw) in
    parse_parts s (has_prefix raw (b'-' ∷ [])) major minor

parse_money-parts : (s : Text) → trim_space s ≢ [] → parse_money s ≡ parts_of s (trim_space s)
unfolding parse_money parts_of
parse_money-parts s h = ground (arith, is_empty-ne-nil (trim_space s) h)

parts_of-spelled :
    (s : Text) (d : Numeral)
    → All IsDigit d.whole
    → parts_of s (spelled d) ≡ parse_parts s (is_minus d.sign) d.whole (digits_of d.fraction)
unfolding parts_of
parts_of-spelled s d h =
    let (rest, negative) =
      unsign-sign d.sign (d.whole ++ point d.fraction) (IsUnsigned-numeral d.whole d.fraction h) in
    rw (rest, negative, cut-point d.whole d.fraction h)

-- A text spelled like a numeral comes down to its parts, whether they are accepted or not.
pub parse_money-spelled :
    (s : Text) (d : Numeral)
    → All IsDigit d.whole
    → spelled d ≢ []
    → trim_space s ≡ spelled d
    → parse_money s ≡ parse_parts s (is_minus d.sign) d.whole (digits_of d.fraction)
parse_money-spelled s d h n e =
    parse_money-parts s (λ empty. n (sym e ∙ empty)) ∙ ap (parts_of s) e ∙ parts_of-spelled s d h

-- Every numeral is accepted, at its exact value.
pub parse_money_complete :
    (s : Text) (d : Numeral)
    → IsAccepted d
    → trim_space s ≡ spelled d
    → parse_money s ≡ ok (amount d)
parse_money_complete s d h e =
    parse_money-spelled s d h.whole_digits h.nonempty e
    ∙ parse_parts-ok s (is_minus d.sign) d.whole (digits_of d.fraction) (record {
      major_digits = h.whole_digits;
      major_length = h.whole_length;
      minor_digits = h.fraction_digits;
      minor_length = h.fraction_length;
    })
    ∙ ap ok (signed_by-is_minus d.sign (cents d))

nonempty_of_ok : (s : Text) (m : ℤ) → parse_money s ≡ ok m → is_empty (trim_space s) ≡ false
unfolding parse_money
nonempty_of_ok s m h = ground arith

-- A text that is accepted is a numeral, and the result is its value.
pub parse_money_sound : (s : Text) (m : ℤ) → parse_money s ≡ ok m → Denotes (trim_space s) m
unfolding parts_of
parse_money_sound s m h =
    let raw = trim_space s in
    let nonempty = ne-nil_of_is_empty raw (nonempty_of_ok s m h) in
    let g = unsign-IsSplit raw in
    let c = cut-IsCut (unsign raw) in
    let parsed = sym (parse_money-parts s nonempty) ∙ h in
    let a =
      parse_parts-AreAccepted s (has_prefix raw (b'-' ∷ [])) (cut b'.' (unsign raw)).0
        (cut b'.' (unsign raw)).1 m parsed in
    let d : Numeral = record {
      sign = g.sign;
      whole = (cut b'.' (unsign raw)).0;
      fraction = c.fraction;
    } in
    let spelling : raw ≡ spelled d = g.spelled ∙ ap (λ t. sign_text g.sign ++ t) c.spelled in
    let accepted : IsAccepted d = record {
      whole_digits = a.major_digits;
      whole_length = a.major_length;
      fraction_digits = subst (All IsDigit) c.after_lem a.minor_digits;
      fraction_length = subst (λ t. length t ≤ 2) c.after_lem a.minor_length;
      nonempty = λ n. nonempty (spelling ∙ n);
    } in
    record {
      numeral = d;
      accepted = accepted;
      spelling = spelling;
      exact = ok-injective (sym h ∙ parse_money_complete s d accepted spelling);
    }

-- ParseMoney accepts a text with a given amount exactly when its trimmed text is a numeral of the
-- grammar and the amount is the numeral's value.
pub parse_money_iff : (s : Text) (m : ℤ) → (parse_money s ≡ ok m) ↔ Denotes (trim_space s) m
parse_money_iff s m = (
  parse_money_sound s m,
  λ d. parse_money_complete s d.numeral d.accepted d.spelling ∙ ap ok (sym d.exact),
)

signed_bounds :
    (g : Sign) (n b : ℕ) → n < b → (pos_part (signed g n) < b) × (neg_part (signed g n) < b)
signed_bounds bare n b h = omega arith
signed_bounds plus n b h = omega arith
signed_bounds minus n b h = ground arith
signed_bounds plus_minus n b h = omega arith

hundredths-lt : (f : Text) → All IsDigit f → length f ≤ 2 → hundredths f < 100
hundredths-lt [] h l = omega arith
hundredths-lt (a ∷ []) h l = omega arith
hundredths-lt (a ∷ (b ∷ s)) h l = omega arith

-- What ParseMoney accepts is below 10 ^ 17 cents in size.
parse_money_bounds :
    (s : Text) (m : ℤ) → parse_money s ≡ ok m → (pos_part m < 10 ^ 17) × (neg_part m < 10 ^ 17)
parse_money_bounds s m h =
    let d = parse_money_sound s m h in
    let n = d.numeral in
    let a = d.accepted in
    let whole = value-lt n.whole 15 0 a.whole_digits a.whole_length in
    let part = hundredths-lt (digits_of n.fraction) a.fraction_digits a.fraction_length in
    rw d.exact (signed_bounds n.sign (cents n) (10 ^ 17) (omega arith))
