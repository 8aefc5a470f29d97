-- ===== src/Money/Json.antt =====
-- Money.MarshalJSON and Money.UnmarshalJSON: a JSON string and a JSON number of the same amount.
use mathlib.Core.List.{reverse-append, reverse-reverse}
use checkout_saga.Common.{
  ℕ, ◌^◌, ◌<◌, ◌≡◌, refl, ap, ◌∙◌, sym, subst, false, [], ◌∷◌, ◌++◌, reverse, arith,
}
use checkout_saga.Common.Int.{ℤ}
use checkout_saga.Common.Text.{Text, codes, text_eq}
use checkout_saga.Common.Text.Trim.{trim_space, trim_space-visible}
use checkout_saga.GoError.{ok}
use checkout_saga.Money.{
  parse_money, money_string, marshal_json, drop_quotes, trim_quotes, unmarshal_json,
}
use checkout_saga.Money.RoundTrip.{
  IsNumeric, HasNumericEnds, trim_space-numeric, HasNumericEnds-printed, sign_of, magnitude,
  money_string-printed, parse_money-money_string,
}

drop_quotes-numeric : (c : ℕ) (s : Text) → IsNumeric c → drop_quotes (c ∷ s) ≡ c ∷ s
unfolding drop_quotes
drop_quotes-numeric c s h = ground arith

drop_quotes-quote : (s : Text) → drop_quotes (b'"' ∷ s) ≡ drop_quotes s
unfolding drop_quotes
drop_quotes-quote s = refl

trim_quotes-numeric : (t : Text) → HasNumericEnds t → trim_quotes t ≡ t
unfolding trim_quotes
trim_quotes-numeric t e =
    ap (λ u. reverse (drop_quotes (reverse (drop_quotes u)))) e.front
    ∙ ap (λ u. reverse (drop_quotes (reverse u)))
        (drop_quotes-numeric e.first e.rest e.first_numeric)
    ∙ ap (λ u. reverse (drop_quotes (reverse u))) (sym e.front)
    ∙ ap (λ u. reverse (drop_quotes u)) e.back
    ∙ ap reverse (drop_quotes-numeric e.last e.before e.last_numeric)
    ∙ ap reverse (sym e.back)
    ∙ reverse-reverse t

-- The quotation marks that MarshalJSON adds are taken off again.
trim_quotes-quoted : (t : Text) → HasNumericEnds t → trim_quotes (b'"' ∷ (t ++ b'"' ∷ [])) ≡ t
unfolding trim_quotes
trim_quotes-quoted t e =
    ap (λ u. reverse (drop_quotes (reverse u)))
      (drop_quotes-quote (t ++ b'"' ∷ [])
        ∙ ap (λ u. drop_quotes (u ++ b'"' ∷ [])) e.front
        ∙ drop_quotes-numeric e.first (e.rest ++ b'"' ∷ []) e.first_numeric
        ∙ ap (λ u. u ++ b'"' ∷ []) (sym e.front))
    ∙ ap (λ u. reverse (drop_quotes u)) (reverse-append t (b'"' ∷ []))
    ∙ ap reverse (drop_quotes-quote (reverse t))
    ∙ ap (λ u. reverse (drop_quotes u)) e.back
    ∙ ap reverse (drop_quotes-numeric e.last e.before e.last_numeric)
    ∙ ap reverse (sym e.back)
    ∙ reverse-reverse t

trim_space-quoted : (t : Text) → trim_space (b'"' ∷ (t ++ b'"' ∷ [])) ≡ b'"' ∷ (t ++ b'"' ∷ [])
trim_space-quoted t =
    trim_space-visible b'"' (t ++ b'"' ∷ []) b'"' (reverse (b'"' ∷ t)) (omega arith) (omega arith)
      (reverse-append (b'"' ∷ t) (b'"' ∷ []))

numeric-ne-null : (t : Text) → HasNumericEnds t → text_eq t (codes "null") ≡ false
unfolding text_eq codes
numeric-ne-null t e = rw (e.front) (ground (arith, e.first_numeric))

unmarshal_json-of :
    (raw t : Text)
    → HasNumericEnds t
    → trim_quotes (trim_space raw) ≡ t
    → unmarshal_json raw ≡ parse_money t
unfolding unmarshal_json
unmarshal_json-of raw t e h = rw h (rw (numeric-ne-null t e))

-- An amount below 10^17 cents in size is read back by UnmarshalJSON from its JSON string and from
-- the same text as a JSON number.
pub unmarshal_json-marshal_json :
    (m : ℤ)
    → magnitude m < 10 ^ 17
    → (unmarshal_json (marshal_json m) ≡ ok m) × (unmarshal_json (money_string m) ≡ ok m)
unfolding marshal_json
unmarshal_json-marshal_json m h =
    let e : HasNumericEnds (money_string m) =
      subst HasNumericEnds (sym (money_string-printed m))
        (HasNumericEnds-printed (sign_of m) (magnitude m)) in
    let back = parse_money-money_string m h in
    (
      unmarshal_json-of _ (money_string m) e (
            ap trim_quotes (trim_space-quoted (money_string m))
            ∙ trim_quotes-quoted (money_string m) e)
          ∙ back,
      unmarshal_json-of _ (money_string m) e (
            ap trim_quotes (trim_space-numeric (money_string m) e)
            ∙ trim_quotes-numeric (money_string m) e)
          ∙ back,
    )
