-- ===== src/Http/Tracing/Lines.antt =====
-- The lines of the ends of the handlers of internal/order/controller/http, in a context with a trace id.
use checkout_saga.Common.{
  String, Bool, ◌||◌, ◌≡◌, refl, ap, Bool-cases, inl, inr, List, [], ◌∷◌, ◌++◌, some, All,
}
use checkout_saga.Common.Text.{Text}
use checkout_saga.GoError.{
  Error, is_error, order_not_found, invalid_order, invalid_money, Result, ok, err,
}
use checkout_saga.Order.{Order}
use checkout_saga.Logger.Backend.{Field, string_field, bool_field, error_field}
use checkout_saga.Logger.Contexts.{
  Context, background, with_value, other_key, string_value, value, key_eq, with_trace_id,
  trace_id_from_context, trace_id_field,
}
use checkout_saga.Http.Logs.{
  Line, user_id_key, use_case_error_lines, created_lines, found_lines, token_lines,
}

-- A line whose last field is this trace id.
abbrev pub IsTraced : Text → Line → Type 0
IsTraced id l = (before : List Field) × (l.fields ≡ before ++ string_field trace_id_field id ∷ [])

module _ {Logger : Type 0} where
  -- A context with this trace id.
  abbrev pub Carries : Text → Context Logger → Type 0
  Carries id ctx = trace_id_from_context (some ctx) ≡ id

  pub with_user-Carries :
      (id user : Text) (ctx : Context Logger)
      → Carries id ctx
      → Carries id (with_value ctx (other_key user_id_key) (string_value user))
  unfolding value key_eq
  with_user-Carries id user ctx h = h

  use_case_error_lines-IsTraced :
      (id : Text) (ctx : Context Logger) (op : String) (e : Error)
      → Carries id ctx
      → All (IsTraced id) (use_case_error_lines ctx op e)
  use_case_error_lines-IsTraced id ctx op e h = elim (Bool-cases (is_error order_not_found e)) [
    | inl missing ↦ rw missing tt
    | inr other ↦
        rw other (elim (Bool-cases (is_error invalid_order e || is_error invalid_money e)) [
          | inl invalid ↦ rw invalid tt
          | inr unexpected ↦ rw unexpected (
            (error_field e ∷ [], ap (λ t. error_field e ∷ string_field trace_id_field t ∷ []) h),
            tt,
          )
        ])
  ]

  pub created_lines-IsTraced :
      (id : Text) (ctx : Context Logger) (result : Result (Order × Bool))
      → Carries id ctx
      → All (IsTraced id) (created_lines ctx result)
  created_lines-IsTraced id ctx (err e) h = use_case_error_lines-IsTraced id ctx _ e h
  created_lines-IsTraced id ctx (ok (order, created)) h = (
    (
      string_field "order_id" order.id ∷ bool_field "created" created ∷ [],
      ap
          (λ t.
            string_field "order_id" order.id
            ∷ bool_field "created" created
            ∷ string_field trace_id_field t
            ∷ [])
          h,
    ),
    tt,
  )

  pub found_lines-IsTraced :
      (id : Text) (ctx : Context Logger) (result : Result Order)
      → Carries id ctx
      → All (IsTraced id) (found_lines ctx result)
  found_lines-IsTraced id ctx (err e) h = use_case_error_lines-IsTraced id ctx _ e h
  found_lines-IsTraced id ctx (ok order) h = tt

  pub token_lines-IsTraced :
      (id : Text) (ctx : Context Logger) (token : Result Text)
      → Carries id ctx
      → All (IsTraced id) (token_lines ctx token)
  token_lines-IsTraced id ctx (ok token) h = tt
  token_lines-IsTraced id ctx (err e) h =
      ((error_field e ∷ [], ap (λ t. error_field e ∷ string_field trace_id_field t ∷ []) h), tt)

pub with_trace_id-Carries :
    (Logger : Type 0) (id : Text) → Carries id (with_trace_id {Logger = Logger} background id)
unfolding value key_eq
with_trace_id-Carries Logger [] = refl
with_trace_id-Carries Logger (a ∷ id) = refl
