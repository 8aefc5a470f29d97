-- ===== src/Order/States.antt =====
-- The strings of the order states, and the conversions between them and Status.
use checkout_saga.Common.{◌≡◌, refl, arith, List, [], ◌∷◌, All}
use checkout_saga.Common.Text.{Text, codes, text_eq, text_eq_iff}
use checkout_saga.Order.{
  Status, pending, inventory_reserved, payment_processing, completed, payment_failed,
  inventory_insufficient, cancelled, status_text, status_of,
}

-- The values of the CHECK constraint on orders.status.
abbrev pub declared : List Status
declared =
    pending ∷ inventory_reserved ∷ payment_processing ∷ completed ∷ payment_failed
    ∷ inventory_insufficient ∷ cancelled ∷ []

-- The seven constants survive the way through the status column.
pub status_of-status_text : All (λ s. status_of (status_text s) ≡ s) declared
unfolding status_of status_text text_eq codes
status_of-status_text = (refl, (refl, (refl, (refl, (refl, (refl, (refl, tt)))))))

-- Any text is unchanged by the conversion to Status and back.
pub status_text-status_of : (t : Text) → status_text (status_of t) ≡ t
unfolding status_of status_text
status_text-status_of t = ground (
  arith,
  text_eq_iff t (codes "PENDING"),
  text_eq_iff t (codes "INVENTORY_RESERVED"),
  text_eq_iff t (codes "PAYMENT_PROCESSING"),
  text_eq_iff t (codes "COMPLETED"),
  text_eq_iff t (codes "PAYMENT_FAILED"),
  text_eq_iff t (codes "INVENTORY_INSUFFICIENT"),
  text_eq_iff t (codes "CANCELLED"),
)
