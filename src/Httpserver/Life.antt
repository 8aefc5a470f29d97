-- ===== src/Httpserver/Life.antt =====
-- The life of a server of pkg/httpserver: Start, the end of ListenAndServe, and receives from Notify,
-- in any order.
use checkout_saga.Common.{
  ℕ, suc, ◌+◌, ◌≤◌, ◌<◌, ◌≡◌, refl, sym, ap, ◌∙◌, Bool, true, false, Option, none, some, arith,
  if◌then◌else◌, some-injective, Bool-cases, inl, inr,
}
use checkout_saga.GoError.{Error, is_error, server_closed, prefixed, Result, ok, err}
use checkout_saga.Httpserver.{Channel, on_served}

-- The goroutines in ListenAndServe, and the channel.
pub record State : Type 0 where
  pub running : ℕ
  pub notify : Channel

abbrev pub fresh : Channel
fresh = record { buffer = none; closed = false }

-- States behind a number of calls of Start.
pub data Reach : ℕ → State → Type 0 where
  built : Reach 0 (record { running = 0; notify = fresh })
  started : {n : ℕ} {s : State} → Reach n s → Reach (suc n) (record s { running = suc s.running })
  served :
      {n k : ℕ} {s : State} {c : Channel} (r : Result (Unit {0}))
      → Reach n s
      → s.running ≡ suc k
      → on_served r s.notify ≡ some c
      → Reach n (record { running = k; notify = c })
  received :
      {n : ℕ} {s : State} (e : Error)
      → Reach n s
      → s.notify.buffer ≡ some e
      → Reach n (record s { notify = record (s.notify) { buffer = none } })

-- What a reader of Notify gets when ListenAndServe ends.
abbrev pub fatal : Result (Unit {0}) → Option Error
fatal (ok _) = none
fatal (err e) = if is_error server_closed e then none else some (prefixed "httpserver.Start: " e)

abbrev bit : Bool → ℕ
bit true = 1
bit false = 0

-- Each start still runs or has closed the channel; an open channel is empty.
record Fits (n : ℕ) (s : State) : Type 0 where
  count : s.running + bit s.notify.closed ≡ n
  empty : s.notify.closed ≡ false → s.notify.buffer ≡ none

on_served_open :
    (r : Result (Unit {0})) (c : Channel)
    → c.closed ≡ false
    → c.buffer ≡ none
    → on_served r c ≡ some (record { buffer = fatal r; closed = true })
unfolding on_served
on_served_open (ok _) c h b = ground arith
on_served_open (err e) c h b = ground arith

on_served_closed : (r : Result (Unit {0})) (c : Channel) → c.closed ≡ true → on_served r c ≡ none
unfolding on_served
on_served_closed (ok _) c h = ground arith
on_served_closed (err e) c h = ground arith

served-Fits :
    (n k running : ℕ) (r : Result (Unit {0})) (before c : Channel)
    → Fits n (record { running = running; notify = before })
    → running ≡ suc k
    → on_served r before ≡ some c
    → Fits n (record { running = k; notify = c })
served-Fits n k running r before c fits one h = elim (Bool-cases before.closed) [
  | inl closed ↦ cc (h, on_served_closed r before closed)
  | inr opened ↦
      let same : record { buffer = fatal r; closed = true } ≡ c =
        some-injective (sym (on_served_open r before opened (fits.empty opened)) ∙ h) in
      let shut : c.closed ≡ true = ap (λ (x : Channel). x.closed) (sym same) in
      record {
        count = omega (arith, fits.count, one, ap bit shut, ap bit opened);
        empty = λ x. cc (x, shut);
      }
]

Reach-Fits : {n : ℕ} {s : State} → Reach n s → Fits n s
Reach-Fits built = record { count = refl; empty = λ h. refl }
Reach-Fits (started reach) =
    let fits = Reach-Fits reach in record { count = omega (arith, fits.count); empty = fits.empty }
Reach-Fits (served {n} {k} {s} {c} r reach one h) =
    served-Fits n k s.running r s.notify c (Reach-Fits reach) one h
Reach-Fits (received e reach h) =
    let fits = Reach-Fits reach in record { count = fits.count; empty = λ x. refl }

-- In any state of a server that calls of Start, ends of ListenAndServe and receives from Notify
-- lead to: a ListenAndServe that ends, where no other one has ended before, leaves the fatal
-- error, and nothing for ErrServerClosed, in the channel and closes it, with no block and no
-- panic; where another one has ended before, its goroutine does not get through.
pub Reach-on_served :
    {n : ℕ} {s : State} (r : Result (Unit {0}))
    → Reach n s
    → 1 ≤ s.running
    → (s.running ≡ n → on_served r s.notify ≡ some (record { buffer = fatal r; closed = true }))
      × (s.running < n → on_served r s.notify ≡ none)
Reach-on_served {n} {s} r reach some_running =
    let fits = Reach-Fits reach in
    elim (Bool-cases s.notify.closed) [
      | inl closed ↦ (
        λ all. absurd (omega (arith, fits.count, all, ap bit closed)),
        λ fewer. on_served_closed r s.notify closed,
      )
      | inr opened ↦ (
        λ all. on_served_open r s.notify opened (fits.empty opened),
        λ fewer. absurd (omega (arith, fits.count, fewer, ap bit opened)),
      )
    ]
