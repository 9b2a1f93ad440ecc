-- ===== src/Toast/Delivery.antt =====
-- Which of the messages that are sent before a provider is mounted it shows.
use mathlib.Core.List.{append-nil, append_assoc, map-append}
use grouproxy.Base.{
  ℕ, suc, ◌+◌, ◌-◌, ◌≤◌, ◌≡◌, refl, ap, sym, ◌∙◌, inl, inr, List, [], ◌∷◌, ◌++◌, map, length,
  length-append, length-drop, arith, ltb, tests, Bool-cases,
}
use grouproxy.Toast.{
  ToastInput, ToastItem, Toasts, last, add, queue, notify_toast, drain, mount, initial,
}

-- The messages, sent one after the other.
unfoldable pub send_all : (ℕ → ℕ) → List ToastInput → Toasts → Toasts
send_all ids [] s = s
send_all ids (input ∷ more) s = send_all ids more (notify_toast input ids s)

abbrev input_of : ToastItem → ToastInput
input_of item = item.input

-- What each provider shows, without the ids.
unfoldable pub shown : Toasts → List (List ToastInput)
shown s = map (map input_of) s.providers

queue_all : List ToastInput → List ToastInput → List ToastInput
queue_all [] pending = pending
queue_all (input ∷ more) pending = queue_all more (queue input pending)

send_all-waiting :
    (ids : ℕ → ℕ) (inputs pending : List ToastInput)
    → send_all ids inputs (record { pending = pending; providers = [] })
      ≡ record { pending = queue_all inputs pending; providers = [] }
unfolding send_all queue_all notify_toast
send_all-waiting ids [] pending = refl
send_all-waiting ids (input ∷ more) pending = send_all-waiting ids more (queue input pending)

last-cons : (x : ToastInput) (xs : List ToastInput) → 5 ≤ length xs → last 5 (x ∷ xs) ≡ last 5 xs
unfolding last
last-cons x xs h = let e : suc (length xs) - 5 ≡ suc (length xs - 5) = omega arith in rw e

last_all : (xs : List ToastInput) → length xs ≤ 5 → last 5 xs ≡ xs
unfolding last
last_all xs h = let e : length xs - 5 ≡ 0 = omega arith in rw e

-- A full queue loses its head.
queue-full :
    (input x : ToastInput) (xs : List ToastInput)
    → length xs ≡ 4
    → queue input (x ∷ xs) ≡ xs ++ (input ∷ [])
unfolding queue
queue-full input x xs h = ground (arith, length-append xs (input ∷ []))

queue-room :
    (input : ToastInput) (xs : List ToastInput)
    → length xs ≤ 4
    → queue input xs ≡ xs ++ (input ∷ [])
unfolding queue
queue-room input xs h = ground (arith, length-append xs (input ∷ []))

queue_all-last :
    (inputs pending : List ToastInput)
    → length pending ≤ 5
    → queue_all inputs pending ≡ last 5 (pending ++ inputs)
unfolding queue_all
queue_all-last [] pending h = sym (rw append-nil (last_all pending h))
queue_all-last (input ∷ more) [] h =
    rw (queue-room input [] (omega arith)) (queue_all-last more (input ∷ []) (omega arith))
queue_all-last (input ∷ more) (x ∷ xs) h = elim (Bool-cases (ltb (length xs) 4)) [
  | inl room ↦ rw (queue-room input (x ∷ xs) (omega (tests))) (
      queue_all-last more (x ∷ (xs ++ (input ∷ []))) (omega (tests, length-append xs (input ∷ [])))
      ∙ ap (λ l. last 5 (x ∷ l)) (append_assoc xs (input ∷ []) more))
  | inr full ↦
      let four : length xs ≡ 4 = ground arith in
      rw (queue-full input x xs four) (
        queue_all-last more (xs ++ (input ∷ [])) (omega (arith, length-append xs (input ∷ [])))
        ∙ ap (last 5) (append_assoc xs (input ∷ []) more)
        ∙ sym (last-cons x (xs ++ (input ∷ more)) (omega (arith, length-append xs (input ∷ more)))))
]

add-room :
    (input : ToastInput) (id : ℕ) (items : List ToastItem)
    → length items ≤ 4
    → map input_of (add input id items) ≡ map input_of items ++ (input ∷ [])
unfolding add
add-room input id items h = let e : length items - 4 ≡ 0 = omega arith in rw e (simp map-append)

length-add-room :
    (input : ToastInput) (id : ℕ) (items : List ToastItem)
    → length items ≤ 4
    → length (add input id items) ≡ length items + 1
unfolding add
length-add-room input id items h =
    let e : length items - 4 ≡ 0 = omega arith in
    rw e (omega (arith, length-append items (record { input = input; id = id } ∷ [])))

drain_all :
    (ids : ℕ → ℕ) (inputs : List ToastInput) (items : List ToastItem)
    → length items + length inputs ≤ 5
    → map input_of (drain ids inputs items) ≡ map input_of items ++ inputs
unfolding drain
drain_all ids [] items h = sym (append-nil _)
drain_all ids (input ∷ more) items h =
    drain_all ids more (add input (ids (length more)) items)
      (omega (arith, length-add-room input (ids (length more)) items))
    ∙ rw (add-room input (ids (length more)) items (omega arith))
        (append_assoc (map input_of items) (input ∷ []) more)

length-last : (xs : List ToastInput) → length (last 5 xs) ≤ 5
unfolding last
length-last xs = omega (arith, length-drop (length xs - 5) xs)

-- Of the messages that are sent before any provider is mounted, the first one mounted shows the
-- last five, or all if they are fewer, in the order in which they were sent.
pub shown-mount :
    (ids : ℕ → ℕ) (inputs : List ToastInput)
    → shown (mount ids (send_all ids inputs initial)) ≡ last 5 inputs ∷ []
unfolding shown mount
shown-mount ids inputs =
    rw (send_all-waiting ids inputs [], queue_all-last inputs [] (omega arith))
      (ap (λ l. l ∷ []) (drain_all ids (last 5 inputs) [] (omega (arith, length-last inputs))))
