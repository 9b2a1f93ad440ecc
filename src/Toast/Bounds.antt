-- ===== src/Toast/Bounds.antt =====
-- How many messages are kept, and which.
use grouproxy.Base.{
  ℕ, zero, suc, ◌-◌, ◌≤◌, ◌≡◌, refl, ◌⊎◌, inl, inr, List, [], ◌∷◌, ◌++◌, All, length, drop,
  length-append, length-drop, arith,
}
use grouproxy.Toast.{
  ToastInput, ToastItem, Toasts, shift, add, add_all, queue, notify_toast, drain, mount, remove_at,
  unmount, without, dismiss_at, dismiss, Step, notified, mounted, unmounted, dismissed, Reach,
  start, next,
}

-- At most five messages wait, each provider shows at most five, and none waits while there is a
-- provider.
pub record IsBounded (s : Toasts) : Type 0 where
  pub waiting : length s.pending ≤ 5
  pub shown : All (λ items. length items ≤ 5) s.providers
  pub delivered : (s.pending ≡ []) ⊎ (s.providers ≡ [])

length-add :
    (input : ToastInput) (id : ℕ) (items : List ToastItem) → length (add input id items) ≤ 5
unfolding add
length-add input id items = omega (
  arith,
  length-append (drop (length items - 4) items) (record { input = input; id = id } ∷ []),
  length-drop (length items - 4) items,
)

add_all-shown :
    (input : ToastInput) (ids : ℕ → ℕ) (providers : List (List ToastItem))
    → All (λ items. length items ≤ 5) (add_all input ids providers)
unfolding add_all
add_all-shown input ids [] = tt
add_all-shown input ids (items ∷ more) =
    (length-add input (ids (length more)) items, add_all-shown input ids more)

length-shift : (xs : List ToastInput) → length (shift xs) ≡ length xs - 1
length-shift [] = omega arith
length-shift (x ∷ xs) = omega arith

length-queue :
    (input : ToastInput) (pending : List ToastInput)
    → length pending ≤ 5
    → length (queue input pending) ≤ 5
unfolding queue
length-queue input pending h =
    ground (arith, length-append pending (input ∷ []), length-shift (pending ++ (input ∷ [])))

notify_toast-IsBounded :
    (pending : List ToastInput) (providers : List (List ToastItem)) (input : ToastInput)
    (ids : ℕ → ℕ)
    → IsBounded (record { pending = pending; providers = providers })
    → IsBounded (notify_toast input ids (record { pending = pending; providers = providers }))
unfolding notify_toast
notify_toast-IsBounded pending [] input ids h = record {
  waiting = length-queue input pending h.waiting;
  shown = tt;
  delivered = inr refl;
}
notify_toast-IsBounded pending (items ∷ more) input ids h = record {
  waiting = h.waiting;
  shown = add_all-shown input ids (items ∷ more);
  delivered = elim h.delivered [ inl empty ↦ inl empty | inr closed ↦ absurd (cc closed) ];
}

length-drain :
    (ids : ℕ → ℕ) (inputs : List ToastInput) (items : List ToastItem)
    → length items ≤ 5
    → length (drain ids inputs items) ≤ 5
unfolding drain
length-drain ids [] items h = h
length-drain ids (input ∷ more) items h =
    length-drain ids more _ (length-add input (ids (length more)) items)

remove_at-shown :
    (i : ℕ) (providers : List (List ToastItem))
    → All (λ items. length items ≤ 5) providers
    → All (λ items. length items ≤ 5) (remove_at i providers)
remove_at-shown zero [] h = tt
remove_at-shown (suc i) [] h = tt
remove_at-shown zero (items ∷ more) h = h.1
remove_at-shown (suc i) (items ∷ more) h = (h.0, remove_at-shown i more h.1)

length-without : (id : ℕ) (items : List ToastItem) → length (without id items) ≤ length items
unfolding without
length-without id [] = omega arith
length-without id (item ∷ items) = ground (arith, length-without id items)

dismiss_at-shown :
    (i id : ℕ) (providers : List (List ToastItem))
    → All (λ items. length items ≤ 5) providers
    → All (λ items. length items ≤ 5) (dismiss_at i id providers)
dismiss_at-shown zero id [] h = tt
dismiss_at-shown (suc i) id [] h = tt
dismiss_at-shown zero id (items ∷ more) h = (omega (arith, length-without id items), h.1)
dismiss_at-shown (suc i) id (items ∷ more) h = (h.0, dismiss_at-shown i id more h.1)

remove_at-nil : (i : ℕ) → remove_at {A = List ToastItem} i [] ≡ []
remove_at-nil zero = refl
remove_at-nil (suc i) = refl

dismiss_at-nil : (i id : ℕ) → dismiss_at i id [] ≡ []
dismiss_at-nil zero id = refl
dismiss_at-nil (suc i) id = refl

pub Step-IsBounded : {s t : Toasts} → Step s t → IsBounded s → IsBounded t
unfolding mount unmount dismiss
Step-IsBounded (notified s input ids) h = notify_toast-IsBounded s.pending s.providers input ids h
Step-IsBounded (mounted s ids) h = record {
  waiting = omega arith;
  shown = (length-drain ids s.pending [] (omega arith), h.shown);
  delivered = inl refl;
}
Step-IsBounded (unmounted s i) h = record {
  waiting = h.waiting;
  shown = remove_at-shown i s.providers h.shown;
  delivered = elim h.delivered [
    | inl empty ↦ inl empty
    | inr closed ↦ inr (rw closed (remove_at-nil i))
  ];
}
Step-IsBounded (dismissed s i id) h = record {
  waiting = h.waiting;
  shown = dismiss_at-shown i id s.providers h.shown;
  delivered = elim h.delivered [
    | inl empty ↦ inl empty
    | inr closed ↦ inr (rw closed (dismiss_at-nil i id))
  ];
}

-- However messages are sent, shown and dismissed, and providers come and go, at most five messages
-- wait, each provider shows at most five, and none waits while there is a provider.
pub Reach-IsBounded : {s : Toasts} → Reach s → IsBounded s
Reach-IsBounded start = record { waiting = omega arith; shown = tt; delivered = inl refl }
Reach-IsBounded (next r step) = Step-IsBounded step (Reach-IsBounded r)
