-- ===== src/Toast.antt =====
-- frontend/components/toast.tsx: transient messages, sent by any code and shown by the mounted
-- providers.
pub mod Bounds
pub mod Delivery
use grouproxy.Base.{
  ℕ, zero, suc, ◌+◌, ◌-◌, String, Bool, Option, List, [], ◌∷◌, ◌++◌, length, drop, ltb, ◌==◌,
  if◌then◌else◌,
}

pub data ToastVariant : Type 0 where
  plain success destructive : ToastVariant

pub record ToastInput : Type 0 where
  pub title : String
  pub description : Option String
  pub variant : Option ToastVariant
  pub duration : Option ℕ

-- A shown message is open until it is removed.
pub record ToastItem : Type 0 where
  pub input : ToastInput
  pub id : ℕ

-- `pendingToasts`, and for each listener of `toastListeners` the messages that its provider shows.
pub record Toasts : Type 0 where
  pub pending : List ToastInput
  pub providers : List (List ToastItem)

-- `xs.slice(-n)`, for n > 0.
unfoldable pub last : {A : Type 0} → ℕ → List A → List A
last n xs = drop (length xs - n) xs

-- `xs.shift()`
abbrev pub shift : {A : Type 0} → List A → List A
shift [] = []
shift (x ∷ xs) = xs

-- `toast`: a provider keeps four messages and adds the new one.
unfoldable pub add : ToastInput → ℕ → List ToastItem → List ToastItem
unfolding last
add input id current = last 4 current ++ (record { input = input; id = id } ∷ [])

-- Each listener draws an id of its own from the supply.
unfoldable pub add_all : ToastInput → (ℕ → ℕ) → List (List ToastItem) → List (List ToastItem)
unfolding add
add_all input ids [] = []
add_all input ids (items ∷ more) = add input (ids (length more)) items ∷ add_all input ids more

-- Room for five: the message is queued, and the oldest one goes.
unfoldable pub queue : ToastInput → List ToastInput → List ToastInput
queue input pending =
    let queued = pending ++ (input ∷ []) in if ltb 5 (length queued) then shift queued else queued

unfoldable pub notify_toast : ToastInput → (ℕ → ℕ) → Toasts → Toasts
unfolding queue add_all
notify_toast input ids s = elim s.providers [
  | [] ↦ record s { pending = queue input s.pending }
  | items ∷ more ↦ record s { providers = add_all input ids (items ∷ more) }
]

-- The messages that waited go to the provider that is mounted, in their order.
unfoldable pub drain : (ℕ → ℕ) → List ToastInput → List ToastItem → List ToastItem
unfolding add
drain ids [] items = items
drain ids (input ∷ more) items = drain ids more (add input (ids (length more)) items)

-- The effect of `ToastProvider` at its mount: the newest provider stands first.
unfoldable pub mount : (ℕ → ℕ) → Toasts → Toasts
unfolding drain
mount ids s = record { pending = []; providers = drain ids s.pending [] ∷ s.providers }

abbrev remove_at : {A : Type 0} → ℕ → List A → List A
remove_at i [] = []
remove_at zero (x ∷ xs) = xs
remove_at (suc i) (x ∷ xs) = x ∷ remove_at i xs

-- The clean-up of the effect: the provider at that place goes.
unfoldable pub unmount : ℕ → Toasts → Toasts
unmount i s = record s { providers = remove_at i s.providers }

unfoldable pub without : ℕ → List ToastItem → List ToastItem
without id [] = []
without id (item ∷ items) =
    let rest = without id items in if item.id == id then rest else item ∷ rest

abbrev dismiss_at : ℕ → ℕ → List (List ToastItem) → List (List ToastItem)
dismiss_at i id [] = []
dismiss_at zero id (items ∷ more) = without id items ∷ more
dismiss_at (suc i) id (items ∷ more) = items ∷ dismiss_at i id more

-- `onOpenChange(false)` of a shown message.
unfoldable pub dismiss : ℕ → ℕ → Toasts → Toasts
unfolding without
dismiss i id s = record s { providers = dismiss_at i id s.providers }

-- What can happen to the messages.
pub data Step : Toasts → Toasts → Type 0 where
  notified : (s : Toasts) (input : ToastInput) (ids : ℕ → ℕ) → Step s (notify_toast input ids s)
  mounted : (s : Toasts) (ids : ℕ → ℕ) → Step s (mount ids s)
  unmounted : (s : Toasts) (i : ℕ) → Step s (unmount i s)
  dismissed : (s : Toasts) (i id : ℕ) → Step s (dismiss i id s)

abbrev pub initial : Toasts
initial = record { pending = []; providers = [] }

pub data Reach : Toasts → Type 0 where
  start : Reach initial
  next : {s t : Toasts} → Reach s → Step s t → Reach t
