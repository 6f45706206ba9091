-- ===== src/P2p/Server/Main.antt =====
-- p2p_transfer_server.c: main, with what it acquires and releases.
use personal_journal.Base.{
  Bool, true, false, not, Bool-cases, inl, inr, ◌≡◌, refl, List, [], ◌∷◌, ◌++◌, if◌then◌else◌, Ret,
  success, failure, ◌⊎◌,
}

pub data Resource : Type 0 where
  devices base listener : Resource

-- Which of its calls succeed: calloc, configure_log (not -1), event_base_new,
-- evconnlistener_new_bind and event_base_dispatch.
pub record Calls : Type 0 where
  pub allocated : Bool
  pub log_configured : Bool
  pub base_made : Bool
  pub listener_made : Bool
  pub dispatched : Bool

-- The pointers that are not NULL.
pub record Pointers : Type 0 where
  pub devices : Bool
  pub base : Bool
  pub listener : Bool

-- `if (NULL != p) free(p)`, and the label ERR.
abbrev pub free_if : Bool → Resource → List Resource
free_if held r = if held then r ∷ [] else []

abbrev pub err : Pointers → Ret × List Resource
err p = (failure, free_if p.listener listener ++ free_if p.base base ++ free_if p.devices devices)

-- The result, and what is released, in order.
unfoldable pub server_main : Calls → Ret × List Resource
server_main c =
    if not c.allocated
    then err (record { devices = false; base = false; listener = false })
    else if not c.log_configured
    then err (record { devices = true; base = false; listener = false })
    else if not c.base_made
    then err (record { devices = true; base = false; listener = false })
    else if not c.listener_made
    then err (record { devices = true; base = true; listener = false })
    else if not c.dispatched
    then err (record { devices = true; base = true; listener = true })
    else (success, listener ∷ base ∷ [])

-- What has been acquired when the calls are made in order until one fails; an action that acquires
-- nothing has an empty list.
abbrev pub acquired : List (Bool × List Resource) → List Resource
acquired [] = []
acquired ((done, rs) ∷ calls) = let rest = acquired calls in if done then rest ++ rs else []

abbrev pub in_order : Calls → List (Bool × List Resource)
in_order c =
    (c.allocated, devices ∷ [])
    ∷ (c.log_configured, [])
    ∷ (c.base_made, base ∷ [])
    ∷ (c.listener_made, listener ∷ [])
    ∷ []

-- Wherever main fails, it releases all that it has acquired, the latest first; when the event loop
-- ends without an error it keeps the head of the device list.
pub server_main-releases :
    (c : Calls)
    → (server_main c ≡ (failure, acquired (in_order c)))
      ⊎ (acquired (in_order c) ≡ listener ∷ base ∷ devices ∷ [])
        × (server_main c ≡ (success, listener ∷ base ∷ []))
unfolding server_main
server_main-releases c = elim (Bool-cases c.allocated) [
  | inr a ↦ rw a (inl refl)
  | inl a ↦ elim (Bool-cases c.log_configured) [
    | inr b ↦ rw (a, b) (inl refl)
    | inl b ↦ elim (Bool-cases c.base_made) [
      | inr d ↦ rw (a, b, d) (inl refl)
      | inl d ↦ elim (Bool-cases c.listener_made) [
        | inr e ↦ rw (a, b, d, e) (inl refl)
        | inl e ↦ elim (Bool-cases c.dispatched) [
          | inr f ↦ rw (a, b, d, e, f) (inl refl)
          | inl f ↦ rw (a, b, d, e, f) (inr (refl, refl))
        ]
      ]
    ]
  ]
]
