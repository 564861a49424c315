-- ===== src/RequestGuard/Guarded.antt =====
-- internal/inverter/guard/guarded.go: a transport behind the guard. The transport is a parameter: a
-- function of its own state, which stands for all that a request does.
use ieee_2030_5_client_go.Shared.{
  ◌≡◌, refl, ◌⊎◌, inl, inr, Bool-cases, Option-cases, Bool, true, false, not, ◌&&◌, Option, none,
  some, String, str_eq, if◌then◌else◌, ◌≢◌, eq_iff, arith,
}
use ieee_2030_5_client_go.RequestGuard.{Action, Casing, Guard, RefusalError, allow}
use ieee_2030_5_client_go.RequestGuard.Permitted.{Verb, Permitted}
use ieee_2030_5_client_go.RequestGuard.Policy.{allow_iff}

-- The error of the guard, the error of a body that names another device, or the transport's answer.
pub data Outcome {ℓ} (R : Type ℓ) : Type ℓ where
  refused : RefusalError → Outcome R
  mismatched : String → Outcome R
  delegated : R → Outcome R

-- bodyLFDIMismatch: the body's ActingForLFDI, none where it does not implement LFDIBearing.
unfoldable pub body_lfdi_mismatch : Option String → Action → Bool
body_lfdi_mismatch none a = false
body_lfdi_mismatch (some lfdi) a = not (str_eq lfdi "") && not (str_eq lfdi a.target_lfdi)

-- The body names a device, which is not the one of the action.
abbrev pub NamesOther : Action → Option String → Type 0
NamesOther a body = (lfdi : String) × (body ≡ some lfdi) × (lfdi ≢ "") × (lfdi ≢ a.target_lfdi)

mismatch-NamesOther :
    (a : Action) (body : Option String) → body_lfdi_mismatch body a ≡ true → NamesOther a body
unfolding body_lfdi_mismatch
mismatch-NamesOther a none h = absurd (cc)
mismatch-NamesOther a (some lfdi) h = (
  lfdi,
  refl,
  λ e. ground (arith, h, e, eq_iff lfdi ""),
  λ e. ground (arith, h, e, eq_iff lfdi a.target_lfdi),
)

match-NamesOther :
    (a : Action) (body : Option String) → body_lfdi_mismatch body a ≡ false → ¬ NamesOther a body
unfolding body_lfdi_mismatch
match-NamesOther a none h (l, e, named, other) = absurd (cc)
match-NamesOther a (some lfdi) h (l, e, named, other) =
    let same : lfdi ≡ l = cc in
    ground (arith, h, same, named, other, eq_iff lfdi "", eq_iff lfdi a.target_lfdi)

-- There is a guard, and it permits the request.
abbrev pub HasLeaveOf : Casing → Option Guard → String → Action → Type 0
HasLeaveOf c none method a = ⊥
HasLeaveOf c (some g) method a = Verb a.kind method × Permitted c g a

allow-HasLeave :
    (c : Casing) (g : Option Guard) (method : String) (a : Action)
    → allow c g method a ≡ none
    → HasLeaveOf c g method a
allow-HasLeave c none method a h = absurd (unfold allow in cc)
allow-HasLeave c (some g) method a h = (allow_iff c g method a).0 h

refuse-HasLeave :
    (c : Casing) (g : Option Guard) (method : String) (a : Action) (e : RefusalError)
    → allow c g method a ≡ some e
    → ¬ HasLeaveOf c g method a
refuse-HasLeave c none method a e h l = l
refuse-HasLeave c (some g) method a e h l = let free = (allow_iff c g method a).1 l in cc

module _ {T R : Type 0} (c : Casing) (g : Option Guard) (transport : T → R × T) where
  delegate : T → Outcome R × T
  delegate t = let (r, t') = transport t in (delegated r, t')

  -- Guarded.Get.
  unfoldable pub get : Action → T → Outcome R × T
  unfolding delegate
  get a t = elim (allow c g "GET" a) [ some e ↦ (refused e, t) | none ↦ delegate t ]

  write : String → Action → Option String → T → Outcome R × T
  unfolding delegate
  write method a body t = elim (allow c g method a) [
    | some e ↦ (refused e, t)
    | none ↦ if body_lfdi_mismatch body a then (mismatched a.target_lfdi, t) else delegate t
  ]

  -- Guarded.Post.
  unfoldable pub post : Action → Option String → T → Outcome R × T
  unfolding write
  post a body t = write "POST" a body t

  -- Guarded.Put.
  unfoldable pub put : Action → Option String → T → Outcome R × T
  unfolding write
  put a body t = write "PUT" a body t

  -- The request was sent once, with the guard's leave and a body that names no other device; or
  -- nothing was sent, for want of the leave or for the device that the body names.
  abbrev pub Guards : String → Action → Option String → T → Outcome R × T → Type 0
  Guards method a body t (outcome, t') =
      (HasLeaveOf c g method a
        × ¬ NamesOther a body
        × (outcome ≡ delegated (transport t).0)
        × (t' ≡ (transport t).1))
      ⊎ ((t' ≡ t)
          × ((¬ HasLeaveOf c g method a
                × ((e : RefusalError) × (allow c g method a ≡ some e) × (outcome ≡ refused e)))
              ⊎ (HasLeaveOf c g method a
                  × NamesOther a body
                  × (outcome ≡ mismatched a.target_lfdi))))

  get-Guards : (a : Action) (t : T) → Guards "GET" a none t (get a t)
  unfolding get
  get-Guards a t = elim (Option-cases (allow c g "GET" a)) [
    | inl e ↦ rw (e, get) (inl (allow-HasLeave c g "GET" a e, λ (l, h, i, j). cc, refl, refl))
    | inr (x, e) ↦ rw (e, get) (inr (refl, inl (refuse-HasLeave c g "GET" a x e, (x, refl, refl))))
  ]

  write-Guards :
      (method : String) (a : Action) (body : Option String) (t : T)
      → Guards method a body t (write method a body t)
  unfolding write
  write-Guards method a body t = elim (Option-cases (allow c g method a)) [
    | inl e ↦
        let leave = allow-HasLeave c g method a e in
        (elim (Bool-cases (body_lfdi_mismatch body a)) [
          | inl m ↦ rw (e, m, write) (inr (refl, inr (leave, mismatch-NamesOther a body m, refl)))
          | inr m ↦ rw (e, m, write) (inl (leave, match-NamesOther a body m, refl, refl))
        ])
    | inr (x, e) ↦
        rw (e, write) (inr (refl, inl (refuse-HasLeave c g method a x e, (x, refl, refl))))
  ]

  -- Get, Post and Put call the transport, once, exactly where there is a guard, the method is the verb
  -- of the action's kind, the action is in the closed list of those permitted to the guard's role, and, for Post and
  -- Put, the body names no device, or the one of the action; otherwise they leave the transport as it
  -- was, with the guard's error where the leave is wanting and else with the mismatch.
  pub guarded_requests :
      (a : Action) (body : Option String) (t : T)
      → Guards "GET" a none t (get a t)
        × Guards "POST" a body t (post a body t)
        × Guards "PUT" a body t (put a body t)
  unfolding post put
  guarded_requests a body t =
      (get-Guards a t, write-Guards "POST" a body t, write-Guards "PUT" a body t)
