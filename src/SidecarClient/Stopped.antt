-- ===== src/SidecarClient/Stopped.antt =====
-- internal/sim/gridlabd/client.go: a broken connection stays broken.
use ieee_2030_5_client_go.Shared.{
  ◌≡◌, refl, true, false, Option, some, List, [], ◌∷◌, String, if◌then◌else◌, sym, subst, ap,
}
use ieee_2030_5_client_go.SidecarClient.{
  Args, Link, Conn, Result, err, Attempt, Use, calls, closes, use_all, use_one, locked,
  connection_broken, Cause, call, close_client,
}

module _ {V Raw Line Model : Type 0} (link : Link V Raw Line Model) where
  call-broken :
      (a : Attempt) (op : String) (args : Args V) (c : Conn Line Model) (cause : Cause)
      → c.client.broken ≡ some cause
      → call link a op args c ≡ (err connection_broken, c)
  unfolding call locked
  call-broken a op args c cause h =
      elim a.early
        as (λ b.
          (if b then (err connection_broken, c) else locked link a c.client.broken op args c)
          ≡ (err connection_broken, c)) [
            | true ↦ refl
            | false ↦ ap (λ (b : Option Cause). locked link a b op args c) h
          ]

  -- The connection is broken for this cause, and the sidecar's state and the wire are these.
  IsStopped : Cause → Conn Line Model → Conn Line Model → Type 0
  IsStopped cause c c' = (c'.client.broken ≡ some cause) × (c'.model ≡ c.model) × (c'.owed ≡ c.owed)

  use_all-IsStopped :
      (us : List (Use V)) (cause : Cause) (c d : Conn Line Model)
      → IsStopped cause c d
      → IsStopped cause c (use_all link us d)
  unfolding use_all use_one close_client IsStopped
  use_all-IsStopped [] cause c d h = h
  use_all-IsStopped (closes ∷ us) cause c d h = use_all-IsStopped us cause c (close_client link d) h
  use_all-IsStopped (calls a op args ∷ us) cause c d h =
      use_all-IsStopped us cause c (call link a op args d).1 (
        subst (IsStopped cause c)
          (ap (λ (p : Result Raw × Conn Line Model). p.1) (sym (call-broken a op args d cause h.0)))
          h)

  -- Once a connection is broken, whatever is done with it: the cause is the first one, each call is
  -- refused, and neither the sidecar nor the wire sees anything more.
  pub use_all-broken :
      (us : List (Use V)) (a : Attempt) (op : String) (args : Args V) (c : Conn Line Model)
      (cause : Cause)
      → c.client.broken ≡ some cause
      → ((use_all link us c).client.broken ≡ some cause)
        × ((use_all link us c).model ≡ c.model)
        × ((use_all link us c).owed ≡ c.owed)
        × (call link a op args (use_all link us c) ≡ (err connection_broken, use_all link us c))
  unfolding IsStopped
  use_all-broken us a op args c cause h =
      let s = use_all-IsStopped us cause c c (h, refl, refl) in
      (s.0, s.1, s.2, call-broken a op args (use_all link us c) cause s.0)
