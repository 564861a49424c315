-- ===== src/ControlCache.antt =====
-- internal/inverter/dercontrol_poll.go: the cache of the last polled DERControlList, and the
-- difference of a new list against it. Polling is the loop around it.
pub mod Diff
pub mod Polling
use ieee_2030_5_client_go.Shared.{
  ℕ, ◌*◌, Bool, true, false, not, ◌&&◌, ◌||◌, List, [], ◌∷◌, Option, none, some, String, str_eq,
  ◌==◌, ltb, if◌then◌else◌, listed, is_empty, length,
}
use ieee_2030_5_client_go.Shared.Map.{lookup, insert, string_eq}
use ieee_2030_5_client_go.Sep2.{DerControl, RejectedControl, status_scheduled, status_cancelled}

-- DERControlListResult of the core library.
pub record ListResult : Type 0 where
  pub der_control : List DerControl
  pub rejected : List RejectedControl

-- defaultDERControlPollDuration, from seconds (uint32) to nanoseconds.
unfoldable pub default_poll_duration : ℕ → ℕ
default_poll_duration rate =
    let d = rate * 1000000000 in
    let d' = if d == 0 then 1800 * 1000000000 else d in
    if ltb d' (60 * 1000000000) then 60 * 1000000000 else d'

pub record Cache : Type 0 where
  pub controls : List (String × DerControl)
  pub rejected : List RejectedControl

unfoldable pub new_cache : Cache
new_cache = record { controls = []; rejected = [] }

-- The keys of the set that acceptedControls builds.
unfoldable pub rejected_mrids : List RejectedControl → List String
rejected_mrids [] = []
rejected_mrids (r ∷ rs) =
    let rest = rejected_mrids rs in if str_eq r.event.mrid "" then rest else r.event.mrid ∷ rest

unfoldable pub without : List String → List DerControl → List DerControl
without ms [] = []
without ms (c ∷ cs) = if listed c.mrid ms then without ms cs else c ∷ without ms cs

unfoldable pub accepted_controls : ListResult → List DerControl
accepted_controls list =
    if is_empty list.rejected
    then list.der_control
    else without (rejected_mrids list.rejected) list.der_control

-- derControlCurrentStatus.
unfoldable pub current_status : DerControl → ℕ
current_status c = elim c.status [ none ↦ status_scheduled | some st ↦ st ]

pub record Changes : Type 0 where
  pub added : List DerControl
  pub updated : List DerControl
  pub cancelled : List DerControl

-- One round of the loop of Diff, before the later ones.
unfoldable pub diff_one : List (String × DerControl) → DerControl → Changes → Changes
diff_one controls nc later =
    if str_eq nc.mrid ""
    then later
    else if current_status nc == status_cancelled
    then record later { cancelled = nc ∷ later.cancelled }
    else (elim (lookup nc.mrid controls) [
      | none ↦ record later { added = nc ∷ later.added }
      | some prev ↦
          if current_status prev == current_status nc
          then later
          else record later { updated = nc ∷ later.updated }
    ])

unfoldable pub diff_all : List (String × DerControl) → List DerControl → Changes
diff_all controls [] = record { added = []; updated = []; cancelled = [] }
diff_all controls (nc ∷ ncs) = diff_one controls nc (diff_all controls ncs)

-- Diff.
unfoldable pub diff : Cache → ListResult → Changes
diff c next = diff_all c.controls (accepted_controls next)

unfoldable pub commit : List DerControl → List (String × DerControl) → List (String × DerControl)
commit [] fresh = fresh
commit (nc ∷ ncs) fresh = commit ncs (if str_eq nc.mrid "" then fresh else insert nc.mrid nc fresh)

-- Refresh: the new cache and the count of its controls.
unfoldable pub refresh : Cache → ListResult → Cache × ℕ
refresh c next =
    let fresh = commit (accepted_controls next) [] in
    (record { controls = fresh; rejected = next.rejected }, length fresh)

-- Update: the new cache; the counts are only logged.
unfoldable pub update : Cache → ListResult → Cache
update c next = (refresh c next).0
