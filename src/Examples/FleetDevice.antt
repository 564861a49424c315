-- ===== src/Examples/FleetDevice.antt =====
-- The theorem about a device of a fleet, at a model that is a generation and a setpoint.
use ieee_2030_5_client_go.Shared.{ℕ, refl, true, List, [], ◌∷◌, Option, none, some, arith, pos}
use ieee_2030_5_client_go.Shared.Float.{Float, zero_f, is_zero_f, dyadic}
use ieee_2030_5_client_go.SafetyGuard.{ControlOutputs, constant_pf}
use ieee_2030_5_client_go.FleetDevice.{
  FleetDevice, FleetSetItem, FleetGetItem, FleetValue, Transport, Numerics, new_fleet_device,
  commands, read_fleet, apply_fleet,
}
use ieee_2030_5_client_go.FleetDevice.Commanded.{Setpoint, IsLawful, ReadWell}
use ieee_2030_5_client_go.FleetDevice.Retold.{ReadTold}
use ieee_2030_5_client_go.FleetDevice.Applied.{AppliedWell}
use ieee_2030_5_client_go.FleetDevice.Kept.{
  Lives, born, goes_on, is_commanded, after_apply, Lives-ReadWell,
}

abbrev World : Type 0
World = ℕ × Option Setpoint

set_both : List FleetSetItem → World → Option (List Float) × World
set_both (p ∷ q ∷ []) (g, s) = (some (p.value ∷ q.value ∷ []), (g, some (p.value, q.value)))
set_both items w = (none, w)

one : FleetValue
one = record { re = dyadic 1 0; im = zero_f }

get_ones : List FleetGetItem → List FleetValue
get_ones [] = []
get_ones (i ∷ items) = one ∷ get_ones items

abbrev fleet : Transport World
fleet = record {
  healthy = λ w. true;
  generation = λ w. w.0;
  set = set_both;
  step_to = λ now w. (some now, w);
  get = λ items w. (some (get_ones items), w);
}

abbrev told : World → Option Setpoint
told w = w.1

fleet-IsLawful : IsLawful fleet told "bat1"
unfolding set_both commands
fleet-IsLawful = record {
  stepping = λ now w. (omega arith, λ same. refl);
  getting = λ items w. (omega arith, λ same. refl);
  writing = λ c w. (omega arith, λ same some_was. refl);
  written = λ c w done same. refl;
}

abbrev battery : FleetDevice
battery = record {
  inverter_obj = "bat1";
  meter_obj = "meter";
  last_controls = none;
  last_generation = 0;
}

abbrev charge : ControlOutputs
charge = record {
  active_power_w = dyadic 5 0;
  reactive_power_var = zero_f;
  connected = true;
  energized = true;
  mode = constant_pf;
  refused = none;
}

abbrev numerics : Numerics
numerics = record { hypot = λ a b. a; quotient = λ a b. a }

abbrev commanded_once : FleetDevice × World
commanded_once = after_apply fleet told charge (pos 1) (pos 2) battery (1, none)

-- The sidecar is started again after the device was commanded.
restarted : Lives fleet told numerics battery (1, none) commanded_once.0 (2, none)
unfolding apply_fleet set_both commands get_ones is_zero_f one
restarted =
    goes_on (2, none) (is_commanded charge (pos 1) (pos 2) born)
      (omega arith, λ same. absurd (omega (arith, same)))

Lives-ReadWell_example :
    ReadWell fleet told 2 (read_fleet fleet numerics (pos 3) (pos 4) commanded_once.0 (2, none))
    × ReadTold fleet told commanded_once.0
        (2, none)
        (read_fleet fleet numerics (pos 3) (pos 4) commanded_once.0 (2, none))
    × AppliedWell fleet told charge 2
        (apply_fleet fleet charge (pos 3) (pos 4) commanded_once.0 (2, none))
unfolding new_fleet_device
Lives-ReadWell_example =
    Lives-ReadWell fleet told numerics "bat1" "meter" battery commanded_once.0 (1, none) (2, none)
      charge (pos 3) (pos 4) fleet-IsLawful refl restarted
