-- ===== src/Stand/Witnesses.antt =====
-- The theorems on test stands at concrete inputs: a stand of three roles on two devices.
use pytest_hardware_template.Prelude.{
  ℕ, zero, suc, Option, none, some, [], ◌∷◌, ◌++◌, ◌≡◌, refl, reverse, map,
}
use pytest_hardware_template.Stand.{
  Device, Call, Exception, TestStand, connect, close, dut, generator, connect_stand, close_stand,
  values,
}
use pytest_hardware_template.Stand.Injected.{Transport, pyserial_transport}
use pytest_hardware_template.Stand.Roles.{first_places, IsRoster}
use pytest_hardware_template.Stand.Rollback.{
  close_stand-calls, connect_stand-Connected, Connected, first_raised,
}

abbrev wire : Transport
wire =
    pyserial_transport "/dev/ttyUSB0" 115200
      (record {
        prompt = "$ ";
        initial_prompt_suffix = "# ";
        login_prompt = "login:";
        password_prompt = "Password:";
        username = none;
        password = none;
      })
      (record { connect_timeout = 10; command_timeout = 30 })

abbrev board : Device
board = record { identity = 1; class = dut; transport = wire; model = "board" }

abbrev source : Device
source = record { identity = 2; class = generator; transport = wire; model = "source" }

abbrev bench : TestStand
bench = record { devices = ("dut", board) ∷ ("generator", source) ∷ ("spare", board) ∷ [] }

-- The second call fails if it is to connect the generator.
abbrev failing : ℕ → Call → Option Exception
failing n (close d) = none
failing (suc zero) (connect d) = some "unreachable"
failing n (connect d) = none

failing-close : (n : ℕ) (d : Device) → failing n (close d) ≡ none
failing-close n d = refl

close_stand-calls_example :
    let ds = first_places (values bench.devices) in
    let r = close_stand failing bench [] in
    IsRoster bench ds
    × (r.calls ≡ [] ++ map close (reverse ds))
    × (r.raised ≡ first_raised failing 0 (map close (reverse ds)))
close_stand-calls_example = close_stand-calls failing bench []

connect_stand-Connected_example :
    IsRoster bench (board ∷ source ∷ [])
    × Connected failing [] (board ∷ source ∷ []) [] (connect_stand failing bench [])
connect_stand-Connected_example = connect_stand-Connected failing failing-close bench []
