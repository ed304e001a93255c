-- ===== src/Tests/TestPrograms.antt =====
-- mainoftest.c with a server that logs its statements.
use batterysystem.Common.{ℕ, ◌≡◌, refl, []}
use batterysystem.Common.Int.{pos}
use batterysystem.Common.Runs.{done}
use batterysystem.Float.Fixed.{fixed}
use batterysystem.Pack.{SingleBattery}
use batterysystem.TestPrograms.{maintest_main}
use batterysystem.Database.{connect_to_mysql}
use batterysystem.Tests.Server.{server}

abbrev blank_cell : SingleBattery fixed
blank_cell = record { voltage = pos 0; temperature = pos 0; resistance = pos 0; capacity = pos 0 }

abbrev tick : ℕ → ℕ × ℕ
tick t = (t, t)

connects : maintest_main (server ℕ tick) (5, []) ≡ done (pos 0) (5, [])
unfolding maintest_main connect_to_mysql
connects = refl
