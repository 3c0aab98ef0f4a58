-- ===== src/Examples/Configurations.antt =====
-- Configurations of src/zk/server.
use zookeeper_cpp.Base.{
  pos, true, [], ◌∷◌, ◌++◌, some, ◌≡◌, ◌↔◌, refl, codes, decimal, show_ℤ, arith, IsAll-intro,
  except,
}
use zookeeper_cpp.Error.Result.{ok}
use zookeeper_cpp.Server.Configuration.{
  Configuration, empty, make_minimal, is_minimal, set_client_port, set_data_directory,
  set_tick_time, set_init_limit, set_sync_limit, set_leader_serves, yes_no,
}
use zookeeper_cpp.Server.Equality.{configurations_equal, AgreeOn, configurations_equal_iff}
use zookeeper_cpp.Server.Fits.{HasValue}
use zookeeper_cpp.Server.Lines.{match_line, match_line-setting, is_data, is_trailing}
use zookeeper_cpp.Server.Load.{from_lines, from_string, save, from_string-save}
use zookeeper_cpp.Server.Minimal.{make_minimal-from_lines}
use zookeeper_cpp.Server.Loaded.{IsValid}
use zookeeper_cpp.Server.Setters.{
  sets_client_port, Built, made, changed, Built-IsValid, Built-HasValue,
}

-- A new configuration that is given a port.
abbrev ported : Configuration
ported = set_client_port (some 2182) empty

ported-Built : Built ported
ported-Built = changed (sets_client_port (some 2182)) made refl

Built-IsValid_example : IsValid ported
Built-IsValid_example = Built-IsValid ported-Built

Built-HasValue_example :
    HasValue
      (set_client_port (some 1) ported).client_port
      1
      (codes "clientPort=" ++ decimal 1)
      ported.lines
      (set_client_port (some 1) ported).lines
    × HasValue
        (set_data_directory (some (codes "/d")) ported).data_directory
        (codes "/d")
        (codes "dataDir=" ++ codes "/d")
        ported.lines
        (set_data_directory (some (codes "/d")) ported).lines
    × HasValue
        (set_tick_time (some (pos 9)) ported).tick_time
        (pos 9)
        (codes "tickTime=" ++ show_ℤ (pos 9))
        ported.lines
        (set_tick_time (some (pos 9)) ported).lines
    × HasValue
        (set_init_limit (some 2) ported).init_limit
        2
        (codes "initLimit=" ++ decimal 2)
        ported.lines
        (set_init_limit (some 2) ported).lines
    × HasValue
        (set_sync_limit (some 3) ported).sync_limit
        3
        (codes "syncLimit=" ++ decimal 3)
        ported.lines
        (set_sync_limit (some 3) ported).lines
    × HasValue
        (set_leader_serves (some true) ported).leader_serves
        true
        (codes "leaderServes=" ++ yes_no true)
        ported.lines
        (set_leader_serves (some true) ported).lines
Built-HasValue_example = Built-HasValue 1 2 3 (codes "/d") (pos 9) true ported-Built

make_minimal-from_lines_example :
    (is_minimal (make_minimal (codes "/var/zk") 2181) ≡ true)
    × (from_lines (make_minimal (codes "/var/zk") 2181).lines
        ≡ ok (make_minimal (codes "/var/zk") 2181))
make_minimal-from_lines_example =
    make_minimal-from_lines (codes "/var/zk") 2181 (λ e. cc e)
      (IsAll-intro is_data (codes "/var/zk") refl) (omega arith)

-- The lines of a file.
abbrev three_lines : Configuration
three_lines = record empty {
  lines = codes "# the server" ∷ codes "clientPort=2181" ∷ codes "dataDir=/var/zk" ∷ [];
}

from_string-save_example : from_string (save three_lines) ≡ from_lines three_lines.lines
from_string-save_example = from_string-save three_lines (
  IsAll-intro (except b'\n') (codes "# the server") refl,
  (
    IsAll-intro (except b'\n') (codes "clientPort=2181") refl,
    (IsAll-intro (except b'\n') (codes "dataDir=/var/zk") refl, tt),
  ),
)

match_line-setting_example :
    match_line (codes "dataDir" ++ b'=' ∷ (codes "/d" ++ codes "  ##"))
    ≡ some (codes "dataDir", codes "/d")
match_line-setting_example =
    match_line-setting (codes "dataDir") (codes "/d") (codes "  ##") (λ e. cc e) (λ e. cc e)
      (IsAll-intro (except b'=') (codes "dataDir") refl) (IsAll-intro is_data (codes "/d") refl)
      (IsAll-intro is_trailing (codes "  ##") refl)

configurations_equal_iff_example : (configurations_equal ported empty ≡ true) ↔ AgreeOn ported empty
configurations_equal_iff_example = configurations_equal_iff ported empty
