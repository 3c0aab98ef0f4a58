-- ===== src/Server/Run/Start.antt =====
-- The constructors and the destructor of `server` (src/zk/server/server.cpp).
use zookeeper_cpp.Base.{ℕ, Bool, true, List, ◌≡◌, refl, ◌∙◌, sym, Bytes}
use zookeeper_cpp.Error.Result.{Result, ok, err, ◌>>=◌}
use zookeeper_cpp.Process.System.{Answer}
use zookeeper_cpp.Server.Configuration.{Configuration}
use zookeeper_cpp.Server.Registry.{Classpath}
use zookeeper_cpp.Server.Run.{validate_settings, process_args, shutdown}
use zookeeper_cpp.Server.Run.Arguments.{IsCommand, validate_settings-process_args}

-- `server`: the flag `_running`, and the command that its worker starts a process with.
pub record Server : Type 0 where
  pub running : Bool
  pub command : Result (List Bytes)

-- The constructor. Settings that are refused leave no worker behind.
unfoldable pub make_server : Classpath → Configuration → Result Server
make_server packages settings = validate_settings settings >>= λ u.
    ok (record { running = true; command = process_args packages settings })

-- The constructor without a class path, from the class path of the system.
unfoldable pub make_default_server : Result Classpath → Configuration → Result Server
make_default_server system_default settings =
    system_default >>= λ packages. make_server packages settings

-- How a destructor ends, which is `noexcept`: an exception is the end of the program.
pub data Destroyed : Type 0 where
  destroyed terminated : Destroyed

destroyed_by : Result Bool → Destroyed
destroyed_by (ok joined) = destroyed
destroyed_by (err e) = terminated

-- The destructor, from the answer to the write of the event.
unfoldable pub destroy : Bool → Answer ℕ → Destroyed
unfolding destroyed_by shutdown
destroy joinable answer = destroyed_by (shutdown true joinable answer).1

accepted :
    (packages : Classpath) (settings : Configuration) (validated : Result (Unit {0}))
    (self : Server)
    → (validated >>= λ u. ok (record { running = true; command = process_args packages settings }))
      ≡ ok self
    → (validated ≡ ok tt) × (process_args packages settings ≡ self.command)
accepted packages settings (ok u) self e = (refl, cc)
accepted packages settings (err x) self e = cc

-- The worker of a server that was made has a command for its process.
make_server-IsCommand :
    (packages : Classpath) (settings : Configuration) (self : Server)
    → make_server packages settings ≡ ok self
    → (args : List Bytes) × (self.command ≡ ok args) × IsCommand packages settings args
unfolding make_server
make_server-IsCommand packages settings self e =
    let (valid, same) = accepted packages settings (validate_settings settings) self e in
    let (args, is_args, is_command) = validate_settings-process_args packages settings valid in
    (args, sym same ∙ is_args, is_command)
