-- ===== src/Server/Classpath.antt =====
-- `classpath` (src/zk/server/classpath.cpp). The answers of `stat` for each path are a parameter.
pub mod Found
use zookeeper_cpp.Base.{
  ℕ, zero, suc, ◌+◌, ◌-◌, Bool, true, false, List, [], ◌∷◌, ◌++◌, Bytes, codes, length, join, ◌==◌,
  if◌then◌else◌,
}
use zookeeper_cpp.Error.Exn.{Errno, enoent, runtime_error, system_error}
use zookeeper_cpp.Error.Result.{Result, ok, err, ◌>>=◌}
use zookeeper_cpp.Process.System.{Answer, done, failed}
use zookeeper_cpp.Process.Transfer.{taken}
use zookeeper_cpp.Server.Registry.{Classpath}

-- `operator<<` of a class path, and `command_line`.
unfoldable pub command_line : Classpath → Bytes
command_line components = join (codes ":") components

abbrev pub is_enoent : Errno → Bool
is_enoent enoent = true
is_enoent _ = false

abbrev pub locations : List Bytes
locations = codes "/usr/share/java" ∷ codes "/usr/local/share/java" ∷ []

abbrev pub requirements : List Bytes
requirements = codes "zookeeper.jar" ∷ codes "slf4j-api.jar" ∷ codes "slf4j-simple.jar" ∷ []

-- The size of the buffer for a path, and what `snprintf` leaves in it: one byte less at most.
unfoldable pub potential_size : Bytes → Bytes → ℕ
potential_size base_loc jar = length base_loc + length jar + 4

unfoldable pub potential : Bytes → Bytes → Bytes
unfolding taken potential_size
potential base_loc jar = taken (potential_size base_loc jar - 1) (base_loc ++ b'/' ∷ jar)

-- What the search has found by now, and what it has not.
pub record Search : Type 0 where
  pub components : List Bytes
  pub unfound : List Bytes

module _ (stat : Bytes → Answer (Unit {0})) where
  stat_found : Answer (Unit {0}) → Result Bool
  stat_found (done u) = ok true
  stat_found (failed e) = if is_enoent e then ok false else err (system_error e [])

  -- `file_exists`.
  unfoldable pub file_exists : Bytes → Result Bool
  unfolding stat_found
  file_exists path = stat_found (stat path)

  if_exists : Bool → Bytes → Bytes → Search → Result Search → Result Search
  if_exists true path jar s later = ok (record s { components = s.components ++ path ∷ [] })
  if_exists false path jar s later = later

  -- The inner loop for a jar, over the locations that are left.
  unfoldable pub find_jar : Bytes → List Bytes → Search → Result Search
  unfolding potential file_exists if_exists
  find_jar jar [] s = ok (record s { unfound = s.unfound ++ jar ∷ [] })
  find_jar jar (base_loc ∷ locs) s =
      let path : Bytes = potential base_loc jar in
      let later : Result Search = find_jar jar locs s in
      file_exists path >>= λ found. if_exists found path jar s later

  -- The outer loop.
  unfoldable pub find_jars : List Bytes → Search → Result Search
  unfolding find_jar
  find_jars [] s = ok s
  find_jars (jar ∷ jars) s = find_jar jar locations s >>= find_jars jars

  unfound_message : List Bytes → Bytes
  unfound_message unfound =
      codes "Could not find requirement"
      ++ (if length unfound == 1 then [] else codes "s")
      ++ codes ": "
      ++ join (codes ", ") unfound
      ++ codes ". Searched paths: "
      ++ join (codes ", ") locations

  searched : List Bytes → List Bytes → Result Classpath
  unfolding unfound_message
  searched components [] = ok components
  searched components (jar ∷ jars) = err (runtime_error (unfound_message (jar ∷ jars)))

  -- `find_system_default`, and `system_default`, which keeps its first result.
  unfoldable pub find_system_default : Result Classpath
  unfolding find_jars searched
  find_system_default = find_jars requirements (record { components = []; unfound = [] }) >>= λ s.
      searched s.components s.unfound
