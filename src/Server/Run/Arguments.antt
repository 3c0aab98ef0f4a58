-- ===== src/Server/Run/Arguments.antt =====
-- A server that passes its test can be started.
use zookeeper_cpp.Base.{
  true, false, List, [], ◌∷◌, Option, none, some, ◌≡◌, refl, ◌⊎◌, inl, inr, Bool-cases,
  Option-cases, Bytes, codes, decimal,
}
use zookeeper_cpp.Error.Result.{ok}
use zookeeper_cpp.Server.Classpath.{command_line}
use zookeeper_cpp.Server.Configuration.{Configuration, is_minimal, get_client_port}
use zookeeper_cpp.Server.Registry.{Classpath}
use zookeeper_cpp.Server.Run.{validate_settings, process_args, if_saved}

-- The command for a minimal configuration names its port and directory, and for another its file.
abbrev pub IsCommand : Classpath → Configuration → List Bytes → Type 0
IsCommand packages c args =
    (path : Bytes) × (((is_minimal c ≡ true)
        × (c.data_directory.value ≡ some path)
        × (args
            ≡ codes "-cp"
              ∷ command_line packages
              ∷ codes "org.apache.zookeeper.server.quorum.QuorumPeerMain"
              ∷ decimal (get_client_port c)
              ∷ path
              ∷ []))
      ⊎ ((is_minimal c ≡ false)
          × (c.source_file ≡ some path)
          × (args
              ≡ codes "-cp"
                ∷ command_line packages
                ∷ codes "org.apache.zookeeper.server.quorum.QuorumPeerMain"
                ∷ path
                ∷ [])))

minimal-directory :
    (c : Configuration)
    → is_minimal c ≡ true
    → (path : Bytes) × (c.data_directory.value ≡ some path)
unfolding is_minimal
minimal-directory c h = elim (Option-cases c.data_directory.value) [
  | inl e ↦ absurd (cc (rw e at h))
  | inr found ↦ found
]

saved-file : (o : Option Bytes) → if_saved o ≡ ok tt → (path : Bytes) × (o ≡ some path)
saved-file none h = cc
saved-file (some path) h = (path, refl)

-- For settings that the constructor of a server accepts, the worker finds every optional value that it
-- asks for: the command of the process names the port and the data directory of a minimal
-- configuration, and the file of any other.
pub validate_settings-process_args :
    (packages : Classpath) (c : Configuration)
    → validate_settings c ≡ ok tt
    → (args : List Bytes) × (process_args packages c ≡ ok args) × IsCommand packages c args
unfolding validate_settings process_args
validate_settings-process_args packages c h = elim (Bool-cases (is_minimal c)) [
  | inl minimal ↦
      let (path, e) = minimal-directory c minimal in
      (_, rw (process_args, minimal, e) refl, (path, inl (minimal, e, refl)))
  | inr other ↦
      let (path, e) = saved-file c.source_file (rw (validate_settings, other) at h) in
      (_, rw (process_args, other, e) refl, (path, inr (other, e, refl)))
]
