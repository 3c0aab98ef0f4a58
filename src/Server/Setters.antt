-- ===== src/Server/Setters.antt =====
-- Every operation on a configuration keeps its settings on lines that it has
-- (src/zk/server/configuration.cpp).
use zookeeper_cpp.Base.{
  ℕ, ℤ, ◌≡◌, subst, inl, inr, Bool, List, [], ◌∷◌, ◌++◌, Option, some, Bool-cases, Bytes, codes,
  none-some, decimal, show_ℤ, ltb, join,
}
use zookeeper_cpp.Error.Result.{Result, ok, >>=-eq-ok, ok_inj, err_ok}
use zookeeper_cpp.Server.Configuration.{
  Configuration, no_setting, empty, set_client_port, set_data_directory, set_tick_time,
  set_init_limit, set_sync_limit, set_leader_serves, set_four_letter_word_whitelist, add_server,
  yes_no, mixes_all, is_found, ensure_valid,
}
use zookeeper_cpp.Server.Fits.{
  AllFit-mono, Fits-mono, insert-AllFit, set_setting-FitsIn, set_setting-HasValue, HasValue,
}
use zookeeper_cpp.Server.Fields.{
  client_port-Fits, data_directory-Fits, tick_time-Fits, init_limit-Fits, sync_limit-Fits,
  leader_serves-Fits, four_letter_word_whitelist-Fits, server_paths-Fits,
}
use zookeeper_cpp.Server.Load.{from_lines, add_setting}
use zookeeper_cpp.Server.Ordered.{lookup}
use zookeeper_cpp.Server.Loaded.{IsValid, Fits-source, empty-Fits, from_lines-IsValid}

-- The operations that change a configuration, with their arguments.
pub data Operation : Type 0 where
  sets_client_port : Option ℕ → Operation
  sets_data_directory : Option Bytes → Operation
  sets_tick_time : Option ℤ → Operation
  sets_init_limit : Option ℕ → Operation
  sets_sync_limit : Option ℕ → Operation
  sets_leader_serves : Option Bool → Operation
  sets_whitelist : Option (List Bytes) → Operation
  adds_server : ℕ → Bytes → ℕ → ℕ → Operation
  adds_setting : Bytes → Bytes → Operation

abbrev pub apply : Operation → Configuration → Result Configuration
apply (sets_client_port x) c = ok (set_client_port x c)
apply (sets_data_directory x) c = ok (set_data_directory x c)
apply (sets_tick_time x) c = ok (set_tick_time x c)
apply (sets_init_limit x) c = ok (set_init_limit x c)
apply (sets_sync_limit x) c = ok (set_sync_limit x c)
apply (sets_leader_serves x) c = ok (set_leader_serves x c)
apply (sets_whitelist x) c = set_four_letter_word_whitelist x c
apply (adds_server id hostname peer_port leader_port) c =
    add_server id hostname peer_port leader_port c
apply (adds_setting key value) c = add_setting key value c

apply-IsValid : (o : Operation) (c d : Configuration) → IsValid c → apply o c ≡ ok d → IsValid d
unfolding set_client_port set_data_directory set_tick_time set_init_limit set_sync_limit
    set_leader_serves set_four_letter_word_whitelist add_server add_setting
apply-IsValid (sets_client_port x) c d v e =
    let (fits, le) =
      set_setting-FitsIn c.client_port x (codes "clientPort") decimal c.lines v.client_port_fits in
    subst IsValid (ok_inj e) (client_port-Fits _ c _ (Fits-mono c le v) _ fits)
apply-IsValid (sets_data_directory x) c d v e =
    let (fits, le) =
      set_setting-FitsIn c.data_directory x (codes "dataDir") (λ x. x) c.lines
        v.data_directory_fits in
    subst IsValid (ok_inj e) (data_directory-Fits _ c _ (Fits-mono c le v) _ fits)
apply-IsValid (sets_tick_time x) c d v e =
    let (fits, le) =
      set_setting-FitsIn c.tick_time x (codes "tickTime") show_ℤ c.lines v.tick_time_fits in
    subst IsValid (ok_inj e) (tick_time-Fits _ c _ (Fits-mono c le v) _ fits)
apply-IsValid (sets_init_limit x) c d v e =
    let (fits, le) =
      set_setting-FitsIn c.init_limit x (codes "initLimit") decimal c.lines v.init_limit_fits in
    subst IsValid (ok_inj e) (init_limit-Fits _ c _ (Fits-mono c le v) _ fits)
apply-IsValid (sets_sync_limit x) c d v e =
    let (fits, le) =
      set_setting-FitsIn c.sync_limit x (codes "syncLimit") decimal c.lines v.sync_limit_fits in
    subst IsValid (ok_inj e) (sync_limit-Fits _ c _ (Fits-mono c le v) _ fits)
apply-IsValid (sets_leader_serves x) c d v e =
    let (fits, le) =
      set_setting-FitsIn c.leader_serves x (codes "leaderServes") yes_no c.lines
        v.leader_serves_fits in
    subst IsValid (ok_inj e) (leader_serves-Fits _ c _ (Fits-mono c le v) _ fits)
apply-IsValid (sets_whitelist x) c d v e =
    let (fits, le) =
      set_setting-FitsIn c.four_letter_word_whitelist x (codes "4lw.commands.whitelist")
        (join (codes ",")) c.lines v.whitelist_fits in
    elim (Bool-cases (mixes_all x)) [
      | inl mixed ↦ absurd (err_ok (rw mixed at e))
      | inr fine ↦
          subst IsValid (ok_inj (rw fine at e))
            (four_letter_word_whitelist-Fits _ c _ (Fits-mono c le v) _ fits)
    ]
apply-IsValid (adds_server id hostname peer_port leader_port) c d v e =
    let address : Bytes =
      hostname ++ codes ":" ++ decimal peer_port ++ codes ":" ++ decimal leader_port in
    let (fits, le) =
      set_setting-FitsIn no_setting (some address) (codes "server." ++ decimal id) (λ x. x) c.lines
        (λ l f. absurd (none-some f)) in
    let (_, valid, rest) = >>=-eq-ok (ensure_valid id) _ e in
    elim (Bool-cases (is_found (lookup ltb id c.server_paths))) [
      | inl found ↦ absurd (err_ok (rw found at rest))
      | inr absent ↦ subst IsValid (ok_inj (rw absent at rest)) (
          server_paths-Fits _ c _ (Fits-mono c le v) _ (
            insert-AllFit ltb id _ c.server_paths fits
              (AllFit-mono c.server_paths le v.servers_fit)))
    ]
apply-IsValid (adds_setting key value) c d v e =
    let (mid, loaded, rest) = >>=-eq-ok (from_lines (c.lines ++ (key ++ b'=' ∷ value) ∷ [])) _ e in
    subst IsValid (ok_inj rest) (Fits-source _ mid _ (from_lines-IsValid _ mid loaded))

-- A configuration that the class's functions can give: a new one, one that is loaded from lines, or what
-- an operation makes of one.
pub data Built : Configuration → Type 0 where
  made : Built empty
  loaded : (lines : List Bytes) (c : Configuration) → from_lines lines ≡ ok c → Built c
  changed : {c d : Configuration} (o : Operation) → Built c → apply o c ≡ ok d → Built d

-- In every configuration that can be built, by loading any lines and by any sequence of operations with
-- any arguments, the line number of every setting is that of a line which the configuration has, so
-- that a later change of the setting writes inside of the vector of lines.
pub Built-IsValid : {c : Configuration} → Built c → IsValid c
Built-IsValid made = empty-Fits 0
Built-IsValid (loaded lines c e) = from_lines-IsValid lines c e
Built-IsValid (changed {c} {d} o b e) = apply-IsValid o c d (Built-IsValid b) e

-- In a configuration that can be built, after a setting is given a value, it has that value, the line
-- with its number is the key and the value as text, and every other line is as it was: for each of the
-- six settings with one value.
pub Built-HasValue :
    {c : Configuration} (port init sync : ℕ) (path : Bytes) (tick : ℤ) (serve : Bool)
    → Built c
    → HasValue
        (set_client_port (some port) c).client_port
        port
        (codes "clientPort=" ++ decimal port)
        c.lines
        (set_client_port (some port) c).lines
      × HasValue
          (set_data_directory (some path) c).data_directory
          path
          (codes "dataDir=" ++ path)
          c.lines
          (set_data_directory (some path) c).lines
      × HasValue
          (set_tick_time (some tick) c).tick_time
          tick
          (codes "tickTime=" ++ show_ℤ tick)
          c.lines
          (set_tick_time (some tick) c).lines
      × HasValue
          (set_init_limit (some init) c).init_limit
          init
          (codes "initLimit=" ++ decimal init)
          c.lines
          (set_init_limit (some init) c).lines
      × HasValue
          (set_sync_limit (some sync) c).sync_limit
          sync
          (codes "syncLimit=" ++ decimal sync)
          c.lines
          (set_sync_limit (some sync) c).lines
      × HasValue
          (set_leader_serves (some serve) c).leader_serves
          serve
          (codes "leaderServes=" ++ yes_no serve)
          c.lines
          (set_leader_serves (some serve) c).lines
unfolding set_client_port set_data_directory set_tick_time set_init_limit set_sync_limit
    set_leader_serves
Built-HasValue {c} port init sync path tick serve b =
    let v : IsValid c = Built-IsValid b in
    (
      set_setting-HasValue c.client_port port (codes "clientPort") decimal c.lines
          v.client_port_fits,
      set_setting-HasValue c.data_directory path (codes "dataDir") (λ x. x) c.lines
          v.data_directory_fits,
      set_setting-HasValue c.tick_time tick (codes "tickTime") show_ℤ c.lines v.tick_time_fits,
      set_setting-HasValue c.init_limit init (codes "initLimit") decimal c.lines v.init_limit_fits,
      set_setting-HasValue c.sync_limit sync (codes "syncLimit") decimal c.lines v.sync_limit_fits,
      set_setting-HasValue c.leader_serves serve (codes "leaderServes") yes_no c.lines
          v.leader_serves_fits,
    )
