-- ===== src/Server/Configuration.antt =====
-- `configuration` (src/zk/server/configuration.hpp, src/zk/server/configuration.cpp): the settings of a
-- server, each with the line of the file that it stands on.
--
-- `not_a_line` is `none`. A map and a set are lists in their order. A file is the text that a stream
-- reads from it, or `none` if it does not read to the end.
use zookeeper_cpp.Base.{
  ℕ, ℤ, pos, Bool, true, false, ◌&&◌, List, [], ◌∷◌, ◌++◌, Option, none, some, ◌==◌, ltb,
  if◌then◌else◌, Bytes, codes, length, set, join, decimal, show_ℤ,
}
use zookeeper_cpp.Acl.Rule.{less_text}
use zookeeper_cpp.Error.Exn.{out_of_range, runtime_error, invalid_argument}
use zookeeper_cpp.Error.Result.{Result, ok, err, ◌>>◌}
use zookeeper_cpp.Server.Ordered.{insert, lookup, contains}

pub record Setting {ℓ} (T : Type ℓ) : Type ℓ where
  pub value : Option T
  pub line : Option ℕ

-- The two constructors of `setting`.
abbrev pub no_setting {ℓ} : {T : Type ℓ} → Setting T
no_setting = record { value = none; line = none }

abbrev pub on_line {ℓ} : {T : Type ℓ} → ℕ → T → Setting T
on_line line x = record { value = some x; line = some line }

pub record Configuration : Type 0 where
  pub source_file : Option Bytes
  pub lines : List Bytes
  pub client_port : Setting ℕ
  pub data_directory : Setting Bytes
  pub tick_time : Setting ℤ
  pub init_limit : Setting ℕ
  pub sync_limit : Setting ℕ
  pub leader_serves : Setting Bool
  pub four_letter_word_whitelist : Setting (List Bytes)
  pub server_paths : List (ℕ × Setting Bytes)
  pub unknown_settings : List (Bytes × Setting Bytes)

abbrev pub empty : Configuration
empty = record {
  source_file = none;
  lines = [];
  client_port = no_setting;
  data_directory = no_setting;
  tick_time = no_setting;
  init_limit = no_setting;
  sync_limit = no_setting;
  leader_serves = no_setting;
  four_letter_word_whitelist = no_setting;
  server_paths = [];
  unknown_settings = [];
}

-- The defaults.
abbrev pub default_client_port : ℕ
default_client_port = 2181

abbrev pub default_tick_time : ℤ
default_tick_time = pos 2000

abbrev pub default_init_limit : ℕ
default_init_limit = 10

abbrev pub default_sync_limit : ℕ
default_sync_limit = 5

abbrev pub default_four_letter_word_whitelist : List Bytes
default_four_letter_word_whitelist = codes "srvr" ∷ []

-- `server_id::ensure_valid`, which the constructor calls.
unfoldable pub ensure_valid : ℕ → Result (Unit {0})
ensure_valid value =
    if ltb 0 value && ltb value 256
    then ok tt
    else err (
        out_of_range (
          codes "Server ID value "
          ++ decimal value
          ++ codes " is not in the valid range [1 .. 255]"))

-- `value_or`.
abbrev pub value_or {ℓ} : {T : Type ℓ} → Option T → T → T
value_or none x = x
value_or (some y) x = y

unfoldable pub get_client_port : Configuration → ℕ
get_client_port c = value_or c.client_port.value default_client_port

unfoldable pub get_tick_time : Configuration → ℤ
get_tick_time c = value_or c.tick_time.value default_tick_time

unfoldable pub get_init_limit : Configuration → ℕ
get_init_limit c = value_or c.init_limit.value default_init_limit

unfoldable pub get_sync_limit : Configuration → ℕ
get_sync_limit c = value_or c.sync_limit.value default_sync_limit

unfoldable pub get_leader_serves : Configuration → Bool
get_leader_serves c = value_or c.leader_serves.value true

unfoldable pub get_four_letter_word_whitelist : Configuration → List Bytes
get_four_letter_word_whitelist c =
    value_or c.four_letter_word_whitelist.value default_four_letter_word_whitelist

-- The line that `set` writes for a value.
abbrev pub target_line {ℓ} : {T : Type ℓ} → Bytes → (T → Bytes) → Option T → Bytes
target_line key encode none = []
target_line key encode (some x) = key ++ b'=' ∷ encode x

unfoldable pub set_line {ℓ} :
    {T : Type ℓ} → Setting T → Option T → Bytes → List Bytes → Option ℕ → Setting T × List Bytes
set_line target none text lines none = (target, lines)
set_line target (some x) text lines none = (on_line (length lines) x, lines ++ text ∷ [])
set_line target value text lines (some l) =
    (record { value = value; line = some l }, set lines l text)

-- `set`: the setting and the lines after it. A setting with no line and no value stays as it is.
unfoldable pub set_setting {ℓ} :
    {T : Type ℓ} → Setting T → Option T → Bytes → (T → Bytes) → List Bytes → Setting T × List Bytes
unfolding set_line
set_setting target value key encode lines =
    set_line target value (target_line key encode value) lines target.line

unfoldable pub set_client_port : Option ℕ → Configuration → Configuration
set_client_port port c =
    let (s, lines) = set_setting c.client_port port (codes "clientPort") decimal c.lines in
    record c { client_port = s; lines = lines }

unfoldable pub set_data_directory : Option Bytes → Configuration → Configuration
set_data_directory path c =
    let (s, lines) = set_setting c.data_directory path (codes "dataDir") (λ x. x) c.lines in
    record c { data_directory = s; lines = lines }

unfoldable pub set_tick_time : Option ℤ → Configuration → Configuration
set_tick_time tick_time c =
    let (s, lines) = set_setting c.tick_time tick_time (codes "tickTime") show_ℤ c.lines in
    record c { tick_time = s; lines = lines }

unfoldable pub set_init_limit : Option ℕ → Configuration → Configuration
set_init_limit limit c =
    let (s, lines) = set_setting c.init_limit limit (codes "initLimit") decimal c.lines in
    record c { init_limit = s; lines = lines }

unfoldable pub set_sync_limit : Option ℕ → Configuration → Configuration
set_sync_limit limit c =
    let (s, lines) = set_setting c.sync_limit limit (codes "syncLimit") decimal c.lines in
    record c { sync_limit = s; lines = lines }

abbrev pub yes_no : Bool → Bytes
yes_no true = codes "yes"
yes_no false = codes "no"

unfoldable pub set_leader_serves : Option Bool → Configuration → Configuration
set_leader_serves serve c =
    let (s, lines) = set_setting c.leader_serves serve (codes "leaderServes") yes_no c.lines in
    record c { leader_serves = s; lines = lines }

abbrev pub mixes_all : Option (List Bytes) → Bool
mixes_all none = false
mixes_all (some words) = ltb 1 (length words) && contains less_text (codes "*") words

unfoldable pub set_four_letter_word_whitelist :
    Option (List Bytes) → Configuration → Result Configuration
set_four_letter_word_whitelist words c =
    let (s, lines) =
      set_setting c.four_letter_word_whitelist words (codes "4lw.commands.whitelist")
        (join (codes ",")) c.lines in
    if mixes_all words
    then err (invalid_argument [])
    else ok (record c { four_letter_word_whitelist = s; lines = lines })

unfoldable pub make_minimal : Bytes → ℕ → Configuration
make_minimal data_directory client_port = set_sync_limit (some default_sync_limit) (
    set_init_limit (some default_init_limit)
      (set_client_port (some client_port) (set_data_directory (some data_directory) empty)))

abbrev has_value {ℓ} : {T : Type ℓ} → Option T → Bool
has_value none = false
has_value (some x) = true

unfoldable pub is_minimal : Configuration → Bool
is_minimal c =
    has_value c.data_directory.value
    && has_value c.client_port.value
    && (has_value c.init_limit.value && get_init_limit c == default_init_limit)
    && (has_value c.sync_limit.value && get_sync_limit c == default_sync_limit)
    && length c.lines == 4

unfoldable pub values {ℓ} : {K : Type ℓ} → List (K × Setting Bytes) → List (K × Option Bytes)
values [] = []
values ((k, s) ∷ ps) = (k, s.value) ∷ values ps

-- `servers` and `unknown_settings`; an entry's value is dereferenced there.
unfoldable pub servers : Configuration → List (ℕ × Option Bytes)
unfolding values
servers c = values c.server_paths

unfoldable pub unknown_settings : Configuration → List (Bytes × Option Bytes)
unfolding values
unknown_settings c = values c.unknown_settings

abbrev pub is_found {ℓ} : {T : Type ℓ} → Option T → Bool
is_found none = false
is_found (some x) = true

-- `add_server`. The entry is new, so its setting has no line, and `set` gives it the next one.
unfoldable pub add_server : ℕ → Bytes → ℕ → ℕ → Configuration → Result Configuration
add_server id hostname peer_port leader_port c =
    let address : Bytes =
      hostname ++ codes ":" ++ decimal peer_port ++ codes ":" ++ decimal leader_port in
    let (s, lines) =
      set_setting no_setting (some address) (codes "server." ++ decimal id) (λ x. x) c.lines in
    ensure_valid id
    >> (if is_found (lookup ltb id c.server_paths)
        then err (runtime_error (codes "Already a server with ID " ++ decimal id))
        else ok (record c { server_paths = insert ltb id s c.server_paths; lines = lines }))
