-- ===== src/Server/Load.antt =====
-- Loading and saving a `configuration` (src/zk/server/configuration.cpp).
use zookeeper_cpp.Base.{
  ℕ, suc, ◌≡◌, ap, Bool, true, false, ◌&&◌, List, [], ◌∷◌, ◌++◌, Option, none, some, ◌==◌, ltb,
  if◌then◌else◌, Bytes, codes, equal, drop, atol, to_word, All, IsAll, except,
}
use zookeeper_cpp.Acl.Rule.{less_text}
use zookeeper_cpp.Error.Exn.{runtime_error}
use zookeeper_cpp.Error.Result.{Result, ok, err, ◌>>=◌, ◌>>◌}
use zookeeper_cpp.Server.Configuration.{Configuration, on_line, empty, ensure_valid}
use zookeeper_cpp.Server.Lines.{
  match_line, parse_whitelist, get_lines, save_lines, get_lines-save_lines,
}
use zookeeper_cpp.Server.Ordered.{insert}

-- Whether `find` gives the place 0.
starts_with : Bytes → Bytes → Bool
starts_with [] s = true
starts_with (c ∷ cs) [] = false
starts_with (c ∷ cs) (x ∷ xs) = c == x && starts_with cs xs

-- The branches of the loop's chain of tests of the name.
pub data Key : Type 0 where
  client_port data_dir tick_time init_limit sync_limit leader_serves whitelist server unknown : Key

unfoldable pub key_of : Bytes → Key
unfolding starts_with
key_of name =
    if equal name (codes "clientPort")
    then client_port
    else if equal name (codes "dataDir")
    then data_dir
    else if equal name (codes "tickTime")
    then tick_time
    else if equal name (codes "initLimit")
    then init_limit
    else if equal name (codes "syncLimit")
    then sync_limit
    else if equal name (codes "leaderServes")
    then leader_serves
    else if equal name (codes "4lw.commands.whitelist")
    then whitelist
    else if starts_with (codes "server.") name
    then server
    else unknown

-- What each branch does with the name and data of the line.
unfoldable pub load_setting : ℕ → Key → Bytes → Bytes → Configuration → Result Configuration
load_setting line_no client_port name contents out =
    ok (record out { client_port = on_line line_no (to_word 16 (atol contents)) })
load_setting line_no data_dir name contents out =
    ok (record out { data_directory = on_line line_no contents })
load_setting line_no tick_time name contents out =
    ok (record out { tick_time = on_line line_no (atol contents) })
load_setting line_no init_limit name contents out =
    ok (record out { init_limit = on_line line_no (to_word 64 (atol contents)) })
load_setting line_no sync_limit name contents out =
    ok (record out { sync_limit = on_line line_no (to_word 64 (atol contents)) })
load_setting line_no leader_serves name contents out =
    ok (record out { leader_serves = on_line line_no (equal contents (codes "yes")) })
load_setting line_no whitelist name contents out =
    ok (record out { four_letter_word_whitelist = on_line line_no (parse_whitelist contents) })
load_setting line_no server name contents out =
    let id : ℕ = to_word 64 (atol (drop 7 name)) in
    ensure_valid id
    >> ok (record out { server_paths = insert ltb id (on_line line_no contents) out.server_paths })
load_setting line_no unknown name contents out = ok (record out {
  unknown_settings = insert less_text name (on_line line_no contents) out.unknown_settings;
})

load_match : ℕ → Option (Bytes × Bytes) → Configuration → Result Configuration
unfolding load_setting key_of
load_match line_no none out = ok out
load_match line_no (some (name, contents)) out =
    load_setting line_no (key_of name) name contents out

-- One round of the loop of `from_lines`.
unfoldable pub load_line : ℕ → Bytes → Configuration → Result Configuration
unfolding load_match
load_line line_no [] out = ok out
load_line line_no (c ∷ cs) out =
    if c == b'#' then ok out else load_match line_no (match_line (c ∷ cs)) out

unfoldable pub load_lines : ℕ → List Bytes → Configuration → Result Configuration
unfolding load_line
load_lines line_no [] out = ok out
load_lines line_no (line ∷ lines) out =
    load_line line_no line out >>= load_lines (suc line_no) lines

-- `from_lines`.
unfoldable pub from_lines : List Bytes → Result Configuration
unfolding load_lines
from_lines lines = load_lines 0 lines empty >>= λ out. ok (record out { lines = lines })

-- `from_stream`, for what the stream reads to its end.
unfoldable pub from_stream : Option Bytes → Result Configuration
from_stream none = err (runtime_error (codes "Loading configuration did not reach EOF"))
from_stream (some text) = from_lines (get_lines text)

unfoldable pub from_file : Bytes → Option Bytes → Result Configuration
from_file filename contents =
    from_stream contents >>= λ out. ok (record out { source_file = some filename })

unfoldable pub from_string : Bytes → Result Configuration
from_string value = from_stream (some value)

-- `add_setting`.
unfoldable pub add_setting : Bytes → Bytes → Configuration → Result Configuration
add_setting key value c = from_lines (c.lines ++ (key ++ b'=' ∷ value) ∷ []) >>= λ out.
    ok (record out { source_file = c.source_file })

-- `save`, as the text that is written.
unfoldable pub save : Configuration → Bytes
save c = save_lines c.lines

-- `save_file`, for whether the stream took the text.
unfoldable pub save_file : Bytes → Bool → Configuration → Result Configuration
save_file filename written c =
    if written
    then ok (record c { source_file = some filename })
    else err (runtime_error (codes "Error saving file"))

-- Saving a configuration none of whose lines has a line feed, and loading the text, is loading its lines.
pub from_string-save :
    (c : Configuration)
    → All (IsAll (except b'\n')) c.lines
    → from_string (save c) ≡ from_lines c.lines
unfolding from_string from_stream save
from_string-save c h = ap from_lines (get_lines-save_lines c.lines h)
