-- ===== src/Server/Minimal.antt =====
-- A minimal configuration, saved and loaded again (src/zk/server/configuration.cpp).
use zookeeper_cpp.Base.{
  ℕ, suc, ◌^◌, ◌<◌, ◌≡◌, ◌≢◌, refl, ap, subst, IsAll-intro, ◌∙◌, arith, true, false, List, [], ◌∷◌,
  ◌++◌, append-nil, some, ◌==◌, Bytes, codes, equal, decimal, decimal-IsDigits, decimal-ne-nil,
  atol, atol-decimal, to_word, IsAll, IsAll-mono, except,
}
use zookeeper_cpp.Error.Result.{Result, ok, ◌>>=◌}
use zookeeper_cpp.Server.Configuration.{
  Configuration, on_line, empty, make_minimal, set_setting, set_client_port, set_data_directory,
  set_init_limit, set_sync_limit, is_minimal, get_init_limit, get_sync_limit,
}
use zookeeper_cpp.Server.Lines.{match_line, match_line-setting, is_data}
use zookeeper_cpp.Server.Load.{load_line, load_lines, from_lines, load_setting, key_of}

-- A line with a name and data is loaded by the branch for its name.
load_line-setting :
    (i n : ℕ) (ns contents : Bytes) (c : Configuration)
    → (n == b'#') ≡ false
    → contents ≢ []
    → IsAll (except b'=') (n ∷ ns)
    → IsAll is_data contents
    → load_line i (n ∷ ns ++ b'=' ∷ contents) c
      ≡ load_setting i (key_of (n ∷ ns)) (n ∷ ns) contents c
unfolding load_line
load_line-setting i n ns contents c h ne hn hd =
    let e : match_line (n ∷ ns ++ b'=' ∷ contents) ≡ some (n ∷ ns, contents) =
      subst (λ t. match_line (n ∷ ns ++ b'=' ∷ t) ≡ some (n ∷ ns, contents)) (append-nil contents)
        (match_line-setting (n ∷ ns) contents [] (λ x. cc x) ne hn hd tt) in
    rw (h, e) refl

digits_data : (n : ℕ) → IsAll is_data (decimal n)
digits_data n = IsAll-mono (decimal n) (λ c h. ground (arith, h)) (decimal-IsDigits n)

port_back : (port : ℕ) → port < 2 ^ 16 → to_word 16 (atol (decimal port)) ≡ port
unfolding to_word
port_back port lt = rw (atol-decimal port) (omega arith)

limit_back : (limit : ℕ) → limit < 2 ^ 64 → to_word 64 (atol (decimal limit)) ≡ limit
unfolding to_word
limit_back limit lt = rw (atol-decimal limit) (omega arith)

load_lines-cons :
    (i : ℕ) (line : Bytes) (lines : List Bytes) (c d : Configuration)
    → load_line i line c ≡ ok d
    → load_lines i (line ∷ lines) c ≡ load_lines (suc i) lines d
unfolding load_lines
load_lines-cons i line lines c d e = rw e refl

data_directory_line :
    (i : ℕ) (dir : Bytes) (c : Configuration)
    → dir ≢ []
    → IsAll is_data dir
    → load_line i (codes "dataDir=" ++ dir) c ≡ ok (record c { data_directory = on_line i dir })
unfolding load_setting key_of equal
data_directory_line i dir c ne hd =
    load_line-setting i b'd' (codes "ataDir") dir c refl ne
      (IsAll-intro (except b'=') (codes "dataDir") refl) hd

client_port_line :
    (i port : ℕ) (c : Configuration)
    → port < 2 ^ 16
    → load_line i (codes "clientPort=" ++ decimal port) c
      ≡ ok (record c { client_port = on_line i port })
unfolding load_setting key_of equal
client_port_line i port c lt =
    load_line-setting i b'c' (codes "lientPort") (decimal port) c refl (decimal-ne-nil port)
      (IsAll-intro (except b'=') (codes "clientPort") refl) (digits_data port)
    ∙ ap (λ x. ok (record c { client_port = on_line i x })) (port_back port lt)

init_limit_line :
    (i limit : ℕ) (c : Configuration)
    → limit < 2 ^ 64
    → load_line i (codes "initLimit=" ++ decimal limit) c
      ≡ ok (record c { init_limit = on_line i limit })
unfolding load_setting key_of equal
init_limit_line i limit c lt =
    load_line-setting i b'i' (codes "nitLimit") (decimal limit) c refl (decimal-ne-nil limit)
      (IsAll-intro (except b'=') (codes "initLimit") refl) (digits_data limit)
    ∙ ap (λ x. ok (record c { init_limit = on_line i x })) (limit_back limit lt)

sync_limit_line :
    (i limit : ℕ) (c : Configuration)
    → limit < 2 ^ 64
    → load_line i (codes "syncLimit=" ++ decimal limit) c
      ≡ ok (record c { sync_limit = on_line i limit })
unfolding load_setting key_of equal
sync_limit_line i limit c lt =
    load_line-setting i b's' (codes "yncLimit") (decimal limit) c refl (decimal-ne-nil limit)
      (IsAll-intro (except b'=') (codes "syncLimit") refl) (digits_data limit)
    ∙ ap (λ x. ok (record c { sync_limit = on_line i x })) (limit_back limit lt)

-- The configuration that `make_minimal` makes for a data directory whose text is data and a port of 16
-- bits is minimal, and loading its lines gives the same configuration again, settings, line numbers and
-- lines.
pub make_minimal-from_lines :
    (dir : Bytes) (port : ℕ)
    → dir ≢ []
    → IsAll is_data dir
    → port < 2 ^ 16
    → (is_minimal (make_minimal dir port) ≡ true)
      × (from_lines (make_minimal dir port).lines ≡ ok (make_minimal dir port))
unfolding make_minimal set_client_port set_data_directory set_init_limit set_sync_limit set_setting
    is_minimal from_lines load_lines get_init_limit get_sync_limit
make_minimal-from_lines dir port ne hd lt =
    let port_text : Bytes = codes "clientPort=" ++ decimal port in
    let init_text : Bytes = codes "initLimit=" ++ decimal 10 in
    let sync_text : Bytes = codes "syncLimit=" ++ decimal 5 in
    let c1 : Configuration = record empty { data_directory = on_line 0 dir } in
    let c2 : Configuration = record c1 { client_port = on_line 1 port } in
    let c3 : Configuration = record c2 { init_limit = on_line 2 10 } in
    let c4 : Configuration = record c3 { sync_limit = on_line 3 5 } in
    let loads : load_lines 0 (make_minimal dir port).lines empty ≡ ok c4 =
      load_lines-cons 0 (codes "dataDir=" ++ dir) (port_text ∷ init_text ∷ sync_text ∷ []) empty c1
        (data_directory_line 0 dir empty ne hd)
      ∙ load_lines-cons 1 port_text (init_text ∷ sync_text ∷ []) c1 c2
          (client_port_line 1 port c1 lt)
      ∙ load_lines-cons 2 init_text (sync_text ∷ []) c2 c3 (init_limit_line 2 10 c2 (omega arith))
      ∙ load_lines-cons 3 sync_text [] c3 c4 (sync_limit_line 3 5 c3 (omega arith)) in
    (
      refl,
      ap
          (λ (m : Result Configuration). m >>= λ (out : Configuration).
            ok (record out { lines = (make_minimal dir port).lines }))
          loads,
    )
