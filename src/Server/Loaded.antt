-- ===== src/Server/Loaded.antt =====
-- Loading keeps every setting on a line that is there (src/zk/server/configuration.cpp).
use zookeeper_cpp.Base.{
  ℕ, suc, ◌+◌, ◌<◌, ◌≤◌, ◌≡◌, subst, arith, inl, inr, List, [], ◌∷◌, Option, Option-cases,
  Bool-cases, Bytes, codes, length, none-some, ltb, drop, equal, ◌==◌, to_word, atol,
}
use zookeeper_cpp.Error.Result.{ok, >>=-eq-ok, ok_inj}
use zookeeper_cpp.Acl.Rule.{less_text}
use zookeeper_cpp.Server.Configuration.{Configuration, empty, ensure_valid}
use zookeeper_cpp.Server.Fits.{Fits, insert-AllFit, on_line-FitsIn}
use zookeeper_cpp.Server.Fields.{
  client_port-Fits, data_directory-Fits, tick_time-Fits, init_limit-Fits, sync_limit-Fits,
  leader_serves-Fits, four_letter_word_whitelist-Fits, server_paths-Fits, unknown_settings-Fits,
}
use zookeeper_cpp.Server.Lines.{match_line, parse_whitelist}
use zookeeper_cpp.Server.Load.{
  load_line, load_lines, from_lines, load_setting, key_of, Key, client_port, data_dir, tick_time,
  init_limit, sync_limit, leader_serves, whitelist, server, unknown,
}

abbrev pub IsValid : Configuration → Type 0
IsValid c = Fits (length c.lines) c

load_setting-Fits :
    (n i : ℕ) (key : Key) (name contents : Bytes) (c d : Configuration)
    → i < n
    → Fits n c
    → load_setting i key name contents c ≡ ok d
    → Fits n d
unfolding load_setting
load_setting-Fits n i client_port name contents c d lt f e =
    subst (Fits n) (ok_inj e)
      (client_port-Fits n c c.lines f _ (on_line-FitsIn n i (to_word 16 (atol contents)) lt))
load_setting-Fits n i data_dir name contents c d lt f e =
    subst (Fits n) (ok_inj e) (data_directory-Fits n c c.lines f _ (on_line-FitsIn n i contents lt))
load_setting-Fits n i tick_time name contents c d lt f e =
    subst (Fits n) (ok_inj e)
      (tick_time-Fits n c c.lines f _ (on_line-FitsIn n i (atol contents) lt))
load_setting-Fits n i init_limit name contents c d lt f e =
    subst (Fits n) (ok_inj e)
      (init_limit-Fits n c c.lines f _ (on_line-FitsIn n i (to_word 64 (atol contents)) lt))
load_setting-Fits n i sync_limit name contents c d lt f e =
    subst (Fits n) (ok_inj e)
      (sync_limit-Fits n c c.lines f _ (on_line-FitsIn n i (to_word 64 (atol contents)) lt))
load_setting-Fits n i leader_serves name contents c d lt f e =
    subst (Fits n) (ok_inj e)
      (leader_serves-Fits n c c.lines f _ (on_line-FitsIn n i (equal contents (codes "yes")) lt))
load_setting-Fits n i whitelist name contents c d lt f e = subst (Fits n) (ok_inj e) (
    four_letter_word_whitelist-Fits n c c.lines f _
      (on_line-FitsIn n i (parse_whitelist contents) lt))
load_setting-Fits n i server name contents c d lt f e =
    let (_, valid, rest) = >>=-eq-ok (ensure_valid (to_word 64 (atol (drop 7 name)))) _ e in
    subst (Fits n) (ok_inj rest) (
      server_paths-Fits n c c.lines f _
        (insert-AllFit ltb _ _ c.server_paths (on_line-FitsIn n i contents lt) f.servers_fit))
load_setting-Fits n i unknown name contents c d lt f e = subst (Fits n) (ok_inj e) (
    unknown_settings-Fits n c c.lines f _ (
      insert-AllFit less_text name _ c.unknown_settings (on_line-FitsIn n i contents lt)
        f.unknown_fit))

load_line-Fits :
    (n line_no : ℕ) (line : Bytes) (c d : Configuration)
    → line_no < n
    → Fits n c
    → load_line line_no line c ≡ ok d
    → Fits n d
unfolding load_line
load_line-Fits n line_no [] c d lt f e = subst (Fits n) (ok_inj e) f
load_line-Fits n line_no (x ∷ xs) c d lt f e = elim (Bool-cases (x == b'#')) [
  | inl comment ↦ subst (Fits n) (ok_inj (rw comment at e)) f
  | inr other ↦ elim (Option-cases (match_line (x ∷ xs))) [
    | inl unmatched ↦ subst (Fits n) (ok_inj (rw (other, unmatched) at e)) f
    | inr ((name, contents), matched) ↦
        load_setting-Fits n line_no (key_of name) name contents c d lt f (rw (other, matched) at e)
  ]
]

load_lines-Fits :
    (n line_no : ℕ) (lines : List Bytes) (c d : Configuration)
    → line_no + length lines ≤ n
    → Fits n c
    → load_lines line_no lines c ≡ ok d
    → Fits n d
unfolding load_lines
load_lines-Fits n line_no [] c d le f e = subst (Fits n) (ok_inj e) f
load_lines-Fits n line_no (line ∷ lines) c d le f e =
    let (mid, first, rest) =
      >>=-eq-ok (load_line line_no line c) (load_lines (suc line_no) lines) e in
    load_lines-Fits n (suc line_no) lines mid d (omega arith)
      (load_line-Fits n line_no line c mid (omega arith) f first) rest

Fits-lines :
    (n : ℕ) (c : Configuration) (lines : List Bytes)
    → Fits n c
    → Fits n (record c { lines = lines })
Fits-lines n c lines f = client_port-Fits n c lines f c.client_port f.client_port_fits

pub Fits-source :
    (n : ℕ) (c : Configuration) (source_file : Option Bytes)
    → Fits n c
    → Fits n (record c { source_file = source_file })
Fits-source n c source_file f = record {
  client_port_fits = f.client_port_fits;
  data_directory_fits = f.data_directory_fits;
  tick_time_fits = f.tick_time_fits;
  init_limit_fits = f.init_limit_fits;
  sync_limit_fits = f.sync_limit_fits;
  leader_serves_fits = f.leader_serves_fits;
  whitelist_fits = f.whitelist_fits;
  servers_fit = f.servers_fit;
  unknown_fit = f.unknown_fit;
}

pub empty-Fits : (n : ℕ) → Fits n empty
empty-Fits n = record {
  client_port_fits = λ l e. absurd (none-some e);
  data_directory_fits = λ l e. absurd (none-some e);
  tick_time_fits = λ l e. absurd (none-some e);
  init_limit_fits = λ l e. absurd (none-some e);
  sync_limit_fits = λ l e. absurd (none-some e);
  leader_serves_fits = λ l e. absurd (none-some e);
  whitelist_fits = λ l e. absurd (none-some e);
  servers_fit = tt;
  unknown_fit = tt;
}

pub from_lines-IsValid :
    (lines : List Bytes) (c : Configuration) → from_lines lines ≡ ok c → IsValid c
unfolding from_lines
from_lines-IsValid lines c e =
    let (mid, loaded, rest) = >>=-eq-ok (load_lines 0 lines empty) _ e in
    subst IsValid (ok_inj rest) (
      Fits-lines _ mid lines
        (load_lines-Fits (length lines) 0 lines empty mid (omega arith) (empty-Fits _) loaded))
