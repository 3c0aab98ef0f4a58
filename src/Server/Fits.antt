-- ===== src/Server/Fits.antt =====
-- Every setting's line is a line of the configuration (src/zk/server/configuration.cpp), so that `set`
-- writes inside of the vector.
use zookeeper_cpp.Base.{
  ℕ, ◌+◌, ◌<◌, ◌≤◌, ◌≡◌, refl, subst, ◌∙◌, arith, ◌⊎◌, inl, inr, Bool, List, [], ◌∷◌, ◌++◌, Option,
  none, some, Bool-cases, Bytes, length, length-append, length-set, set, get_elem?,
  get_elem?-set_self, get_elem?-concat_self, some_inj,
}
use zookeeper_cpp.Server.Configuration.{
  Configuration, Setting, on_line, set_setting, set_line, target_line,
}
use zookeeper_cpp.Server.Ordered.{insert}

abbrev pub FitsIn {ℓ} : {T : Type ℓ} → ℕ → Setting T → Type 0
FitsIn n s = (l : ℕ) → s.line ≡ some l → l < n

abbrev pub AllFit {ℓ κ} : {K : Type ℓ} {T : Type κ} → ℕ → List (K × Setting T) → Type 0
AllFit n [] = Unit
AllFit n ((k, s) ∷ ps) = FitsIn n s × AllFit n ps

pub record Fits (n : ℕ) (c : Configuration) : Type 0 where
  pub client_port_fits : FitsIn n c.client_port
  pub data_directory_fits : FitsIn n c.data_directory
  pub tick_time_fits : FitsIn n c.tick_time
  pub init_limit_fits : FitsIn n c.init_limit
  pub sync_limit_fits : FitsIn n c.sync_limit
  pub leader_serves_fits : FitsIn n c.leader_serves
  pub whitelist_fits : FitsIn n c.four_letter_word_whitelist
  pub servers_fit : AllFit n c.server_paths
  pub unknown_fit : AllFit n c.unknown_settings

pub FitsIn-mono {ℓ} : {T : Type ℓ} {n m : ℕ} (s : Setting T) → n ≤ m → FitsIn n s → FitsIn m s
FitsIn-mono s le f l e = omega (arith, f l e)

pub AllFit-mono {ℓ κ} :
    {K : Type ℓ} {T : Type κ} {n m : ℕ} (ps : List (K × Setting T))
    → n ≤ m
    → AllFit n ps
    → AllFit m ps
AllFit-mono [] le f = tt
AllFit-mono ((k, s) ∷ ps) le f = (FitsIn-mono s le f.0, AllFit-mono ps le f.1)

pub Fits-mono : {n m : ℕ} (c : Configuration) → n ≤ m → Fits n c → Fits m c
Fits-mono c le f = record {
  client_port_fits = FitsIn-mono c.client_port le f.client_port_fits;
  data_directory_fits = FitsIn-mono c.data_directory le f.data_directory_fits;
  tick_time_fits = FitsIn-mono c.tick_time le f.tick_time_fits;
  init_limit_fits = FitsIn-mono c.init_limit le f.init_limit_fits;
  sync_limit_fits = FitsIn-mono c.sync_limit le f.sync_limit_fits;
  leader_serves_fits = FitsIn-mono c.leader_serves le f.leader_serves_fits;
  whitelist_fits = FitsIn-mono c.four_letter_word_whitelist le f.whitelist_fits;
  servers_fit = AllFit-mono c.server_paths le f.servers_fit;
  unknown_fit = AllFit-mono c.unknown_settings le f.unknown_fit;
}

pub insert-AllFit {ℓ κ} :
    {K : Type ℓ} {T : Type κ} {n : ℕ} (less : K → K → Bool) (k : K) (s : Setting T)
    (ps : List (K × Setting T))
    → FitsIn n s
    → AllFit n ps
    → AllFit n (insert less k s ps)
unfolding insert
insert-AllFit less k s [] f g = (f, tt)
insert-AllFit less k s ((l, t) ∷ ps) f g = elim (Bool-cases (less k l)) [
  | inl before ↦ rw before (f, g)
  | inr after ↦ elim (Bool-cases (less l k)) [
    | inl later ↦ rw (after, later) (g.0, insert-AllFit less k s ps f g.1)
    | inr same ↦ rw (after, same) g
  ]
]

pub on_line-FitsIn {ℓ} : {T : Type ℓ} (n l : ℕ) (x : T) → l < n → FitsIn n (on_line l x)
on_line-FitsIn n l x lt m e = subst (λ i. i < n) (some_inj e) lt

set_line-FitsIn {ℓ} :
    {T : Type ℓ} (target : Setting T) (value : Option T) (text : Bytes) (lines : List Bytes)
    (line : Option ℕ)
    → target.line ≡ line
    → FitsIn (length lines) target
    → FitsIn
        (length (set_line target value text lines line).1)
        (set_line target value text lines line).0
      × (length lines ≤ length (set_line target value text lines line).1)
unfolding set_line
set_line-FitsIn target none text lines none e f = (f, omega arith)
set_line-FitsIn target (some x) text lines none e f =
    let one : length (lines ++ text ∷ []) ≡ length lines + 1 = length-append lines (text ∷ []) in
    (on_line-FitsIn _ (length lines) x (omega (arith, one)), omega (arith, one))
set_line-FitsIn target value text lines (some l) e f =
    let same : length (set lines l text) ≡ length lines = length-set lines l text in
    ((λ m d. omega (arith, same, f m (e ∙ d))), omega (arith, same))

-- What `set` gives for a setting whose line is a line: its line is one of the lines after it, and there
-- are no fewer.
pub set_setting-FitsIn {ℓ} :
    {T : Type ℓ} (target : Setting T) (value : Option T) (key : Bytes) (encode : T → Bytes)
    (lines : List Bytes)
    → FitsIn (length lines) target
    → FitsIn
        (length (set_setting target value key encode lines).1)
        (set_setting target value key encode lines).0
      × (length lines ≤ length (set_setting target value key encode lines).1)
unfolding set_setting
set_setting-FitsIn target value key encode lines f =
    set_line-FitsIn target value (target_line key encode value) lines target.line refl f

-- A setting that `set` has given a value: it has that value and a line, which is a line of before that
-- is replaced, or a new one behind them all; every other line is as before.
abbrev pub HasValue {ℓ} : {T : Type ℓ} → Setting T → T → Bytes → List Bytes → List Bytes → Type ℓ
HasValue s x text lines lines' =
    (s.value ≡ some x)
    × ((l : ℕ) × (s.line ≡ some l)
        × (get_elem? lines' l ≡ some text)
        × (((l < length lines) × (lines' ≡ set lines l text))
            ⊎ ((l ≡ length lines) × (lines' ≡ lines ++ text ∷ []))))

set_line-HasValue {ℓ} :
    {T : Type ℓ} (target : Setting T) (x : T) (text : Bytes) (lines : List Bytes) (line : Option ℕ)
    → target.line ≡ line
    → FitsIn (length lines) target
    → HasValue
        (set_line target (some x) text lines line).0
        x
        text
        lines
        (set_line target (some x) text lines line).1
unfolding set_line
set_line-HasValue target x text lines none e f =
    (refl, (length lines, refl, get_elem?-concat_self lines text, inr (refl, refl)))
set_line-HasValue target x text lines (some l) e f =
    (refl, (l, refl, get_elem?-set_self lines l text (f l e), inl (f l e, refl)))

pub set_setting-HasValue {ℓ} :
    {T : Type ℓ} (target : Setting T) (x : T) (key : Bytes) (encode : T → Bytes)
    (lines : List Bytes)
    → FitsIn (length lines) target
    → HasValue
        (set_setting target (some x) key encode lines).0
        x
        (key ++ b'=' ∷ encode x)
        lines
        (set_setting target (some x) key encode lines).1
unfolding set_setting
set_setting-HasValue target x key encode lines f =
    set_line-HasValue target x (key ++ b'=' ∷ encode x) lines target.line refl f
