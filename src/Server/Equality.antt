-- ===== src/Server/Equality.antt =====
-- `operator==` of two configurations (src/zk/server/configuration.cpp). It compares the values that the
-- accessors give and the entries of the maps, and no lines; a comparison with itself gives what the
-- other tests give.
use zookeeper_cpp.Base.{
  Bool, true, false, ◌&&◌, List, [], ◌∷◌, Option, none, some, ◌==◌, ◌==ℤ◌, Bytes, equal, length,
  ◌≡◌, refl, ◌↔◌, arith, ==_iff, ==ℤ_iff, equal_iff,
}
use zookeeper_cpp.Server.Configuration.{
  Configuration, Setting, get_client_port, get_tick_time, get_init_limit, get_sync_limit,
  get_leader_serves, get_four_letter_word_whitelist, servers, unknown_settings, values,
}

abbrev pub equal_option : Option Bytes → Option Bytes → Bool
equal_option none none = true
equal_option (some a) (some b) = equal a b
equal_option _ _ = false

abbrev pub equal_bool : Bool → Bool → Bool
equal_bool true b = b
equal_bool false true = false
equal_bool false false = true

-- `operator==` of two sets.
abbrev pub equal_words : List Bytes → List Bytes → Bool
equal_words [] [] = true
equal_words (a ∷ ws) (b ∷ bs) = equal a b && equal_words ws bs
equal_words _ _ = false

module _ {K : Type 0} (equal_key : K → K → Bool) where
  -- Whether `std::mismatch` of the entries goes to the end of the first map.
  abbrev pub no_mismatch : List (K × Setting Bytes) → List (K × Setting Bytes) → Bool
  no_mismatch [] _ = true
  no_mismatch (_ ∷ _) [] = false
  no_mismatch ((k, s) ∷ ps) ((l, t) ∷ qs) =
      equal_key k l && equal_option s.value t.value && no_mismatch ps qs

unfoldable pub configurations_equal : Configuration → Configuration → Bool
configurations_equal lhs rhs =
    get_client_port lhs == get_client_port rhs
    && equal_option lhs.data_directory.value rhs.data_directory.value
    && get_tick_time lhs ==ℤ get_tick_time rhs
    && get_init_limit lhs == get_init_limit rhs
    && get_sync_limit lhs == get_sync_limit rhs
    && equal_bool (get_leader_serves lhs) (get_leader_serves rhs)
    && equal_words (get_four_letter_word_whitelist lhs) (get_four_letter_word_whitelist rhs)
    && (length lhs.server_paths == length rhs.server_paths
        && no_mismatch (λ a b. a == b) lhs.server_paths rhs.server_paths)
    && (length lhs.unknown_settings == length rhs.unknown_settings
        && no_mismatch equal lhs.unknown_settings rhs.unknown_settings)

-- What two configurations have in common exactly if they are equal.
pub record AgreeOn (lhs rhs : Configuration) : Type 0 where
  pub client_port_agree : get_client_port lhs ≡ get_client_port rhs
  pub data_directory_agree : lhs.data_directory.value ≡ rhs.data_directory.value
  pub tick_time_agree : get_tick_time lhs ≡ get_tick_time rhs
  pub init_limit_agree : get_init_limit lhs ≡ get_init_limit rhs
  pub sync_limit_agree : get_sync_limit lhs ≡ get_sync_limit rhs
  pub leader_serves_agree : get_leader_serves lhs ≡ get_leader_serves rhs
  pub whitelist_agree : get_four_letter_word_whitelist lhs ≡ get_four_letter_word_whitelist rhs
  pub servers_agree : servers lhs ≡ servers rhs
  pub unknown_agree : unknown_settings lhs ≡ unknown_settings rhs

equal_option_iff : (a b : Option Bytes) → (equal_option a b ≡ true) ↔ (a ≡ b)
equal_option_iff (some a) (some b) = ground (arith, equal_iff a b)
equal_option_iff none none = ground arith
equal_option_iff none (some b) = ground arith
equal_option_iff (some a) none = ground arith

equal_bool_iff : (a b : Bool) → (equal_bool a b ≡ true) ↔ (a ≡ b)
equal_bool_iff true b = ground arith
equal_bool_iff false true = ground arith
equal_bool_iff false false = ground arith

equal_words_iff : (a b : List Bytes) → (equal_words a b ≡ true) ↔ (a ≡ b)
equal_words_iff [] [] = ground arith
equal_words_iff [] (b ∷ bs) = ground arith
equal_words_iff (a ∷ ws) [] = ground arith
equal_words_iff (a ∷ ws) (b ∷ bs) = ground (arith, equal_iff a b, equal_words_iff ws bs)

no_mismatch_iff :
    {K : Type 0} (equal_key : K → K → Bool) (ps qs : List (K × Setting Bytes))
    → ((k l : K) → (equal_key k l ≡ true) ↔ (k ≡ l))
    → ((length ps == length qs && no_mismatch equal_key ps qs) ≡ true) ↔ (values ps ≡ values qs)
unfolding values
no_mismatch_iff equal_key [] [] eq = ground arith
no_mismatch_iff equal_key [] (q ∷ qs) eq = ground arith
no_mismatch_iff equal_key (p ∷ ps) [] eq = ground arith
no_mismatch_iff equal_key ((k, s) ∷ ps) ((l, t) ∷ qs) eq = ground (
  arith,
  eq k l,
  equal_option_iff s.value t.value,
  no_mismatch_iff equal_key ps qs eq,
  ==_iff (length ps) (length qs),
)

&&_iff : (a b : Bool) → ((a && b) ≡ true) ↔ ((a ≡ true) × (b ≡ true))
&&_iff true b = ((λ e. (refl, e)), λ p. p.1)
&&_iff false b = ((λ e. cc e), λ p. p.0)

-- Two configurations are equal exactly if every accessor gives the same for both: the ports, limits,
-- times and lists with their defaults, the data directory, the servers and the unknown settings.
pub configurations_equal_iff :
    (lhs rhs : Configuration) → (configurations_equal lhs rhs ≡ true) ↔ AgreeOn lhs rhs
unfolding configurations_equal servers unknown_settings
configurations_equal_iff lhs rhs =
    let iff0 = ==_iff (get_client_port lhs) (get_client_port rhs) in
    let iff1 = equal_option_iff lhs.data_directory.value rhs.data_directory.value in
    let iff2 = ==ℤ_iff (get_tick_time lhs) (get_tick_time rhs) in
    let iff3 = ==_iff (get_init_limit lhs) (get_init_limit rhs) in
    let iff4 = ==_iff (get_sync_limit lhs) (get_sync_limit rhs) in
    let iff5 = equal_bool_iff (get_leader_serves lhs) (get_leader_serves rhs) in
    let iff6 =
      equal_words_iff (get_four_letter_word_whitelist lhs) (get_four_letter_word_whitelist rhs) in
    let iff7 = no_mismatch_iff (λ a b. a == b) lhs.server_paths rhs.server_paths ==_iff in
    let iff8 = no_mismatch_iff equal lhs.unknown_settings rhs.unknown_settings equal_iff in
    (
      (λ e.
          let (e8, t8) = (&&_iff _ _).0 e in
          let (e7, t7) = (&&_iff _ _).0 e8 in
          let (e6, t6) = (&&_iff _ _).0 e7 in
          let (e5, t5) = (&&_iff _ _).0 e6 in
          let (e4, t4) = (&&_iff _ _).0 e5 in
          let (e3, t3) = (&&_iff _ _).0 e4 in
          let (e2, t2) = (&&_iff _ _).0 e3 in
          let (e1, t1) = (&&_iff _ _).0 e2 in
          record {
            client_port_agree = iff0.0 e1;
            data_directory_agree = iff1.0 t1;
            tick_time_agree = iff2.0 t2;
            init_limit_agree = iff3.0 t3;
            sync_limit_agree = iff4.0 t4;
            leader_serves_agree = iff5.0 t5;
            whitelist_agree = iff6.0 t6;
            servers_agree = iff7.0 t7;
            unknown_agree = iff8.0 t8;
          }),
      (λ v. (&&_iff _ _).1 (
        (&&_iff _ _).1 (
          (&&_iff _ _).1 (
            (&&_iff _ _).1 (
              (&&_iff _ _).1 (
                (&&_iff _ _).1 (
                  (&&_iff _ _).1 (
                    (&&_iff _ _).1 (iff0.1 v.client_port_agree, iff1.1 v.data_directory_agree),
                    iff2.1 v.tick_time_agree,
                  ),
                  iff3.1 v.init_limit_agree,
                ),
                iff4.1 v.sync_limit_agree,
              ),
              iff5.1 v.leader_serves_agree,
            ),
            iff6.1 v.whitelist_agree,
          ),
          iff7.1 v.servers_agree,
        ),
        iff8.1 v.unknown_agree,
      )),
    )
