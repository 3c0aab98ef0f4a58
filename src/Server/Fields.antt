-- ===== src/Server/Fields.antt =====
-- One field of a configuration replaced (src/zk/server/configuration.hpp), and its lines.
use zookeeper_cpp.Base.{ℕ, ℤ, Bool, List, Bytes}
use zookeeper_cpp.Server.Configuration.{Configuration, Setting}
use zookeeper_cpp.Server.Fits.{FitsIn, AllFit, Fits}

module _ (n : ℕ) (c : Configuration) (lines : List Bytes) (f : Fits n c) where
  pub client_port-Fits :
      (s : Setting ℕ) → FitsIn n s → Fits n (record c { client_port = s; lines = lines })
  client_port-Fits s fits = record {
    client_port_fits = fits;
    data_directory_fits = f.data_directory_fits;
    tick_time_fits = f.tick_time_fits;
    init_limit_fits = f.init_limit_fits;
    sync_limit_fits = f.sync_limit_fits;
    leader_serves_fits = f.leader_serves_fits;
    whitelist_fits = f.whitelist_fits;
    servers_fit = f.servers_fit;
    unknown_fit = f.unknown_fit;
  }

  pub data_directory-Fits :
      (s : Setting Bytes) → FitsIn n s → Fits n (record c { data_directory = s; lines = lines })
  data_directory-Fits s fits = record {
    client_port_fits = f.client_port_fits;
    data_directory_fits = fits;
    tick_time_fits = f.tick_time_fits;
    init_limit_fits = f.init_limit_fits;
    sync_limit_fits = f.sync_limit_fits;
    leader_serves_fits = f.leader_serves_fits;
    whitelist_fits = f.whitelist_fits;
    servers_fit = f.servers_fit;
    unknown_fit = f.unknown_fit;
  }

  pub tick_time-Fits :
      (s : Setting ℤ) → FitsIn n s → Fits n (record c { tick_time = s; lines = lines })
  tick_time-Fits s fits = record {
    client_port_fits = f.client_port_fits;
    data_directory_fits = f.data_directory_fits;
    tick_time_fits = fits;
    init_limit_fits = f.init_limit_fits;
    sync_limit_fits = f.sync_limit_fits;
    leader_serves_fits = f.leader_serves_fits;
    whitelist_fits = f.whitelist_fits;
    servers_fit = f.servers_fit;
    unknown_fit = f.unknown_fit;
  }

  pub init_limit-Fits :
      (s : Setting ℕ) → FitsIn n s → Fits n (record c { init_limit = s; lines = lines })
  init_limit-Fits s fits = record {
    client_port_fits = f.client_port_fits;
    data_directory_fits = f.data_directory_fits;
    tick_time_fits = f.tick_time_fits;
    init_limit_fits = fits;
    sync_limit_fits = f.sync_limit_fits;
    leader_serves_fits = f.leader_serves_fits;
    whitelist_fits = f.whitelist_fits;
    servers_fit = f.servers_fit;
    unknown_fit = f.unknown_fit;
  }

  pub sync_limit-Fits :
      (s : Setting ℕ) → FitsIn n s → Fits n (record c { sync_limit = s; lines = lines })
  sync_limit-Fits s fits = record {
    client_port_fits = f.client_port_fits;
    data_directory_fits = f.data_directory_fits;
    tick_time_fits = f.tick_time_fits;
    init_limit_fits = f.init_limit_fits;
    sync_limit_fits = fits;
    leader_serves_fits = f.leader_serves_fits;
    whitelist_fits = f.whitelist_fits;
    servers_fit = f.servers_fit;
    unknown_fit = f.unknown_fit;
  }

  pub leader_serves-Fits :
      (s : Setting Bool) → FitsIn n s → Fits n (record c { leader_serves = s; lines = lines })
  leader_serves-Fits s fits = record {
    client_port_fits = f.client_port_fits;
    data_directory_fits = f.data_directory_fits;
    tick_time_fits = f.tick_time_fits;
    init_limit_fits = f.init_limit_fits;
    sync_limit_fits = f.sync_limit_fits;
    leader_serves_fits = fits;
    whitelist_fits = f.whitelist_fits;
    servers_fit = f.servers_fit;
    unknown_fit = f.unknown_fit;
  }

  pub four_letter_word_whitelist-Fits :
      (s : Setting (List Bytes))
      → FitsIn n s
      → Fits n (record c { four_letter_word_whitelist = s; lines = lines })
  four_letter_word_whitelist-Fits s fits = record {
    client_port_fits = f.client_port_fits;
    data_directory_fits = f.data_directory_fits;
    tick_time_fits = f.tick_time_fits;
    init_limit_fits = f.init_limit_fits;
    sync_limit_fits = f.sync_limit_fits;
    leader_serves_fits = f.leader_serves_fits;
    whitelist_fits = fits;
    servers_fit = f.servers_fit;
    unknown_fit = f.unknown_fit;
  }

  pub server_paths-Fits :
      (s : List (ℕ × Setting Bytes))
      → AllFit n s
      → Fits n (record c { server_paths = s; lines = lines })
  server_paths-Fits s fits = record {
    client_port_fits = f.client_port_fits;
    data_directory_fits = f.data_directory_fits;
    tick_time_fits = f.tick_time_fits;
    init_limit_fits = f.init_limit_fits;
    sync_limit_fits = f.sync_limit_fits;
    leader_serves_fits = f.leader_serves_fits;
    whitelist_fits = f.whitelist_fits;
    servers_fit = fits;
    unknown_fit = f.unknown_fit;
  }

  pub unknown_settings-Fits :
      (s : List (Bytes × Setting Bytes))
      → AllFit n s
      → Fits n (record c { unknown_settings = s; lines = lines })
  unknown_settings-Fits s fits = record {
    client_port_fits = f.client_port_fits;
    data_directory_fits = f.data_directory_fits;
    tick_time_fits = f.tick_time_fits;
    init_limit_fits = f.init_limit_fits;
    sync_limit_fits = f.sync_limit_fits;
    leader_serves_fits = f.leader_serves_fits;
    whitelist_fits = f.whitelist_fits;
    servers_fit = f.servers_fit;
    unknown_fit = fits;
  }
