-- ===== src/Server/Group/Ensemble.antt =====
-- What `make_ensemble` gives, where the file system does what it is asked to.
use zookeeper_cpp.Base.{
  ℕ, zero, suc, ◌+◌, ◌<◌, true, [], ◌++◌, some, ◌≡◌, refl, sym, subst, ap, Bytes, codes, All, arith,
  join, length,
}
use zookeeper_cpp.Error.Result.{ok}
use zookeeper_cpp.Server.Configuration.{Configuration, set_client_port, set_data_directory}
use zookeeper_cpp.Server.Group.{
  Servers, Files, ServerGroup, make_info, make_ensemble, make_ensemble_in, make_group, base_port_of,
  create_directory,
}
use zookeeper_cpp.Server.Group.Layout.{laid_out, make_infos_lem, IsAscending}
use zookeeper_cpp.Server.Group.Written.{
  Works, AreWritten, hosts_of, HasNoServers, write_servers-AreWritten,
}

-- What an ensemble is made of: settings with a directory and no servers, a size that has ids for its
-- servers, and a file system that works.
pub record IsReady (fs : Files) (size : ℕ) (c : Configuration) : Type 0 where
  pub works : Works fs
  pub directory : Bytes
  pub directory_is : c.data_directory.value ≡ some directory
  pub no_servers : c.server_paths ≡ []
  pub size_pos : 0 < size
  pub size_lt : size < 256

module _ (c : Configuration) (directory : Bytes) where
  laid_out-HasNoServers :
      (n idx port : ℕ) → c.server_paths ≡ [] → All HasNoServers (laid_out c directory n idx port)
  unfolding laid_out make_info set_data_directory set_client_port
  laid_out-HasNoServers zero idx port e = tt
  laid_out-HasNoServers (suc n) idx port e = (e, laid_out-HasNoServers n (idx + 1) _ e)

  pub laid_out-IsAscending :
      (n idx port : ℕ) → idx + n < 256 → IsAscending idx (laid_out c directory n idx port)
  unfolding laid_out
  laid_out-IsAscending zero idx port h = tt
  laid_out-IsAscending (suc n) idx port h =
      (omega arith, omega arith, laid_out-IsAscending n (idx + 1) _ (omega arith))

  pub length-laid_out : (n idx port : ℕ) → length (laid_out c directory n idx port) ≡ n
  unfolding laid_out
  length-laid_out zero idx port = refl
  length-laid_out (suc n) idx port = ap suc (length-laid_out n (idx + 1) _)

-- The written group as it was laid out.
pub make_ensemble-AreWritten :
    (fs : Files) (size : ℕ) (c : Configuration) (r : IsReady fs size c)
    → (g : ServerGroup) × (make_ensemble fs size c ≡ ok g)
      × (g.conn_string
          ≡ codes "zk://"
            ++ (join (codes ",") (hosts_of (laid_out c r.directory size 0 (base_port_of c)))
                ++ codes "/"))
      × AreWritten
          (laid_out c r.directory size 0 (base_port_of c))
          (laid_out c r.directory size 0 (base_port_of c))
          g.servers
unfolding make_ensemble make_ensemble_in make_group create_directory
make_ensemble-AreWritten fs size c r =
    let group : Servers = laid_out c r.directory size 0 (base_port_of c) in
    let (g, written, text, are) =
      write_servers-AreWritten fs r.works group
        (laid_out-IsAscending c r.directory size 0 _ (omega (arith, r.size_lt))) group true
        (codes "zk://") (laid_out-HasNoServers c r.directory size 0 _ r.no_servers) in
    (
      record g { conn_string = g.conn_string ++ codes "/" },
      subst
          (λ o.
            make_ensemble_in fs size c o
            ≡ ok (record g { conn_string = g.conn_string ++ codes "/" }))
          (sym r.directory_is)
          (rw
            (
              make_infos_lem c r.directory size 0 (base_port_of c) [] (omega (arith, r.size_lt)) tt,
              r.works.makes r.directory,
              written,
            )
            refl),
      rw text refl,
      are,
    )
